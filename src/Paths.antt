-- ===== src/Paths.antt =====
-- src/infrastructure/runtime/paths.py: where a session may read and write.
-- What pathlib, tempfile and the file system do is a parameter: how a text reads as a path, and what
-- `Path.resolve` makes of one (symbolic links and `..` included).
pub mod Isolation
mod Tests
use text.Mathlib.Text.{◌==◌, starts_with}
use Prim.Native.String.{◌++◌ as str_append}
use Prim.Native.String
use project_kernel_runtime.Base.{
  ℕ, zero, suc, Bool, true, false, ◌&&◌, ◌||◌, Option, none, some, String, List, [], ◌∷◌, ◌++◌,
  if◌then◌else◌,
}

pub record FilePath : Type 0 where
  pub is_absolute : Bool
  pub parts : List String

-- What the code takes from its environment: `Path(text)`, `Path.resolve()`, the root of all
-- workspaces, and the resolved system directory for temporary files.
pub record FileSystem : Type 0 where
  pub parse : String → FilePath
  pub resolve : FilePath → FilePath
  pub workspace_root : FilePath
  pub temp_root : FilePath

pub data Resolution : Type 0 where
  resolved : FilePath → Resolution
  denied : FilePath → Resolution

-- `text[:n]` and `text[n:]`, by characters.
unfoldable pub take_chars : ℕ → String → String
take_chars zero s = String.[]
take_chars (suc n) String.[] = String.[]
take_chars (suc n) (String.◌∷◌ c s) = String.◌∷◌ c (take_chars n s)

unfoldable pub drop_chars : ℕ → String → String
drop_chars zero s = s
drop_chars (suc n) String.[] = String.[]
drop_chars (suc n) (String.◌∷◌ c s) = drop_chars n s

-- `base / child` for a relative child.
abbrev pub join : FilePath → List String → FilePath
join base parts = record base { parts = base.parts ++ parts }

-- Whether `path.relative_to(base)` succeeds: the parts of `base` begin those of `path`.
unfoldable pub is_prefix : List String → List String → Bool
is_prefix [] ys = true
is_prefix (x ∷ xs) [] = false
is_prefix (x ∷ xs) (y ∷ ys) = x == y && is_prefix xs ys

abbrev pub relative_to : FilePath → FilePath → Bool
relative_to path base = is_prefix base.parts path.parts

-- `str(path or ".")`
unfoldable pub text_of : Option String → String
text_of none = "."
text_of (some path) = if path == "" then "." else path

module _ (fs : FileSystem) where
  -- The identifiers are cut to eight characters.
  unfoldable pub get_session_root : String → String → FilePath
  unfolding take_chars
  get_session_root tenant_id session_id =
      join fs.workspace_root
        (str_append "t_" (take_chars 8 tenant_id) ∷ str_append "s_" (take_chars 8 session_id) ∷ [])

  -- `not session_id` holds of none and of the empty text.
  unfoldable pub root_of : Option String → String → FilePath
  unfolding get_session_root
  root_of none tenant_id = fs.resolve fs.workspace_root
  root_of (some session_id) tenant_id =
      if session_id == ""
      then fs.resolve fs.workspace_root
      else fs.resolve (get_session_root tenant_id session_id)

  unfoldable pub candidate_of : String → FilePath
  candidate_of path_str =
      if starts_with path_str "/workspace/"
      then fs.parse (drop_chars 11 path_str)
      else fs.parse path_str

  unfoldable pub resolve_within : FilePath → FilePath → Resolution
  resolve_within root candidate =
      if candidate.is_absolute
      then (let target = fs.resolve candidate in
          if relative_to target fs.temp_root || relative_to target root
          then resolved target
          else denied target)
      else (let target = fs.resolve (join root candidate.parts) in
          if relative_to target root then resolved target else denied target)

  unfoldable pub resolve_workspace_path : Option String → Option String → String → Resolution
  unfolding root_of text_of candidate_of resolve_within
  resolve_workspace_path path session_id tenant_id =
      let root = root_of session_id tenant_id in
      let path_str = text_of path in
      if path_str == "/" || path_str == "/workspace"
      then resolved root
      else resolve_within root (candidate_of path_str)
