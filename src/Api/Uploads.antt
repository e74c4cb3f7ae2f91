-- ===== src/Api/Uploads.antt =====
-- Where an upload is written and which files are served: src/api/rest/routers/workspace.py.
mod Tests
use text.Mathlib.Text.{◌==◌, starts_with}
use Prim.Native.String.{◌++◌ as str_append}
use Prim.Native.String
use Prim.Native.Char.{code}
use project_kernel_runtime.Base.{
  ℕ, ◌≡◌, refl, sym, ◌==◌ as nat_eq, Bool, true, not, ◌&&◌, ◌||◌, Option, none, some, String, List,
  [], ◌∷◌, ◌++◌, keep, Bool-cases, inl, inr, if◌then◌else◌,
}
use project_kernel_runtime.Base.Texts.{is_in}
use project_kernel_runtime.Paths.{FilePath, FileSystem, join, relative_to, get_session_root}
use project_kernel_runtime.Api.{Reply, reply, refused, raised}

-- `file.filename or "unnamed"`
abbrev pub or_unnamed : Option String → String
or_unnamed none = "unnamed"
or_unnamed (some name) = if name == "" then "unnamed" else name

-- `raw_filename.replace("\\", "/")`
unfoldable pub forward_slashes : String → String
forward_slashes String.[] = ""
forward_slashes (String.◌∷◌ c s) =
    let rest = forward_slashes s in
    if nat_eq (code c) 92 then str_append "/" rest else String.◌∷◌ c rest

-- Two slashes and no third in front are a root of their own to pathlib.
abbrev pub has_double_root : String → Bool
has_double_root s = starts_with s "//" && not (starts_with s "///")

abbrev pub no_dots : List String → List String
no_dots = keep (λ p. not (p == ".."))

-- What the file system says of a path that is to be served.
pub data Entry : Type 0 where
  missing directory file : Entry

abbrev pub served_if_file : String → FilePath → Entry → Reply FilePath
served_if_file error path missing = refused 404 error
served_if_file error path directory = refused 404 error
served_if_file error path file = reply path

module _ (fs : FileSystem) where
  -- `safe_rel_path`: a leading slash is taken away, the parts `..` as well. `none` is the ValueError
  -- of `relative_to("/")` for a path whose root is "//".
  unfoldable pub safe_rel_path : String → Option FilePath
  unfolding forward_slashes
  safe_rel_path raw =
      let path = fs.parse (forward_slashes raw) in
      if starts_with raw "/" && has_double_root (forward_slashes raw)
      then none
      else some (record {
        is_absolute = not (starts_with raw "/") && path.is_absolute;
        parts = no_dots path.parts;
      })

  -- `workspace / safe_rel_path`, where an absolute right side replaces the left.
  abbrev pub under : FilePath → FilePath → FilePath
  under workspace path = if path.is_absolute then path else join workspace path.parts

  abbrev pub under_if_valid : FilePath → Option FilePath → Option FilePath
  under_if_valid workspace none = none
  under_if_valid workspace (some path) = some (under workspace path)

  -- `none` when `safe_rel_path` raises.
  unfoldable pub destination : FilePath → Option String → Option FilePath
  unfolding safe_rel_path
  destination workspace filename = under_if_valid workspace (safe_rel_path (or_unnamed filename))

  -- `get_workspace_file`, once the session is found.
  unfoldable pub get_workspace_file : String → String → String → (FilePath → Entry) → Reply FilePath
  unfolding get_session_root
  get_workspace_file tenant_id session_id path entry =
      let workspace = get_session_root fs tenant_id session_id in
      let requested = fs.resolve (under workspace (fs.parse path)) in
      if relative_to requested workspace
      then served_if_file "File not found" requested (entry requested)
      else refused 403 "Access denied"

  abbrev pub image_suffixes : List String
  image_suffixes = ".png" ∷ ".jpg" ∷ ".jpeg" ∷ ".webp" ∷ ".gif" ∷ []

  abbrev pub image_only : String → Reply FilePath → Reply FilePath
  image_only suffix (reply path) =
      if is_in suffix image_suffixes
      then reply path
      else refused 403 "Access denied: Only image artifacts are permitted"
  image_only suffix (refused status e) = refused status e
  image_only suffix (raised e) = raised e

  -- `get_artifact`; `suffix` is `requested.suffix.lower()`.
  unfoldable pub get_artifact : String → (FilePath → Entry) → (FilePath → String) → Reply FilePath
  get_artifact path entry suffix =
      let requested = fs.resolve (fs.parse path) in
      if relative_to requested fs.temp_root
      then image_only (suffix requested)
          (served_if_file "Artifact not found" requested (entry requested))
      else refused 403 "Access denied: Artifact outside temp root"

served_lem :
    (error : String) (path served : FilePath) (e : Entry)
    → served_if_file error path e ≡ reply served
    → (path ≡ served) × (e ≡ file)
served_lem error path served missing h = cc h
served_lem error path served directory h = cc h
served_lem error path served file h = (cc h, refl)

module _ (fs : FileSystem) where
  -- Whatever path is asked for, the file that is served for a session lies below its directory.
  pub get_workspace_file_lem :
      (tenant_id session_id path : String) (entry : FilePath → Entry) (served : FilePath)
      → get_workspace_file fs tenant_id session_id path entry ≡ reply served
      → (relative_to served (get_session_root fs tenant_id session_id) ≡ true)
        × (entry served ≡ file)
  unfolding get_workspace_file
  get_workspace_file_lem tenant_id session_id path entry served h =
      let workspace = get_session_root fs tenant_id session_id in
      let requested = fs.resolve (under fs workspace (fs.parse path)) in
      elim (Bool-cases (relative_to requested workspace)) [
        | inl within ↦
            let p =
              served_lem "File not found" requested served (entry requested) (rw within at h) in
            (rw (sym p.0) within, rw (sym p.0) p.1)
        | inr outside ↦ cc (rw outside at h)
      ]
