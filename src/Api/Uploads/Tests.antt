-- ===== src/Api/Uploads/Tests.antt =====
-- Uploads with plain and with absolute names.
use text.Mathlib.Text.{starts_with}
use project_kernel_runtime.Base.{
  ◌≡◌, refl, true, false, none, some, List, [], ◌∷◌, String, if◌then◌else◌,
}
use project_kernel_runtime.Paths.{
  FilePath, FileSystem, relative_to, get_session_root, take_chars, is_prefix, drop_chars,
}
use project_kernel_runtime.Api.Uploads.{
  file, forward_slashes, destination, get_workspace_file, get_workspace_file_lem,
}

abbrev at : List String → FilePath
at parts = record { is_absolute = true; parts = parts }

-- A text is read as one name, absolute where it begins with a slash.
abbrev one_name : FileSystem
one_name = record {
  parse = λ s.
      if starts_with s "/"
      then at (drop_chars 1 s ∷ [])
      else record { is_absolute = false; parts = s ∷ [] };
  resolve = λ p. p;
  workspace_root = at ("srv" ∷ []);
  temp_root = at ("tmp" ∷ []);
}

abbrev workspace : FilePath
workspace = at ("srv" ∷ "t_acme" ∷ "s_abc" ∷ [])

-- A name with a backslash in front leaves the workspace.
escapes : destination one_name workspace (some "\\passwd") ≡ some (at ("passwd" ∷ []))
unfolding destination forward_slashes drop_chars
escapes = refl

-- A name with two slashes in front raises.
double_root_raises : destination one_name workspace (some "//notes") ≡ none
unfolding destination forward_slashes
double_root_raises = refl

get_workspace_file_lem_example :
    (relative_to
        (at ("srv" ∷ "t_acme" ∷ "s_abc" ∷ "notes" ∷ []))
        (get_session_root one_name "acme" "abc")
      ≡ true)
    × (file ≡ file)
unfolding take_chars get_workspace_file is_prefix drop_chars
get_workspace_file_lem_example =
    get_workspace_file_lem one_name "acme" "abc" "notes" (λ p. file)
      (at ("srv" ∷ "t_acme" ∷ "s_abc" ∷ "notes" ∷ [])) refl
