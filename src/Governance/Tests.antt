-- ===== src/Governance/Tests.antt =====
-- The engine at concrete sessions.
use package.text.Mathlib.Text.{◌==◌, starts_with}
use package.text.Mathlib.TextEquality.{eq_iff}
use package.text.Mathlib.TextPositions.{starts_with_of_prefix}
use package.text.Mathlib.TextLemmas.{nil-append, append_assoc}
use mathlib.Core.Path.{ap₂}
use Prim.Native.String.{◌++◌ as str_append}
use project_kernel_runtime.Base.{
  ◌≡◌, refl, ◌∙◌, ◌⊎◌, true, false, none, some, String, List, [], ◌∷◌, and_left, and_right, ap,
  if◌then◌else◌,
}
use project_kernel_runtime.Base.Dict.{lookup}
use project_kernel_runtime.Values.{Value, Kwargs, is_truthy, truthy_text}
use project_kernel_runtime.Paths.{
  FilePath, FileSystem, resolved, relative_to, root_of, resolve_workspace_path, is_prefix,
}
use project_kernel_runtime.Governance.{
  Session, allowed, not_permitted, approval_required, role_permissions, needs_approval,
  assert_action_allowed,
}
use project_kernel_runtime.Governance.Roles.{allowed_is_permitted, ShowsPrefix, writes_stay_in_root}

abbrev at : List String → FilePath
at parts = record { is_absolute = true; parts = parts }

abbrev rooted : FileSystem
rooted = record {
  parse = λ s. record { is_absolute = false; parts = s ∷ [] };
  resolve = λ p. at p.parts;
  workspace_root = at ("srv" ∷ []);
  temp_root = at ("tmp" ∷ []);
}

abbrev slashes : List String → String
slashes [] = ""
slashes (p ∷ ps) = str_append "/" (str_append p (slashes ps))

-- `str` of a path.
abbrev show_absolute : List String → String
show_absolute [] = "/"
show_absolute (p ∷ ps) = slashes (p ∷ ps)

abbrev show_relative : List String → String
show_relative [] = "."
show_relative (p ∷ ps) = str_append p (slashes ps)

abbrev show : FilePath → String
show p = if p.is_absolute then show_absolute p.parts else show_relative p.parts

abbrev developer : Session
developer = record {
  id = some "abc";
  tenant_id = "local";
  user_role = "developer";
  risk_mode = "strict";
}

abbrev write_args : Kwargs
write_args = ("filepath", Value.text "notes") ∷ []

viewer_cannot_write :
    assert_action_allowed rooted show
      (record developer { user_role = "viewer" })
      "write_file"
      write_args
      none
    ≡ not_permitted
unfolding assert_action_allowed role_permissions
viewer_cannot_write = refl

strict_bash : assert_action_allowed rooted show developer "bash_execute" [] none ≡ approval_required
unfolding assert_action_allowed lookup
strict_bash = refl

writes : assert_action_allowed rooted show developer "write_file" write_args none ≡ allowed
unfolding assert_action_allowed lookup role_permissions resolve_workspace_path is_prefix
writes = refl

allowed_is_permitted_example :
    (needs_approval "write_file" "strict" ≡ false)
    ⊎ (is_truthy (lookup "__approved__" write_args) ≡ true)
allowed_is_permitted_example =
    (allowed_is_permitted rooted show developer "write_file" write_args none refl writes).1

slashes-prefix :
    (bs ps : List String)
    → is_prefix bs ps ≡ true
    → (rest : String) × (str_append (slashes bs) rest ≡ slashes ps)
unfolding is_prefix
slashes-prefix [] ps h = (slashes ps, nil-append (slashes ps))
slashes-prefix (b ∷ bs) [] h = cc
slashes-prefix (b ∷ bs) (p ∷ ps) h =
    let (rest, e) = slashes-prefix bs ps (and_right (b == p) (is_prefix bs ps) h) in
    let same = (eq_iff b p).0 (and_left (b == p) (is_prefix bs ps) h) in
    (
      rest,
      append_assoc "/" (str_append b (slashes bs)) rest
          ∙ ap (str_append "/") (append_assoc b (slashes bs) rest ∙ ap₂ str_append same e),
    )

absolute-prefix :
    (bs ps : List String)
    → is_prefix bs ps ≡ true
    → starts_with (show_absolute ps) (show_absolute bs) ≡ true
unfolding is_prefix
absolute-prefix [] [] h = refl
absolute-prefix [] (p ∷ ps) h =
    starts_with_of_prefix "/" (slashes (p ∷ ps)) (str_append p (slashes ps), refl)
absolute-prefix (b ∷ bs) [] h = cc
absolute-prefix (b ∷ bs) (p ∷ ps) h =
    starts_with_of_prefix (slashes (b ∷ bs)) (slashes (p ∷ ps)) (slashes-prefix (b ∷ bs) (p ∷ ps) h)

shows : ShowsPrefix rooted show
shows path base absolute absolute' h =
    rw (absolute, absolute') (absolute-prefix base.parts path.parts h)

writes_stay_in_root_example :
    (target : FilePath) × (resolve_workspace_path rooted
        (truthy_text (lookup "filepath" write_args))
        (some "abc")
        "local"
      ≡ resolved target)
    × (relative_to target (root_of rooted (some "abc") "local") ≡ true)
writes_stay_in_root_example =
    writes_stay_in_root rooted show developer "write_file" write_args none shows (λ p. refl, refl)
      refl refl refl writes
