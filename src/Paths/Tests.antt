-- ===== src/Paths/Tests.antt =====
-- Isolation at a concrete file system, where a path resolves to itself.
use project_kernel_runtime.Base.{◌≡◌, refl, ◌⊎◌, true, false, some, String, List, [], ◌∷◌}
use project_kernel_runtime.Paths.{
  FilePath, FileSystem, resolved, drop_chars, is_prefix, relative_to, root_of, candidate_of,
  text_of, resolve_workspace_path,
}
use project_kernel_runtime.Paths.Isolation.{granted_is_isolated}

abbrev at : List String → FilePath
at parts = record { is_absolute = true; parts = parts }

-- Every text is read as the one relative name.
abbrev plain : FileSystem
plain = record {
  parse = λ s. record { is_absolute = false; parts = s ∷ [] };
  resolve = λ p. p;
  workspace_root = at ("srv" ∷ "workspace" ∷ []);
  temp_root = at ("tmp" ∷ []);
}

abbrev notes : FilePath
notes = at ("srv" ∷ "workspace" ∷ "t_local" ∷ "s_abc" ∷ "notes" ∷ [])

grants :
    resolve_workspace_path plain (some "/workspace/notes") (some "abc") "local" ≡ resolved notes
unfolding resolve_workspace_path is_prefix drop_chars
grants = refl

granted_is_isolated_example :
    (relative_to notes (root_of plain (some "abc") "local") ≡ true)
    ⊎ (((candidate_of plain (text_of (some "/workspace/notes"))).is_absolute ≡ true)
        × (relative_to notes (at ("tmp" ∷ [])) ≡ true))
granted_is_isolated_example =
    granted_is_isolated plain (some "/workspace/notes") (some "abc") "local" notes grants
