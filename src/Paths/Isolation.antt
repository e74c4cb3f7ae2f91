-- ===== src/Paths/Isolation.antt =====
-- What isolation the resolution gives.
use text.Mathlib.Text.{◌==◌}
use text.Mathlib.TextPositions.{eq_refl}
use project_kernel_runtime.Base.{
  ◌≡◌, refl, ◌⊎◌, true, false, Option, some, String, List, [], ◌∷◌, arith,
}
use project_kernel_runtime.Paths.{
  FilePath, FileSystem, resolved, take_chars, is_prefix, relative_to, root_of, text_of,
  candidate_of, resolve_within, resolve_workspace_path,
}

is_prefix_refl : (xs : List String) → is_prefix xs xs ≡ true
unfolding is_prefix
is_prefix_refl [] = refl
is_prefix_refl (x ∷ xs) = rw (eq_refl x) (is_prefix_refl xs)

module _ (fs : FileSystem) where
  within_isolated :
      (root candidate target : FilePath)
      → resolve_within fs root candidate ≡ resolved target
      → (relative_to target root ≡ true)
        ⊎ ((candidate.is_absolute ≡ true) × (relative_to target fs.temp_root ≡ true))
  unfolding resolve_within
  within_isolated root candidate target h = ground arith

  -- Whatever the path, the session and the file system: a path that is granted lies under the
  -- session's own root, or else it was written as an absolute path and lies under the directory for
  -- temporary files.
  pub granted_is_isolated :
      (path session_id : Option String) (tenant_id : String) (target : FilePath)
      → resolve_workspace_path fs path session_id tenant_id ≡ resolved target
      → (relative_to target (root_of fs session_id tenant_id) ≡ true)
        ⊎ (((candidate_of fs (text_of path)).is_absolute ≡ true)
            × (relative_to target fs.temp_root ≡ true))
  unfolding resolve_workspace_path
  granted_is_isolated path session_id tenant_id target h =
      let root = root_of fs session_id tenant_id in
      ground (
        arith,
        within_isolated root (candidate_of fs (text_of path)) target,
        is_prefix_refl root.parts,
      )

  root_of-eq :
      (s s' t t' : String)
      → take_chars 8 s ≡ take_chars 8 s'
      → take_chars 8 t ≡ take_chars 8 t'
      → (s == "") ≡ false
      → (s' == "") ≡ false
      → root_of fs (some s) t ≡ root_of fs (some s') t'
  unfolding root_of
  root_of-eq s s' t t' es et n n' = rw (n, n', es, et) refl

  -- The identifiers count up to their eighth character. Two sessions whose tenant and own
  -- identifiers begin alike have one root, and get the same answer for every path.
  pub short_ids_collide :
      (path : Option String) (s s' t t' : String)
      → take_chars 8 s ≡ take_chars 8 s'
      → take_chars 8 t ≡ take_chars 8 t'
      → (s == "") ≡ false
      → (s' == "") ≡ false
      → resolve_workspace_path fs path (some s) t ≡ resolve_workspace_path fs path (some s') t'
  unfolding resolve_workspace_path
  short_ids_collide path s s' t t' es et n n' = rw (root_of-eq s s' t t' es et n n') refl
