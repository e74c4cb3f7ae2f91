-- ===== src/Gvfs/Keyed.antt =====
-- The files of a mount stand under their paths, each once.
use text.Mathlib.Text.{◌==◌}
use text.Mathlib.TextEquality.{eq_iff}
use project_kernel_runtime.Base.{
  ◌≡◌, refl, ◌∙◌, Bool, true, false, Option, none, some, String, [], ◌∷◌, arith, Bool-cases, inl,
  inr,
}
use project_kernel_runtime.Base.Dict.{Dict, lookup, insert, erase, lookup-insert, lookup-erase}
use project_kernel_runtime.Gvfs.{
  deleted, VirtualFile, SessionMount, Disk, Opened, absent, opened, not_opened, Host,
}
use project_kernel_runtime.Gvfs.Files.{
  relative, read_file, written, write_file, delete_file, load_content, with_content, loaded_from,
  found, store, read_found, after_write, delete_found,
}
use project_kernel_runtime.Gvfs.Changes.{settle_all, commit_changes, after_commit, settled}

module _ {B : Type 0} where
  unfoldable pub IsKeyed : Dict (VirtualFile B) → Type 0
  IsKeyed [] = Unit
  IsKeyed ((k, f) ∷ files) = (f.path ≡ k) × (lookup k files ≡ none) × IsKeyed files

  pub insert-IsKeyed :
      (k : String) (f : VirtualFile B) (files : Dict (VirtualFile B))
      → f.path ≡ k
      → IsKeyed files
      → IsKeyed (insert k f files)
  unfolding IsKeyed insert lookup
  insert-IsKeyed k f [] e h = (e, refl, tt)
  insert-IsKeyed k f ((j, g) ∷ files) e (p, n, h) = elim (Bool-cases (j == k)) [
    | inl same ↦ rw same (e, rw (← (eq_iff j k).0 same) n, h)
    | inr other ↦ rw other (
      p,
      ground (arith, lookup-insert k j f files, eq_iff k j, eq_iff j k),
      insert-IsKeyed k f files e h,
    )
  ]

  pub erase-IsKeyed :
      (k : String) (files : Dict (VirtualFile B)) → IsKeyed files → IsKeyed (erase k files)
  unfolding IsKeyed erase
  erase-IsKeyed k [] h = tt
  erase-IsKeyed k ((j, g) ∷ files) (p, n, h) = elim (Bool-cases (j == k)) [
    | inl same ↦ rw same (erase-IsKeyed k files h)
    | inr other ↦
        rw other (
          p,
          ground (arith, lookup-erase k j files, eq_iff k j, eq_iff j k),
          erase-IsKeyed k files h,
        )
  ]

  -- A file that is found under a key has it for its path.
  pub lookup-path :
      (k : String) (files : Dict (VirtualFile B)) (f : VirtualFile B)
      → IsKeyed files
      → lookup k files ≡ some f
      → f.path ≡ k
  unfolding IsKeyed lookup
  lookup-path k [] f h e = cc
  lookup-path k ((j, g) ∷ files) f (p, n, h) e = ground (arith, eq_iff j k, lookup-path k files f h)

  lookup-settle_all :
      (k : String) (files : Dict (VirtualFile B))
      → lookup k files ≡ none
      → lookup k (settle_all files) ≡ none
  unfolding lookup
  lookup-settle_all k [] e = refl
  lookup-settle_all k ((j, g) ∷ files) e = ground (arith, lookup-settle_all k files)

  pub settle_all-IsKeyed :
      (files : Dict (VirtualFile B)) → IsKeyed files → IsKeyed (settle_all files)
  unfolding IsKeyed
  settle_all-IsKeyed [] h = tt
  settle_all-IsKeyed ((k, f) ∷ files) (p, n, h) =
      (ground arith, lookup-settle_all k files n, settle_all-IsKeyed files h)

module _ {B : Type 0} (host : Host B) where
  pub written-path :
      (o : Option (VirtualFile B)) (path : String) (content : B)
      → ((f : VirtualFile B) → o ≡ some f → f.path ≡ path)
      → (written host o path content).path ≡ path
  unfolding written
  written-path none path content h = refl
  written-path (some f) path content h = h f refl

  loaded_from-path :
      (a b : Opened B) (f g : VirtualFile B) → loaded_from host a b f ≡ some g → g.path ≡ f.path
  loaded_from-path (opened a) b f g e = ground arith
  loaded_from-path not_opened b f g e = cc
  loaded_from-path absent (opened b) f g e = ground arith
  loaded_from-path absent not_opened f g e = cc
  loaded_from-path absent absent f g e = ground arith

  with_content-path :
      (load : Bool) (d : Disk B) (f g : VirtualFile B)
      → with_content host load d f ≡ some g
      → g.path ≡ f.path
  unfolding load_content
  with_content-path false d f g e = ground arith
  with_content-path true d f g e =
      ground (
        arith,
        e,
        loaded_from-path (host.read_at f.path d.changes) (host.read_at f.path d.clone) f g,
      )

  after_write-IsKeyed :
      (o : Option (Disk B)) (f : VirtualFile B) (d : Disk B) (m : SessionMount B)
      → IsKeyed m.files
      → IsKeyed (after_write host o f d m).2.files
  after_write-IsKeyed none f d m h = h
  after_write-IsKeyed (some d') f d m h = h

  pub write_file-IsKeyed :
      (raw : String) (content : B) (d : Disk B) (m : SessionMount B)
      → IsKeyed m.files
      → IsKeyed (write_file host raw content d m).2.files
  unfolding write_file
  write_file-IsKeyed raw content d m h =
      let path = relative raw in
      after_write-IsKeyed _ _ d _ (
        insert-IsKeyed path _ m.files
          (written-path (lookup path m.files) path content (λ f e. lookup-path path m.files f h e))
          h)

  pub found-path :
      (o : Option (VirtualFile B)) (in_clone : Opened B) (path : String) (f : VirtualFile B)
      → ((f : VirtualFile B) → o ≡ some f → f.path ≡ path)
      → found host o in_clone path ≡ some f
      → f.path ≡ path
  found-path none absent path f h e = cc
  found-path none (opened c) path f h e = ground arith
  found-path none not_opened path f h e = ground arith
  found-path (some g) in_clone path f h e = h f e

  store-IsKeyed :
      (o : Option (VirtualFile B)) (f : VirtualFile B) (path : String) (m : SessionMount B)
      → f.path ≡ path
      → ((g : VirtualFile B) → o ≡ some g → g.path ≡ f.path)
      → IsKeyed m.files
      → IsKeyed (store host o f path m).1.files
  store-IsKeyed none f path m e h k = insert-IsKeyed path f m.files e k
  store-IsKeyed (some g) f path m e h k = insert-IsKeyed path g m.files (h g refl ∙ e) k

  read_found-IsKeyed :
      (o : Option (VirtualFile B)) (path : String) (load : Bool) (d : Disk B) (m : SessionMount B)
      → ((f : VirtualFile B) → o ≡ some f → f.path ≡ path)
      → IsKeyed m.files
      → IsKeyed (read_found host o path load d m).1.files
  read_found-IsKeyed none path load d m h k = k
  read_found-IsKeyed (some f) path load d m h k =
      store-IsKeyed (with_content host load d f) f path m (h f refl)
        (λ g e. with_content-path load d f g e) k

  pub read_file-IsKeyed :
      (raw : String) (load : Bool) (d : Disk B) (m : SessionMount B)
      → IsKeyed m.files
      → IsKeyed (read_file host raw load d m).1.files
  unfolding read_file
  read_file-IsKeyed raw load d m h =
      let path = relative raw in
      read_found-IsKeyed (found host (lookup path m.files) (host.read_at path d.clone) path) path
        load d m
        (λ f e.
          found-path (lookup path m.files) (host.read_at path d.clone) path f
            (λ g q. lookup-path path m.files g h q) e)
        h

module _ {B : Type 0} where
  delete_found-IsKeyed :
      (o : Option (VirtualFile B)) (path : String) (m : SessionMount B)
      → ((f : VirtualFile B) → o ≡ some f → f.path ≡ path)
      → IsKeyed m.files
      → IsKeyed (delete_found o path m).1.files
  delete_found-IsKeyed none path m h k = k
  delete_found-IsKeyed (some f) path m h k = ground (
    arith,
    insert-IsKeyed path (record f { status = deleted; content = none }) m.files (h f refl) k,
    erase-IsKeyed path m.files k,
  )

  pub delete_file-IsKeyed :
      (raw : String) (m : SessionMount B) → IsKeyed m.files → IsKeyed (delete_file raw m).1.files
  unfolding delete_file
  delete_file-IsKeyed raw m h =
      let path = relative raw in
      delete_found-IsKeyed (lookup path m.files) path m (λ f e. lookup-path path m.files f h e) h

  after_commit-IsKeyed :
      (error : String) (new_sha : Option String) (d : Disk B) (m : SessionMount B)
      → IsKeyed m.files
      → IsKeyed (after_commit error new_sha d m).2.files
  unfolding settled
  after_commit-IsKeyed error none d m h = h
  after_commit-IsKeyed error (some sha) d m h = settle_all-IsKeyed m.files h

  pub commit_changes-IsKeyed :
      (refuses : String → Option String) (error : String) (new_sha : Option String) (d : Disk B)
      (m : SessionMount B)
      → IsKeyed m.files
      → IsKeyed (commit_changes refuses error new_sha d m).2.files
  unfolding commit_changes
  commit_changes-IsKeyed refuses error new_sha d m h = after_commit-IsKeyed error new_sha _ m h
