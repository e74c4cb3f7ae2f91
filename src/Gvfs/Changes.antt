-- ===== src/Gvfs/Changes.antt =====
-- api/changes.py, and `commit_changes` of api/git_ops.py. What git makes of the commit is an
-- argument: the new commit's identifier, or an error; and so is which files the disk refuses.
use Prim.Native.String.{◌++◌ as str_append}
use project_kernel_runtime.Base.{
  ℕ, ◌+◌, ◌≡◌, refl, ap, Bool, true, false, not, Option, none, some, String, List, [], ◌∷◌, ◌++◌,
  map, keep, length, if◌then◌else◌, arith,
}
use project_kernel_runtime.Base.Dict.{Dict, insert, erase}
use project_kernel_runtime.Gvfs.{
  FileStatus, unchanged, modified, added, deleted, conflict, untracked, VirtualFile, SessionMount,
  Disk, is_deleted, has_changes, save_mount_state,
}
use project_kernel_runtime.Gvfs.Files.{sort_files, list_directory, relative}

pub record ChangeLists (B : Type 0) : Type 0 where
  pub modified_files : List (VirtualFile B)
  pub added_files : List (VirtualFile B)
  pub deleted_files : List (VirtualFile B)

pub record Applied (B : Type 0) : Type 0 where
  pub applied : ℕ
  pub errors : List String
  pub workspace : Dict B

pub data CommitResult : Type 0 where
  committed : String → ℕ → CommitResult
  refused : String → CommitResult

abbrev pub is_modified : FileStatus → Bool
is_modified modified = true
is_modified unchanged = false
is_modified added = false
is_modified deleted = false
is_modified conflict = false
is_modified untracked = false

abbrev pub is_added : FileStatus → Bool
is_added added = true
is_added unchanged = false
is_added modified = false
is_added deleted = false
is_added conflict = false
is_added untracked = false

module _ {B : Type 0} where
  abbrev pub files_in : Dict (VirtualFile B) → List (VirtualFile B)
  files_in = map (λ e. e.1)

  abbrev pub files_of : SessionMount B → List (VirtualFile B)
  files_of m = files_in m.files

  unfoldable pub get_changes : SessionMount B → ChangeLists B
  get_changes m = record {
    modified_files = keep (λ f. is_modified f.status) (files_of m);
    added_files = keep (λ f. is_added f.status) (files_of m);
    deleted_files = keep (λ f. is_deleted f.status) (files_of m);
  }

  abbrev pub settle : VirtualFile B → VirtualFile B
  settle f =
      if has_changes f
      then record f { status = unchanged; head_sha = some f.sha; head_content = f.content }
      else f

  abbrev pub settle_all : Dict (VirtualFile B) → Dict (VirtualFile B)
  settle_all = map (λ e. (e.0, settle e.1))

  unfoldable pub settled : SessionMount B → SessionMount B
  settled m = record m { files = settle_all m.files }

  settle-kept :
      (f : VirtualFile B)
      → (has_changes (settle f) ≡ false)
        × (is_deleted (settle f).status ≡ false)
        × (is_added (settle f).status ≡ false)
        × (is_modified (settle f).status ≡ false)
  settle-kept f = ground arith

  -- No file of these passes a test that none passes once it is settled.
  keep-settled :
      (p : VirtualFile B → Bool) (files : Dict (VirtualFile B))
      → ((f : VirtualFile B) → p (settle f) ≡ false)
      → keep p (files_in (settle_all files)) ≡ []
  keep-settled p [] h = refl
  keep-settled p ((k, f) ∷ files) h = rw (h f) (keep-settled p files h)

  keep-all :
      (p : VirtualFile B → Bool) (files : Dict (VirtualFile B))
      → ((f : VirtualFile B) → p (settle f) ≡ false)
      → keep (λ f. not (p f)) (files_in (settle_all files)) ≡ map (λ e. settle e.1) files
  keep-all p [] h = refl
  keep-all p ((k, f) ∷ files) h = rw (h f) (ap (◌∷◌ (settle f)) (keep-all p files h))

  abbrev pub after_commit :
      (error : String)
      → Option String
      → Disk B
      → SessionMount B
      → CommitResult × Disk B × SessionMount B
  after_commit error none d m = (CommitResult.refused error, d, m)
  after_commit error (some sha) d m =
      let m' : SessionMount B = record (settled m) { commit_sha = some sha } in
      (committed sha (length (keep has_changes (files_of m'))), save_mount_state m' d, m')

  module _ (refuses : String → Option String) where
    -- The body of the loop for a file that has changes and that the disk does not refuse.
    abbrev pub write_out : VirtualFile B → Applied B → Applied B
    write_out f a =
        if is_deleted f.status
        then record a { workspace = erase f.path a.workspace }
        else elim f.content [
          | none ↦ a
          | some content ↦ record a {
            workspace = insert f.path content a.workspace;
            applied = a.applied + 1;
          }
        ]

    unfoldable pub apply_file : VirtualFile B → Applied B → Applied B
    apply_file f a =
        if has_changes f
        then elim (refuses f.path) [
          | none ↦ write_out f a
          | some e ↦ record a { errors = a.errors ++ str_append f.path (str_append ": " e) ∷ [] }
        ]
        else a

    unfoldable pub apply_files : List (VirtualFile B) → Applied B → Applied B
    unfolding apply_file
    apply_files [] a = a
    apply_files (f ∷ fs) a = apply_files fs (apply_file f a)

    unfoldable pub apply_to_workspace : SessionMount B → Dict B → Applied B
    unfolding apply_files
    apply_to_workspace m workspace =
        apply_files (files_of m) (record { applied = 0; errors = []; workspace = workspace })

    unfoldable pub commit_changes :
        String → Option String → Disk B → SessionMount B → CommitResult × Disk B × SessionMount B
    unfolding apply_to_workspace settled
    commit_changes error new_sha d m =
        after_commit error new_sha (record d { clone = (apply_to_workspace m d.clone).workspace }) m

    -- A commit that git accepts leaves no change to report, and reports that it changed 0 files,
    -- whatever it changed; and since its deletions are settled too, the root directory lists every
    -- file that the mount knows, with those that were deleted before the commit.
    pub commit_clears_changes :
        (error sha : String) (d : Disk B) (m : SessionMount B)
        → let (result, d', m') = commit_changes error (some sha) d m in
          (result ≡ committed sha 0)
          × (get_changes m' ≡ record { modified_files = []; added_files = []; deleted_files = [] })
          × (list_directory "." m' ≡ sort_files (map (λ e. settle e.1) m.files))
    unfolding commit_changes get_changes list_directory relative
    commit_clears_changes error sha d m = (
      ap (λ l. committed sha (length l))
          (keep-settled has_changes m.files (λ f. (settle-kept f).0)),
      rw
          (
            keep-settled (λ f. is_modified f.status) m.files (λ f. (settle-kept f).3),
            keep-settled (λ f. is_added f.status) m.files (λ f. (settle-kept f).2),
            keep-settled (λ f. is_deleted f.status) m.files (λ f. (settle-kept f).1),
          )
          refl,
      ap sort_files (keep-all (λ f. is_deleted f.status) m.files (λ f. (settle-kept f).1)),
    )
