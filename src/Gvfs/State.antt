-- ===== src/Gvfs/State.antt =====
-- The saved state of a mount: `restore_mount_state` of operations/persistence.py, and the first
-- index of a clone, `index_repository` of operations/clone.py. What `git ls-tree` prints is an
-- argument, as the list of paths with their identifiers.
use text.Mathlib.TextEquality.{eq_iff}
use project_kernel_runtime.Base.{
  ◌≡◌, refl, sym, ap, ◌∙◌, Bool, false, Option, true, none, some, String, List, [], ◌∷◌, ◌++◌, All,
  arith,
}
use mathlib.Core.List.{append-nil, append_assoc}
use project_kernel_runtime.Base.Dict.{Dict, lookup, insert, lookup-insert, insert-absent}
use project_kernel_runtime.Gvfs.{
  unchanged, VirtualFile, SessionMount, FileState, MountState, Disk, Host, file_states, mount_state,
  save_mount_state, persist_file_change, then_save,
}
use project_kernel_runtime.Gvfs.Files.{
  relative, after_write, written, read_file, write_file, delete_file,
}
use project_kernel_runtime.Gvfs.Changes.{commit_changes}
use project_kernel_runtime.Gvfs.Keyed.{
  IsKeyed, insert-IsKeyed, read_file-IsKeyed, write_file-IsKeyed, delete_file-IsKeyed,
  commit_changes-IsKeyed,
}

module _ {B : Type 0} where
  -- The object that `mount_repository` makes.
  abbrev pub new_mount : String → String → String → Option String → SessionMount B
  new_mount session_id repo_url branch commit_sha = record {
    session_id = session_id;
    repo_url = repo_url;
    branch = branch;
    commit_sha = commit_sha;
    virtual_root = "/workspace";
    files = [];
    loaded = false;
  }

  unfoldable pub restore_file : FileState → VirtualFile B
  restore_file s = record {
    path = s.path;
    content = none;
    sha = s.sha;
    size = s.size;
    status = s.status;
    head_sha = s.head_sha;
    head_content = none;
  }

  unfoldable pub restore_files : List FileState → Dict (VirtualFile B) → Dict (VirtualFile B)
  unfolding restore_file
  restore_files [] files = files
  restore_files (s ∷ ss) files = restore_files ss (insert s.path (restore_file s) files)

  -- The state file has every key, since `save_mount_state` writes them all.
  unfoldable pub restore_mount_state : MountState → SessionMount B → SessionMount B
  unfolding restore_files
  restore_mount_state s m = record m {
    repo_url = s.repo_url;
    branch = s.branch;
    commit_sha = s.commit_sha;
    virtual_root = s.virtual_root;
    files = restore_files s.files m.files;
  }

  unfoldable pub index_repository :
      List (String × String) → Dict (VirtualFile B) → Dict (VirtualFile B)
  index_repository [] files = files
  index_repository ((path, sha) ∷ rest) files = index_repository rest (
      insert path
        (record {
          path = path;
          content = none;
          sha = sha;
          size = 0;
          status = unchanged;
          head_sha = some sha;
          head_content = none;
        })
        files)

  -- What a saved file keeps of itself.
  abbrev pub forget : VirtualFile B → VirtualFile B
  forget f = record f { content = none; head_content = none }

  abbrev pub forget_all : Dict (VirtualFile B) → Dict (VirtualFile B)
  forget_all [] = []
  forget_all ((k, f) ∷ files) = (k, forget f) ∷ forget_all files

  pub index_repository-IsKeyed :
      (index : List (String × String)) (files : Dict (VirtualFile B))
      → IsKeyed files
      → IsKeyed (index_repository index files)
  unfolding index_repository
  index_repository-IsKeyed [] files h = h
  index_repository-IsKeyed ((path, sha) ∷ rest) files h =
      index_repository-IsKeyed rest _ (insert-IsKeyed path _ files refl h)

  -- No key of the first is a key of the second.
  AreApart : Dict (VirtualFile B) → Dict (VirtualFile B) → Type 0
  AreApart files others = All (λ e. lookup e.0 others ≡ none) files

  insert-AreApart :
      (k : String) (f : VirtualFile B) (files others : Dict (VirtualFile B))
      → lookup k files ≡ none
      → AreApart files others
      → AreApart files (insert k f others)
  unfolding AreApart lookup
  insert-AreApart k f [] others n h = tt
  insert-AreApart k f ((j, g) ∷ files) others n h = (
    ground (arith, lookup-insert k j f others, eq_iff k j, eq_iff j k),
    insert-AreApart k f files others (ground arith) h.1,
  )

  nil-AreApart : (files : Dict (VirtualFile B)) → AreApart files []
  unfolding AreApart lookup
  nil-AreApart [] = tt
  nil-AreApart ((k, f) ∷ files) = (refl, nil-AreApart files)

  restore-file_states :
      (files others : Dict (VirtualFile B))
      → IsKeyed files
      → AreApart files others
      → restore_files (file_states files) others ≡ others ++ forget_all files
  unfolding restore_files file_states IsKeyed AreApart
  restore-file_states [] others k h = sym (append-nil others)
  restore-file_states ((k, f) ∷ files) others (p, n, i) (a, h) =
      ap (λ q. restore_files (file_states files) (insert q (forget f) others)) p
      ∙ restore-file_states files (insert k (forget f) others) i
          (insert-AreApart k (forget f) files others n h)
      ∙ ap (λ l. l ++ forget_all files) (insert-absent k (forget f) others a)
      ∙ append_assoc others ((k, forget f) ∷ []) (forget_all files)

  -- Once a state is saved for a session, a mount of any repository for that session, whatever its
  -- address, branch and commit, becomes the mount that was saved, with its files under their paths
  -- and everything but their contents.
  pub restore-mount_state :
      (m : SessionMount B) (repo_url branch : String) (commit_sha : Option String)
      → IsKeyed m.files
      → restore_mount_state (mount_state m) (new_mount m.session_id repo_url branch commit_sha)
        ≡ record m { files = forget_all m.files; loaded = false }
  unfolding restore_mount_state mount_state
  restore-mount_state m repo_url branch commit_sha h =
      ap (λ fs. record m { files = fs; loaded = false })
        (restore-file_states m.files [] h (nil-AreApart m.files))

-- The calls on a mount that change its files.
pub data Call (B : Type 0) : Type 0 where
  read : String → Bool → Call B
  write : String → B → Call B
  delete : String → Call B
  commit : (error : String) → Option String → Call B

module _ {B : Type 0} (host : Host B) (refuses : String → Option String) where
  unfoldable pub call : Call B → Disk B × SessionMount B → Disk B × SessionMount B
  call (read path load) (d, m) = (d, (read_file host path load d m).1)
  call (write path content) (d, m) = let (f, d', m') = write_file host path content d m in (d', m')
  call (delete path) (d, m) = (d, (delete_file path m).1)
  call (commit error new_sha) (d, m) =
      let (result, d', m') = commit_changes refuses error new_sha d m in (d', m')

  unfoldable pub run : List (Call B) → Disk B × SessionMount B → Disk B × SessionMount B
  run [] s = s
  run (c ∷ cs) s = run cs (call c s)

  call-IsKeyed :
      (c : Call B) (s : Disk B × SessionMount B) → IsKeyed s.1.files → IsKeyed (call c s).1.files
  unfolding call
  call-IsKeyed (read path load) (d, m) h = read_file-IsKeyed host path load d m h
  call-IsKeyed (write path content) (d, m) h = write_file-IsKeyed host path content d m h
  call-IsKeyed (delete path) (d, m) h = delete_file-IsKeyed path m h
  call-IsKeyed (commit error new_sha) (d, m) h = commit_changes-IsKeyed refuses error new_sha d m h

  pub run-IsKeyed :
      (cs : List (Call B)) (s : Disk B × SessionMount B)
      → IsKeyed s.1.files
      → IsKeyed (run cs s).1.files
  unfolding run
  run-IsKeyed [] s h = h
  run-IsKeyed (c ∷ cs) s h = run-IsKeyed cs (call c s) (call-IsKeyed c s h)

  -- Whether a call saves the state, if nothing raises: a write, and a commit that git accepts.
  abbrev pub saves : Call B → Bool
  saves (read path load) = false
  saves (write path content) = true
  saves (delete path) = false
  saves (commit error none) = false
  saves (commit error (some sha)) = true

  call-unsaved :
      (c : Call B) (s : Disk B × SessionMount B)
      → saves c ≡ false
      → (call c s).0.state_file ≡ s.0.state_file
  unfolding call commit_changes
  call-unsaved (read path load) (d, m) h = refl
  call-unsaved (write path content) (d, m) h = cc
  call-unsaved (delete path) (d, m) h = refl
  call-unsaved (commit error none) (d, m) h = refl
  call-unsaved (commit error (some sha)) (d, m) h = cc

  run-unsaved :
      (cs : List (Call B)) (s : Disk B × SessionMount B)
      → All (λ c. saves c ≡ false) cs
      → (run cs s).0.state_file ≡ s.0.state_file
  unfolding run
  run-unsaved [] s h = refl
  run-unsaved (c ∷ cs) s (e, h) = run-unsaved cs (call c s) h ∙ call-unsaved c s e

module _ {B : Type 0} (host : Host B) where
  after_write-saved :
      (o : Option (Dict B)) (f g : VirtualFile B) (d : Disk B) (m : SessionMount B)
      → (after_write host (then_save o m d) f d m).0 ≡ some g
      → (after_write host (then_save o m d) f d m).1.state_file
        ≡ some (mount_state (after_write host (then_save o m d) f d m).2)
  unfolding save_mount_state
  after_write-saved none f g d m h = cc
  after_write-saved (some changes) f g d m h = refl

  -- A write that the disk takes saves the mount that it leaves.
  pub write_file-saved :
      (raw : String) (content : B) (f : VirtualFile B) (d : Disk B) (m : SessionMount B)
      → (write_file host raw content d m).0 ≡ some f
      → let (out, d', m') = write_file host raw content d m in d'.state_file ≡ some (mount_state m')
  unfolding write_file persist_file_change
  write_file-saved raw content f d m h =
      let path = relative raw in
      let g = written host (lookup path m.files) path content in
      after_write-saved (host.write_at g.path content d.changes) g f d
        (record m { files = insert path g m.files }) h

-- A mount that was just cloned.
abbrev pub indexed :
    {B : Type 0}
    → List (String × String)
    → String
    → String
    → String
    → Option String
    → SessionMount B
indexed index session_id url branch sha = record (new_mount session_id url branch sha) {
  files = index_repository index [];
}

module _ {B : Type 0} (host : Host B) (refuses : String → Option String) where
  -- A mount is cloned; then it is read, written, deleted from and committed in any order; then a
  -- write comes that the disk takes; and then calls that do not save: reads, deletions and commits
  -- that git refuses. The state file is then that of the mount as the write left it, in which each
  -- file stands under its path and only once; and restored for the session, for whatever repository
  -- it asks for, it gives that mount back without its contents. So what was deleted since the write
  -- is there again.
  pub restore-run :
      (index : List (String × String)) (cs later : List (Call B)) (raw : String) (content : B)
      (f : VirtualFile B) (d : Disk B) (session_id url branch url' branch' : String)
      (sha sha' : Option String)
      → All (λ c. saves host refuses c ≡ false) later
      → (let (d1, m1) = run host refuses cs (d, indexed index session_id url branch sha) in
          (write_file host raw content d1 m1).0 ≡ some f)
      → let (d1, m1) = run host refuses cs (d, indexed index session_id url branch sha) in
        let (out, d2, m2) = write_file host raw content d1 m1 in
        let d3 = (run host refuses later (d2, m2)).0 in
        IsKeyed m2.files
        × (d3.state_file ≡ some (mount_state m2))
        × (restore_mount_state (mount_state m2) (new_mount m2.session_id url' branch' sha')
            ≡ record m2 { files = forget_all m2.files; loaded = false })
  unfolding IsKeyed
  restore-run index cs later raw content f d session_id url branch url' branch' sha sha' u h =
      let s1 = run host refuses cs (d, indexed index session_id url branch sha) in
      let (out, d2, m2) = write_file host raw content s1.0 s1.1 in
      let k = write_file-IsKeyed host raw content s1.0 s1.1 (
        run-IsKeyed host refuses cs (d, indexed index session_id url branch sha)
          (index_repository-IsKeyed index [] tt)) in
      (
        k,
        run-unsaved host refuses later (d2, m2) u ∙ write_file-saved host raw content f s1.0 s1.1 h,
        restore-mount_state m2 url' branch' sha' k,
      )
