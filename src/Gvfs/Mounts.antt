-- ===== src/Gvfs/Mounts.antt =====
-- The mount of one session: core.py, with `unmount` of api/git_ops.py. What git fetches for an
-- address, a branch and a commit is an argument; mounts here are without an access token.
use text.Mathlib.Text.{◌==◌, starts_with}
use Prim.Native.Char.{code}
use project_kernel_runtime.Base.{
  ℕ, zero, suc, Bool, true, false, ◌&&◌, Option, none, some, String, List, [], ◌∷◌, if◌then◌else◌,
}
use project_kernel_runtime.Base.{◌==◌ as nat_eq}
use project_kernel_runtime.Base.Dict.{Dict, lookup, insert}
use project_kernel_runtime.Gvfs.{VirtualFile, SessionMount, MountState, Disk, Host, mount_state}
use project_kernel_runtime.Gvfs.Files.{
  ReadResult, read_file, write_file, delete_file, list_directory,
}
use project_kernel_runtime.Gvfs.Changes.{
  ChangeLists, Applied, CommitResult, refused, get_changes, apply_to_workspace, commit_changes,
}
use project_kernel_runtime.Gvfs.State.{new_mount, restore_mount_state, index_repository}

-- What a session has: its mount, the name of the directory that the mount stands on, its
-- directories under `repos`, and its part of the storage path.
pub record Session (B : Type 0) : Type 0 where
  pub mounted : Option (SessionMount B)
  pub local_path : String
  pub repos : Dict (Dict B)
  pub changes : Dict B
  pub state_file : Option MountState

pub data Fetched (B : Type 0) : Type 0 where
  failed : String → Fetched B
  fetched : Dict B → List (String × String) → Fetched B

pub data MountResult (B : Type 0) : Type 0 where
  mounted : SessionMount B → MountResult B
  clone_failed : String → MountResult B

-- `url.split("/")[-1]`
unfoldable pub last_part : String → String → String
last_part String.[] part = part
last_part (String.◌∷◌ c s) part =
    let found = last_part s s in
    let rest = last_part s part in if nat_eq (code c) 47 then found else rest

-- `name.replace(".git", "")`, with how many characters are still to be skipped.
unfoldable pub drop_git : ℕ → String → String
drop_git n String.[] = String.[]
drop_git (suc n) (String.◌∷◌ c s) = drop_git n s
drop_git zero (String.◌∷◌ c s) =
    let after = drop_git 3 s in
    let rest = String.◌∷◌ c (drop_git 0 s) in
    if starts_with (String.◌∷◌ c s) ".git" then after else rest

unfoldable pub repo_name : String → String
unfolding last_part drop_git
repo_name url = drop_git 0 (last_part url url)

module _ {B : Type 0} where
  abbrev pub files_at : String → Dict (Dict B) → Dict B
  files_at name repos = elim (lookup name repos) [ none ↦ [] | some files ↦ files ]

  abbrev pub disk_of : Session B → Disk B
  disk_of s = record {
    clone = files_at s.local_path s.repos;
    changes = s.changes;
    state_file = s.state_file;
  }

  abbrev pub put_disk : Disk B → SessionMount B → Session B → Session B
  put_disk d m s = record s {
    mounted = some m;
    repos = insert s.local_path d.clone s.repos;
    changes = d.changes;
    state_file = d.state_file;
  }

  abbrev pub cloned : Fetched B → SessionMount B → Session B → MountResult B × Session B
  cloned (failed error) m s = (clone_failed error, s)
  cloned (fetched files index) m s =
      let m' : SessionMount B = record m {
        files = index_repository index m.files;
        loaded = true;
      } in
      (
        MountResult.mounted m',
        record s {
          mounted = some m';
          local_path = repo_name m.repo_url;
          repos = insert (repo_name m.repo_url) files s.repos;
        },
      )

  -- `_initialize_mount`, and the line of `mount_repository` that keeps the mount.
  abbrev pub initialize_mount :
      Option MountState → Fetched B → SessionMount B → Session B → MountResult B × Session B
  initialize_mount (some state) answer m s =
      let m' : SessionMount B = record (restore_mount_state state m) { loaded = true } in
      (MountResult.mounted m', record s { mounted = some m'; local_path = repo_name m.repo_url })
  initialize_mount none answer m s = cloned answer m s

  abbrev pub is_mount_of : SessionMount B → String → String → Bool
  is_mount_of m repo_url branch = (m.repo_url == repo_url) && (m.branch == branch)

  module _ (git : String → String → Option String → Fetched B) where
    abbrev pub mount_from :
        Option (SessionMount B)
        → String
        → String
        → String
        → Option String
        → Session B
        → MountResult B × Session B
    mount_from none session_id repo_url branch commit_sha s =
        initialize_mount s.state_file (git repo_url branch commit_sha)
          (new_mount session_id repo_url branch commit_sha) s
    mount_from (some m) session_id repo_url branch commit_sha s =
        if is_mount_of m repo_url branch
        then (MountResult.mounted m, s)
        else initialize_mount s.state_file (git repo_url branch commit_sha)
            (new_mount session_id repo_url branch commit_sha) s

    unfoldable pub mount_repository :
        String → String → String → Option String → Session B → MountResult B × Session B
    unfolding repo_name index_repository
    mount_repository session_id repo_url branch commit_sha s =
        mount_from s.mounted session_id repo_url branch commit_sha s

  -- `commit_changes` of a session.
  unfoldable pub session_commit :
      (String → Option String)
      → (error : String) → Option String
      → Session B
      → CommitResult × Session B
  session_commit refuses error new_sha s = elim s.mounted [
    | none ↦ (refused "No mount found", s)
    | some m ↦
        let (result, d, m') = commit_changes refuses error new_sha (disk_of s) m in
        (result, put_disk d m' s)
  ]

  unfoldable pub session_changes : Session B → ChangeLists B
  session_changes s = elim s.mounted [
    | none ↦ record { modified_files = []; added_files = []; deleted_files = [] }
    | some m ↦ get_changes m
  ]

  unfoldable pub session_delete : String → Session B → Bool × Session B
  session_delete path s = elim s.mounted [
    | none ↦ (false, s)
    | some m ↦ let (done, m') = delete_file path m in (done, record s { mounted = some m' })
  ]

  unfoldable pub session_list : String → Session B → List (VirtualFile B)
  session_list path s = elim s.mounted [ none ↦ [] | some m ↦ list_directory path m ]

  -- `apply_to_workspace` of a session, on a workspace's files.
  unfoldable pub session_apply : (String → Option String) → Dict B → Session B → Applied B
  session_apply refuses workspace s = elim s.mounted [
    | none ↦ record { applied = 0; errors = "No mount found" ∷ []; workspace = workspace }
    | some m ↦ apply_to_workspace refuses m workspace
  ]

  abbrev pub unmounted : Option (SessionMount B) → Bool → Session B → Session B
  unmounted none persist s = s
  unmounted (some m) true s = record s { mounted = none; state_file = some (mount_state m) }
  unmounted (some m) false s = record s { mounted = none; state_file = none; changes = [] }

  unfoldable pub unmount : Bool → Session B → Session B
  unmount persist s = unmounted s.mounted persist s

module _ {B : Type 0} (host : Host B) where
  -- A read and a write of a session; `none` is the ValueError.
  unfoldable pub session_read : String → Bool → Session B → Option (ReadResult B × Session B)
  session_read path load s = elim s.mounted [
    | none ↦ none
    | some m ↦
        let (f, m') = read_file host path load (disk_of s) m in
        some (f, record s { mounted = some m' })
  ]

  unfoldable pub session_write :
      String → B → Session B → Option (Option (VirtualFile B) × Session B)
  session_write path content s = elim s.mounted [
    | none ↦ none
    | some m ↦
        let (f, d, m') = write_file host path content (disk_of s) m in some (f, put_disk d m' s)
  ]
