-- ===== src/Gvfs.antt =====
-- The virtual file system of a session with a repository: src/infrastructure/storage/gvfs, with
-- models here, api/filesystem.py in Files, api/changes.py and `commit_changes` of api/git_ops.py in
-- Changes, operations/persistence.py in State, and core.py in Mounts. One session's files; contents
-- are of a type `B` of bytes. Times and `is_binary` are left out: no operation reads them.
pub mod Files
pub mod Changes
pub mod State
pub mod Mounts
pub mod Keyed
pub mod Reading
pub mod Switching
mod Tests
use text.Mathlib.Text.{◌==◌, starts_with, is_lt}
use Prim.Native.String
use Prim.Native.String.{◌++◌ as str_append, compare}
use Prim.Native.Char.{code}
use project_kernel_runtime.Base.{
  ℕ, Bool, true, false, not, ◌||◌, ◌&&◌, Option, none, some, String, List, [], ◌∷◌, map, keep,
  if◌then◌else◌,
}
use project_kernel_runtime.Base.{◌==◌ as nat_eq}
use project_kernel_runtime.Base.Dict.{Dict, lookup, insert, erase}
use project_kernel_runtime.Paths.{drop_chars}

pub data FileStatus : Type 0 where
  unchanged modified added deleted conflict untracked : FileStatus

-- `sha` is the empty text where none is known.
pub record VirtualFile (B : Type 0) : Type 0 where
  pub path : String
  pub content : Option B
  pub sha : String
  pub size : ℕ
  pub status : FileStatus
  pub head_sha : Option String
  pub head_content : Option B

abbrev pub has_changes_in : FileStatus → Bool
has_changes_in unchanged = false
has_changes_in modified = true
has_changes_in added = true
has_changes_in deleted = true
has_changes_in conflict = false
has_changes_in untracked = false

abbrev pub is_deleted : FileStatus → Bool
is_deleted unchanged = false
is_deleted modified = false
is_deleted added = false
is_deleted deleted = true
is_deleted conflict = false
is_deleted untracked = false

pub record SessionMount (B : Type 0) : Type 0 where
  pub session_id : String
  pub repo_url : String
  pub branch : String
  pub commit_sha : Option String
  pub virtual_root : String
  pub files : Dict (VirtualFile B)
  pub loaded : Bool

-- A file's entry in `vfs_state.json`, and the whole of it.
pub record FileState : Type 0 where
  pub path : String
  pub sha : String
  pub size : ℕ
  pub status : FileStatus
  pub head_sha : Option String

pub record MountState : Type 0 where
  pub session_id : String
  pub repo_url : String
  pub branch : String
  pub commit_sha : Option String
  pub virtual_root : String
  pub files : List FileState

-- What the disk holds: the clone, by path below `local_path`, the session's changed files, and its
-- state file.
pub record Disk (B : Type 0) : Type 0 where
  pub clone : Dict B
  pub changes : Dict B
  pub state_file : Option MountState

-- What the operating system makes of a path below a directory: nothing is there, a file is opened and
-- read, or something is there and opening it raises, as for a directory.
pub data Opened (B : Type 0) : Type 0 where
  absent : Opened B
  opened : B → Opened B
  not_opened : Opened B

-- What the code takes from its environment: `hashlib.sha256(content).hexdigest()[:16]`,
-- `len(content)`, `exists` and `open` for a path below a directory, and writing a file there, its
-- parent made first, where `none` is an OSError: a parent is a file, or the path is a directory. A
-- directory goes by its regular files; which texts name one file is for `read_at` and `write_at` to say.
pub record Host (B : Type 0) : Type 0 where
  pub sha : B → String
  pub size : B → ℕ
  pub read_at : String → Dict B → Opened B
  pub write_at : String → B → Dict B → Option (Dict B)

module _ {B : Type 0} where
  abbrev pub has_changes : VirtualFile B → Bool
  has_changes f = has_changes_in f.status

  -- `save_mount_state`
  unfoldable pub file_states : Dict (VirtualFile B) → List FileState
  file_states [] = []
  file_states ((k, f) ∷ files) =
      record { path = f.path; sha = f.sha; size = f.size; status = f.status; head_sha = f.head_sha }
      ∷ file_states files

  unfoldable pub mount_state : SessionMount B → MountState
  unfolding file_states
  mount_state m = record {
    session_id = m.session_id;
    repo_url = m.repo_url;
    branch = m.branch;
    commit_sha = m.commit_sha;
    virtual_root = m.virtual_root;
    files = file_states m.files;
  }

  unfoldable pub save_mount_state : SessionMount B → Disk B → Disk B
  unfolding mount_state
  save_mount_state m d = record d { state_file = some (mount_state m) }

  abbrev pub then_save : Option (Dict B) → SessionMount B → Disk B → Option (Disk B)
  then_save none m d = none
  then_save (some changes) m d = some (save_mount_state m (record d { changes = changes }))

  -- `persist_file_change`; only a file with a content is persisted. `none` is the OSError of the
  -- write, after which no state is saved.
  unfoldable pub persist_file_change :
      Host B → SessionMount B → String → B → Disk B → Option (Disk B)
  unfolding save_mount_state
  persist_file_change host m path content d = then_save (host.write_at path content d.changes) m d
