-- ===== src/Gvfs/Files.antt =====
-- Reading, writing, deleting and listing the files of a mount: api/filesystem.py of
-- src/infrastructure/storage/gvfs.
use text.Mathlib.Text.{◌==◌, starts_with, is_lt}
use Prim.Native.String.{◌++◌ as str_append, compare}
use Prim.Native.Char.{code}
use project_kernel_runtime.Base.{
  ℕ, Bool, true, false, not, ◌||◌, Option, none, some, String, List, [], ◌∷◌, map, keep,
  if◌then◌else◌,
}
use project_kernel_runtime.Base.{◌==◌ as nat_eq}
use project_kernel_runtime.Base.Dict.{lookup, insert, erase}
use project_kernel_runtime.Paths.{drop_chars}
use project_kernel_runtime.Gvfs.{
  FileStatus, unchanged, modified, added, deleted, untracked, VirtualFile, SessionMount, Disk,
  Opened, absent, opened, not_opened, Host, is_deleted, persist_file_change,
}

-- `path.lstrip("/")`
unfoldable pub lstrip_slash : String → String
lstrip_slash String.[] = ""
lstrip_slash (String.◌∷◌ c s) =
    let rest = lstrip_slash s in if nat_eq (code c) 47 then rest else String.◌∷◌ c s

-- `path.replace("workspace/", "", 1)`
unfoldable pub drop_workspace : String → String
drop_workspace String.[] = ""
drop_workspace (String.◌∷◌ c s) =
    let rest = String.◌∷◌ c (drop_workspace s) in
    if starts_with (String.◌∷◌ c s) "workspace/" then drop_chars 10 (String.◌∷◌ c s) else rest

unfoldable pub relative : String → String
unfolding lstrip_slash drop_workspace
relative path = drop_workspace (lstrip_slash path)

-- What a read comes to: None, the error of opening, or the file.
pub data ReadResult (B : Type 0) : Type 0 where
  not_found read_error : ReadResult B
  read_as : VirtualFile B → ReadResult B

module _ {B : Type 0} (host : Host B) where
  abbrev pub size_of : Option B → ℕ
  size_of none = 0
  size_of (some content) = host.size content

  -- `_load_content`, from the session's changes, or else from the clone; `none` where opening raises.
  abbrev pub loaded_from : Opened B → Opened B → VirtualFile B → Option (VirtualFile B)
  loaded_from (opened content) in_clone f =
      some (record f { content = some content; size = host.size content })
  loaded_from not_opened in_clone f = none
  loaded_from absent (opened content) f = some (record f {
    content = some content;
    head_content = some content;
    head_sha = some f.sha;
    size = host.size content;
  })
  loaded_from absent not_opened f = none
  loaded_from absent absent f = some (record f { size = size_of f.content })

  unfoldable pub load_content : Disk B → VirtualFile B → Option (VirtualFile B)
  load_content d f = loaded_from (host.read_at f.path d.changes) (host.read_at f.path d.clone) f

  abbrev pub with_content : Bool → Disk B → VirtualFile B → Option (VirtualFile B)
  with_content true d f = elim f.content [ none ↦ load_content d f | some c ↦ some f ]
  with_content false d f = some f

  -- A file that was there only on the disk.
  abbrev pub fresh : String → FileStatus → VirtualFile B
  fresh path status = record {
    path = path;
    content = none;
    sha = "";
    size = 0;
    status = status;
    head_sha = none;
    head_content = none;
  }

  abbrev pub found : Option (VirtualFile B) → Opened B → String → Option (VirtualFile B)
  found (some f) in_clone path = some f
  found none (opened content) path = some (fresh path untracked)
  found none not_opened path = some (fresh path untracked)
  found none absent path = none

  -- The object in the dict is the one that is returned; where its content is not read, it stays there.
  abbrev pub store :
      Option (VirtualFile B)
      → VirtualFile B
      → String
      → SessionMount B
      → ReadResult B × SessionMount B
  store none f path m = (read_error, record m { files = insert path f m.files })
  store (some g) f path m = (read_as g, record m { files = insert path g m.files })

  abbrev pub read_found :
      Option (VirtualFile B)
      → String
      → Bool
      → Disk B
      → SessionMount B
      → ReadResult B × SessionMount B
  read_found none path load d m = (not_found, m)
  read_found (some f) path load d m = store (with_content load d f) f path m

  unfoldable pub read_file : String → Bool → Disk B → SessionMount B → ReadResult B × SessionMount B
  unfolding load_content
  read_file raw load d m =
      let path = relative raw in
      read_found (found (lookup path m.files) (host.read_at path d.clone) path) path load d m

  abbrev pub is_head : String → Option String → Bool
  is_head sha none = false
  is_head sha (some head) = sha == head

  abbrev pub head_or_empty : Option String → String
  head_or_empty none = ""
  head_or_empty (some head) = head

  -- The object of a path that is known, and that of a new one.
  unfoldable pub written : Option (VirtualFile B) → String → B → VirtualFile B
  written (some f) path content =
      let sha = host.sha content in
      let same = is_head sha f.head_sha in
      record f {
        status = if same then unchanged else modified;
        sha = if same then head_or_empty f.head_sha else sha;
        content = some content;
      }
  written none path content = record {
    path = path;
    content = some content;
    sha = host.sha content;
    size = host.size content;
    status = added;
    head_sha = none;
    head_content = none;
  }

  abbrev pub after_write :
      Option (Disk B)
      → VirtualFile B
      → Disk B
      → SessionMount B
      → Option (VirtualFile B) × Disk B × SessionMount B
  after_write none f d m = (none, d, m)
  after_write (some d') f d m = (some f, d', m)

  -- The mount has the file before the disk is asked; `none` is the OSError.
  unfoldable pub write_file :
      String → B → Disk B → SessionMount B → Option (VirtualFile B) × Disk B × SessionMount B
  unfolding written persist_file_change
  write_file raw content d m =
      let path = relative raw in
      let f = written (lookup path m.files) path content in
      let m' : SessionMount B = record m { files = insert path f m.files } in
      after_write (persist_file_change host m' f.path content d) f d m'

module _ {B : Type 0} where
  abbrev pub delete_found : Option (VirtualFile B) → String → SessionMount B → Bool × SessionMount B
  delete_found none path m = (false, m)
  delete_found (some f) path m = (
    true,
    record m {
      files = elim f.status [
        | added ↦ erase path m.files
        | _ ↦ insert path (record f { status = deleted; content = none }) m.files
      ];
    },
  )

  unfoldable pub delete_file : String → SessionMount B → Bool × SessionMount B
  delete_file raw m = let path = relative raw in delete_found (lookup path m.files) path m

  -- `sorted(files, key=lambda f: f.path)`: stable.
  unfoldable pub insert_file : VirtualFile B → List (VirtualFile B) → List (VirtualFile B)
  insert_file f [] = f ∷ []
  insert_file f (g ∷ gs) =
      let rest = insert_file f gs in if is_lt (compare g.path f.path) then g ∷ rest else f ∷ g ∷ gs

  unfoldable pub sort_files : List (VirtualFile B) → List (VirtualFile B)
  unfolding insert_file
  sort_files [] = []
  sort_files (f ∷ fs) = insert_file f (sort_files fs)

  unfoldable pub list_directory : String → SessionMount B → List (VirtualFile B)
  unfolding sort_files
  list_directory raw m =
      let path = relative raw in
      let files = keep (λ f. not (is_deleted f.status)) (map (λ e. e.1) m.files) in
      sort_files (
        if path == "."
        then files
        else keep (λ f. starts_with f.path (str_append path "/") || f.path == path) files)
