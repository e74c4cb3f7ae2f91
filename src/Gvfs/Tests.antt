-- ===== src/Gvfs/Tests.antt =====
-- Runs of the virtual file system on a small repository, with texts for host.
use project_kernel_runtime.Base.{
  ap, ◌∙◌, arith, ◌≡◌, refl, true, false, Option, none, some, String, List, [], ◌∷◌, map,
}
use project_kernel_runtime.Base.Dict.{Dict, lookup, insert, lookup-insert_self}
use project_kernel_runtime.Paths.{drop_chars}
use project_kernel_runtime.Gvfs.{
  Opened, modified, untracked, VirtualFile, absent, opened, persist_file_change, SessionMount, Disk,
  Host, mount_state,
}
use project_kernel_runtime.Gvfs.Files.{
  read_as, relative, lstrip_slash, drop_workspace, read_file, write_file, list_directory,
  sort_files, written,
}
use project_kernel_runtime.Gvfs.Changes.{committed, settle, get_changes, commit_changes}
use project_kernel_runtime.Gvfs.Keyed.{IsKeyed}
use project_kernel_runtime.Gvfs.State.{
  Call, read, write, delete, commit, run, index_repository, new_mount, restore_mount_state,
  forget_all, restore-run,
}
use project_kernel_runtime.Gvfs.Reading.{HostLaws, content_of, read_file-write_file}
use project_kernel_runtime.Gvfs.Mounts.{
  Session, Fetched, mounted, mount_repository, repo_name, last_part, drop_git, disk_of, put_disk,
  session_write, unmount, failed,
}
use project_kernel_runtime.Gvfs.Switching.{mount_repository-session_write}
use project_kernel_runtime.Gvfs.Changes.{commit_clears_changes}

abbrev opened_if : Option String → Opened String
opened_if none = absent
opened_if (some b) = opened b

abbrev texts : Host String
texts = record {
  sha = λ b. b;
  size = λ b. 4;
  read_at = λ path files. opened_if (lookup path files);
  write_at = λ path b files. some (insert path b files);
}

abbrev index : List (String × String)
index = ("README.md", "a1") ∷ ("app/main.py", "b2") ∷ []

abbrev disk : Disk String
disk = record {
  clone = ("README.md", "hello") ∷ ("app/main.py", "main") ∷ [];
  changes = [];
  state_file = none;
}

abbrev start : SessionMount String
start = record (new_mount "s1" "https://host/one.git" "main" none) {
  files = index_repository index [];
}

abbrev accepts : String → Option String
accepts path = none

start-IsKeyed : IsKeyed start.files
unfolding index_repository IsKeyed lookup insert
start-IsKeyed = (refl, refl, (refl, refl, tt))

relative_1 : relative "/workspace/app/main.py" ≡ "app/main.py"
unfolding relative lstrip_slash drop_workspace drop_chars
relative_1 = refl

repo_name_1 : repo_name "https://host/team/one.git" ≡ "one"
unfolding repo_name last_part drop_git
repo_name_1 = refl

abbrev calls : List (Call String)
calls =
    read "README.md" true
    ∷ write "app/main.py" "new"
    ∷ write "notes.txt" "n"
    ∷ delete "README.md"
    ∷ commit "" (some "c3")
    ∷ []

abbrev changed_main : VirtualFile String
changed_main = record {
  path = "app/main.py";
  content = some "new";
  sha = "new";
  size = 0;
  status = modified;
  head_sha = some "b2";
  head_content = none;
}

texts-HostLaws : HostLaws texts
texts-HostLaws = record {
  read_at-write_at = λ path content files files' e. texts_read_back path content files files' e;
}
  where
    texts_read_back :
        (path content : String) (files files' : Dict String)
        → some (insert path content files) ≡ some files'
        → texts.read_at path files' ≡ opened content
    texts_read_back path content files files' e =
        let same : files' ≡ insert path content files = ground (arith, e) in
        ap (λ fs. texts.read_at path fs) same ∙ ap opened_if (lookup-insert_self path content files)

read_file-write_file_example :
    let (out, d, m) = write_file texts "app/main.py" "new" disk start in
    let restored =
      restore_mount_state
        (mount_state m)
        (new_mount m.session_id "https://host/two.git" "dev" none) in
    ((read_file texts "app/main.py" true d m).0 ≡ read_as changed_main)
    × (changed_main.content ≡ some "new")
    × (d.state_file ≡ some (mount_state m))
    × (content_of texts (read_file texts "app/main.py" true d restored).0 ≡ some "new")
unfolding write_file written persist_file_change index_repository lookup insert relative
    lstrip_slash drop_workspace drop_chars
read_file-write_file_example =
    read_file-write_file texts "app/main.py" "new" true changed_main disk start
      "https://host/two.git" "dev" none texts-HostLaws start-IsKeyed refl

abbrev unsaved : List (Call String)
unsaved = read "README.md" true ∷ delete "app/main.py" ∷ commit "refused" none ∷ []

abbrev before : Disk String × SessionMount String
before = run texts accepts calls (disk, start)

abbrev rewritten : Option (VirtualFile String) × Disk String × SessionMount String
rewritten = write_file texts "app/main.py" "newer" before.0 before.1

abbrev newer : VirtualFile String
newer = elim rewritten.0 [
  | none ↦ record {
    path = "";
    content = none;
    sha = "";
    size = 0;
    status = untracked;
    head_sha = none;
    head_content = none;
  }
  | some f ↦ f
]

restore-run_example :
    let (out, d2, m2) = rewritten in
    let d3 = (run texts accepts unsaved (d2, m2)).0 in
    IsKeyed m2.files
    × (d3.state_file ≡ some (mount_state m2))
    × (restore_mount_state
          (mount_state m2)
          (new_mount m2.session_id "https://host/two.git" "dev" none)
        ≡ record m2 { files = forget_all m2.files; loaded = false })
unfolding write_file persist_file_change
restore-run_example =
    restore-run texts accepts index calls unsaved "app/main.py" "newer" newer disk "s1"
      "https://host/one.git" "main" "https://host/two.git" "dev" none none
      (refl, (refl, (refl, tt))) refl

abbrev changed : SessionMount String
changed = (run texts accepts (write "notes.txt" "n" ∷ delete "README.md" ∷ []) (disk, start)).1

commit_clears_changes_example :
    let (result, d, m) = commit_changes accepts "" (some "c3") disk changed in
    (result ≡ committed "c3" 0)
    × (get_changes m ≡ record { modified_files = []; added_files = []; deleted_files = [] })
    × (list_directory "." m ≡ sort_files (map (λ e. settle e.1) changed.files))
commit_clears_changes_example = commit_clears_changes accepts "" "c3" disk changed

abbrev offline : String → String → Option String → Fetched String
offline url branch sha = failed "no network"

abbrev session : Session String
session = record {
  mounted = some start;
  local_path = "one";
  repos = ("one", disk.clone) ∷ [];
  changes = [];
  state_file = none;
}

mount_repository-session_write_example :
    let (out, d, m) = write_file texts "app/main.py" "new" (disk_of session) start in
    let s = put_disk d m session in
    let kept : SessionMount String = record m { files = forget_all m.files; loaded = true } in
    (session_write texts "app/main.py" "new" session ≡ some (some changed_main, s))
    × (mount_repository offline "s1" "https://host/two.git" "dev" none s ≡ (
      mounted kept,
      record s { mounted = some kept; local_path = repo_name "https://host/two.git" },
    ))
    × (mount_repository offline "s1" "https://host/two.git" "dev" none (unmount true s) ≡ (
      mounted kept,
      record s { mounted = some kept; local_path = repo_name "https://host/two.git" },
    ))
    × ((unmount false s).state_file ≡ none)
unfolding write_file written persist_file_change index_repository lookup insert relative
    lstrip_slash drop_workspace drop_chars
mount_repository-session_write_example =
    mount_repository-session_write texts offline "app/main.py" "new" changed_main
      "https://host/two.git" "dev" none start session refl start-IsKeyed refl refl
