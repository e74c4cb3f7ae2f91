-- ===== src/Gvfs/Switching.antt =====
-- A session that mounts one repository, changes it, and then mounts another: core.py.
use project_kernel_runtime.Base.{◌≡◌, refl, sym, ◌∙◌, ap, true, false, Option, none, some, String}
use project_kernel_runtime.Gvfs.{VirtualFile, SessionMount, Disk, Host, mount_state}
use project_kernel_runtime.Gvfs.Files.{after_write, write_file}
use project_kernel_runtime.Gvfs.Keyed.{IsKeyed, write_file-IsKeyed}
use project_kernel_runtime.Gvfs.State.{write_file-saved, new_mount, forget_all, restore-mount_state}
use project_kernel_runtime.Gvfs.Mounts.{
  Session, Fetched, mounted, mount_repository, initialize_mount, is_mount_of, disk_of, put_disk,
  session_write, unmount, repo_name,
}

module _ {B : Type 0} (host : Host B) (git : String → String → Option String → Fetched B) where
  abbrev loaded_mount : SessionMount B → SessionMount B
  loaded_mount m = record m { loaded = true }

  -- A mount whose saved state is the session's state file.
  IsSaved : SessionMount B → Session B → Type 0
  IsSaved m s = (s.mounted ≡ some m) × (s.state_file ≡ some (mount_state m)) × IsKeyed m.files

  restored : SessionMount B → SessionMount B
  restored m = record m { files = forget_all m.files; loaded = true }

  initialize-saved :
      (url branch : String) (sha : Option String) (answer : Fetched B) (m : SessionMount B)
      (s : Session B)
      → IsKeyed m.files
      → initialize_mount (some (mount_state m)) answer (new_mount m.session_id url branch sha) s ≡ (
        mounted (restored m),
        record s { mounted = some (restored m); local_path = repo_name url },
      )
  unfolding restored
  initialize-saved url branch sha answer m s k =
      ap
        (λ (r : SessionMount B). (
          mounted (loaded_mount r),
          record s { mounted = some (loaded_mount r); local_path = repo_name url },
        ))
        (restore-mount_state m url branch sha k)

  mount-saved :
      (id url branch : String) (sha : Option String) (m : SessionMount B) (s : Session B)
      → id ≡ m.session_id
      → IsSaved m s
      → is_mount_of m url branch ≡ false
      → (mount_repository git id url branch sha s ≡ (
        mounted (restored m),
        record s { mounted = some (restored m); local_path = repo_name url },
      ))
        × (mount_repository git id url branch sha (unmount true s) ≡ (
          mounted (restored m),
          record s { mounted = some (restored m); local_path = repo_name url },
        ))
        × ((unmount false s).state_file ≡ none)
  unfolding mount_repository unmount IsSaved
  mount-saved id url branch sha m s same (e, saved, k) other =
      let s' : Session B = record s { mounted = some m; state_file = some (mount_state m) } in
      let again = initialize-saved url branch sha (git url branch sha) m s' k in
      (rw (same, e, other, saved) again, rw (same, e, saved) again, rw e refl)

  after_write-mount :
      (o : Option (Disk B)) (f : VirtualFile B) (d : Disk B) (m : SessionMount B)
      → (after_write host o f d m).2 ≡ m
  after_write-mount none f d m = refl
  after_write-mount (some d') f d m = refl

  -- A write changes a mount in its files only.
  write_file-mount :
      (path : String) (content : B) (d : Disk B) (m : SessionMount B)
      → let m' = (write_file host path content d m).2 in m' ≡ record m { files = m'.files }
  unfolding write_file
  write_file-mount path content d m =
      let same = after_write-mount _ _ d _ in
      same ∙ ap (λ n. record m { files = n.files }) (sym same)

  -- A session that wrote to its mount, where the disk took the write, and that asks for another
  -- repository or branch, keeps the first: the new mount has the address, the branch, the commit and
  -- the files of the saved one, without their contents, and stands on the directory named for the
  -- second. So it is too when it unmounts in between and keeps its state. When it unmounts without
  -- keeping it, no state file is left.
  pub mount_repository-session_write :
      (path : String) (content : B) (f : VirtualFile B) (url branch : String) (sha : Option String)
      (m : SessionMount B) (s : Session B)
      → s.mounted ≡ some m
      → IsKeyed m.files
      → is_mount_of m url branch ≡ false
      → (write_file host path content (disk_of s) m).0 ≡ some f
      → let (out, d, m') = write_file host path content (disk_of s) m in
        let s' = put_disk d m' s in
        let kept : SessionMount B = record m' { files = forget_all m'.files; loaded = true } in
        (session_write host path content s ≡ some (some f, s'))
        × (mount_repository git m.session_id url branch sha s'
            ≡ (mounted kept, record s' { mounted = some kept; local_path = repo_name url }))
        × (mount_repository git m.session_id url branch sha (unmount true s')
            ≡ (mounted kept, record s' { mounted = some kept; local_path = repo_name url }))
        × ((unmount false s').state_file ≡ none)
  unfolding session_write restored IsSaved
  mount_repository-session_write path content f url branch sha m s e k other taken =
      let (out, d, m') = write_file host path content (disk_of s) m in
      let s' = put_disk d m' s in
      let same = write_file-mount path content (disk_of s) m in
      let (now, unmounting, forgetting) =
        mount-saved m.session_id url branch sha m' s' (sym (ap (λ n. n.session_id) same))
          (
            refl,
            write_file-saved host path content f (disk_of s) m taken,
            write_file-IsKeyed host path content (disk_of s) m k,
          )
          (ap (λ n. is_mount_of n url branch) same ∙ other) in
      (rw e (ap (λ o. some (o, s')) taken), now, unmounting, forgetting)
