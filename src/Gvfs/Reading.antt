-- ===== src/Gvfs/Reading.antt =====
-- What a session reads after a write, before and after its mount is restored: `write_file` and
-- `read_file` of api/filesystem.py, with the save and the restore of operations/persistence.py.
use project_kernel_runtime.Base.{
  ◌≡◌, refl, sym, ap, ◌∙◌, Bool, true, false, Option, none, some, String, [], ◌∷◌, arith,
}
use project_kernel_runtime.Base.Dict.{Dict, lookup, insert, lookup-insert_self}
use project_kernel_runtime.Gvfs.{
  VirtualFile, SessionMount, Disk, Host, opened, mount_state, save_mount_state, persist_file_change,
  then_save,
}
use project_kernel_runtime.Gvfs.Files.{
  ReadResult, not_found, read_error, read_as, relative, load_content, read_file, written,
  after_write, write_file,
}
use project_kernel_runtime.Gvfs.Keyed.{IsKeyed, write_file-IsKeyed}
use project_kernel_runtime.Gvfs.State.{
  write_file-saved, forget, forget_all, new_mount, restore_mount_state, restore-mount_state,
}

-- A file that was written is read back.
pub record HostLaws {B : Type 0} (host : Host B) : Type 0 where
  pub read_at-write_at :
      (path : String) (content : B) (files files' : Dict B)
      → host.write_at path content files ≡ some files'
      → host.read_at path files' ≡ opened content

module _ {B : Type 0} (host : Host B) where
  abbrev pub content_of : ReadResult B → Option B
  content_of not_found = none
  content_of read_error = none
  content_of (read_as f) = f.content

  lookup-forget_all :
      (k : String) (files : Dict (VirtualFile B)) (f : VirtualFile B)
      → lookup k files ≡ some f
      → lookup k (forget_all files) ≡ some (forget f)
  unfolding lookup
  lookup-forget_all k [] f e = cc
  lookup-forget_all k ((j, g) ∷ files) f e = ground (arith, lookup-forget_all k files f)

  after_write-taken :
      (o : Option (Dict B)) (g f : VirtualFile B) (d : Disk B) (m : SessionMount B)
      → (after_write host (then_save o m d) g d m).0 ≡ some f
      → (g ≡ f)
        × (o ≡ some (after_write host (then_save o m d) g d m).1.changes)
        × ((after_write host (then_save o m d) g d m).2 ≡ m)
  unfolding save_mount_state
  after_write-taken none g f d m h = cc
  after_write-taken (some changes) g f d m h = (cc, refl, refl)

  written-content :
      (o : Option (VirtualFile B)) (path : String) (content : B)
      → (written host o path content).content ≡ some content
  unfolding written
  written-content none path content = refl
  written-content (some f) path content = refl

  read-known :
      (raw : String) (load : Bool) (d : Disk B) (m : SessionMount B) (f : VirtualFile B)
      (content : B)
      → lookup (relative raw) m.files ≡ some f
      → f.content ≡ some content
      → (read_file host raw load d m).0 ≡ read_as f
  unfolding read_file
  read-known raw true d m f content e n = rw (e, n) refl
  read-known raw false d m f content e n = rw e refl

  -- A file that a mount knows without its content is read from the session's changes.
  read-changed :
      (raw : String) (d : Disk B) (m : SessionMount B) (f : VirtualFile B) (content : B)
      → lookup (relative raw) m.files ≡ some f
      → f.content ≡ none
      → host.read_at f.path d.changes ≡ opened content
      → content_of (read_file host raw true d m).0 ≡ some content
  unfolding read_file load_content
  read-changed raw d m f content e n c = rw (e, n, c) refl

  -- Where the disk takes a write and reads back what was written: the session reads the file at that
  -- path as the write returned it, with what was written; the mount is saved as it is; and when the mount is restored from its
  -- saved state, for whatever repository the session asks for, it still reads what was written there.
  pub read_file-write_file :
      (raw : String) (content : B) (load : Bool) (f : VirtualFile B) (d : Disk B)
      (m : SessionMount B) (url branch : String) (sha : Option String)
      → HostLaws host
      → IsKeyed m.files
      → (write_file host raw content d m).0 ≡ some f
      → let (out, d', m') = write_file host raw content d m in
        let restored =
          restore_mount_state (mount_state m') (new_mount m'.session_id url branch sha) in
        ((read_file host raw load d' m').0 ≡ read_as f)
        × (f.content ≡ some content)
        × (d'.state_file ≡ some (mount_state m'))
        × (content_of (read_file host raw true d' restored).0 ≡ some content)
  unfolding write_file persist_file_change
  read_file-write_file raw content load f d m url branch sha laws k h =
      let path = relative raw in
      let g = written host (lookup path m.files) path content in
      let (out, d', m') = write_file host raw content d m in
      let n : SessionMount B = record m { files = insert path g m.files } in
      let (same, taken, mount) =
        after_write-taken (host.write_at g.path content d.changes) g f d n h in
      let known : lookup path m'.files ≡ some f =
        ap (λ (x : SessionMount B). lookup path x.files) mount
        ∙ lookup-insert_self path g m.files
        ∙ ap some same in
      let holds : f.content ≡ some content =
        ap (λ (x : VirtualFile B). x.content) (sym same)
        ∙ written-content (lookup path m.files) path content in
      (
        read-known raw load d' m' f content known holds,
        holds,
        write_file-saved host raw content f d m h,
        ap (λ r. content_of (read_file host raw true d' r).0)
              (restore-mount_state m' url branch sha (write_file-IsKeyed host raw content d m k))
            ∙ read-changed raw d' (record m' { files = forget_all m'.files; loaded = false })
                (forget f) content (lookup-forget_all path m'.files f known) refl
                (ap (λ (x : VirtualFile B). host.read_at x.path d'.changes) (sym same)
                  ∙ laws.read_at-write_at g.path content d.changes d'.changes taken),
      )
