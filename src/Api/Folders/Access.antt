-- ===== src/Api/Folders/Access.antt =====
-- Who may see a folder, and until when.
use text.Mathlib.Text.{◌==◌}
use text.Mathlib.TextEquality.{eq_iff}
use project_kernel_runtime.Base.{
  ◌≡◌, refl, sym, ap, ◌∙◌, Bool, true, false, not, ◌&&◌, Option, some, String, List, [], ◌∷◌, arith,
  Bool-cases, inl, inr, if◌then◌else◌,
}
use project_kernel_runtime.Base.Texts.{is_in}
use project_kernel_runtime.Auth.Library.{TokenPayload}
use project_kernel_runtime.Api.{Reply, reply, refused, raised, find_row, change_row}
use project_kernel_runtime.Api.Folders.{
  FolderModel, FolderDict, split_commas, permission_for, serialize_folder, is_folder, accessible,
  is_owned, get_owned_folder, get_accessible_folder, serialized, deactivated, get_folder,
  delete_owned, delete_folder,
}

-- The answer for the folder that a search finds.
abbrev folder_answer : TokenPayload → Option FolderModel → Reply FolderDict
folder_answer user o = serialized user (accessible user o)

not_shared :
    (user_id shared : String)
    → (shared == "") ≡ true
    → (user_id == "") ≡ false
    → is_in user_id (split_commas shared) ≡ false
unfolding split_commas
not_shared user_id shared e h =
    rw ((eq_iff shared "").0 e) (ground (arith, eq_iff "" user_id, eq_iff user_id ""))

abbrev is_stranger : TokenPayload → FolderModel → Bool
is_stranger user f =
    not (f.owner_id == user.user_id) && not (is_in user.user_id (split_commas f.shared_with))

-- The user sees a folder as a viewer who neither owns it nor is among those it is shared with.
is_viewer :
    (user : TokenPayload) (f : FolderModel)
    → (user.user_id == "") ≡ false
    → (permission_for f user.user_id == "viewer") ≡ is_stranger user f
unfolding permission_for
is_viewer user f named = elim (Bool-cases (f.owner_id == user.user_id)) [
  | inl owns ↦ rw owns refl
  | inr other ↦ elim (Bool-cases (f.shared_with == "")) [
    | inl alone ↦ rw (other, alone, not_shared user.user_id f.shared_with alone named) refl
    | inr shared ↦ elim (Bool-cases (is_in user.user_id (split_commas f.shared_with))) [
      | inl member ↦ rw (other, shared, member) refl
      | inr stranger ↦ rw (other, shared, stranger) refl
    ]
  ]
]

serialized_if :
    (user : TokenPayload) (f : FolderModel) (b : Bool)
    → serialized user (if b then refused 403 "Access denied" else reply f)
      ≡ (if b then refused 403 "Access denied" else reply (serialize_folder user f))
serialized_if user f true = refl
serialized_if user f false = refl

folder_answer-deactivated :
    (user : TokenPayload) (f : FolderModel)
    → folder_answer user (some (deactivated f)) ≡ folder_answer user (some f)
unfolding permission_for
folder_answer-deactivated user f =
    serialized_if user (deactivated f) (is_stranger user f)
    ∙ sym (serialized_if user f (is_stranger user f))

-- A folder is refused with status 403 to exactly those users of its tenant for whom the list of
-- folders says "viewer"; all others get it. The user's identifier is not empty.
pub get_folder-permission_for :
    (id : String) (user : TokenPayload) (folders : List FolderModel) (f : FolderModel)
    → find_row (is_folder id user) folders ≡ some f
    → (user.user_id == "") ≡ false
    → get_folder id user folders ≡ (
        if permission_for f user.user_id == "viewer"
        then refused 403 "Access denied"
        else reply (serialize_folder user f))
unfolding get_folder get_accessible_folder
get_folder-permission_for id user folders f found named =
    ap (folder_answer user) found
    ∙ serialized_if user f (is_stranger user f)
    ∙ ap (λ (b : Bool). if b then refused 403 "Access denied" else reply (serialize_folder user f))
        (sym (is_viewer user f named))

folder_answer-change_row :
    (user : TokenPayload) (p q : FolderModel → Bool) (folders : List FolderModel)
    → ((f : FolderModel) → p (deactivated f) ≡ p f)
    → folder_answer user (find_row p (change_row q deactivated folders))
      ≡ folder_answer user (find_row p folders)
unfolding find_row change_row permission_for
folder_answer-change_row user p q [] h = refl
folder_answer-change_row user p q (f ∷ fs) h = elim (Bool-cases (p f)) [
  | inl found ↦ elim (Bool-cases (q f)) [
    | inl gone ↦ rw (gone, h f, found) (folder_answer-deactivated user f)
    | inr kept ↦ rw (kept, found) refl
  ]
  | inr later ↦ elim (Bool-cases (q f)) [
    | inl gone ↦ rw (gone, h f, later) refl
    | inr kept ↦ rw (kept, later) (folder_answer-change_row user p q fs h)
  ]
]

-- No deletion changes what any user is answered about any folder by its identifier: a deleted folder
-- is still there for `get_folder`, which does not look at `is_active`.
pub get_folder-delete_folder :
    (id other : String) (owner user : TokenPayload) (folders : List FolderModel)
    → get_folder other user (delete_folder id owner folders).1 ≡ get_folder other user folders
unfolding get_folder get_accessible_folder delete_folder
get_folder-delete_folder id other owner user folders = go (get_owned_folder id owner folders)
  where
    go :
        (o : Reply FolderModel)
        → folder_answer user (find_row (is_folder other user) (delete_owned id owner folders o).1)
          ≡ folder_answer user (find_row (is_folder other user) folders)
    go (reply f) =
        folder_answer-change_row user (is_folder other user) (is_owned id owner) folders (λ f. refl)
    go (refused status e) = refl
    go (raised e) = refl
