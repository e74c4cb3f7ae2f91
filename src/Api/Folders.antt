-- ===== src/Api/Folders.antt =====
-- Project folders: src/api/rest/routers/folders.py, folder_utils.py and folder_workspace.py. What the
-- file system and git say of a directory is an argument; the directories themselves are left out.
pub mod Creating
pub mod Access
mod Tests
use text.Mathlib.Text.{◌==◌}
use Prim.Native.String.{◌++◌ as str_append}
use Prim.Native.String
use Prim.Native.Char.{code}
use project_kernel_runtime.Base.{
  ℕ, leb, ◌==◌ as nat_eq, Bool, true, false, not, ◌&&◌, ◌||◌, Option, none, some, String, List, [],
  ◌∷◌, ◌++◌, keep, map, if◌then◌else◌,
}
use project_kernel_runtime.Base.Texts.{is_in}
use project_kernel_runtime.Paths.{take_chars}
use project_kernel_runtime.Auth.Library.{TokenPayload}
use project_kernel_runtime.Api.{Environment, Reply, reply, refused, raised, find_row, change_row}
use project_kernel_runtime.Api.Workspaces.{dashed}
use project_kernel_runtime.Api.Accounts.{filter_chars}

pub record FolderModel : Type 0 where
  pub id : String
  pub name : String
  pub tenant_id : String
  pub owner_id : String
  pub slug : String
  pub shared_with : String
  pub color : String
  pub description : String
  pub is_active : Bool

abbrev pub folder_colors : List String
folder_colors = "cyan" ∷ "violet" ∷ "amber" ∷ "emerald" ∷ "rose" ∷ "sky" ∷ "slate" ∷ []

-- `[a-zA-Z0-9\-_]`
abbrev is_slug_char : ℕ → Bool
is_slug_char c =
    leb 97 c && leb c 122
    || leb 65 c && leb c 90
    || leb 48 c && leb c 57
    || nat_eq c 45
    || nat_eq c 95

-- `slugify`, with the six digits that it draws.
unfoldable pub slugify : Environment → String → String → String
unfolding dashed filter_chars
slugify env name digits =
    let slug = filter_chars is_slug_char (dashed (env.lower name)) in
    str_append (if slug == "" then "folder" else slug) (str_append "-" digits)

abbrev add_char : String → List String → List String
add_char c [] = c ∷ []
add_char c (part ∷ parts) = str_append c part ∷ parts

-- `text.split(",")`
unfoldable pub split_commas : String → List String
split_commas String.[] = "" ∷ []
split_commas (String.◌∷◌ c s) =
    let parts = split_commas s in
    if nat_eq (code c) 44 then "" ∷ parts else add_char (String.◌∷◌ c "") parts

unfoldable pub permission_for : FolderModel → String → String
unfolding split_commas
permission_for folder user_id =
    if folder.owner_id == user_id
    then "owner"
    else (if not (folder.shared_with == "") && is_in user_id (split_commas folder.shared_with)
        then "editor"
        else "viewer")

pub record FolderDict : Type 0 where
  pub id : String
  pub name : String
  pub slug : String
  pub tenant_id : String
  pub color : String
  pub description : String
  pub permission : String

abbrev pub serialize_folder : TokenPayload → FolderModel → FolderDict
serialize_folder user folder = record {
  id = folder.id;
  name = folder.name;
  slug = folder.slug;
  tenant_id = folder.tenant_id;
  color = folder.color;
  description = folder.description;
  permission = permission_for folder user.user_id;
}

abbrev pub is_folder : String → TokenPayload → FolderModel → Bool
is_folder id user folder = folder.id == id && folder.tenant_id == user.tenant_id

abbrev pub accessible : TokenPayload → Option FolderModel → Reply FolderModel
accessible user none = refused 404 "Folder not found"
accessible user (some folder) =
    if not (folder.owner_id == user.user_id)
      && not (is_in user.user_id (split_commas folder.shared_with))
    then refused 403 "Access denied"
    else reply folder

unfoldable pub get_accessible_folder : String → TokenPayload → List FolderModel → Reply FolderModel
unfolding find_row split_commas
get_accessible_folder id user folders = accessible user (find_row (is_folder id user) folders)

abbrev pub owned_folder : Option FolderModel → Reply FolderModel
owned_folder none = refused 404 "Folder not found or access denied"
owned_folder (some folder) = reply folder

abbrev pub is_owned : String → TokenPayload → FolderModel → Bool
is_owned id user folder = is_folder id user folder && folder.owner_id == user.user_id

unfoldable pub get_owned_folder : String → TokenPayload → List FolderModel → Reply FolderModel
unfolding find_row
get_owned_folder id user folders = owned_folder (find_row (is_owned id user) folders)

pub record FolderCreateRequest : Type 0 where
  pub name : String
  pub description : String
  pub color : String
  pub shared_with : String

unfoldable pub new_folder :
    Environment → String → FolderCreateRequest → TokenPayload → String → FolderModel
unfolding take_chars
new_folder env id req user slug = record {
  id = id;
  name = take_chars 64 (env.strip req.name);
  tenant_id = user.tenant_id;
  owner_id = user.user_id;
  slug = slug;
  shared_with = req.shared_with;
  color = if is_in req.color folder_colors then req.color else "cyan";
  description = take_chars 256 req.description;
  is_active = true;
}

unfoldable pub list_folders : TokenPayload → List FolderModel → List FolderDict
unfolding permission_for
list_folders user folders =
    map (serialize_folder user) (keep (λ f. f.tenant_id == user.tenant_id && f.is_active) folders)

abbrev pub serialized : TokenPayload → Reply FolderModel → Reply FolderDict
serialized user (reply folder) = reply (serialize_folder user folder)
serialized user (refused status e) = refused status e
serialized user (raised e) = raised e

unfoldable pub get_folder : String → TokenPayload → List FolderModel → Reply FolderDict
unfolding get_accessible_folder permission_for
get_folder id user folders = serialized user (get_accessible_folder id user folders)

abbrev pub deactivated : FolderModel → FolderModel
deactivated folder = record folder { is_active = false }

abbrev pub delete_owned :
    String → TokenPayload → List FolderModel → Reply FolderModel → Reply String × List FolderModel
delete_owned id user folders (reply folder) =
    (reply id, change_row (is_owned id user) deactivated folders)
delete_owned id user folders (refused status e) = (refused status e, folders)
delete_owned id user folders (raised e) = (raised e, folders)

-- What becomes of the directory is not looked at: its errors are only logged.
unfoldable pub delete_folder :
    String → TokenPayload → List FolderModel → Reply String × List FolderModel
unfolding get_owned_folder change_row
delete_folder id user folders = delete_owned id user folders (get_owned_folder id user folders)
