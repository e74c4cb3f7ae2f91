-- ===== src/Api/Folders/Tests.antt =====
-- A folder that is shared with one user, seen by another.
use text.Mathlib.Text.{◌==◌}
use project_kernel_runtime.Base.{◌≡◌, refl, true, [], ◌∷◌, if◌then◌else◌}
use project_kernel_runtime.Auth.Library.{TokenPayload}
use project_kernel_runtime.Api.{refused, reply, find_row}
use project_kernel_runtime.Api.Folders.{
  FolderModel, permission_for, serialize_folder, get_folder, delete_folder,
}
use project_kernel_runtime.Api.Folders.Access.{get_folder-permission_for, get_folder-delete_folder}
use project_kernel_runtime.Api.Sample.{member}

abbrev plans : FolderModel
plans = record {
  id = "f1";
  name = "Plans";
  tenant_id = "acme";
  owner_id = "u7";
  slug = "plans-abc123";
  shared_with = "u2,u3";
  color = "cyan";
  description = "";
  is_active = true;
}

abbrev owner : TokenPayload
owner = record (member "acme") { user_id = "u7" }

get_folder-permission_for_example : get_folder "f1" (member "acme") (plans ∷ []) ≡ (
    if permission_for plans "u1" == "viewer"
    then refused 403 "Access denied"
    else reply (serialize_folder (member "acme") plans))
unfolding find_row
get_folder-permission_for_example =
    get_folder-permission_for "f1" (member "acme") (plans ∷ []) plans refl refl

get_folder-delete_folder_example :
    get_folder "f1" owner (delete_folder "f1" owner (plans ∷ [])).1
    ≡ get_folder "f1" owner (plans ∷ [])
get_folder-delete_folder_example = get_folder-delete_folder "f1" "f1" owner owner (plans ∷ [])
