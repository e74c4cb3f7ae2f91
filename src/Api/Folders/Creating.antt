-- ===== src/Api/Folders/Creating.antt =====
-- New, cloned and imported folders: src/api/rest/routers/folders.py and folder_workspace.py.
use text.Mathlib.Text.{◌==◌}
use Prim.Native.String.{◌++◌ as str_append}
use project_kernel_runtime.Base.{
  Bool, true, false, Option, none, some, String, List, [], ◌∷◌, ◌++◌, if◌then◌else◌,
}
use project_kernel_runtime.Auth.Library.{TokenPayload}
use project_kernel_runtime.Api.{Environment, Reply, reply, refused, raised}
use project_kernel_runtime.Api.Folders.{
  FolderModel, slugify, FolderDict, serialize_folder, FolderCreateRequest, new_folder,
}

-- A folder is added once its directory is there.
abbrev pub added_when :
    TokenPayload
    → FolderModel
    → List FolderModel
    → Reply (Unit {0})
    → Reply FolderDict × List FolderModel
added_when user folder folders (reply _) =
    (reply (serialize_folder user folder), folders ++ folder ∷ [])
added_when user folder folders (refused status e) = (refused status e, folders)
added_when user folder folders (raised e) = (raised e, folders)

-- `clone_repo`: whether the target is there, and the error of git, if any.
abbrev pub clone_repo : String → Bool → Option String → Reply (Unit {0})
clone_repo slug true failure =
    refused 400 (str_append "Project '" (str_append slug "' already exists."))
clone_repo slug false none = reply tt
clone_repo slug false (some e) = refused 500 (str_append "Git clone failed: " e)

-- `link_local_folder`: whether the target is there and a directory, and the link's path is taken.
abbrev pub link_local_folder : String → String → Bool → Bool → Bool → Reply (Unit {0})
link_local_folder path slug false is_dir taken =
    refused 400 (str_append "Local path does not exist: " path)
link_local_folder path slug true false taken = refused 400 "Specified path is not a directory."
link_local_folder path slug true true true =
    refused 400 (str_append "Workspace path already exists: " slug)
link_local_folder path slug true true false = reply tt

module _ (env : Environment) (id digits : String) (user : TokenPayload) where
  unfoldable pub create_folder :
      FolderCreateRequest → List FolderModel → Reply FolderDict × List FolderModel
  unfolding new_folder slugify
  create_folder req folders =
      added_when user (new_folder env id req user (slugify env req.name digits)) folders (reply tt)

  abbrev pub cloned_description : String → String → String
  cloned_description description url =
      if description == "" then str_append "Cloned from " url else description

  unfoldable pub clone_git_repo :
      String
      → String
      → String
      → String
      → Bool
      → Option String
      → List FolderModel
      → Reply FolderDict × List FolderModel
  unfolding new_folder slugify
  clone_git_repo name url description color there failure folders =
      let slug = slugify env name digits in
      let req : FolderCreateRequest = record {
        name = name;
        description = cloned_description description url;
        color = color;
        shared_with = "";
      } in
      added_when user (new_folder env id req user slug) folders (clone_repo slug there failure)

  unfoldable pub import_local_folder :
      String
      → String
      → String
      → String
      → Bool
      → Bool
      → Bool
      → List FolderModel
      → Reply FolderDict × List FolderModel
  unfolding new_folder slugify
  import_local_folder name path description color there is_dir taken folders =
      let slug = slugify env name digits in
      let req : FolderCreateRequest = record {
        name = name;
        description = description;
        color = color;
        shared_with = "";
      } in
      added_when user (new_folder env id req user slug) folders
        (link_local_folder path slug there is_dir taken)
