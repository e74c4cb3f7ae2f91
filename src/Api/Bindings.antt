-- ===== src/Api/Bindings.antt =====
-- The workspaces bound to a session: src/api/rest/routers/session_workspaces.py.
use text.Mathlib.Text.{◌==◌, starts_with}
use Prim.Native.String.{◌++◌ as str_append}
use project_kernel_runtime.Base.{
  ℕ, Bool, true, false, not, ◌||◌, Option, none, some, String, List, [], ◌∷◌, ◌++◌, map, any, keep,
  length, ◌==◌ as nat_eq, if◌then◌else◌,
}
use project_kernel_runtime.Auth.Library.{TokenPayload}
use project_kernel_runtime.Crypto.{encrypt_string}
use project_kernel_runtime.Api.{
  WorkspaceType, local, git, WorkspaceModel, SessionRow, Tables, Draw, Environment, Reply, reply,
  refused, change_row, get_session_or_404, and_then,
}
use project_kernel_runtime.Api.Workspaces.{
  WorkspaceBinding, or_none, make_slug, prepare, get_or_create_workspace,
}
use project_kernel_runtime.Api.Sessions.{
  WorkspaceDict, SessionDict, workspace_to_dict, session_to_dict, change_session,
}

unfoldable pub list_workspaces :
    TokenPayload → String → Tables → Reply (List WorkspaceDict) × Tables
unfolding get_session_or_404
list_workspaces user session_id db =
    and_then db (get_session_or_404 session_id user.tenant_id db)
      (λ s. (reply (map workspace_to_dict s.workspaces), db))

abbrev pub with_workspaces : ℕ → List WorkspaceModel → SessionRow → SessionRow
with_workspaces now workspaces s = record s { workspaces = workspaces; last_active_at = now }

abbrev pub workspaces_but : String → List WorkspaceModel → List WorkspaceModel
workspaces_but slug = keep (λ ws. not (ws.slug == slug))

-- The answer when the slug was none of the session's, or was.
abbrev pub after_removal :
    Draw
    → TokenPayload
    → String
    → String
    → List WorkspaceModel
    → SessionRow
    → Tables
    → Bool
    → Reply SessionDict × Tables
after_removal d user session_id slug left s db true =
    (refused 404 (str_append "Workspace '" (str_append slug "' not found in session")), db)
after_removal d user session_id slug left s db false = (
  reply (session_to_dict (with_workspaces d.now left s)),
  change_session session_id user.tenant_id (with_workspaces d.now left) db,
)

abbrev pub remove_from :
    Draw → TokenPayload → String → String → Tables → SessionRow → Reply SessionDict × Tables
remove_from d user session_id slug db s =
    let left = workspaces_but slug s.workspaces in
    after_removal d user session_id slug left s db (nat_eq (length left) (length s.workspaces))

unfoldable pub remove_workspace :
    Draw → TokenPayload → String → String → Tables → Reply SessionDict × Tables
unfolding get_session_or_404 change_row
remove_workspace d user session_id slug db =
    and_then db (get_session_or_404 session_id user.tenant_id db)
      (remove_from d user session_id slug db)

-- `[*current, workspace]`, unless a workspace with that slug is there.
abbrev pub added : WorkspaceModel → List WorkspaceModel → List WorkspaceModel
added workspace current =
    if any (λ ws. ws.slug == workspace.slug) current then current else current ++ workspace ∷ []

abbrev pub after_mount :
    Draw
    → TokenPayload
    → WorkspaceModel
    → List WorkspaceModel
    → SessionRow
    → Tables
    → Option String
    → Reply SessionDict × Tables
after_mount d user workspace rows s db (some e) =
    (refused 400 (str_append "Failed to clone repository: " e), db)
after_mount d user workspace rows s db none =
    let current = added workspace s.workspaces in
    (
      reply (session_to_dict (with_workspaces d.now current s)),
      change_session s.id user.tenant_id (with_workspaces d.now current)
          (record db { workspaces = rows }),
    )

module _ (env : Environment) where
  -- A token that is not yet encrypted is encrypted before it is used.
  abbrev pub mount_token : Option String → Option String
  mount_token none = none
  mount_token (some token) =
      if token == "" || starts_with token "gAAAA"
      then some token
      else some (encrypt_string env.fernet token)

  -- The text of the error of the mount, for a git workspace with a URL.
  abbrev pub mount_error :
      String → Option String → String → WorkspaceType → Option String → Option String
  mount_error session_id token branch local url = none
  mount_error session_id token branch git none = none
  mount_error session_id token branch git (some url) =
      env.mount_repository session_id url (if branch == "" then "main" else branch)
        (mount_token token)

  unfoldable pub add_workspace :
      Draw → TokenPayload → String → WorkspaceBinding → Tables → Reply SessionDict × Tables
  unfolding get_session_or_404 make_slug encrypt_string get_or_create_workspace change_row
  add_workspace d user session_id binding db =
      and_then db (get_session_or_404 session_id user.tenant_id db) (λ s.
        let data' = prepare env user.tenant_id binding (make_slug env binding (d.slug_digits 0)) in
        let (workspace, rows) =
          get_or_create_workspace user.tenant_id (d.workspace_id 0) data' db.workspaces in
        after_mount d user workspace rows s db
          (mount_error session_id s.github_token data'.branch data'.type (or_none data'.url)))
