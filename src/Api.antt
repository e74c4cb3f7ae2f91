-- ===== src/Api.antt =====
-- The rows that the routes of src/api/rest read and write, the answers they give, and the user of a
-- request (src/api/rest/dependencies.py). A table is the list of its rows, the oldest first. What a
-- request reads from `uuid4` and the clock is its `Draw`. A failed request leaves the tables alone:
-- the database session rolls back.
pub mod Workspaces
pub mod Sessions
pub mod Bindings
pub mod Forks
pub mod Tasks
pub mod Streams
pub mod Accounts
pub mod Folders
pub mod Uploads
pub mod Config
pub mod Sample
pub mod Requests
pub mod Views
pub mod Commuting
pub mod Copying
pub mod Handling
pub mod Untouched
pub mod Isolation
pub mod Interleaving
pub mod Lifecycle
mod Tests
use package.text.Mathlib.Text.{◌==◌}
use project_kernel_runtime.Base.{
  ℕ, Bool, true, false, ◌&&◌, Option, none, some, String, List, [], ◌∷◌, ◌++◌, if◌then◌else◌,
}
use project_kernel_runtime.Crypto.{Fernet}
use project_kernel_runtime.Store.{ℤ, ToolCall}
use project_kernel_runtime.Values.{Kwargs, other}
use project_kernel_runtime.Auth.{JwtConfig, decode_token}
use project_kernel_runtime.Auth.Library.{
  JwtLibrary, Outcome, TokenPayload, returned, http_error, runtime_error, key_error,
}

pub data WorkspaceType : Type 0 where
  local git : WorkspaceType

pub record WorkspaceModel : Type 0 where
  pub id : String
  pub tenant_id : String
  pub slug : String
  pub name : String
  pub type : WorkspaceType
  pub path : Option String
  pub url : Option String
  pub branch : String

-- A row of the table `sessions`. Its workspaces, which no route here changes, stand in the row.
-- `github_token` is `context["github"]["access_token"]`.
pub record SessionRow : Type 0 where
  pub id : String
  pub tenant_id : String
  pub organization_id : Option String
  pub user_id : String
  pub name : String
  pub user_role : String
  pub mode : String
  pub workspaces : List WorkspaceModel
  pub github_token : Option String
  pub is_active : Bool
  pub created_at : ℕ
  pub last_active_at : ℕ

pub record TaskRow : Type 0 where
  pub id : String
  pub tenant_id : String
  pub session_id : String
  pub description : String
  pub status : String
  pub created_at : ℕ

pub record MessageRow : Type 0 where
  pub id : String
  pub tenant_id : String
  pub session_id : String
  pub task_id : Option String
  pub role : String
  pub content : String
  pub tool_call_id : Option String
  pub tool_calls : List ToolCall
  pub extra_metadata : Kwargs
  pub sequence : ℤ

-- An event of the stream `task_queue`.
pub record QueuedTask : Type 0 where
  pub event_type : String
  pub task_id : String
  pub session_id : String
  pub description : String
  pub tenant_id : String

-- The tables, and the events that were published.
pub record Tables : Type 0 where
  pub sessions : List SessionRow
  pub workspaces : List WorkspaceModel
  pub tasks : List TaskRow
  pub messages : List MessageRow
  pub task_queue : List QueuedTask

-- What a request draws: identifiers of new rows, hexadecimal digits for slugs, and the time.
pub record Draw : Type 0 where
  pub session_id : String
  pub task_id : String
  pub workspace_id : ℕ → String
  pub message_id : ℕ → String
  pub slug_digits : ℕ → String
  pub now : ℕ

-- What the routes take from their environment: `str.strip`, `str.lower`, the last part of a path, the
-- text of the directory of a tenant's workspace, Fernet, and the repository
-- mount, which gives the text of its RuntimeError, if any.
pub record Environment : Type 0 where
  pub strip : String → String
  pub lower : String → String
  pub path_name : String → String
  pub workspace_path : String → String → String
  pub fernet : Fernet
  pub mount_repository : String → String → String → Option String → Option String

-- An answer, an HTTPException with its status and text, or another exception.
pub data Reply (A : Type 0) : Type 0 where
  reply : A → Reply A
  refused : ℕ → String → Reply A
  raised : String → Reply A

-- `scalar_one_or_none` of a query by a primary or a unique key, and the change of the row it gives.
unfoldable pub find_row : {A : Type 0} → (A → Bool) → List A → Option A
find_row p [] = none
find_row p (x ∷ xs) = if p x then some x else find_row p xs

unfoldable pub change_row : {A : Type 0} → (A → Bool) → (A → A) → List A → List A
change_row p f [] = []
change_row p f (x ∷ xs) = let rest = change_row p f xs in if p x then f x ∷ xs else x ∷ rest

-- `SessionModel.id == session_id` and `SessionModel.tenant_id == tenant_id`
abbrev pub is_session : String → String → SessionRow → Bool
is_session session_id tenant_id s = s.id == session_id && s.tenant_id == tenant_id

abbrev pub found_session : Option SessionRow → Reply SessionRow
found_session none = refused 404 "Session not found"
found_session (some s) = reply s

unfoldable pub get_session_or_404 : String → String → Tables → Reply SessionRow
unfolding find_row
get_session_or_404 session_id tenant_id db =
    found_session (find_row (is_session session_id tenant_id) db.sessions)

-- `await` of a helper that may raise: the rest of the route runs on its result.
abbrev pub and_then : {A B : Type 0} → Tables → Reply A → (A → Reply B × Tables) → Reply B × Tables
and_then db (reply a) k = k a
and_then db (refused status detail) k = (refused status detail, db)
and_then db (raised e) k = (raised e, db)

abbrev pub local_user : String → TokenPayload
local_user tenant_id = record {
  tenant_id = tenant_id;
  user_id = "local";
  email = "local@dev.local";
  role = "developer";
  tier = "pro";
  limits = ("rpm", other "60" true) ∷ ("rph", other "500" true) ∷ [];
  exp = 0;
  iat = 0;
  organization_id = none;
}

abbrev pub anonymous : Bool → Outcome TokenPayload
anonymous allow_anon_local =
    if allow_anon_local
    then returned (local_user "local")
    else http_error 401 "Authentication required"

abbrev pub chosen_token : {T : Type 0} → Option T → Option T → Option T
chosen_token (some credentials) query = some credentials
chosen_token none query = query

-- `not token`, for a token that may be empty.
module _ {T : Type 0} (jwt : JwtLibrary T) (config : JwtConfig) (is_empty : T → Bool) where
  abbrev pub user_of : Bool → ℕ → Option T → Outcome TokenPayload
  user_of allow_anon_local now none = anonymous allow_anon_local
  user_of allow_anon_local now (some token) =
      if is_empty token then anonymous allow_anon_local else decode_token jwt config now token

  -- The credentials of the header, and the parameter `token` of the query.
  unfoldable pub get_current_user_dep : Bool → ℕ → Option T → Option T → Outcome TokenPayload
  unfolding decode_token
  get_current_user_dep allow_anon_local now credentials query =
      user_of allow_anon_local now (chosen_token credentials query)
