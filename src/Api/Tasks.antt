-- ===== src/Api/Tasks.antt =====
-- Tasks: src/api/rest/routers/tasks.py, and whom task_stream.py lets stream one.
use text.Mathlib.Text.{◌==◌}
use project_kernel_runtime.Base.{
  ℕ, leb, Bool, true, false, ◌&&◌, Option, none, some, String, List, [], ◌∷◌, ◌++◌, map, keep, take,
  if◌then◌else◌,
}
use project_kernel_runtime.Auth.{JwtConfig, decode_token}
use project_kernel_runtime.Auth.Library.{
  JwtLibrary, Outcome, TokenPayload, returned, http_error, runtime_error, key_error,
}
use project_kernel_runtime.Api.{
  SessionRow, TaskRow, QueuedTask, Tables, Draw, Reply, reply, refused, find_row, is_session,
  and_then, local_user,
}
use project_kernel_runtime.Api.Sessions.{order_by}

abbrev pub access_of : Option SessionRow → Reply (Unit {0})
access_of none = refused 403 "Not authorized or session not found"
access_of (some s) = reply tt

unfoldable pub assert_session_access : String → TokenPayload → Tables → Reply (Unit {0})
unfolding find_row
assert_session_access session_id user db =
    access_of (find_row (is_session session_id user.tenant_id) db.sessions)

abbrev pub new_task : Draw → TokenPayload → String → String → TaskRow
new_task d user session_id description = record {
  id = d.task_id;
  tenant_id = user.tenant_id;
  session_id = session_id;
  description = description;
  status = "pending";
  created_at = d.now;
}

abbrev pub task_event : Draw → TokenPayload → String → String → QueuedTask
task_event d user session_id description = record {
  event_type = "AGENT_THINK";
  task_id = d.task_id;
  session_id = session_id;
  description = description;
  tenant_id = user.tenant_id;
}

-- The task's row is written, and then its event is published.
unfoldable pub dispatch_task :
    Draw → TokenPayload → String → String → Tables → Reply String × Tables
unfolding assert_session_access
dispatch_task d user session_id description db =
    and_then db (assert_session_access session_id user db) (λ _. (
      reply d.task_id,
      record db {
        tasks = db.tasks ++ new_task d user session_id description ∷ [];
        task_queue = db.task_queue ++ task_event d user session_id description ∷ [];
      },
    ))

pub record TaskDict : Type 0 where
  pub id : String
  pub tenant_id : String
  pub description : String
  pub status : String
  pub created_at : ℕ

abbrev pub task_to_dict : TaskRow → TaskDict
task_to_dict t = record {
  id = t.id;
  tenant_id = t.tenant_id;
  description = t.description;
  status = t.status;
  created_at = t.created_at;
}

-- The newest 50.
unfoldable pub list_tasks : TokenPayload → Tables → List TaskDict
unfolding order_by
list_tasks user db = map task_to_dict (
    take 50 (
      order_by (λ t t'. leb t'.created_at t.created_at)
        (keep (λ t. t.tenant_id == user.tenant_id) db.tasks)))

abbrev pub is_some {ℓ} : {A : Type ℓ} → Option A → Bool
is_some none = false
is_some (some a) = true

unfoldable pub task_belongs_to_tenant : String → String → Tables → Bool
unfolding find_row
task_belongs_to_tenant task_id tenant_id db =
    is_some (find_row (λ t. t.id == task_id && t.tenant_id == tenant_id) db.tasks)

-- What a WebSocket becomes: closed with a code, accepted for a user, or the error that goes on.
pub data Stream : Type 0 where
  closed : ℕ → Stream
  accepted : TokenPayload → Stream
  failed : String → Stream

abbrev pub user_or_none : Outcome TokenPayload → Outcome (Option TokenPayload)
user_or_none (returned user) = returned (some user)
user_or_none (http_error status e) = returned none
user_or_none (runtime_error e) = runtime_error e
user_or_none (key_error e) = key_error e

abbrev pub or_local : Option String → String
or_local none = "local"
or_local (some tenant_id) = if tenant_id == "" then "local" else tenant_id

abbrev pub anonymous_user : Bool → Option String → Outcome (Option TokenPayload)
anonymous_user allow_anon_local tenant_id =
    returned (if allow_anon_local then some (local_user (or_local tenant_id)) else none)

abbrev pub stream_for : String → Tables → Outcome (Option TokenPayload) → Stream
stream_for task_id db (returned none) = closed 4401
stream_for task_id db (returned (some user)) =
    if task_belongs_to_tenant task_id user.tenant_id db then accepted user else closed 4404
stream_for task_id db (http_error status e) = failed e
stream_for task_id db (runtime_error e) = failed e
stream_for task_id db (key_error e) = failed e

module _ {T : Type 0} (jwt : JwtLibrary T) (config : JwtConfig) (is_empty : T → Bool) where
  -- Without a token, the tenant that the query names is taken at its word.
  unfoldable pub resolve_stream_user :
      Bool → ℕ → Option T → Option String → Outcome (Option TokenPayload)
  unfolding decode_token
  resolve_stream_user allow_anon_local now none tenant_id =
      anonymous_user allow_anon_local tenant_id
  resolve_stream_user allow_anon_local now (some token) tenant_id =
      if is_empty token
      then anonymous_user allow_anon_local tenant_id
      else user_or_none (decode_token jwt config now token)

  unfoldable pub stream_task_logs : Bool → ℕ → String → Option String → Option T → Tables → Stream
  unfolding resolve_stream_user task_belongs_to_tenant
  stream_task_logs allow_anon_local now task_id tenant_id token db =
      stream_for task_id db (resolve_stream_user allow_anon_local now token tenant_id)
