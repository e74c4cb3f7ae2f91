-- ===== src/Api/Requests.antt =====
-- The requests of users: one route after another (src/api/rest/routers).
use project_kernel_runtime.Base.{String, List, [], ◌∷◌}
use project_kernel_runtime.Auth.Library.{TokenPayload}
use project_kernel_runtime.Api.{Tables, Draw, Environment, Reply, reply, refused, raised}
use project_kernel_runtime.Api.Workspaces.{WorkspaceBinding}
use project_kernel_runtime.Api.Sessions.{
  WorkspaceDict, SessionDict, SessionCreateRequest, create_session, list_sessions, get_session,
  rename_session, end_session,
}
use project_kernel_runtime.Api.Bindings.{add_workspace, remove_workspace, list_workspaces}
use project_kernel_runtime.Api.Forks.{fork_session}
use project_kernel_runtime.Api.Tasks.{TaskDict, dispatch_task, list_tasks}

-- A request names a session, and what it brings.
pub data Request : Type 0 where
  create : SessionCreateRequest → Request
  sessions : Request
  session : String → Request
  rename : String → String → Request
  end_ : String → Request
  fork : String → String → Request
  add : String → WorkspaceBinding → Request
  remove : String → String → Request
  workspaces : String → Request
  dispatch : String → String → Request
  tasks : Request

pub data Body : Type 0 where
  session_body : SessionDict → Body
  sessions_body : List SessionDict → Body
  named : String × String → Body
  ended : String → Body
  workspaces_body : List WorkspaceDict → Body
  accepted : String → Body
  tasks_body : List TaskDict → Body

abbrev pub with_body : {A : Type 0} → (A → Body) → Reply A × Tables → Reply Body × Tables
with_body f (reply a, db) = (reply (f a), db)
with_body f (refused status detail, db) = (refused status detail, db)
with_body f (raised e, db) = (raised e, db)

-- A request, with its user and its draw.
pub record Call : Type 0 where
  pub user : TokenPayload
  pub draw : Draw
  pub request : Request

module _ (env : Environment) where
  unfoldable pub answer_request : Draw → TokenPayload → Request → Tables → Reply Body × Tables
  answer_request d user (create req) db = with_body session_body (create_session env d user req db)
  answer_request d user sessions db = (reply (sessions_body (list_sessions user db)), db)
  answer_request d user (session id) db = with_body session_body (get_session user id db)
  answer_request d user (rename id name) db = with_body named (rename_session env d user id name db)
  answer_request d user (end_ id) db = with_body ended (end_session user id db)
  answer_request d user (fork id message_id) db =
      with_body session_body (fork_session env d user id message_id db)
  answer_request d user (add id binding) db =
      with_body session_body (add_workspace env d user id binding db)
  answer_request d user (remove id slug) db =
      with_body session_body (remove_workspace d user id slug db)
  answer_request d user (workspaces id) db = with_body workspaces_body (list_workspaces user id db)
  answer_request d user (dispatch id description) db =
      with_body accepted (dispatch_task d user id description db)
  answer_request d user tasks db = (reply (tasks_body (list_tasks user db)), db)

  -- The calls one after another: each answer with its tenant, and the tables at the end.
  unfoldable pub serve : List Call → Tables → List (String × Reply Body) × Tables
  unfolding answer_request
  serve [] db = ([], db)
  serve (c ∷ cs) db =
      let (answer, db') = answer_request c.draw c.user c.request db in
      let (answers, db'') = serve cs db' in ((c.user.tenant_id, answer) ∷ answers, db'')
