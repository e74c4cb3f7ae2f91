-- ===== src/Api/Isolation.antt =====
-- No request of one tenant changes the rows of another.
use text.Mathlib.Text.{◌==◌}
use project_kernel_runtime.Base.{
  ◌≡◌, refl, sym, ap, ◌∙◌, Bool, true, false, Option, none, some, String, List, [], ◌∷◌, ◌++◌, keep,
  ◌≢◌, length, ◌==◌ as nat_eq,
}
use project_kernel_runtime.Auth.Library.{TokenPayload}
use project_kernel_runtime.Api.{
  WorkspaceModel, SessionRow, Tables, Draw, Environment, find_row, get_session_or_404,
}
use project_kernel_runtime.Api.Workspaces.{
  WorkspaceBinding, or_none, make_slug, prepare, prepare_workspaces, get_or_create_workspace,
}
use project_kernel_runtime.Api.Views.{view, keep-append_apart}
use project_kernel_runtime.Api.Sessions.{
  SessionCreateRequest, create_session, get_session, rename_session, end_session,
}
use project_kernel_runtime.Api.Bindings.{
  after_removal, workspaces_but, remove_from, after_mount, mount_error, with_workspaces, added,
  add_workspace, remove_workspace, list_workspaces,
}
use project_kernel_runtime.Api.Forks.{is_branch, forked_messages, fork_of, fork_session}
use project_kernel_runtime.Api.Tasks.{dispatch_task, new_task, task_event}
use project_kernel_runtime.Api.Requests.{
  Request, create, sessions, session, rename, end_, fork, add, remove, workspaces, dispatch, tasks,
  answer_request,
}
use project_kernel_runtime.Api.Untouched.{
  Same, eq_false_of_ne, and_then-Same, with_body-Same, change_session-Same,
  get_or_create_workspace-Same, bind_workspaces-Same, forked_apart,
}

module _ (t : String) (u : TokenPayload) (ne : u.tenant_id ≢ t) where
  -- A session and its workspaces that another tenant has opened.
  opened-Same :
      (db : Tables) (s : SessionRow) (rows : List WorkspaceModel)
      → s.tenant_id ≡ u.tenant_id
      → keep (λ w. w.tenant_id == t) rows ≡ keep (λ w. w.tenant_id == t) db.workspaces
      → Same t db (record db { sessions = db.sessions ++ s ∷ []; workspaces = rows })
  opened-Same db s rows e h =
      rw
        (
          h,
          keep-append_apart (λ s. s.tenant_id == t) db.sessions (s ∷ [])
              (eq_false_of_ne s.tenant_id t (λ e'. ne (sym e ∙ e')), tt),
        )
        refl

  create_session-Same :
      (env : Environment) (d : Draw) (r : SessionCreateRequest) (db : Tables)
      → Same t db (create_session env d u r db).1
  unfolding create_session
  create_session-Same env d r db = opened-Same db _ _ refl (
      bind_workspaces-Same t u.tenant_id d.workspace_id 0
        (prepare_workspaces env r.workspaces u.tenant_id d.slug_digits) db.workspaces ne)

  rename_session-Same :
      (env : Environment) (d : Draw) (id name : String) (db : Tables)
      → Same t db (rename_session env d u id name db).1
  unfolding rename_session
  rename_session-Same env d id name db =
      and_then-Same t db _ _ (λ s. change_session-Same t id u.tenant_id _ db ne (λ s. refl))

  end_session-Same : (id : String) (db : Tables) → Same t db (end_session u id db).1
  unfolding end_session
  end_session-Same id db =
      and_then-Same t db _ _ (λ s. change_session-Same t id u.tenant_id _ db ne (λ s. refl))

  after_removal-Same :
      (d : Draw) (id slug : String) (left : List WorkspaceModel) (s : SessionRow) (db : Tables)
      (b : Bool)
      → Same t db (after_removal d u id slug left s db b).1
  after_removal-Same d id slug left s db true = refl
  after_removal-Same d id slug left s db false =
      change_session-Same t id u.tenant_id (with_workspaces d.now left) db ne (λ s. refl)

  remove_workspace-Same :
      (d : Draw) (id slug : String) (db : Tables) → Same t db (remove_workspace d u id slug db).1
  unfolding remove_workspace
  remove_workspace-Same d id slug db =
      and_then-Same t db (get_session_or_404 id u.tenant_id db) (remove_from d u id slug db) (λ s.
        let left = workspaces_but slug s.workspaces in
        after_removal-Same d id slug left s db (nat_eq (length left) (length s.workspaces)))

  after_mount-Same :
      (d : Draw) (ws : WorkspaceModel) (rows : List WorkspaceModel) (s : SessionRow) (db : Tables)
      (o : Option String)
      → keep (λ w. w.tenant_id == t) rows ≡ keep (λ w. w.tenant_id == t) db.workspaces
      → Same t db (after_mount d u ws rows s db o).1
  after_mount-Same d ws rows s db (some e) h = refl
  after_mount-Same d ws rows s db none h =
      change_session-Same t s.id u.tenant_id (with_workspaces d.now (added ws s.workspaces))
        (record db { workspaces = rows }) ne (λ s. refl)
      ∙ ap (λ r. record (view t db) { workspaces = r }) h

  add_workspace-Same :
      (env : Environment) (d : Draw) (id : String) (w : WorkspaceBinding) (db : Tables)
      → Same t db (add_workspace env d u id w db).1
  unfolding add_workspace
  add_workspace-Same env d id w db =
      let data' = prepare env u.tenant_id w (make_slug env w (d.slug_digits 0)) in
      let made = get_or_create_workspace u.tenant_id (d.workspace_id 0) data' db.workspaces in
      and_then-Same t db _ _ (λ s.
        after_mount-Same d made.0 made.1 s db
          (mount_error env id s.github_token data'.branch data'.type (or_none data'.url))
          (get_or_create_workspace-Same t u.tenant_id (d.workspace_id 0) data' db.workspaces ne))

  fork_of-Same :
      (env : Environment) (d : Draw) (id message_id : String) (s : SessionRow)
      (old : List WorkspaceModel) (db : Tables)
      → Same t db (fork_of env d u id message_id s old db).1
  fork_of-Same env d id message_id s (ws ∷ rest) db = refl
  fork_of-Same env d id message_id s [] db =
      let branch = find_row (is_branch message_id id u.tenant_id) db.messages in
      rw
        (keep-append_apart (λ m. m.tenant_id == t) db.messages
          (forked_messages d id u.tenant_id branch db.messages)
          (forked_apart t d id u.tenant_id branch db.messages ne))
        (opened-Same db _ _ refl (
          bind_workspaces-Same t u.tenant_id d.workspace_id 0
            (prepare_workspaces env [] u.tenant_id d.slug_digits) db.workspaces ne))

  fork_session-Same :
      (env : Environment) (d : Draw) (id message_id : String) (db : Tables)
      → Same t db (fork_session env d u id message_id db).1
  unfolding fork_session
  fork_session-Same env d id message_id db =
      and_then-Same t db _ _ (λ s. fork_of-Same env d id message_id s s.workspaces db)

  dispatched-Same :
      (d : Draw) (id description : String) (db : Tables)
      → Same t db (record db {
        tasks = db.tasks ++ new_task d u id description ∷ [];
        task_queue = db.task_queue ++ task_event d u id description ∷ [];
      })
  dispatched-Same d id description db =
      let apart = eq_false_of_ne u.tenant_id t ne in
      rw
        (
          keep-append_apart (λ x. x.tenant_id == t) db.tasks (new_task d u id description ∷ [])
              (apart, tt),
          keep-append_apart (λ x. x.tenant_id == t) db.task_queue
              (task_event d u id description ∷ []) (apart, tt),
        )
        refl

  dispatch_task-Same :
      (d : Draw) (id description : String) (db : Tables)
      → Same t db (dispatch_task d u id description db).1
  unfolding dispatch_task
  dispatch_task-Same d id description db =
      and_then-Same t db _ _ (λ _. dispatched-Same d id description db)

  get_session-Same : (id : String) (db : Tables) → Same t db (get_session u id db).1
  unfolding get_session
  get_session-Same id db = and_then-Same t db _ _ (λ s. refl)

  list_workspaces-Same : (id : String) (db : Tables) → Same t db (list_workspaces u id db).1
  unfolding list_workspaces
  list_workspaces-Same id db = and_then-Same t db _ _ (λ s. refl)

  -- A request leaves the rows of every other tenant as they were.
  pub answer_request-Same :
      (env : Environment) (d : Draw) (r : Request) (db : Tables)
      → Same t db (answer_request env d u r db).1
  unfolding answer_request
  answer_request-Same env d (create r) db = with_body-Same t _ db _ (create_session-Same env d r db)
  answer_request-Same env d sessions db = refl
  answer_request-Same env d (session id) db = with_body-Same t _ db _ (get_session-Same id db)
  answer_request-Same env d (rename id name) db =
      with_body-Same t _ db _ (rename_session-Same env d id name db)
  answer_request-Same env d (end_ id) db = with_body-Same t _ db _ (end_session-Same id db)
  answer_request-Same env d (fork id message_id) db =
      with_body-Same t _ db _ (fork_session-Same env d id message_id db)
  answer_request-Same env d (add id binding) db =
      with_body-Same t _ db _ (add_workspace-Same env d id binding db)
  answer_request-Same env d (remove id slug) db =
      with_body-Same t _ db _ (remove_workspace-Same d id slug db)
  answer_request-Same env d (workspaces id) db =
      with_body-Same t _ db _ (list_workspaces-Same id db)
  answer_request-Same env d (dispatch id description) db =
      with_body-Same t _ db _ (dispatch_task-Same d id description db)
  answer_request-Same env d tasks db = refl
