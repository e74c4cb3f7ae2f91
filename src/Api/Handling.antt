-- ===== src/Api/Handling.antt =====
-- Each route answers from its tenant's rows, and changes them alone.
use text.Mathlib.Text.{◌==◌}
use text.Mathlib.TextPositions.{eq_refl}
use project_kernel_runtime.Base.{
  ◌≡◌, refl, sym, ap, ◌∙◌, Bool, true, false, and_left, Option, none, some, String, List, [], ◌∷◌,
  ◌++◌, keep,
}
use project_kernel_runtime.Auth.Library.{TokenPayload}
use project_kernel_runtime.Api.{
  WorkspaceModel, SessionRow, Tables, Draw, Environment, Reply, reply, refused, raised,
}
use project_kernel_runtime.Api.Workspaces.{
  WorkspaceBinding, or_none, make_slug, prepare, prepare_workspaces, get_or_create_workspace,
  bind_workspaces,
}
use project_kernel_runtime.Api.Views.{view, keep-keep, keep-append_own}
use project_kernel_runtime.Api.Sessions.{
  SessionCreateRequest, session_to_dict, new_session, trimmed, create_session, list_sessions,
  get_session, rename_session, end_session, is_listed,
}
use project_kernel_runtime.Api.Bindings.{
  after_removal, after_mount, mount_error, with_workspaces, added, add_workspace, remove_workspace,
  list_workspaces,
}
use project_kernel_runtime.Api.Commuting.{
  viewed, owned, on_session-view, change_session-view, get_or_create_workspace-view,
  bind_workspaces-view,
}
use project_kernel_runtime.Api.Requests.{
  Request, create, sessions, session, rename, end_, fork, add, remove, workspaces, dispatch, tasks,
  Body, with_body, answer_request,
}
use project_kernel_runtime.Api.Copying.{fork_session-view, dispatch_task-view, list_tasks-view}

abbrev mine : TokenPayload → Tables → Tables
mine user db = view user.tenant_id db

-- The rows of a new session and of its workspaces are the tenant's.
abbrev opened : Tables → SessionRow → List WorkspaceModel → Tables
opened db s rows = record db { sessions = db.sessions ++ s ∷ []; workspaces = rows }

opened-view :
    (t : String) (db : Tables) (s : SessionRow) (rows : List WorkspaceModel)
    → s.tenant_id ≡ t
    → view t (opened db s rows) ≡ opened (view t db) s (keep (owned t) rows)
opened-view t db s rows h =
    ap (λ ss. record (view t db) { sessions = ss; workspaces = keep (owned t) rows })
      (keep-append_own (λ s. s.tenant_id == t) db.sessions s
        (ap (λ (u : String). u == t) h ∙ eq_refl t))

create_session-view :
    (env : Environment) (d : Draw) (u : TokenPayload) (r : SessionCreateRequest) (db : Tables)
    → create_session env d u r (mine u db) ≡ viewed u.tenant_id (create_session env d u r db)
unfolding create_session
create_session-view env d u r db =
    let rows = prepare_workspaces env r.workspaces u.tenant_id d.slug_digits in
    let b = bind_workspaces u.tenant_id d.workspace_id 0 rows db.workspaces in
    let s = new_session d u (trimmed env r.name) u.role r.mode b.0 in
    rw (bind_workspaces-view u.tenant_id d.workspace_id 0 rows db.workspaces)
      (ap (λ db'. (reply (session_to_dict s), db')) (sym (opened-view u.tenant_id db s b.1 refl)))

list_sessions-view :
    (u : TokenPayload) (db : Tables) → list_sessions u (mine u db) ≡ list_sessions u db
unfolding list_sessions
list_sessions-view u db =
    rw
      (keep-keep (is_listed u.tenant_id) (λ s. s.tenant_id == u.tenant_id) db.sessions
        (λ s h. and_left (s.tenant_id == u.tenant_id) s.is_active h))
      refl

get_session-view :
    (u : TokenPayload) (id : String) (db : Tables)
    → get_session u id (mine u db) ≡ viewed u.tenant_id (get_session u id db)
unfolding get_session
get_session-view u id db = on_session-view id u.tenant_id db _ _ (λ s. refl)

list_workspaces-view :
    (u : TokenPayload) (id : String) (db : Tables)
    → list_workspaces u id (mine u db) ≡ viewed u.tenant_id (list_workspaces u id db)
unfolding list_workspaces
list_workspaces-view u id db = on_session-view id u.tenant_id db _ _ (λ s. refl)

rename_session-view :
    (env : Environment) (d : Draw) (u : TokenPayload) (id name : String) (db : Tables)
    → rename_session env d u id name (mine u db)
      ≡ viewed u.tenant_id (rename_session env d u id name db)
unfolding rename_session
rename_session-view env d u id name db = on_session-view id u.tenant_id db _ _ (λ s.
    ap (λ db'. (reply (id, trimmed env name), db'))
      (change_session-view id u.tenant_id _ db (λ s. refl)))

end_session-view :
    (u : TokenPayload) (id : String) (db : Tables)
    → end_session u id (mine u db) ≡ viewed u.tenant_id (end_session u id db)
unfolding end_session
end_session-view u id db =
    on_session-view id u.tenant_id db _ _
      (λ s. ap (λ db'. (reply id, db')) (change_session-view id u.tenant_id _ db (λ s. refl)))

after_removal-view :
    (d : Draw) (u : TokenPayload) (id slug : String) (left : List WorkspaceModel) (s : SessionRow)
    (db : Tables) (b : Bool)
    → after_removal d u id slug left s (mine u db) b
      ≡ viewed u.tenant_id (after_removal d u id slug left s db b)
after_removal-view d u id slug left s db true = refl
after_removal-view d u id slug left s db false =
    ap (λ db'. (reply (session_to_dict (with_workspaces d.now left s)), db'))
      (change_session-view id u.tenant_id (with_workspaces d.now left) db (λ s. refl))

remove_workspace-view :
    (d : Draw) (u : TokenPayload) (id slug : String) (db : Tables)
    → remove_workspace d u id slug (mine u db)
      ≡ viewed u.tenant_id (remove_workspace d u id slug db)
unfolding remove_workspace
remove_workspace-view d u id slug db =
    on_session-view id u.tenant_id db _ _ (λ s. after_removal-view d u id slug _ s db _)

after_mount-view :
    (d : Draw) (u : TokenPayload) (ws : WorkspaceModel) (rows : List WorkspaceModel)
    (s : SessionRow) (db : Tables) (o : Option String)
    → after_mount d u ws (keep (owned u.tenant_id) rows) s (mine u db) o
      ≡ viewed u.tenant_id (after_mount d u ws rows s db o)
after_mount-view d u ws rows s db none =
    let current = added ws s.workspaces in
    ap (λ db'. (reply (session_to_dict (with_workspaces d.now current s)), db'))
      (change_session-view s.id u.tenant_id (with_workspaces d.now current)
        (record db { workspaces = rows }) (λ s. refl))
after_mount-view d u ws rows s db (some e) = refl

add_workspace-view :
    (env : Environment) (d : Draw) (u : TokenPayload) (id : String) (w : WorkspaceBinding)
    (db : Tables)
    → add_workspace env d u id w (mine u db) ≡ viewed u.tenant_id (add_workspace env d u id w db)
unfolding add_workspace
add_workspace-view env d u id w db =
    let data' = prepare env u.tenant_id w (make_slug env w (d.slug_digits 0)) in
    let made = get_or_create_workspace u.tenant_id (d.workspace_id 0) data' db.workspaces in
    on_session-view id u.tenant_id db _ _ (λ s.
      rw (get_or_create_workspace-view u.tenant_id (d.workspace_id 0) data' db.workspaces) (
        after_mount-view d u made.0 made.1 s db
          (mount_error env id s.github_token data'.branch data'.type (or_none data'.url))))

with_body-view :
    {A : Type 0} (t : String) (f : A → Body) (p p' : Reply A × Tables)
    → p' ≡ viewed t p
    → with_body f p' ≡ viewed t (with_body f p)
with_body-view t f (reply a, db) p' h = ap (with_body f) h
with_body-view t f (refused status e, db) p' h = ap (with_body f) h
with_body-view t f (raised e, db) p' h = ap (with_body f) h

-- Whatever a request is answered, and whatever it changes among its tenant's rows, is the same when
-- the tables hold no other tenant's rows.
pub answer_request-view :
    (env : Environment) (d : Draw) (u : TokenPayload) (r : Request) (db : Tables)
    → answer_request env d u r (view u.tenant_id db)
      ≡ viewed u.tenant_id (answer_request env d u r db)
unfolding answer_request
answer_request-view env d u (create r) db =
    with_body-view u.tenant_id _ _ _ (create_session-view env d u r db)
answer_request-view env d u sessions db = rw (list_sessions-view u db) refl
answer_request-view env d u (session id) db =
    with_body-view u.tenant_id _ _ _ (get_session-view u id db)
answer_request-view env d u (rename id name) db =
    with_body-view u.tenant_id _ _ _ (rename_session-view env d u id name db)
answer_request-view env d u (end_ id) db =
    with_body-view u.tenant_id _ _ _ (end_session-view u id db)
answer_request-view env d u (fork id message_id) db =
    with_body-view u.tenant_id _ _ _ (fork_session-view env d u id message_id db)
answer_request-view env d u (add id binding) db =
    with_body-view u.tenant_id _ _ _ (add_workspace-view env d u id binding db)
answer_request-view env d u (remove id slug) db =
    with_body-view u.tenant_id _ _ _ (remove_workspace-view d u id slug db)
answer_request-view env d u (workspaces id) db =
    with_body-view u.tenant_id _ _ _ (list_workspaces-view u id db)
answer_request-view env d u (dispatch id description) db =
    with_body-view u.tenant_id _ _ _ (dispatch_task-view d u id description db)
answer_request-view env d u tasks db = rw (list_tasks-view u db) refl
