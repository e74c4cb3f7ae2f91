-- ===== src/Api/Copying.antt =====
-- A fork copies, and a task is dispatched and listed, within the view of the tenant.
use text.Mathlib.Text.{◌==◌}
use text.Mathlib.TextPositions.{eq_refl}
use Prim.Native.String.{◌++◌ as str_append}
use project_kernel_runtime.Base.{
  ℕ, suc, ◌≡◌, refl, ◌&&◌, and_left, and_right, Option, none, some, String, List, [], ◌∷◌, keep,
  keep-append,
}
use project_kernel_runtime.Auth.Library.{TokenPayload}
use project_kernel_runtime.Api.{
  WorkspaceModel, SessionRow, MessageRow, Tables, Draw, Environment, find_row, is_session,
}
use project_kernel_runtime.Api.Workspaces.{prepare_workspaces, bind_workspaces}
use project_kernel_runtime.Api.Views.{view, find_row-keep, keep-keep, keep-append_own}
use project_kernel_runtime.Api.Sessions.{new_session, le_ℤ}
use project_kernel_runtime.Api.Forks.{
  is_branch, is_copied, copy_messages, forked_messages, fork_of, fork_session,
}
use project_kernel_runtime.Api.Tasks.{
  access_of, assert_session_access, dispatch_task, list_tasks, new_task, task_event,
}
use project_kernel_runtime.Api.Commuting.{
  viewed, on_session-view, and_then-view, bind_workspaces-view,
}

abbrev mine : TokenPayload → Tables → Tables
mine user db = view user.tenant_id db

-- The copies belong to the tenant, so that the view keeps them.
keep-copy_messages :
    (d : Draw) (t : String) (n : ℕ) (ms : List MessageRow)
    → keep (λ m. m.tenant_id == t) (copy_messages d t n ms) ≡ copy_messages d t n ms
unfolding copy_messages
keep-copy_messages d t n [] = refl
keep-copy_messages d t n (m ∷ ms) = rw (eq_refl t, keep-copy_messages d t (suc n) ms) refl

keep-forked_messages :
    (d : Draw) (id t : String) (o : Option MessageRow) (ms : List MessageRow)
    → keep (λ m. m.tenant_id == t) (forked_messages d id t o ms) ≡ forked_messages d id t o ms
keep-forked_messages d id t none ms = refl
keep-forked_messages d id t (some b) ms = keep-copy_messages d t 0 _

forked_messages-view :
    (d : Draw) (id t : String) (o : Option MessageRow) (ms : List MessageRow)
    → forked_messages d id t o (keep (λ m. m.tenant_id == t) ms) ≡ forked_messages d id t o ms
forked_messages-view d id t none ms = refl
forked_messages-view d id t (some b) ms =
    rw
      (keep-keep (is_copied id t b.sequence) (λ m. m.tenant_id == t) ms
        (λ m h.
          and_right (m.session_id == id) (m.tenant_id == t)
            (and_left _ (le_ℤ m.sequence b.sequence) h)))
      refl

branch-view :
    (message_id id t : String) (ms : List MessageRow)
    → find_row (is_branch message_id id t) (keep (λ m. m.tenant_id == t) ms)
      ≡ find_row (is_branch message_id id t) ms
branch-view message_id id t ms =
    find_row-keep (is_branch message_id id t) (λ m. m.tenant_id == t) ms
      (λ m h. and_right (m.id == message_id && m.session_id == id) (m.tenant_id == t) h)

fork_of-view :
    (env : Environment) (d : Draw) (u : TokenPayload) (id message_id : String) (s : SessionRow)
    (old : List WorkspaceModel) (db : Tables)
    → fork_of env d u id message_id s old (mine u db)
      ≡ viewed u.tenant_id (fork_of env d u id message_id s old db)
fork_of-view env d u id message_id s (ws ∷ rest) db = refl
fork_of-view env d u id message_id s [] db =
    let t = u.tenant_id in
    let rows = prepare_workspaces env [] t d.slug_digits in
    let b = bind_workspaces t d.workspace_id 0 rows db.workspaces in
    let s' = new_session d u (str_append s.name " (Fork)") s.user_role s.mode b.0 in
    let branch = find_row (is_branch message_id id t) db.messages in
    rw
      (
        bind_workspaces-view t d.workspace_id 0 rows db.workspaces,
        branch-view message_id id t db.messages,
        forked_messages-view d id t branch db.messages,
        keep-append (λ m. m.tenant_id == t) db.messages (forked_messages d id t branch db.messages),
        keep-forked_messages d id t branch db.messages,
        keep-append_own (λ s. s.tenant_id == t) db.sessions s' (eq_refl t),
      )
      refl

pub fork_session-view :
    (env : Environment) (d : Draw) (u : TokenPayload) (id message_id : String) (db : Tables)
    → fork_session env d u id message_id (mine u db)
      ≡ viewed u.tenant_id (fork_session env d u id message_id db)
unfolding fork_session
fork_session-view env d u id message_id db =
    on_session-view id u.tenant_id db _ _
      (λ s. fork_of-view env d u id message_id s s.workspaces db)

pub dispatch_task-view :
    (d : Draw) (u : TokenPayload) (id description : String) (db : Tables)
    → dispatch_task d u id description (mine u db)
      ≡ viewed u.tenant_id (dispatch_task d u id description db)
unfolding dispatch_task assert_session_access
dispatch_task-view d u id description db =
    let t = u.tenant_id in
    rw
      (find_row-keep (is_session id t) (λ s. s.tenant_id == t) db.sessions
        (λ s h. and_right (s.id == id) (s.tenant_id == t) h))
      (and_then-view t db (access_of (find_row (is_session id t) db.sessions)) _ _ (λ _.
        rw
          (
            keep-append_own (λ x. x.tenant_id == t) db.tasks (new_task d u id description)
                (eq_refl t),
            keep-append_own (λ x. x.tenant_id == t) db.task_queue (task_event d u id description)
                (eq_refl t),
          )
          refl))

pub list_tasks-view : (u : TokenPayload) (db : Tables) → list_tasks u (mine u db) ≡ list_tasks u db
unfolding list_tasks
list_tasks-view u db =
    rw
      (keep-keep (λ t. t.tenant_id == u.tenant_id) (λ t. t.tenant_id == u.tenant_id) db.tasks
        (λ t h. h))
      refl
