-- ===== src/Api/Commuting.antt =====
-- A request does the same to its tenant's view as to the tables.
use text.Mathlib.Text.{◌==◌}
use text.Mathlib.TextPositions.{eq_refl}
use project_kernel_runtime.Base.{
  ℕ, suc, ◌≡◌, refl, sym, ap, Bool, true, and_left, and_right, Option, none, some, String, List, [],
  ◌∷◌, keep,
}
use project_kernel_runtime.Api.{
  WorkspaceModel, SessionRow, Tables, Reply, reply, refused, raised, find_row, is_session,
  found_session, get_session_or_404, and_then,
}
use project_kernel_runtime.Api.Workspaces.{
  WorkspaceData, is_workspace, new_workspace, row_or_new, get_or_create_workspace, bind_workspaces,
}
use project_kernel_runtime.Api.Views.{view, find_row-keep, keep-change_row, keep-append_own}
use project_kernel_runtime.Api.Sessions.{change_session}

-- An answer, with the view of the tables.
abbrev pub viewed : {A : Type 0} → String → Reply A × Tables → Reply A × Tables
viewed tenant_id (r, db) = (r, view tenant_id db)

abbrev pub owned : String → WorkspaceModel → Bool
owned tenant_id ws = ws.tenant_id == tenant_id

get_session_or_404-view :
    (id t : String) (db : Tables) → get_session_or_404 id t (view t db) ≡ get_session_or_404 id t db
unfolding get_session_or_404
get_session_or_404-view id t db = ap found_session (
    find_row-keep (is_session id t) (λ s. s.tenant_id == t) db.sessions
      (λ s h. and_right (s.id == id) (s.tenant_id == t) h))

-- A route that begins with a session it must find.
pub and_then-view :
    {A B : Type 0} (t : String) (db : Tables) (o : Reply A) (k k' : A → Reply B × Tables)
    → ((a : A) → k' a ≡ viewed t (k a))
    → and_then (view t db) o k' ≡ viewed t (and_then db o k)
and_then-view t db (reply a) k k' h = h a
and_then-view t db (refused status e) k k' h = refl
and_then-view t db (raised e) k k' h = refl

pub on_session-view :
    {B : Type 0} (id t : String) (db : Tables) (k k' : SessionRow → Reply B × Tables)
    → ((s : SessionRow) → k' s ≡ viewed t (k s))
    → and_then (view t db) (get_session_or_404 id t (view t db)) k'
      ≡ viewed t (and_then db (get_session_or_404 id t db) k)
on_session-view id t db k k' h =
    rw (get_session_or_404-view id t db) (and_then-view t db (get_session_or_404 id t db) k k' h)

pub change_session-view :
    (id t : String) (f : SessionRow → SessionRow) (db : Tables)
    → ((s : SessionRow) → (f s).tenant_id ≡ s.tenant_id)
    → change_session id t f (view t db) ≡ view t (change_session id t f db)
change_session-view id t f db h =
    ap (λ rows. record (view t db) { sessions = rows })
      (sym (
        keep-change_row (is_session id t) (λ s. s.tenant_id == t) f db.sessions
          (λ s e. and_right (s.id == id) (s.tenant_id == t) e)
          (λ s. ap (λ (u : String). u == t) (h s))))

row_or_new-view :
    (t : String) (o : Option WorkspaceModel) (new : WorkspaceModel) (rows : List WorkspaceModel)
    → owned t new ≡ true
    → row_or_new o new (keep (owned t) rows)
      ≡ ((row_or_new o new rows).0, keep (owned t) (row_or_new o new rows).1)
row_or_new-view t none new rows h = ap (λ r. (new, r)) (sym (keep-append_own (owned t) rows new h))
row_or_new-view t (some ws) new rows h = refl

pub get_or_create_workspace-view :
    (t id : String) (d : WorkspaceData) (rows : List WorkspaceModel)
    → let (ws, rows') = get_or_create_workspace t id d rows in
      get_or_create_workspace t id d (keep (owned t) rows) ≡ (ws, keep (owned t) rows')
unfolding get_or_create_workspace
get_or_create_workspace-view t id d rows =
    rw
      (find_row-keep (is_workspace t d.slug) (owned t) rows
        (λ ws h. and_left (ws.tenant_id == t) (ws.slug == d.slug) h))
      (row_or_new-view t (find_row (is_workspace t d.slug) rows) (new_workspace t id d) rows
        (eq_refl t))

pub bind_workspaces-view :
    (t : String) (ids : ℕ → String) (n : ℕ) (ds : List WorkspaceData) (rows : List WorkspaceModel)
    → let (bound, rows') = bind_workspaces t ids n ds rows in
      bind_workspaces t ids n ds (keep (owned t) rows) ≡ (bound, keep (owned t) rows')
unfolding bind_workspaces
bind_workspaces-view t ids n [] rows = refl
bind_workspaces-view t ids n (d ∷ ds) rows =
    rw
      (
        get_or_create_workspace-view t (ids n) d rows,
        bind_workspaces-view t ids (suc n) ds (get_or_create_workspace t (ids n) d rows).1,
      )
      refl
