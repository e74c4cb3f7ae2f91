-- ===== src/Api/Untouched.antt =====
-- No request changes a row of another tenant.
use text.Mathlib.Text.{◌==◌}
use text.Mathlib.TextEquality.{eq_iff}
use project_kernel_runtime.Base.{
  ℕ, suc, ◌≡◌, refl, ap, ◌∙◌, true, false, and_right, Option, none, some, String, List, [], ◌∷◌,
  keep, All, arith, ◌≢◌,
}
use project_kernel_runtime.Api.{
  WorkspaceModel, SessionRow, MessageRow, Tables, Draw, Reply, reply, refused, raised, find_row,
  is_session, and_then,
}
use project_kernel_runtime.Api.Workspaces.{
  WorkspaceData, new_workspace, row_or_new, get_or_create_workspace, bind_workspaces, is_workspace,
}
use project_kernel_runtime.Api.Views.{view, keep-change_row-Apart, keep-append_apart}
use project_kernel_runtime.Api.Sessions.{change_session}
use project_kernel_runtime.Api.Forks.{copy_messages, forked_messages}
use project_kernel_runtime.Api.Requests.{Body, with_body}

-- Tables in which a tenant has the same rows.
abbrev pub Same : String → Tables → Tables → Type 0
Same t db db' = view t db' ≡ view t db

pub eq_false_of_ne : (s t : String) → s ≢ t → (s == t) ≡ false
eq_false_of_ne s t h = ground (arith, eq_iff s t)

apart_of_ne : (s t u : String) → s ≢ t → (u == s) ≡ true → (u == t) ≡ false
apart_of_ne s t u h e = ground (arith, eq_iff u s, eq_iff u t, eq_iff s t)

module _ (t : String) where
  pub and_then-Same :
      {A B : Type 0} (db : Tables) (o : Reply A) (k : A → Reply B × Tables)
      → ((a : A) → Same t db (k a).1)
      → Same t db (and_then db o k).1
  and_then-Same db (reply a) k h = h a
  and_then-Same db (refused status e) k h = refl
  and_then-Same db (raised e) k h = refl

  pub with_body-Same :
      {A : Type 0} (f : A → Body) (db : Tables) (p : Reply A × Tables)
      → Same t db p.1
      → Same t db (with_body f p).1
  with_body-Same f db (reply a, db') h = h
  with_body-Same f db (refused status e, db') h = h
  with_body-Same f db (raised e, db') h = h

  pub change_session-Same :
      (id s : String) (f : SessionRow → SessionRow) (db : Tables)
      → s ≢ t
      → ((x : SessionRow) → (f x).tenant_id ≡ x.tenant_id)
      → Same t db (change_session id s f db)
  change_session-Same id s f db ne h =
      ap (λ rows. record (view t db) { sessions = rows })
        (keep-change_row-Apart (is_session id s) (λ x. x.tenant_id == t) f db.sessions
          (λ x e. apart_of_ne s t x.tenant_id ne (and_right (x.id == id) (x.tenant_id == s) e))
          (λ x. ap (λ (u : String). u == t) (h x)))

  pub row_or_new-Same :
      (o : Option WorkspaceModel) (new : WorkspaceModel) (rows : List WorkspaceModel)
      → new.tenant_id ≢ t
      → keep (λ w. w.tenant_id == t) (row_or_new o new rows).1 ≡ keep (λ w. w.tenant_id == t) rows
  row_or_new-Same (some w) new rows ne = refl
  row_or_new-Same none new rows ne =
      keep-append_apart (λ w. w.tenant_id == t) rows (new ∷ [])
        (eq_false_of_ne new.tenant_id t ne, tt)

  pub get_or_create_workspace-Same :
      (s id : String) (d : WorkspaceData) (rows : List WorkspaceModel)
      → s ≢ t
      → keep (λ w. w.tenant_id == t) (get_or_create_workspace s id d rows).1
        ≡ keep (λ w. w.tenant_id == t) rows
  unfolding get_or_create_workspace
  get_or_create_workspace-Same s id d rows ne =
      row_or_new-Same (find_row (is_workspace s d.slug) rows) (new_workspace s id d) rows ne

  pub bind_workspaces-Same :
      (s : String) (ids : ℕ → String) (n : ℕ) (ds : List WorkspaceData) (rows : List WorkspaceModel)
      → s ≢ t
      → keep (λ w. w.tenant_id == t) (bind_workspaces s ids n ds rows).1
        ≡ keep (λ w. w.tenant_id == t) rows
  unfolding bind_workspaces
  bind_workspaces-Same s ids n [] rows ne = refl
  bind_workspaces-Same s ids n (d ∷ ds) rows ne =
      bind_workspaces-Same s ids (suc n) ds (get_or_create_workspace s (ids n) d rows).1 ne
      ∙ get_or_create_workspace-Same s (ids n) d rows ne

  copied_apart :
      (d : Draw) (s : String) (n : ℕ) (ms : List MessageRow)
      → s ≢ t
      → All (λ m. (m.tenant_id == t) ≡ false) (copy_messages d s n ms)
  unfolding copy_messages
  copied_apart d s n [] ne = tt
  copied_apart d s n (m ∷ ms) ne = (eq_false_of_ne s t ne, copied_apart d s (suc n) ms ne)

  pub forked_apart :
      (d : Draw) (id s : String) (o : Option MessageRow) (ms : List MessageRow)
      → s ≢ t
      → All (λ m. (m.tenant_id == t) ≡ false) (forked_messages d id s o ms)
  forked_apart d id s none ms ne = tt
  forked_apart d id s (some b) ms ne = copied_apart d s 0 _ ne
