-- ===== src/Api/Lifecycle.antt =====
-- From the creation of a session on: src/api/rest/routers/sessions.py.
use text.Mathlib.TextPositions.{eq_refl}
use project_kernel_runtime.Base.{
  ℕ, ◌≡◌, refl, ap, ◌∙◌, Bool, true, none, some, String, List, [], ◌∷◌, ◌++◌, arith,
}
use project_kernel_runtime.Auth.Library.{TokenPayload}
use project_kernel_runtime.Api.{
  WorkspaceModel, SessionRow, Tables, Draw, Environment, reply, raised, find_row, is_session,
  found_session, get_session_or_404, and_then,
}
use project_kernel_runtime.Api.Workspaces.{
  WorkspaceBinding, prepare_workspaces, prepare_from, bind_workspaces,
}
use project_kernel_runtime.Api.Sessions.{
  SessionCreateRequest, create_session, get_session, new_session, trimmed, session_to_dict,
}
use project_kernel_runtime.Api.Forks.{fork_session, fork_of}

find_row-append :
    {A : Type 0} (p : A → Bool) (xs : List A) (x : A)
    → find_row p xs ≡ none
    → p x ≡ true
    → find_row p (xs ++ x ∷ []) ≡ some x
unfolding find_row
find_row-append p [] x e h = rw h refl
find_row-append p (y ∷ ys) x e h = ground (arith, find_row-append p ys x)

-- The session that `create_session` adds.
abbrev created : Environment → Draw → TokenPayload → SessionCreateRequest → Tables → SessionRow
created env d u r db =
    new_session d u (trimmed env r.name) u.role r.mode
      (bind_workspaces u.tenant_id d.workspace_id 0
        (prepare_workspaces env r.workspaces u.tenant_id d.slug_digits) db.workspaces).0

-- No row of the tenant has the identifier that a request draws.
abbrev pub IsFresh : Draw → TokenPayload → Tables → Type 0
IsFresh d u db = find_row (is_session d.session_id u.tenant_id) db.sessions ≡ none

found_created :
    (env : Environment) (d : Draw) (u : TokenPayload) (r : SessionCreateRequest) (db : Tables)
    → IsFresh d u db
    → get_session_or_404 d.session_id u.tenant_id (create_session env d u r db).1
      ≡ reply (created env d u r db)
unfolding get_session_or_404 create_session
found_created env d u r db fresh = ap found_session (
    find_row-append (is_session d.session_id u.tenant_id) db.sessions (created env d u r db) fresh
      (rw (eq_refl d.session_id, eq_refl u.tenant_id) refl))

-- A session that was created is read back by any user of its tenant, as it was answered.
pub get_session-create_session :
    (env : Environment) (d : Draw) (u v : TokenPayload) (r : SessionCreateRequest) (db : Tables)
    → IsFresh d u db
    → v.tenant_id ≡ u.tenant_id
    → get_session v d.session_id (create_session env d u r db).1 ≡ create_session env d u r db
unfolding get_session create_session
get_session-create_session env d u v r db fresh same =
    let db' = (create_session env d u r db).1 in
    ap
      (λ t.
        and_then db' (get_session_or_404 d.session_id t db')
          (λ s. (reply (session_to_dict s), db')))
      same
    ∙ ap (λ o. and_then db' o (λ s. (reply (session_to_dict s), db')))
        (found_created env d u r db fresh)

fork_of-bind_workspaces :
    (env : Environment) (d : Draw) (u : TokenPayload) (message_id : String) (s : SessionRow)
    (db : Tables) (t : String) (ids : ℕ → String) (digits : ℕ → String) (ws : List WorkspaceBinding)
    (rows : List WorkspaceModel)
    → fork_of env d u s.id message_id s
        (bind_workspaces t ids 0 (prepare_workspaces env ws t digits) rows).0
        db
      ≡ (raised "AttributeError: 'dict' object has no attribute 'slug'", db)
unfolding prepare_workspaces prepare_from bind_workspaces
fork_of-bind_workspaces env d u message_id s db t ids digits [] rows = refl
fork_of-bind_workspaces env d u message_id s db t ids digits (w ∷ ws) rows = refl

-- No session that was just created can be forked: whatever workspaces it was created with, and
-- whichever message is named, the fork raises AttributeError and adds nothing.
pub fork_session-create_session :
    (env : Environment) (d d' : Draw) (u v : TokenPayload) (r : SessionCreateRequest)
    (message_id : String) (db : Tables)
    → IsFresh d u db
    → v.tenant_id ≡ u.tenant_id
    → let db' = (create_session env d u r db).1 in
      fork_session env d' v d.session_id message_id db'
      ≡ (raised "AttributeError: 'dict' object has no attribute 'slug'", db')
unfolding fork_session
fork_session-create_session env d d' u v r message_id db fresh same =
    let db' = (create_session env d u r db).1 in
    let s = created env d u r db in
    ap
      (λ t.
        and_then db' (get_session_or_404 d.session_id t db')
          (λ s. fork_of env d' v d.session_id message_id s s.workspaces db'))
      same
    ∙ ap (λ o. and_then db' o (λ s. fork_of env d' v d.session_id message_id s s.workspaces db'))
        (found_created env d u r db fresh)
    ∙ fork_of-bind_workspaces env d' v message_id s db' u.tenant_id d.workspace_id d.slug_digits
        r.workspaces db.workspaces
