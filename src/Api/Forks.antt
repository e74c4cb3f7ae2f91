-- ===== src/Api/Forks.antt =====
-- Forks of a session: `fork_session` of src/api/rest/routers/sessions.py.
use text.Mathlib.Text.{◌==◌}
use Prim.Native.String.{◌++◌ as str_append}
use project_kernel_runtime.Base.{
  ℕ, suc, Bool, ◌&&◌, Option, none, some, String, List, [], ◌∷◌, ◌++◌, keep,
}
use project_kernel_runtime.Auth.Library.{TokenPayload}
use project_kernel_runtime.Store.{ℤ}
use project_kernel_runtime.Api.{
  WorkspaceModel, SessionRow, MessageRow, Tables, Draw, Environment, Reply, reply, raised, find_row,
  get_session_or_404, and_then,
}
use project_kernel_runtime.Api.Workspaces.{prepare_workspaces, bind_workspaces}
use project_kernel_runtime.Api.Sessions.{SessionDict, session_to_dict, new_session, order_by, le_ℤ}

-- The copies that a fork makes of messages, the `n`-th with the `n`-th identifier.
unfoldable pub copy_messages : Draw → String → ℕ → List MessageRow → List MessageRow
copy_messages d tenant_id n [] = []
copy_messages d tenant_id n (m ∷ ms) =
    record m { id = d.message_id n; tenant_id = tenant_id; session_id = d.session_id }
    ∷ copy_messages d tenant_id (suc n) ms

-- The conditions on the message of the branch, and on the messages that are copied.
abbrev pub is_branch : String → String → String → MessageRow → Bool
is_branch message_id session_id tenant_id m =
    m.id == message_id && m.session_id == session_id && m.tenant_id == tenant_id

abbrev pub is_copied : String → String → ℤ → MessageRow → Bool
is_copied session_id tenant_id sequence m =
    m.session_id == session_id && m.tenant_id == tenant_id && le_ℤ m.sequence sequence

abbrev pub forked_messages :
    Draw → String → String → Option MessageRow → List MessageRow → List MessageRow
forked_messages d session_id tenant_id none messages = []
forked_messages d session_id tenant_id (some branch) messages = copy_messages d tenant_id 0 (
    order_by (λ m m'. le_ℤ m.sequence m'.sequence)
      (keep (is_copied session_id tenant_id branch.sequence) messages))

module _ (env : Environment) where
  -- The session that a fork makes, and what it adds to the tables.
  abbrev pub fork_rows :
      Draw → TokenPayload → String → String → SessionRow → Tables → Reply SessionDict × Tables
  fork_rows d user session_id message_id old db =
      let rows = prepare_workspaces env [] user.tenant_id d.slug_digits in
      let (bound, workspaces') =
        bind_workspaces user.tenant_id d.workspace_id 0 rows db.workspaces in
      let s = new_session d user (str_append old.name " (Fork)") old.user_role old.mode bound in
      let branch = find_row (is_branch message_id session_id user.tenant_id) db.messages in
      (
        reply (session_to_dict s),
        record db {
          sessions = db.sessions ++ s ∷ [];
          workspaces = workspaces';
          messages = db.messages ++ forked_messages d session_id user.tenant_id branch db.messages;
        },
      )

  -- `prepare_workspaces` reads the attributes of the dicts that stand for the old workspaces.
  abbrev pub fork_of :
      Draw
      → TokenPayload
      → String
      → String
      → SessionRow
      → List WorkspaceModel
      → Tables
      → Reply SessionDict × Tables
  fork_of d user session_id message_id old [] db = fork_rows d user session_id message_id old db
  fork_of d user session_id message_id old (ws ∷ rest) db =
      (raised "AttributeError: 'dict' object has no attribute 'slug'", db)

  unfoldable pub fork_session :
      Draw → TokenPayload → String → String → Tables → Reply SessionDict × Tables
  unfolding get_session_or_404 prepare_workspaces bind_workspaces find_row copy_messages order_by
  fork_session d user session_id message_id db =
      and_then db (get_session_or_404 session_id user.tenant_id db)
        (λ s. fork_of d user session_id message_id s s.workspaces db)
