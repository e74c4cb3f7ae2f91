-- ===== src/Store/Tests.antt =====
-- Three messages of one session.
use project_kernel_runtime.Base.{◌≡◌, refl, List, [], ◌∷◌, map}
use project_kernel_runtime.Store.{pos, Db, Draft, draft, find, max_sequence, persist_message}
use project_kernel_runtime.Store.Sequence.{persist_all}

abbrev new_session : Db
new_session = record {
  sessions =
      record {
        id = "s1";
        tenant_id = "local";
        user_role = "developer";
        risk_mode = "auto";
        mounted_folders = [];
        context = [];
      }
      ∷ [];
  tasks = [];
  messages = [];
  tenants = [];
}

abbrev chat : List Draft
chat = draft "user" "hi" "t1" ∷ draft "assistant" "hello" "t1" ∷ draft "user" "bye" "t1" ∷ []

numbers :
    map (λ m. m.sequence) (persist_all "s1" chat new_session).messages ≡ pos 0 ∷ pos 0 ∷ pos 0 ∷ []
unfolding persist_all persist_message find max_sequence
numbers = refl
