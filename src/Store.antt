-- ===== src/Store.antt =====
-- The rows that the workers read and write (src/infrastructure/db/models), and `persist_message` of
-- src/services/memory/context_builder.py. A table is the list of its rows, the oldest first, and a
-- query is a search of it. Columns that the workers neither read nor write are left out.
pub mod Sequence
mod Tests
use text.Mathlib.Text.{◌==◌}
use project_kernel_runtime.Base.{
  ℕ, zero, suc, ◌+◌, leb, Bool, true, false, ◌&&◌, Option, none, some, String, List, [], ◌∷◌, ◌++◌,
  if◌then◌else◌,
}
use project_kernel_runtime.Values.{Kwargs}
use mathlib.Core.Option.{get_or}

-- `negsuc n` is -(n + 1).
pub data ℤ : Type 0 where
  pos : ℕ → ℤ
  negsuc : ℕ → ℤ

abbrev pub suc_ℤ : ℤ → ℤ
suc_ℤ (pos n) = pos (n + 1)
suc_ℤ (negsuc zero) = pos 0
suc_ℤ (negsuc (suc n)) = negsuc n

abbrev pub max_ℤ : ℤ → ℤ → ℤ
max_ℤ (pos m) (pos n) = if leb m n then pos n else pos m
max_ℤ (pos m) (negsuc n) = pos m
max_ℤ (negsuc m) (pos n) = pos n
max_ℤ (negsuc m) (negsuc n) = if leb m n then negsuc m else negsuc n

pub record SessionModel : Type 0 where
  pub id : String
  pub tenant_id : String
  pub user_role : String
  pub risk_mode : String
  pub mounted_folders : List String
  pub context : Kwargs

pub record TaskModel : Type 0 where
  pub id : String
  pub session_id : String
  pub tenant_id : String
  pub iteration_count : ℕ

-- A tool call of a model's answer: its identifier, the tool and the text of its arguments.
pub record ToolCall : Type 0 where
  pub id : Option String
  pub name : String
  pub arguments : String

-- `tool_calls` stands for the text that `json.dumps` makes of it, and is empty for None.
pub record MessageModel : Type 0 where
  pub tenant_id : String
  pub session_id : String
  pub task_id : String
  pub role : String
  pub content : String
  pub tool_call_id : Option String
  pub tool_calls : List ToolCall
  pub extra_metadata : Kwargs
  pub sequence : ℤ

pub record TenantModel : Type 0 where
  pub id : String
  pub cost_cents : ℕ
  pub quota_cents : Option ℕ

pub record Db : Type 0 where
  pub sessions : List SessionModel
  pub tasks : List TaskModel
  pub messages : List MessageModel
  pub tenants : List TenantModel

-- `scalar_one_or_none` of a query by a primary key.
unfoldable pub find {ℓ} : {A : Type ℓ} → (A → Bool) → List A → Option A
find p [] = none
find p (x ∷ xs) = if p x then some x else find p xs

abbrev pub tenant_of : Option SessionModel → String
tenant_of none = "local"
tenant_of (some s) = s.tenant_id

-- The conditions on session and tenant; an empty tenant is no condition.
abbrev pub in_session : String → String → MessageModel → Bool
in_session session_id tenant_id m =
    m.session_id == session_id && (if tenant_id == "" then true else m.tenant_id == tenant_id)

abbrev pub max_some : ℤ → Option ℤ → ℤ
max_some n none = n
max_some n (some m) = max_ℤ n m

-- `max(sequence)` over the rows that pass the conditions; `none` is NULL.
unfoldable pub max_sequence : (MessageModel → Bool) → List MessageModel → Option ℤ
max_sequence p [] = none
max_sequence p (m ∷ ms) =
    let rest = max_sequence p ms in if p m then some (max_some m.sequence rest) else rest

-- `result.scalar() or -1`: the number 0 is false.
abbrev pub or_minus_one : ℤ → ℤ
or_minus_one (pos zero) = negsuc 0
or_minus_one (pos (suc n)) = pos (suc n)
or_minus_one (negsuc n) = negsuc n

unfoldable pub next_sequence : String → String → List MessageModel → ℤ
unfolding max_sequence
next_sequence session_id tenant_id messages =
    suc_ℤ
      (or_minus_one (get_or (max_sequence (in_session session_id tenant_id) messages) (negsuc 0)))

-- The arguments of `persist_message` that say what is written.
pub record Draft : Type 0 where
  pub role : String
  pub content : String
  pub task_id : String
  pub tool_call_id : Option String
  pub tool_calls : List ToolCall
  pub metadata : Kwargs

abbrev pub draft : String → String → String → Draft
draft role content task_id = record {
  role = role;
  content = content;
  task_id = task_id;
  tool_call_id = none;
  tool_calls = [];
  metadata = [];
}

unfoldable pub persist_message : String → Draft → Db → Db
unfolding next_sequence
persist_message session_id d db =
    let tenant_id = tenant_of (find (λ s. s.id == session_id) db.sessions) in
    record db {
      messages =
          db.messages
          ++ (record {
            tenant_id = tenant_id;
            session_id = session_id;
            task_id = d.task_id;
            role = d.role;
            content = d.content;
            tool_call_id = d.tool_call_id;
            tool_calls = d.tool_calls;
            extra_metadata = d.metadata;
            sequence = next_sequence session_id tenant_id db.messages;
          })
            ∷ [];
    }
