-- ===== src/Agent.antt =====
-- The agent loop (src/services/agent_loop): what its two workers share. A worker is given the
-- database in a session of its own and the broker. `db` is what the session shows, `saved` what the
-- last commit wrote, `published` what has been handed to the broker, the oldest first.
-- Identifiers that an event may lack are texts: every publisher of the program sends them.
pub mod ToolWorker
pub mod Brain
use project_kernel_runtime.Base.{ℕ, ◌+◌, Bool, true, false, Option, String, List, [], ◌∷◌, ◌++◌}
use project_kernel_runtime.Values.{Value, Kwargs}
use project_kernel_runtime.Store.{Db, Draft, persist_message}

-- What goes to the channel `task_log:` of a task.
pub data LogEvent : Type 0 where
  bytes : String → LogEvent
  thinking : String → LogEvent
  task_resolved : LogEvent
  reasoning : String → LogEvent
  token : String → LogEvent
  tool_start : String → String → LogEvent
  tool_executing : String → LogEvent
  tool_approval_required : String → LogEvent
  tool_done : String → String → LogEvent

-- What `json.loads` makes of the arguments of a call: an object, or another value.
pub data ToolArgs : Type 0 where
  dict : Kwargs → ToolArgs
  not_dict : Value → ToolArgs

pub record ToolSpec : Type 0 where
  pub id : Option String
  pub name : String
  pub args : ToolArgs

-- EXECUTE_TOOL_BATCH, on the execution queue.
pub record ToolEvent : Type 0 where
  pub task_id : String
  pub session_id : String
  pub trace_id : Option String
  pub tenant_id : Option String
  pub tools : List ToolSpec

-- AGENT_THINK, on the task queue.
pub record TaskEvent : Type 0 where
  pub task_id : String
  pub session_id : String
  pub description : String
  pub trace_id : Option String
  pub tenant_id : Option String

pub data Published : Type 0 where
  task_log : String → LogEvent → Published
  execution_queue : ToolEvent → Published
  task_queue : TaskEvent → Published
  resolved_queue : String → String → String → Published

pub record World : Type 0 where
  pub db : Db
  pub saved : Db
  pub published : List Published

unfoldable pub publish : Published → World → World
publish p w = record w { published = w.published ++ p ∷ [] }

unfoldable pub persist : String → Draft → World → World
unfolding persist_message
persist session_id d w = record w { db = persist_message session_id d w.db }

unfoldable pub commit : World → World
commit w = record w { saved = w.db }

-- How many of the publications are of a kind.
abbrev pub count : (Published → Bool) → List Published → ℕ
count p [] = 0
count p (x ∷ xs) = elim (p x) [ true ↦ 1 | false ↦ 0 ] + count p xs
