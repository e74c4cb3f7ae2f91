-- ===== src/Agent/Brain/Tests.antt =====
-- One task of one session, with one iteration left.
use package.text.Mathlib.Text.{◌==◌}
use project_kernel_runtime.Base.{
  ◌+◌, ◌≤◌, ◌≢◌, refl, Bool, true, if◌then◌else◌, none, some, String, [], ◌∷◌,
}
use project_kernel_runtime.Store.{SessionModel, TaskModel, Db, find}
use project_kernel_runtime.Breaker.{CircuitBreakerConfig, init}
use project_kernel_runtime.Breaker.Protect.{Outcome}
use project_kernel_runtime.Agent.{dict, TaskEvent, World, count}
use project_kernel_runtime.Agent.ToolWorker.{find_session}
use project_kernel_runtime.Agent.Brain.Response.{Texts}
use project_kernel_runtime.Agent.Brain.Call.{LlmConfig, Answer}
use project_kernel_runtime.Agent.Brain.Effects.{is_asking}
use project_kernel_runtime.Agent.Brain.Resolve.{StepEnds, process_task_event-StepEnds}
use project_kernel_runtime.Agent.Brain.Bound.{
  Steps, run_steps, SameTask, questions_left, loop_is_bounded,
}
use project_kernel_runtime.Agent.Brain.{process_task_event}

abbrev json_texts : Texts
json_texts = record {
  loads = λ s. if s == "{}" then some (dict []) else none;
  invalid_json = λ c. "Invalid JSON";
  quota = "Quota exceeded";
}

abbrev blank : String → Bool
blank s = s == ""

abbrev event_one : TaskEvent
event_one = record {
  task_id = "t1";
  session_id = "s1";
  description = "hi";
  trace_id = none;
  tenant_id = some "local";
}

abbrev key_set : LlmConfig
key_set = record { api_key = "key"; model = "gpt-4o" }

-- One chunk of text.
abbrev says_hello : Answer
says_hello = record {
  begun = 10;
  ended = 12;
  outcome = Outcome.returned (record {
    chunks =
        some (record { reasoning_content = none; content = some "hello"; tool_calls = [] }) ∷ [];
    broken = none;
  });
}

abbrev local_session : SessionModel
local_session = record {
  id = "s1";
  tenant_id = "local";
  user_role = "developer";
  risk_mode = "auto";
  mounted_folders = [];
  context = [];
}

abbrev last_iteration : TaskModel
last_iteration = record { id = "t1"; session_id = "s1"; tenant_id = "local"; iteration_count = 49 }

abbrev rows : Db
rows = record {
  sessions = local_session ∷ [];
  tasks = last_iteration ∷ [];
  messages = [];
  tenants = [];
}

abbrev start : World
start = record { db = rows; saved = rows; published = [] }

abbrev llm_api : CircuitBreakerConfig String
llm_api = record {
  failure_threshold = 3;
  success_threshold = 2;
  timeout = 30;
  half_open_max_calls = 3;
  exceptions_to_track = λ e. true;
}

answers : says_hello.outcome ≢ Outcome.cancelled
answers e = cc

process_task_event-StepEnds_example :
    StepEnds start
      (process_task_event json_texts blank event_one key_set says_hello (start, init llm_api)).0
process_task_event-StepEnds_example =
    process_task_event-StepEnds json_texts blank event_one key_set says_hello answers
      (start, init llm_api)

abbrev three_times : Steps
three_times =
    (event_one, key_set, says_hello)
    ∷ (event_one, key_set, says_hello)
    ∷ (event_one, key_set, says_hello)
    ∷ []

-- Three events, one question.
loop_is_bounded_example :
    count is_asking (run_steps json_texts blank three_times (start, init llm_api)).0.published
    ≤ 0 + questions_left 49
unfolding SameTask find_session find
loop_is_bounded_example =
    loop_is_bounded json_texts blank local_session three_times start (init llm_api) event_one
      last_iteration
      (
        (answers, refl, refl, refl),
        ((answers, refl, refl, refl), ((answers, refl, refl, refl), tt)),
      )
      refl
