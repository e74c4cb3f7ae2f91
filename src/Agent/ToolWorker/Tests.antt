-- ===== src/Agent/ToolWorker/Tests.antt =====
-- A batch of two tools: one that runs, one that waits for approval.
use project_kernel_runtime.Base.{
  ◌+◌, ◌≡◌, ◌≢◌, refl, true, false, none, some, String, List, [], ◌∷◌, ◌||◌, if◌then◌else◌,
}
use project_kernel_runtime.Base.Dict.{lookup}
use project_kernel_runtime.Paths.{FileSystem}
use project_kernel_runtime.Governance.{allowed, assert_action_allowed}
use project_kernel_runtime.Store.{SessionModel, Db, find}
use project_kernel_runtime.Agent.{dict, ToolSpec, ToolEvent, World, count}
use project_kernel_runtime.Agent.ToolWorker.{
  Environment, Router, Execution, verdict, find_session, verdict_of, process_tool_event,
}
use project_kernel_runtime.Agent.ToolWorker.Batch.{
  answered, is_think, any_waits, any_raises, ids_until_raise, progress_of, batch_answers_all,
}

abbrev rooted : FileSystem
rooted = record {
  parse = λ s. record { is_absolute = false; parts = s ∷ [] };
  resolve = λ p. p;
  workspace_root = record { is_absolute = true; parts = "srv" ∷ [] };
  temp_root = record { is_absolute = true; parts = "tmp" ∷ [] };
}

abbrev local_tools : Environment
local_tools = record {
  fs = rooted;
  show_path = λ p. "";
  show_args = λ args. "{}";
  registered = λ name. true;
  error_text = λ v name. name;
  attribute_error = λ v. "object has no attribute 'get'";
}

abbrev succeeds : Router
succeeds name session_id args tenant = Execution.output "done"

abbrev hangs : Router
hangs name session_id args tenant = Execution.timed_out

abbrev careful : SessionModel
careful = record {
  id = "s1";
  tenant_id = "local";
  user_role = "developer";
  risk_mode = "strict";
  mounted_folders = [];
  context = [];
}

abbrev call_of : String → String → ToolSpec
call_of id name = record { id = some id; name = name; args = dict [] }

abbrev batch_of : List ToolSpec → ToolEvent
batch_of specs = record {
  task_id = "t1";
  session_id = "s1";
  trace_id = none;
  tenant_id = none;
  tools = specs;
}

abbrev mixed : List ToolSpec
mixed = call_of "c1" "read_file" ∷ call_of "c2" "bash_execute" ∷ []

abbrev one_session : Db
one_session = record { sessions = careful ∷ []; tasks = []; messages = []; tenants = [] }

abbrev idle : World
idle = record { db = one_session; saved = one_session; published = [] }

batch_answers_all_example :
    let (w', progress) = process_tool_event local_tools succeeds (batch_of mixed) idle in
    let raising = any_raises local_tools careful mixed in
    let one_waits = any_waits local_tools careful mixed in
    (progress ≡ progress_of raising one_waits)
    × (answered w'.db.messages ≡ (
        if raising then ids_until_raise local_tools careful mixed else some "c1" ∷ some "c2" ∷ []))
    × (count is_think w'.published ≡ 0 + (if raising || one_waits then 0 else 1))
    × (idle.saved ≡ idle.db → w'.saved ≡ w'.db)
unfolding find_session find
batch_answers_all_example =
    batch_answers_all local_tools succeeds (batch_of mixed) careful idle refl

bash_waits : verdict_of local_tools careful (call_of "c2" "bash_execute") ≢ verdict allowed
unfolding verdict_of assert_action_allowed lookup
bash_waits e = cc
