-- ===== src/Agent/ToolWorker.antt =====
-- src/services/agent_loop/tool_worker.py. The governance engine is asked for each tool. What the
-- execution router makes of a tool is an argument, with the texts that the code takes from `json`,
-- from `str` of an error and from formatting a value. An event has its tools under `tools`: no
-- publisher of the program sends the older key `tool`. The semantic memory's index is left out.
pub mod Batch
pub mod Refused
mod Tests
use package.text.Mathlib.Text.{◌==◌}
use Prim.Native.String.{◌++◌ as str_append}
use project_kernel_runtime.Base.{
  ℕ, Bool, true, false, ◌&&◌, ◌||◌, Option, none, some, String, List, [], ◌∷◌, if◌then◌else◌,
}
use project_kernel_runtime.Base.Dict.{lookup, insert, erase}
use project_kernel_runtime.Values.{Value, Kwargs, is_truthy}
use project_kernel_runtime.Paths.{FilePath, FileSystem, take_chars}
use project_kernel_runtime.Governance.{
  Session, Verdict, allowed, approval_required, not_permitted, temp_write, path_escapes,
  assert_action_allowed, needs_approval, permitted, is_in, file_tools,
}
use project_kernel_runtime.Store.{SessionModel, Db, Draft, draft, find}
use project_kernel_runtime.Agent.{
  ToolArgs, dict, not_dict, ToolSpec, ToolEvent, TaskEvent, World, LogEvent, tool_executing,
  tool_approval_required, tool_done, task_log, task_queue, publish, persist, commit,
}

-- How a tool ends: with a result, whose JSON text is given, past the limit of 120 seconds, or with
-- an exception.
pub data Execution : Type 0 where
  output : String → Execution
  timed_out : Execution
  failed : String → Execution

pub record Environment : Type 0 where
  pub fs : FileSystem
  pub show_path : FilePath → String
  pub show_args : ToolArgs → String
  pub registered : String → Bool
  pub error_text : Verdict → String → String
  pub attribute_error : Value → String

-- What the engine says of a tool: a verdict, or the AttributeError of `kwargs.get` where the arguments
-- are no dict and the engine looks into them.
pub data Judgement : Type 0 where
  verdict : Verdict → Judgement
  get_raises : Value → Judgement

-- How far the worker gets with a tool or a batch: to its end, to its end with a tool that waits for
-- approval, or to an exception that leaves the worker.
pub data Progress : Type 0 where
  passed waiting raised : Progress

-- The router's `execute_tool`: tool, session, arguments and tenant.
abbrev pub Router : Type 0
Router = String → String → Kwargs → String → Execution

abbrev pub governed : SessionModel → Session
governed s = record {
  id = some s.id;
  tenant_id = s.tenant_id;
  user_role = s.user_role;
  risk_mode = s.risk_mode;
}

-- `tenant_id or "local"`
abbrev pub or_local : Option String → String
or_local none = "local"
or_local (some t) = if t == "" then "local" else t

-- `mounted[0] if mounted else ""`
abbrev pub active_folder : List String → String
active_folder [] = ""
active_folder (f ∷ folders) = f

-- The conditions of the query on sessions.
unfoldable pub find_session : String → Option String → Db → Option SessionModel
find_session session_id none db = find (λ s. s.id == session_id) db.sessions
find_session session_id (some t) db =
    find (λ s. s.id == session_id && (if t == "" then true else s.tenant_id == t)) db.sessions

abbrev pub result_text : Execution → String
result_text (output text) = take_chars 8000 text
result_text timed_out =
    "TOOL ERROR: Execution timed out after 120 seconds. The tool took too long to complete."
result_text (failed error) = str_append "TOOL ERROR: " error

abbrev pub tool_draft : ToolEvent → ToolSpec → String → Draft
tool_draft event spec content = record (draft "tool" content event.task_id) {
  tool_call_id = spec.id;
}

unfoldable pub refuse : ToolEvent → ToolSpec → Draft → World → World
refuse event spec d w =
    publish (task_log event.task_id (tool_approval_required spec.name))
      (commit (persist event.session_id d w))

-- `_re_trigger_brain`; an empty tenant is left out of the event.
abbrev pub non_empty : Option String → Option String
non_empty none = none
non_empty (some t) = if t == "" then none else some t

abbrev pub think_event : ToolEvent → TaskEvent
think_event event = record {
  task_id = event.task_id;
  session_id = event.session_id;
  description = "";
  trace_id = event.trace_id;
  tenant_id = non_empty event.tenant_id;
}

unfoldable pub re_trigger_brain : ToolEvent → World → World
re_trigger_brain event w = publish (task_queue (think_event event)) w

abbrev pub report : ToolEvent → ToolSpec → Option String → World → World × Progress
report event spec none w = (w, raised)
report event spec (some out) w = (
  publish (task_log event.task_id (tool_done spec.name (take_chars 100 out)))
      (commit (persist event.session_id (tool_draft event spec out) w)),
  passed,
)

abbrev pub with_waiting : Progress → Progress
with_waiting passed = waiting
with_waiting waiting = waiting
with_waiting raised = raised

-- An exception ends the loop; else the rest of the batch follows.
abbrev pub go_on : World × Progress → World × Progress → World × Progress
go_on (w, raised) rest = (w, raised)
go_on (w, passed) rest = rest
go_on (w, waiting) (w', p) = (w', with_waiting p)

abbrev pub finish : ToolEvent → World × Progress → World × Progress
finish event (w, passed) = (re_trigger_brain event w, passed)
finish event (w, waiting) = (w, waiting)
finish event (w, raised) = (w, raised)

module _ (env : Environment) where
  unfoldable pub ask_approval : ToolEvent → ToolSpec → World → World
  unfolding refuse
  ask_approval event spec w =
      refuse event spec
        (record (tool_draft event spec
          (str_append "APPROVAL REQUIRED: " (env.error_text approval_required spec.name))) {
            metadata =
                ("status", Value.text "NEEDS_APPROVAL")
                ∷ ("tool_name", Value.text spec.name)
                ∷ ("args", Value.other (env.show_args spec.args) true)
                ∷ [];
          })
        w

  unfoldable pub deny : ToolEvent → ToolSpec → String → World → World
  unfolding refuse
  deny event spec error w =
      refuse event spec (tool_draft event spec (str_append "GOVERNANCE DENIED: " error)) w

  abbrev pub judge : Session → String → ToolArgs → Judgement
  judge session tool_name (dict kwargs) =
      verdict (assert_action_allowed env.fs env.show_path session tool_name kwargs none)
  judge session tool_name (not_dict v) =
      if session.user_role == "admin"
      then verdict allowed
      else if needs_approval tool_name session.risk_mode
      then get_raises v
      else if permitted session.user_role tool_name
      then (if is_in tool_name file_tools || tool_name == "bash_execute"
          then get_raises v
          else verdict allowed)
      else verdict not_permitted

  unfoldable pub verdict_of : SessionModel → ToolSpec → Judgement
  verdict_of session spec = judge (governed session) spec.name spec.args

module _ (env : Environment) (router : Router) where
  -- The output of a registered tool that governance lets pass; `tool_args.pop` raises on what is no
  -- dict: `none`.
  abbrev pub run_registered : SessionModel → ToolEvent → String → ToolArgs → Option String
  run_registered session event name (not_dict v) = none
  run_registered session event name (dict given) =
      let args = erase "dry_run" given in
      some (
        if is_truthy (lookup "dry_run" given) || is_truthy (lookup "shadow_mode" session.context)
        then str_append "[SHADOW MODE] Simulated execution of '" (
            str_append name
              (str_append "'. No real actions were taken. Args: " (env.show_args (dict args))))
        else result_text (
            router name event.session_id
              (insert "folder_slug" (Value.text (active_folder session.mounted_folders)) args)
              (or_local event.tenant_id)))

  unfoldable pub run_tool : SessionModel → ToolEvent → ToolSpec → Option String
  run_tool session event spec =
      if env.registered spec.name
      then run_registered session event spec.name spec.args
      else some (str_append "Unknown tool: " spec.name)

  unfoldable pub carry_out : SessionModel → ToolEvent → ToolSpec → World → World × Progress
  unfolding run_tool
  carry_out session event spec w = report event spec (run_tool session event spec) w

  -- What follows from what the engine says.
  unfoldable pub act : SessionModel → ToolEvent → ToolSpec → Judgement → World → World × Progress
  act session event spec (verdict allowed) w = carry_out session event spec w
  act session event spec (verdict approval_required) w = (ask_approval env event spec w, waiting)
  act session event spec (verdict not_permitted) w =
      (deny env event spec (env.error_text not_permitted spec.name) w, passed)
  act session event spec (verdict temp_write) w =
      (deny env event spec (env.error_text temp_write spec.name) w, passed)
  act session event spec (verdict path_escapes) w =
      (deny env event spec (env.error_text path_escapes spec.name) w, passed)
  act session event spec (get_raises v) w = (deny env event spec (env.attribute_error v) w, passed)

  -- One tool of the batch.
  unfoldable pub process_tool : SessionModel → ToolEvent → ToolSpec → World → World × Progress
  process_tool session event spec w =
      act session event spec (verdict_of env session spec)
        (publish (task_log event.task_id (tool_executing spec.name)) w)

  unfoldable pub process_tools : SessionModel → ToolEvent → List ToolSpec → World → World × Progress
  process_tools session event [] w = (w, passed)
  process_tools session event (spec ∷ specs) w =
      let one = process_tool session event spec w in
      let rest = process_tools session event specs one.0 in go_on one rest

  unfoldable pub with_session : Option SessionModel → ToolEvent → World → World × Progress
  with_session none event w = (
    re_trigger_brain event (
        commit (
          persist event.session_id
            (draft "tool" "ERROR: Session not found or unauthorized" event.task_id) w)),
    passed,
  )
  with_session (some session) event w = finish event (process_tools session event event.tools w)

  unfoldable pub process_tool_event : ToolEvent → World → World × Progress
  unfolding find_session with_session
  process_tool_event event w =
      with_session (find_session event.session_id event.tenant_id w.db) event w
