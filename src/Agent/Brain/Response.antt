-- ===== src/Agent/Brain/Response.antt =====
-- `process_response` of src/services/agent_loop/brain/response_parser.py. `loads` is what
-- `json.loads` makes of a text, none where it raises JSONDecodeError. Indexing the thought in the
-- semantic memory writes to a store of its own, and its errors are swallowed: it is left out.
use package.text.Mathlib.Text.{◌==◌}
use project_kernel_runtime.Base.{Option, none, some, String, List, [], ◌∷◌, if◌then◌else◌}
use project_kernel_runtime.Store.{ToolCall, draft}
use project_kernel_runtime.Agent.{
  ToolArgs, ToolSpec, TaskEvent, World, bytes, task_resolved, tool_start, task_log, execution_queue,
  resolved_queue, publish, persist, commit,
}

-- What the code takes from `json`, and the texts of its errors.
pub record Texts : Type 0 where
  pub loads : String → Option ToolArgs
  pub invalid_json : ToolCall → String
  pub quota : String

-- The loop over the calls: the specifications of the batch, or the call that stops it.
pub data Parsed : Type 0 where
  ready : List ToolSpec → Parsed
  invalid : ToolCall → Parsed

abbrev pub add_spec : ToolSpec → Parsed → Parsed
add_spec spec (ready specs) = ready (spec ∷ specs)
add_spec spec (invalid call) = invalid call

-- `arguments or "{}"`
abbrev pub or_braces : String → String
or_braces s = if s == "" then "{}" else s

-- On JSONDecodeError the loop returns with the world `w` of this round; else it goes on with `rest`.
abbrev pub with_arguments : Option ToolArgs → ToolCall → World → Parsed × World → Parsed × World
with_arguments none call w rest = (invalid call, w)
with_arguments (some args) call w rest =
    (add_spec (record { id = call.id; name = call.name; args = args }) rest.0, rest.1)

module _ (texts : Texts) where
  unfoldable pub parse_calls : String → List ToolCall → World → Parsed × World
  parse_calls task_id [] w = (ready [], w)
  parse_calls task_id (call ∷ calls) w =
      let w' = publish (task_log task_id (tool_start call.name call.arguments)) w in
      with_arguments (texts.loads (or_braces call.arguments)) call w' (parse_calls task_id calls w')

  unfoldable pub finish_calls : TaskEvent → String → Parsed × World → World
  finish_calls event tenant_id (ready specs, w) = commit (
      publish
        (execution_queue (record {
          task_id = event.task_id;
          session_id = event.session_id;
          trace_id = event.trace_id;
          tenant_id = some tenant_id;
          tools = specs;
        }))
        w)
  finish_calls event tenant_id (invalid call, w) = commit (
      publish (task_log event.task_id task_resolved)
        (persist event.session_id (draft "assistant" (texts.invalid_json call) event.task_id) w))

  unfoldable pub answer_text : TaskEvent → String → World → World
  answer_text event content w = commit (
      publish (task_log event.task_id task_resolved) (
        publish (resolved_queue event.task_id event.session_id content)
          (persist event.session_id (draft "assistant" content event.task_id) w)))

  unfoldable pub answer_calls : TaskEvent → String → String → List ToolCall → World → World
  unfolding finish_calls
  answer_calls event tenant_id content calls w = finish_calls event tenant_id (
      parse_calls event.task_id calls (
        persist event.session_id
          (record (draft "assistant" content event.task_id) { tool_calls = calls }) w))

  unfoldable pub process_response : TaskEvent → String → String → List ToolCall → World → World
  process_response event tenant_id content calls w =
      let w' = if content == "" then w else publish (task_log event.task_id (bytes "\r\n")) w in
      elim calls [
        | [] ↦ answer_text event content w'
        | call ∷ more ↦ answer_calls event tenant_id content (call ∷ more) w'
      ]
