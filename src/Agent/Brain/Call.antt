-- ===== src/Agent/Brain/Call.antt =====
-- `call_llm_and_stream` of src/services/agent_loop/brain/llm_caller.py. The request to the model is
-- the wrapped function of the worker's circuit breaker; what comes back is an argument.
-- The warning signs of the texts are written without their variation selector.
use package.text.Mathlib.Text.{◌==◌}
use Prim.Native.String.{◌++◌ as str_append}
use Prim.Native.Char.{code}
use project_kernel_runtime.Base.{ℕ, Option, none, some, String, List, [], ◌∷◌, map, if◌then◌else◌}
use project_kernel_runtime.Base.{◌==◌ as nat_eq}
use project_kernel_runtime.Paths.{take_chars}
use project_kernel_runtime.Store.{ToolCall, draft}
use project_kernel_runtime.Breaker.{CircuitBreaker}
use project_kernel_runtime.Breaker.Protect.{Outcome, Reply, protected}
use project_kernel_runtime.Agent.{
  TaskEvent, World, LogEvent, bytes, thinking, task_resolved, reasoning, token, task_log, publish,
  persist, commit,
}
use project_kernel_runtime.Agent.Brain.Response.{Texts, process_response}

pub record LlmConfig : Type 0 where
  pub api_key : String
  pub model : String

-- A part of a streamed tool call. The function's name and arguments are none where it is missing.
pub record ToolDelta : Type 0 where
  pub index : ℕ
  pub id : Option String
  pub name : Option String
  pub arguments : Option String

-- A chunk with a choice that has a delta.
pub record Delta : Type 0 where
  pub reasoning_content : Option String
  pub content : Option String
  pub tool_calls : List ToolDelta

-- A chunk with none is `none`; `broken` is the error that ends the stream, if one does.
pub record Stream : Type 0 where
  pub chunks : List (Option Delta)
  pub broken : Option String

-- The clock at the breaker's guard and when the request is done, and what it came to.
pub record Answer : Type 0 where
  pub begun : ℕ
  pub ended : ℕ
  pub outcome : Outcome String Stream

-- `collected_content` joined, and `tool_calls_dict`.
pub record Collected : Type 0 where
  pub content : String
  pub calls : List (ℕ × ToolCall)

abbrev pub appended : String → Option String → String
appended s none = s
appended s (some t) = str_append s t

-- Name and arguments are appended under the index, which is new or not.
unfoldable pub add_delta : ToolDelta → List (ℕ × ToolCall) → List (ℕ × ToolCall)
add_delta d [] =
    (d.index, record { id = d.id; name = appended "" d.name; arguments = appended "" d.arguments })
    ∷ []
add_delta d ((i, call) ∷ calls) =
    if nat_eq i d.index
    then (
      i,
      record call {
        name = appended call.name d.name;
        arguments = appended call.arguments d.arguments;
      },
    )
      ∷ calls
    else (i, call) ∷ add_delta d calls

unfoldable pub add_deltas : List ToolDelta → List (ℕ × ToolCall) → List (ℕ × ToolCall)
unfolding add_delta
add_deltas [] calls = calls
add_deltas (d ∷ ds) calls = add_deltas ds (add_delta d calls)

-- A text that is there and not empty is published.
unfoldable pub publish_text : (String → LogEvent) → String → Option String → World → World
publish_text make task_id none w = w
publish_text make task_id (some s) w = if s == "" then w else publish (task_log task_id (make s)) w

unfoldable pub read_chunk : String → Option Delta → Collected × World → Collected × World
unfolding add_deltas
read_chunk task_id none (c, w) = (c, w)
read_chunk task_id (some d) (c, w) = (
  record { content = appended c.content d.content; calls = add_deltas d.tool_calls c.calls },
  publish_text token task_id d.content (publish_text reasoning task_id d.reasoning_content w),
)

unfoldable pub read_chunks : String → List (Option Delta) → Collected × World → Collected × World
read_chunks task_id [] s = s
read_chunks task_id (chunk ∷ chunks) s = read_chunks task_id chunks (read_chunk task_id chunk s)

-- `model.split("/")[-1]`
unfoldable pub last_segment : String → String → String
last_segment acc String.[] = acc
last_segment acc (String.◌∷◌ c s) =
    last_segment (if nat_eq (code c) b'/' then "" else str_append acc (String.◌∷◌ c String.[])) s

unfoldable pub fail : String → String → TaskEvent → World → World
fail shown message event w = commit (
    publish (task_log event.task_id task_resolved) (
      persist event.session_id (draft "assistant" message event.task_id)
        (publish (task_log event.task_id (bytes shown)) w)))

-- Where there is no key the text is persisted after the log, as in `fail`.
abbrev pub no_key_text : String
no_key_text =
    "\u{1b}[38;5;196m[CONFIG ERROR]\u{1b}[0m No API key configured.\r\nClick the ⚙ Settings icon to configure your LLM provider.\r\n"

abbrev pub open_text : String
open_text = "\u{1b}[38;5;196m[CIRCUIT BREAKER OPEN]\u{1b}[0m LLM service temporarily unavailable."

abbrev pub llm_error : String → String
llm_error e = str_append "⚠ LLM Error: " (take_chars 500 e)

abbrev pub stream_error : String → String
stream_error e = str_append "⚠ LLM Streaming Error: " (take_chars 500 e)

abbrev pub red : String → String
red s = str_append "\u{1b}[38;5;196m" (str_append s "\u{1b}[0m\r\n")

module _ (texts : Texts) where
  unfoldable pub end_stream : Option String → TaskEvent → String → Collected × World → World
  end_stream none event tenant_id (c, w) =
      process_response texts event tenant_id c.content (map (λ e. e.1) c.calls) w
  end_stream (some e) event tenant_id (c, w) =
      fail (str_append "\r\n" (red (stream_error e))) (stream_error e) event w

  unfoldable pub stream_response : TaskEvent → String → LlmConfig → Stream → World → World
  unfolding last_segment
  stream_response event tenant_id config stream w = end_stream stream.broken event tenant_id (
      read_chunks event.task_id stream.chunks (
        record { content = ""; calls = [] },
        publish
            (task_log event.task_id (
              bytes (
                str_append "\u{1b}[38;5;46m["
                  (str_append (last_segment "" config.model) "] Thinking...\u{1b}[0m\r\n"))))
            w,
      ))

  -- `cancelled` passes every handler: nothing more is done.
  unfoldable pub after_call : Reply String Stream → TaskEvent → String → LlmConfig → World → World
  after_call (Reply.returned stream) event tenant_id config w =
      stream_response event tenant_id config stream w
  after_call (Reply.raised e) event tenant_id config w =
      fail (red (llm_error e)) (llm_error e) event w
  after_call Reply.cancelled event tenant_id config w = w
  after_call Reply.rejected event tenant_id config w = fail open_text open_text event w

  unfoldable pub call_llm_and_stream :
      TaskEvent
      → String
      → LlmConfig
      → Answer
      → World
      → CircuitBreaker String
      → World × CircuitBreaker String
  call_llm_and_stream event tenant_id config answer w b =
      if config.api_key == ""
      then (fail no_key_text "⚠ No API key configured." event w, b)
      else (let w' = publish (task_log event.task_id (thinking "Generating...")) w in
          let (reply, b') = protected answer.begun answer.ended answer.outcome b in
          (after_call reply event tenant_id config w', b'))
