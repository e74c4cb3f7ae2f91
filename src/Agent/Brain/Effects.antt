-- ===== src/Agent/Brain/Effects.antt =====
-- What the pieces of a reasoning step add to the log, and what they leave of the tables.
use package.text.Mathlib.Text.{◌==◌}
use project_kernel_runtime.Base.{
  ℕ, ◌+◌, ◌≡◌, ◌≢◌, refl, ◌∙◌, Bool, true, false, Option, none, some, String, List, [], ◌∷◌, ◌++◌,
  if◌then◌else◌, Bool-cases, inl, inr, arith,
}
use project_kernel_runtime.Store.{Draft, ToolCall, persist_message, draft}
use project_kernel_runtime.Breaker.Protect.{Reply}
use project_kernel_runtime.Agent.{
  ToolArgs, TaskEvent, World, LogEvent, bytes, thinking, task_resolved, reasoning, token,
  tool_start, tool_executing, tool_approval_required, tool_done, Published, task_log,
  execution_queue, task_queue, resolved_queue, publish, persist, commit, count,
}
use project_kernel_runtime.Agent.Brain.Response.{
  Texts, Parsed, ready, invalid, with_arguments, parse_calls, finish_calls, answer_text,
  answer_calls, process_response, or_braces,
}
use project_kernel_runtime.Agent.Brain.Call.{
  LlmConfig, Delta, Stream, Collected, publish_text, read_chunk, read_chunks, fail, end_stream,
  stream_response, after_call,
}

-- The events that end a reasoning step: TASK_RESOLVED in a task's log, or a batch of tools.
abbrev pub is_end : Published → Bool
is_end (task_log t task_resolved) = true
is_end (task_log t (bytes s)) = false
is_end (task_log t (thinking s)) = false
is_end (task_log t (reasoning s)) = false
is_end (task_log t (token s)) = false
is_end (task_log t (tool_start n a)) = false
is_end (task_log t (tool_executing n)) = false
is_end (task_log t (tool_approval_required n)) = false
is_end (task_log t (tool_done n p)) = false
is_end (execution_queue e) = true
is_end (task_queue e) = false
is_end (resolved_queue t s o) = false

-- The event that is published right before the model is asked.
abbrev pub is_asking : Published → Bool
is_asking (task_log t (thinking s)) = s == "Generating..."
is_asking (task_log t (bytes s)) = false
is_asking (task_log t task_resolved) = false
is_asking (task_log t (reasoning s)) = false
is_asking (task_log t (token s)) = false
is_asking (task_log t (tool_start n a)) = false
is_asking (task_log t (tool_executing n)) = false
is_asking (task_log t (tool_approval_required n)) = false
is_asking (task_log t (tool_done n p)) = false
is_asking (execution_queue e) = false
is_asking (task_queue e) = false
is_asking (resolved_queue t s o) = false

-- `ends` and `asks` more of the events, and sessions and tasks as they were.
pub record Adds (ends asks : ℕ) (w w' : World) : Type 0 where
  pub sessions : w'.db.sessions ≡ w.db.sessions
  pub tasks : w'.db.tasks ≡ w.db.tasks
  pub ended : count is_end w'.published ≡ count is_end w.published + ends
  pub asked : count is_asking w'.published ≡ count is_asking w.published + asks

abbrev pub one_if : Bool → ℕ
one_if true = 1
one_if false = 0

count-publish :
    (p : Published → Bool) (x : Published) (xs : List Published)
    → count p (xs ++ x ∷ []) ≡ count p xs + one_if (p x)
count-publish p x [] = ground arith
count-publish p x (y ∷ xs) = ground (arith, count-publish p x xs)

pub Adds-refl : (w : World) → Adds 0 0 w w
Adds-refl w = record { sessions = refl; tasks = refl; ended = omega arith; asked = omega arith }

pub Adds-trans :
    {a b c d : ℕ} {u v w : World} → Adds a c u v → Adds b d v w → Adds (a + b) (c + d) u w
Adds-trans x y = record {
  sessions = y.sessions ∙ x.sessions;
  tasks = y.tasks ∙ x.tasks;
  ended = omega arith;
  asked = omega arith;
}

pub Adds-after : {a c : ℕ} {u v w : World} → Adds 0 0 u v → Adds a c v w → Adds a c u w
Adds-after x y = record {
  sessions = y.sessions ∙ x.sessions;
  tasks = y.tasks ∙ x.tasks;
  ended = omega arith;
  asked = omega arith;
}

pub Adds-publish :
    (p : Published) (w : World) → Adds (one_if (is_end p)) (one_if (is_asking p)) w (publish p w)
unfolding publish
Adds-publish p w = record {
  sessions = refl;
  tasks = refl;
  ended = count-publish is_end p w.published;
  asked = count-publish is_asking p w.published;
}

pub Adds-persist :
    (session_id : String) (d : Draft) (w : World) → Adds 0 0 w (persist session_id d w)
unfolding persist persist_message
Adds-persist session_id d w = record {
  sessions = refl;
  tasks = refl;
  ended = omega arith;
  asked = omega arith;
}

pub Adds-commit : (w : World) → Adds 0 0 w (commit w)
unfolding commit
Adds-commit w = record { sessions = refl; tasks = refl; ended = omega arith; asked = omega arith }

pub fail-Adds :
    (shown message : String) (event : TaskEvent) (w : World)
    → Adds 1 0 w (fail shown message event w)
unfolding fail
fail-Adds shown message event w =
    Adds-trans (Adds-publish (task_log event.task_id (bytes shown)) w) (
      Adds-trans (Adds-persist event.session_id (draft "assistant" message event.task_id) _)
        (Adds-trans (Adds-publish (task_log event.task_id task_resolved) _) (Adds-commit _)))

with_arguments-Adds :
    (args : Option ToolArgs) (call : ToolCall) (w w' : World) (rest : Parsed × World)
    → Adds 0 0 w w'
    → Adds 0 0 w' rest.1
    → Adds 0 0 w (with_arguments args call w' rest).1
with_arguments-Adds none call w w' rest start more = start
with_arguments-Adds (some args) call w w' rest start more = Adds-trans start more

parse_calls-Adds :
    (texts : Texts) (task_id : String) (calls : List ToolCall) (w : World)
    → Adds 0 0 w (parse_calls texts task_id calls w).1
unfolding parse_calls
parse_calls-Adds texts task_id [] w = Adds-refl w
parse_calls-Adds texts task_id (call ∷ calls) w =
    let w' = publish (task_log task_id (tool_start call.name call.arguments)) w in
    with_arguments-Adds (texts.loads (or_braces call.arguments)) call w w'
      (parse_calls texts task_id calls w')
      (Adds-publish (task_log task_id (tool_start call.name call.arguments)) w)
      (parse_calls-Adds texts task_id calls w')

module _ (texts : Texts) (event : TaskEvent) (tenant_id : String) where
  finish_calls-Adds : (r : Parsed × World) → Adds 1 0 r.1 (finish_calls texts event tenant_id r)
  unfolding finish_calls
  finish_calls-Adds (ready specs, w) = Adds-trans (Adds-publish _ w) (Adds-commit _)
  finish_calls-Adds (invalid call, w) =
      Adds-trans (Adds-persist _ _ w)
        (Adds-trans (Adds-publish (task_log event.task_id task_resolved) _) (Adds-commit _))

  answer_text-Adds : (content : String) (w : World) → Adds 1 0 w (answer_text texts event content w)
  unfolding answer_text
  answer_text-Adds content w = Adds-trans (Adds-persist _ _ w) (
      Adds-trans (Adds-publish (resolved_queue event.task_id event.session_id content) _)
        (Adds-trans (Adds-publish (task_log event.task_id task_resolved) _) (Adds-commit _)))

  answer_calls-Adds :
      (content : String) (calls : List ToolCall) (w : World)
      → Adds 1 0 w (answer_calls texts event tenant_id content calls w)
  unfolding answer_calls
  answer_calls-Adds content calls w =
      Adds-trans (Adds-persist _ _ w)
        (Adds-trans (parse_calls-Adds texts event.task_id calls _) (finish_calls-Adds _))

  start-Adds :
      (content : String) (w : World)
      → Adds 0 0 w (if content == "" then w else publish (task_log event.task_id (bytes "\r\n")) w)
  start-Adds content w =
      elim (content == "")
        as (λ b. Adds 0 0 w (if b then w else publish (task_log event.task_id (bytes "\r\n")) w)) [
          | true ↦ Adds-refl w
          | false ↦ Adds-publish (task_log event.task_id (bytes "\r\n")) w
        ]

  pub process_response-Adds :
      (content : String) (calls : List ToolCall) (w : World)
      → Adds 1 0 w (process_response texts event tenant_id content calls w)
  unfolding process_response
  process_response-Adds content [] w =
      Adds-trans (start-Adds content w) (answer_text-Adds content _)
  process_response-Adds content (call ∷ calls) w =
      Adds-trans (start-Adds content w) (answer_calls-Adds content (call ∷ calls) _)

publish_text-Adds :
    (make : String → LogEvent) (task_id : String) (o : Option String) (w : World)
    → ((s : String)
        → (is_end (task_log task_id (make s)) ≡ false)
          × (is_asking (task_log task_id (make s)) ≡ false))
    → Adds 0 0 w (publish_text make task_id o w)
unfolding publish_text
publish_text-Adds make task_id none w quiet = Adds-refl w
publish_text-Adds make task_id (some s) w quiet = elim (Bool-cases (s == "")) [
  | inl e ↦ rw e (Adds-refl w)
  | inr n ↦ rw n (rw ((quiet s).0, (quiet s).1) at (Adds-publish (task_log task_id (make s)) w))
]

read_chunks-Adds :
    (task_id : String) (chunks : List (Option Delta)) (s : Collected × World)
    → Adds 0 0 s.1 (read_chunks task_id chunks s).1
unfolding read_chunks read_chunk
read_chunks-Adds task_id [] s = Adds-refl s.1
read_chunks-Adds task_id (none ∷ chunks) (c, w) = read_chunks-Adds task_id chunks (c, w)
read_chunks-Adds task_id (some d ∷ chunks) (c, w) =
    Adds-trans (publish_text-Adds reasoning task_id d.reasoning_content w (λ s. (refl, refl))) (
      Adds-trans (publish_text-Adds token task_id d.content _ (λ s. (refl, refl)))
        (read_chunks-Adds task_id chunks (read_chunk task_id (some d) (c, w))))

module _ (texts : Texts) (event : TaskEvent) (tenant_id : String) where
  end_stream-Adds :
      (broken : Option String) (s : Collected × World)
      → Adds 1 0 s.1 (end_stream texts broken event tenant_id s)
  unfolding end_stream
  end_stream-Adds none (c, w) = process_response-Adds texts event tenant_id c.content _ w
  end_stream-Adds (some e) (c, w) = fail-Adds _ _ event w

  stream-Adds :
      (config : LlmConfig) (stream : Stream) (w : World)
      → Adds 1 0 w (stream_response texts event tenant_id config stream w)
  unfolding stream_response
  stream-Adds config stream w = Adds-trans (Adds-publish (task_log event.task_id (bytes _)) w) (
      Adds-trans (read_chunks-Adds event.task_id stream.chunks _) (end_stream-Adds stream.broken _))

  -- Every answer of the model's service but a cancellation ends the step.
  pub after_call-Adds :
      (reply : Reply String Stream) (config : LlmConfig) (w : World)
      → reply ≢ Reply.cancelled
      → Adds 1 0 w (after_call texts reply event tenant_id config w)
  unfolding after_call
  after_call-Adds (Reply.returned stream) config w n = stream-Adds config stream w
  after_call-Adds (Reply.raised e) config w n = fail-Adds _ _ event w
  after_call-Adds Reply.cancelled config w n = absurd (n refl)
  after_call-Adds Reply.rejected config w n = fail-Adds _ _ event w
