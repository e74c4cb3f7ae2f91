-- ===== src/Agent/Brain/Resolve.antt =====
-- Every reasoning step comes to one end.
use package.text.Mathlib.Text.{◌==◌}
use project_kernel_runtime.Base.{
  ℕ, ◌+◌, ◌≤◌, ltb, ◌≡◌, ◌≢◌, refl, Bool, true, false, Option, none, some, String, List, [], ◌∷◌,
  map, if◌then◌else◌, Bool-cases, inl, inr, arith,
}
use project_kernel_runtime.Base.{◌==◌ as nat_eq}
use project_kernel_runtime.Store.{SessionModel, TaskModel, ToolCall, Draft, draft}
use project_kernel_runtime.Billing.{exceeds_quota}
use project_kernel_runtime.Breaker.{CircuitBreaker}
use project_kernel_runtime.Breaker.Protect.{Outcome, Reply, protected}
use project_kernel_runtime.Agent.{
  TaskEvent, World, thinking, bytes, task_resolved, task_log, publish, persist, commit, count,
}
use project_kernel_runtime.Agent.ToolWorker.{find_session}
use project_kernel_runtime.Agent.Brain.Response.{
  Texts, Parsed, ready, invalid, finish_calls, answer_text, answer_calls, process_response,
}
use project_kernel_runtime.Agent.Brain.Call.{
  LlmConfig, Answer, Stream, Collected, fail, end_stream, stream_response, after_call,
  call_llm_and_stream,
}
use project_kernel_runtime.Agent.Brain.Effects.{
  Adds, Adds-refl, Adds-trans, Adds-after, Adds-publish, Adds-persist, Adds-commit, fail-Adds,
  after_call-Adds, is_end, is_asking,
}
use project_kernel_runtime.Agent.Brain.{
  Worker, bump_task, max_iterations, give_up, session_missing, quota_exceeded, reason, iterate,
  with_task, with_session, process_task_event,
}

protected-cancelled :
    {E R : Type 0} (begun ended : ℕ) (o : Outcome E R) (b : CircuitBreaker E)
    → o ≢ Outcome.cancelled
    → (protected begun ended o b).0 ≢ Reply.cancelled
unfolding protected
protected-cancelled begun ended (Outcome.returned r) b n h = ground arith
protected-cancelled begun ended (Outcome.raised e) b n h = ground arith
protected-cancelled begun ended Outcome.cancelled b n h = n refl

-- One more end, at most one question to the model, sessions and tasks as they were, all committed.
pub record Ends (w w' : World) : Type 0 where
  pub asks : ℕ
  pub at_most_one : asks ≤ 1
  pub adds : Adds 1 asks w w'
  pub saved : w'.saved ≡ w'.db

fail-saved :
    (shown message : String) (event : TaskEvent) (w : World)
    → (fail shown message event w).saved ≡ (fail shown message event w).db
unfolding fail commit
fail-saved shown message event w = refl

module _ (texts : Texts) (event : TaskEvent) (tenant_id : String) where
  finish_calls-saved :
      (r : Parsed × World)
      → (finish_calls texts event tenant_id r).saved ≡ (finish_calls texts event tenant_id r).db
  unfolding finish_calls commit
  finish_calls-saved (ready specs, w) = refl
  finish_calls-saved (invalid call, w) = refl

  process_response-saved :
      (content : String) (calls : List ToolCall) (w : World)
      → (process_response texts event tenant_id content calls w).saved
        ≡ (process_response texts event tenant_id content calls w).db
  unfolding process_response answer_text answer_calls commit
  process_response-saved content [] w = refl
  process_response-saved content (call ∷ calls) w = finish_calls-saved _

  end_stream-saved :
      (broken : Option String) (s : Collected × World)
      → (end_stream texts broken event tenant_id s).saved
        ≡ (end_stream texts broken event tenant_id s).db
  unfolding end_stream
  end_stream-saved none (c, w) = process_response-saved c.content (map (λ e. e.1) c.calls) w
  end_stream-saved (some e) (c, w) = fail-saved _ _ event w

  after_call-saved :
      (reply : Reply String Stream) (config : LlmConfig) (w : World)
      → reply ≢ Reply.cancelled
      → (after_call texts reply event tenant_id config w).saved
        ≡ (after_call texts reply event tenant_id config w).db
  unfolding after_call stream_response
  after_call-saved (Reply.returned stream) config w n = end_stream-saved stream.broken _
  after_call-saved (Reply.raised e) config w n = fail-saved _ _ event w
  after_call-saved Reply.cancelled config w n = absurd (n refl)
  after_call-saved Reply.rejected config w n = fail-saved _ _ event w

  call-Ends :
      (config : LlmConfig) (answer : Answer) (w : World) (b : CircuitBreaker String)
      → answer.outcome ≢ Outcome.cancelled
      → Ends w (call_llm_and_stream texts event tenant_id config answer w b).0
  unfolding call_llm_and_stream
  call-Ends config answer w b n = elim (Bool-cases (config.api_key == "")) [
    | inl no_key ↦ rw no_key (record {
      asks = 0;
      at_most_one = omega arith;
      adds = fail-Adds _ _ event w;
      saved = fail-saved _ _ event w;
    })
    | inr key ↦
        let reply = (protected answer.begun answer.ended answer.outcome b).0 in
        let n' = protected-cancelled answer.begun answer.ended answer.outcome b n in
        rw key (record {
          asks = 1;
          at_most_one = omega arith;
          adds =
              Adds-trans (Adds-publish (task_log event.task_id (thinking "Generating...")) w)
                (after_call-Adds texts event tenant_id reply config _ n');
          saved = after_call-saved reply config _ n';
        })
  ]

after_Adds : {w w' w'' : World} → Adds 0 0 w w' → Ends w' w'' → Ends w w''
after_Adds a e = record {
  asks = e.asks;
  at_most_one = e.at_most_one;
  adds = Adds-after a e.adds;
  saved = e.saved;
}

module _ (texts : Texts) (is_blank : String → Bool) (event : TaskEvent) where
  quota-Ends : (w : World) → Ends w (quota_exceeded texts is_blank event w)
  unfolding quota_exceeded commit
  quota-Ends w = record {
    asks = 0;
    at_most_one = omega arith;
    adds =
        Adds-trans (Adds-persist event.session_id _ w)
          (Adds-trans (Adds-publish (task_log event.task_id task_resolved) _) (Adds-commit _));
    saved = refl;
  }

  pub give_up-Adds : (w : World) → Adds 1 0 w (give_up event w)
  unfolding give_up
  give_up-Adds w = Adds-trans (Adds-persist event.session_id _ w) (
      Adds-trans (Adds-publish (task_log event.task_id (bytes _)) _)
        (Adds-trans (Adds-publish (task_log event.task_id task_resolved) _) (Adds-commit _)))

  give_up-Ends : (w : World) → Ends w (give_up event w)
  unfolding give_up commit
  give_up-Ends w = record {
    asks = 0;
    at_most_one = omega arith;
    adds = give_up-Adds w;
    saved = refl;
  }

  missing-Ends : (w : World) → Ends w (session_missing event w)
  unfolding session_missing commit
  missing-Ends w = record {
    asks = 0;
    at_most_one = omega arith;
    adds =
        Adds-trans (Adds-persist event.session_id _ w)
          (Adds-trans (Adds-publish (task_log event.task_id task_resolved) _) (Adds-commit _));
    saved = refl;
  }

  may_persist-Adds :
      (b : Bool) (d : Draft) (w : World)
      → Adds 0 0 w (if b then persist event.session_id d w else w)
  may_persist-Adds true d w = Adds-persist event.session_id d w
  may_persist-Adds false d w = Adds-refl w

  unless_persist-Adds :
      (b : Bool) (d : Draft) (w : World)
      → Adds 0 0 w (if b then w else persist event.session_id d w)
  unless_persist-Adds true d w = Adds-refl w
  unless_persist-Adds false d w = Adds-persist event.session_id d w

  module _ (session : SessionModel) (config : LlmConfig) (answer : Answer)
      (n : answer.outcome ≢ Outcome.cancelled) where
    pub reason-Ends :
        (w : World) (b : CircuitBreaker String)
        → Ends w (reason texts is_blank event session config answer w b).0
    unfolding reason
    reason-Ends w b =
        let w₁ =
          if is_blank event.description
          then w
          else persist event.session_id (draft "user" event.description event.task_id) w in
        let w₂ = publish (task_log event.task_id (thinking "Analyzing...")) w₁ in
        let start =
          Adds-trans (unless_persist-Adds (is_blank event.description) _ w)
            (Adds-publish (task_log event.task_id (thinking "Analyzing...")) w₁) in
        elim (Bool-cases (exceeds_quota session.tenant_id w₂.db)) [
          | inl over ↦ rw over (after_Adds start (quota-Ends w₂))
          | inr within ↦
              rw within
                (after_Adds start (call-Ends texts event session.tenant_id config answer w₂ b n))
        ]

    pub iterate-Ends :
        (count : ℕ) (w : World) (b : CircuitBreaker String)
        → Ends w (iterate texts is_blank event session count config answer w b).0
    unfolding iterate
    iterate-Ends count w b = elim (Bool-cases (ltb max_iterations count)) [
      | inl over ↦ rw over (give_up-Ends w)
      | inr within ↦
          rw within (after_Adds (may_persist-Adds (nat_eq count 40) _ w) (reason-Ends _ b))
    ]

-- One end more, the model asked at most once more, and all committed.
pub record StepEnds (w w' : World) : Type 0 where
  pub ended : count is_end w'.published ≡ count is_end w.published + 1
  pub asked : count is_asking w'.published ≤ count is_asking w.published + 1
  pub saved : w'.saved ≡ w'.db

Ends-StepEnds : {w w' : World} → Ends w w' → StepEnds w w'
Ends-StepEnds e = record {
  ended = e.adds.ended;
  asked = omega (arith, e.at_most_one, e.adds.asked);
  saved = e.saved;
}

module _ (texts : Texts) (is_blank : String → Bool) (event : TaskEvent) (config : LlmConfig)
    (answer : Answer) (n : answer.outcome ≢ Outcome.cancelled) where
  task-StepEnds :
      (o : Option TaskModel) (session : SessionModel) (w : World) (b : CircuitBreaker String)
      → StepEnds w (with_task texts is_blank o event session config answer w b).0
  unfolding with_task bump_task
  task-StepEnds none session w b =
      Ends-StepEnds (reason-Ends texts is_blank event session config answer n w b)
  task-StepEnds (some task) session w b =
      let e = Ends-StepEnds (
        iterate-Ends texts is_blank event session config answer n (task.iteration_count + 1)
          (bump_task event session w) b) in
      record { ended = e.ended; asked = e.asked; saved = e.saved }

  session-StepEnds :
      (o : Option SessionModel) (w : World) (b : CircuitBreaker String)
      → StepEnds w (with_session texts is_blank o event config answer w b).0
  unfolding with_session
  session-StepEnds none w b = Ends-StepEnds (missing-Ends texts is_blank event w)
  session-StepEnds (some session) w b = task-StepEnds _ session w b

  -- Unless the request to the model is cancelled, an event of the brain ends in exactly one way:
  -- it reports TASK_RESOLVED once and hands over no batch, or hands over one batch and reports no
  -- resolution. So it does when the session is missing, the iterations are used up, the quota or
  -- the key is missing, the circuit is open, the request or the stream fails, or the arguments of a
  -- call are no JSON. The model is asked at most once, and at the end everything is committed.
  pub process_task_event-StepEnds :
      (worker : Worker)
      → StepEnds worker.0 (process_task_event texts is_blank event config answer worker).0
  unfolding process_task_event
  process_task_event-StepEnds (w, b) =
      session-StepEnds (find_session event.session_id event.tenant_id w.db) w b
