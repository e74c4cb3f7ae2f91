-- ===== src/Agent/Brain.antt =====
-- src/services/agent_loop/brain: brain_worker.py here, llm_caller.py in Call, response_parser.py in
-- Response. What the model is asked (context, tools, configuration) is not modelled here: its
-- configuration and its answer are arguments of each event.
pub mod Response
pub mod Call
pub mod Effects
pub mod Resolve
pub mod Bound
mod Tests
use package.text.Mathlib.Text.{◌==◌}
use project_kernel_runtime.Base.{
  ℕ, ◌+◌, ltb, Bool, true, false, ◌&&◌, Option, none, some, String, List, [], ◌∷◌, if◌then◌else◌,
}
use project_kernel_runtime.Base.{◌==◌ as nat_eq}
use project_kernel_runtime.Store.{SessionModel, TaskModel, Db, draft, find}
use project_kernel_runtime.Billing.{exceeds_quota}
use project_kernel_runtime.Breaker.{CircuitBreaker}
use project_kernel_runtime.Agent.{
  TaskEvent, World, bytes, thinking, task_resolved, task_log, publish, persist, commit,
}
use project_kernel_runtime.Agent.ToolWorker.{find_session}
use Response.{Texts}
use Call.{LlmConfig, Answer, call_llm_and_stream}

-- The conditions of the query on tasks.
abbrev pub is_task : TaskEvent → SessionModel → TaskModel → Bool
is_task event session t =
    t.id == event.task_id
    && t.session_id == event.session_id
    && (if session.tenant_id == "" then true else t.tenant_id == session.tenant_id)

-- An assignment to the row that a query found.
unfoldable pub update_first {ℓ} : {A : Type ℓ} → (A → Bool) → (A → A) → List A → List A
update_first p f [] = []
update_first p f (x ∷ xs) = if p x then f x ∷ xs else x ∷ update_first p f xs

abbrev pub bump : TaskModel → TaskModel
bump t = record t { iteration_count = t.iteration_count + 1 }

unfoldable pub bump_task : TaskEvent → SessionModel → World → World
unfolding update_first
bump_task event session w = record w {
  db = record w.db { tasks = update_first (is_task event session) bump w.db.tasks };
}

abbrev pub max_iterations : ℕ
max_iterations = 50

-- "Max iterations reached."
unfoldable pub give_up : TaskEvent → World → World
give_up event w = commit (
    publish (task_log event.task_id task_resolved) (
      publish (task_log event.task_id (bytes "⚠ Max iterations reached."))
        (persist event.session_id (draft "assistant" "⚠ Max iterations reached." event.task_id) w)))

unfoldable pub session_missing : TaskEvent → World → World
session_missing event w = commit (
    publish (task_log event.task_id task_resolved)
      (persist event.session_id (draft "system" "⚠ Session not found." event.task_id) w))

-- The state of a worker: what it shares, and its own breaker for the model's service.
abbrev pub Worker : Type 0
Worker = World × CircuitBreaker String

module _ (texts : Texts) (is_blank : String → Bool) where
  unfoldable pub quota_exceeded : TaskEvent → World → World
  quota_exceeded event w = commit (
      publish (task_log event.task_id task_resolved)
        (persist event.session_id (draft "system" texts.quota event.task_id) w))

  -- From the description on. `description.strip()` is empty where `is_blank`.
  unfoldable pub reason :
      TaskEvent → SessionModel → LlmConfig → Answer → World → CircuitBreaker String → Worker
  reason event session config answer w b =
      let w₁ =
        if is_blank event.description
        then w
        else persist event.session_id (draft "user" event.description event.task_id) w in
      let w₂ = publish (task_log event.task_id (thinking "Analyzing...")) w₁ in
      if exceeds_quota session.tenant_id w₂.db
      then (quota_exceeded event w₂, b)
      else call_llm_and_stream texts event session.tenant_id config answer w₂ b

  -- With the task's row, after `iteration_count += 1`.
  unfoldable pub iterate :
      TaskEvent → SessionModel → ℕ → LlmConfig → Answer → World → CircuitBreaker String → Worker
  iterate event session count config answer w b =
      if ltb max_iterations count
      then (give_up event w, b)
      else reason event session config answer
          (if nat_eq count 40
            then persist event.session_id (draft "system" "[SYSTEM] Wrap up task." event.task_id) w
            else w)
          b

  unfoldable pub with_task :
      Option TaskModel
      → TaskEvent
      → SessionModel
      → LlmConfig
      → Answer
      → World
      → CircuitBreaker String
      → Worker
  with_task none event session config answer w b = reason event session config answer w b
  with_task (some task) event session config answer w b =
      iterate event session (task.iteration_count + 1) config answer (bump_task event session w) b

  unfoldable pub with_session :
      Option SessionModel → TaskEvent → LlmConfig → Answer → World → CircuitBreaker String → Worker
  with_session none event config answer w b = (session_missing event w, b)
  with_session (some session) event config answer w b =
      with_task (find (is_task event session) w.db.tasks) event session config answer w b

  unfoldable pub process_task_event : TaskEvent → LlmConfig → Answer → Worker → Worker
  process_task_event event config answer (w, b) =
      with_session (find_session event.session_id event.tenant_id w.db) event config answer w b
