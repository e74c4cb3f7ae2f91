-- ===== src/Agent/Brain/Bound.antt =====
-- The agent loop ends: how often one task can ask the model.
use project_kernel_runtime.Base.{
  ℕ, ◌+◌, ◌-◌, ◌≤◌, ltb, ◌≡◌, ◌≢◌, refl, sym, ap, ◌∙◌, Bool, true, Option, none, some, String, List,
  [], ◌∷◌, All, Bool-cases, inl, inr, arith,
}
use project_kernel_runtime.Store.{SessionModel, TaskModel, Db, find}
use project_kernel_runtime.Breaker.{CircuitBreaker}
use project_kernel_runtime.Breaker.Protect.{Outcome}
use project_kernel_runtime.Agent.{TaskEvent, World, count}
use project_kernel_runtime.Agent.ToolWorker.{find_session}
use project_kernel_runtime.Agent.Brain.Response.{Texts}
use project_kernel_runtime.Agent.Brain.Call.{LlmConfig, Answer}
use project_kernel_runtime.Agent.Brain.Effects.{Adds, is_asking}
use project_kernel_runtime.Agent.Brain.Resolve.{give_up-Adds, iterate-Ends}
use project_kernel_runtime.Agent.Brain.{
  Worker, is_task, update_first, bump, bump_task, max_iterations, iterate, with_task, with_session,
  process_task_event,
}

-- The events of one task, one after another, each with the model's configuration and answer.
abbrev pub Steps : Type 0
Steps = List (TaskEvent × LlmConfig × Answer)

unfoldable pub run_steps : Texts → (String → Bool) → Steps → Worker → Worker
run_steps texts is_blank [] worker = worker
run_steps texts is_blank ((event, config, answer) ∷ steps) worker =
    run_steps texts is_blank steps (process_task_event texts is_blank event config answer worker)

find-update {ℓ} :
    {A : Type ℓ} (p : A → Bool) (f : A → A) (xs : List A) (x : A)
    → p (f x) ≡ true
    → find p xs ≡ some x
    → find p (update_first p f xs) ≡ some (f x)
unfolding find update_first
find-update p f [] x h e = cc
find-update p f (y ∷ xs) x h e = ground (arith, find-update p f xs x h)

find-holds {ℓ} : {A : Type ℓ} (p : A → Bool) (xs : List A) (x : A) → find p xs ≡ some x → p x ≡ true
unfolding find
find-holds p [] x e = cc
find-holds p (y ∷ xs) x e = ground (arith, find-holds p xs x)

find_session-cong :
    (session_id : String) (tenant_id : Option String) (d d' : Db)
    → d'.sessions ≡ d.sessions
    → find_session session_id tenant_id d' ≡ find_session session_id tenant_id d
unfolding find_session
find_session-cong session_id none d d' e = rw e refl
find_session-cong session_id (some t) d d' e = rw e refl

-- The model is asked at most so often more for a task with this many iterations behind it.
abbrev pub questions_left : ℕ → ℕ
questions_left iterations = max_iterations - iterations

-- A step of a known task uses one of its iterations, and only within the limit does it ask.
record Uses (session : SessionModel) (event : TaskEvent) (task : TaskModel) (w w' : World)
    : Type 0 where
  sessions : w'.db.sessions ≡ w.db.sessions
  found : find (is_task event session) w'.db.tasks ≡ some (bump task)
  asked :
      count is_asking w'.published + questions_left (task.iteration_count + 1)
      ≤ count is_asking w.published + questions_left task.iteration_count

Adds-Uses :
    (session : SessionModel) (event : TaskEvent) (task : TaskModel) (asks : ℕ) (w w' : World)
    → find (is_task event session) w.db.tasks ≡ some task
    → Adds 1 asks (bump_task event session w) w'
    → asks + questions_left (task.iteration_count + 1) ≤ questions_left task.iteration_count
    → Uses session event task w w'
unfolding bump_task
Adds-Uses session event task asks w w' f a less = record {
  sessions = a.sessions;
  found =
      ap (find (is_task event session)) a.tasks
      ∙ find-update (is_task event session) bump w.db.tasks task
          (find-holds (is_task event session) w.db.tasks task f) f;
  asked = omega (arith, a.asked, less);
}

-- Events of the task and the session of the first one, whose session is found, and whose request to
-- the model is not cancelled.
unfoldable pub SameTask : SessionModel → TaskEvent → Db → TaskEvent × LlmConfig × Answer → Type 0
SameTask session first db (event, config, answer) =
    (answer.outcome ≢ Outcome.cancelled)
    × (event.task_id ≡ first.task_id)
    × (event.session_id ≡ first.session_id)
    × (find_session event.session_id event.tenant_id db ≡ some session)

module _ (texts : Texts) (is_blank : String → Bool) (session : SessionModel) where
  module _ (event : TaskEvent) (config : LlmConfig) (answer : Answer)
      (n : answer.outcome ≢ Outcome.cancelled) where
    iterate-Uses :
        (task : TaskModel) (w : World) (b : CircuitBreaker String)
        → find (is_task event session) w.db.tasks ≡ some task
        → Uses session event task w
            (iterate texts is_blank event session
              (task.iteration_count + 1)
              config
              answer
              (bump_task event session w)
              b).0
    unfolding iterate
    iterate-Uses task w b f =
        let e =
          iterate-Ends texts is_blank event session config answer n (task.iteration_count + 1)
            (bump_task event session w) b in
        elim (Bool-cases (ltb max_iterations (task.iteration_count + 1))) [
          | inl over ↦ rw over (
              Adds-Uses session event task 0 w _ f
                (give_up-Adds texts is_blank event (bump_task event session w)) (omega arith))
          | inr within ↦
              Adds-Uses session event task e.asks w _ f e.adds (ground (arith, e.at_most_one))
        ]

    step-Uses :
        (task : TaskModel) (w : World) (b : CircuitBreaker String)
        → find_session event.session_id event.tenant_id w.db ≡ some session
        → find (is_task event session) w.db.tasks ≡ some task
        → Uses session event task w (process_task_event texts is_blank event config answer (w, b)).0
    unfolding process_task_event with_session with_task
    step-Uses task w b s f = rw (s, with_session) (rw (f, with_task) (iterate-Uses task w b f))

  same_task :
      (event first : TaskEvent) (tasks : List TaskModel)
      → event.task_id ≡ first.task_id
      → event.session_id ≡ first.session_id
      → find (is_task event session) tasks ≡ find (is_task first session) tasks
  same_task event first tasks t s = rw (t, s) refl

  SameTask-cong :
      (first : TaskEvent) (d d' : Db) (steps : Steps)
      → d'.sessions ≡ d.sessions
      → All (SameTask session first d) steps
      → All (SameTask session first d') steps
  unfolding SameTask
  SameTask-cong first d d' [] e a = tt
  SameTask-cong first d d' ((event, config, answer) ∷ steps) e ((n, t, s, f), a) = (
    (n, t, s, find_session-cong event.session_id event.tenant_id d d' e ∙ f),
    SameTask-cong first d d' steps e a,
  )

  -- However many events of one task come, and whatever the model answers, the model is asked at most
  -- `max_iterations - iteration_count` times more, where `iteration_count` is the task's before the
  -- first of them; this for events that name the task and its session, which are found, and as long
  -- as no request is cancelled.
  pub loop_is_bounded :
      (steps : Steps) (w : World) (b : CircuitBreaker String) (first : TaskEvent) (task : TaskModel)
      → All (SameTask session first w.db) steps
      → find (is_task first session) w.db.tasks ≡ some task
      → count is_asking (run_steps texts is_blank steps (w, b)).0.published
        ≤ count is_asking w.published + questions_left task.iteration_count
  unfolding run_steps SameTask
  loop_is_bounded [] w b first task a f = omega arith
  loop_is_bounded ((event, config, answer) ∷ steps) w b first task ((n, t, s, e), a) f =
      let next = process_task_event texts is_blank event config answer (w, b) in
      let u =
        step-Uses event config answer n task w b e (same_task event first w.db.tasks t s ∙ f) in
      let more =
        loop_is_bounded steps next.0 next.1 first (bump task)
          (SameTask-cong first w.db next.0.db steps u.sessions a)
          (sym (same_task event first next.0.db.tasks t s) ∙ u.found) in
      omega (arith, u.asked, more)
