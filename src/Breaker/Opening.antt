-- ===== src/Breaker/Opening.antt =====
-- When a closed circuit opens, and what an open one does to calls.
use project_kernel_runtime.Base.{
  ℕ, suc, ◌+◌, ◌<◌, ◌≡◌, true, false, some, List, [], ◌∷◌, map, All, length, ltb, if◌then◌else◌,
  arith,
}
use project_kernel_runtime.Breaker.{
  closed, opened, CircuitBreakerConfig, CircuitBreaker, Event, succeeded, failed, can_execute,
  record_success, record_failure, step, run,
}
use project_kernel_runtime.Breaker.Protect.{Outcome, Reply, protected, calls}

module _ {E : Type 0} where
  abbrev pub failures : List (ℕ × E) → List (Event E)
  failures = map (λ f. failed f.0 f.1)

  abbrev pub Tracked : CircuitBreakerConfig E → List (ℕ × E) → Type 0
  Tracked c = All (λ f. c.exceptions_to_track f.1 ≡ true)

  stays_open :
      (b : CircuitBreaker E) (fs : List (ℕ × E))
      → b.state ≡ opened
      → (run b (failures fs)).state ≡ opened
  unfolding run step record_failure
  stays_open b [] h = h
  stays_open b (f ∷ fs) h = stays_open (record_failure f.0 f.1 b) fs (ground arith)

  opens_after :
      (c : CircuitBreakerConfig E) (b : CircuitBreaker E) (fs : List (ℕ × E))
      → b.config ≡ c
      → b.state ≡ closed
      → b.failure_count < c.failure_threshold
      → Tracked c fs
      → (run b (failures fs)).state
        ≡ (if ltb (b.failure_count + length fs) c.failure_threshold then closed else opened)
  unfolding run step record_failure
  opens_after c b [] hc h k t = ground arith
  opens_after c b ((now, e) ∷ fs) hc h k t =
      ground
        (arith, opens_after c (record_failure now e b) fs, stays_open (record_failure now e b) fs)

  -- A success on a closed circuit clears its count: the circuit is open after the tracked failures
  -- that follow exactly when there are at least `failure_threshold` of them.
  pub opens_at_threshold :
      (b : CircuitBreaker E) (now : ℕ) (fs : List (ℕ × E))
      → b.state ≡ closed
      → 0 < b.config.failure_threshold
      → Tracked b.config fs
      → (run b (succeeded now ∷ failures fs)).state
        ≡ (if ltb (length fs) b.config.failure_threshold then closed else opened)
  unfolding run step record_success
  opens_at_threshold b now fs h k t = ground (arith, opens_after b.config (record_success now b) fs)

  -- An exception that `exceptions_to_track` does not name changes nothing.
  pub untracked :
      (b : CircuitBreaker E) (now : ℕ) (e : E)
      → b.config.exceptions_to_track e ≡ false
      → record_failure now e b ≡ b
  unfolding record_failure
  untracked b now e h = ground arith

module _ {E R : Type 0} where
  -- Every call of the list begins before `limit`.
  abbrev pub BeginBefore : ℕ → List (ℕ × ℕ × Outcome E R) → Type 0
  BeginBefore limit = All (λ call. call.0 < limit)

  abbrev pub all_rejected : List (ℕ × ℕ × Outcome E R) → List (Reply E R)
  all_rejected = map (λ call. Reply.rejected)

  -- Until the timeout has passed since the last failure, an open circuit refuses every call with
  -- CircuitBreakerOpenError, runs none of the wrapped functions, and changes nothing but
  -- `rejection_count`, which counts the refusals.
  pub open_fails_fast :
      (b : CircuitBreaker E) (t : ℕ) (cs : List (ℕ × ℕ × Outcome E R))
      → b.state ≡ opened
      → b.last_failure_time ≡ some (suc t)
      → BeginBefore (suc t + b.config.timeout) cs
      → calls cs b ≡ (all_rejected cs, record b { rejection_count = b.rejection_count + length cs })
  unfolding calls protected can_execute
  open_fails_fast b t [] h e l = ground arith
  open_fails_fast b t ((begun, ended, o) ∷ cs) h e l =
      ground (arith, open_fails_fast (record b { rejection_count = b.rejection_count + 1 }) t cs)
