-- ===== src/Breaker/Invariant.antt =====
-- The breaker's well-formedness, kept by every operation in any order.
use project_kernel_runtime.Base.{◌≤◌, ◌<◌, ◌≡◌, refl, ◌≢◌, none, List, [], ◌∷◌, arith}
use project_kernel_runtime.Breaker.{
  closed, opened, half_open, CircuitBreakerConfig, CircuitBreaker, Event, attempt, succeeded,
  failed, init, can_execute, record_success, record_failure, get_metrics, step, run,
}

-- A closed circuit is short of its failure threshold, a half-open one of its success threshold; an
-- open one knows when it failed and when it opened; the counters stay below the totals.
pub record IsValid {E : Type 0} (c : CircuitBreakerConfig E) (b : CircuitBreaker E) : Type 0 where
  pub config : b.config ≡ c
  pub closed_below : b.state ≡ closed → b.failure_count < c.failure_threshold
  pub half_open_below : b.state ≡ half_open → b.success_count < c.success_threshold
  pub opened_failed : b.state ≡ opened → b.last_failure_time ≢ none
  pub opened_since : b.state ≡ opened → b.opened_at ≢ none
  pub failures_counted : b.failure_count ≤ b.total_failures
  pub successes_counted : b.success_count ≤ b.total_successes

module _ {E : Type 0} (c : CircuitBreakerConfig E) where
  init-IsValid : 0 < c.failure_threshold → IsValid c (init c)
  unfolding init
  init-IsValid h = ground arith

  step-IsValid :
      (b : CircuitBreaker E) (e : Event E)
      → 0 < c.failure_threshold
      → 0 < c.success_threshold
      → IsValid c b
      → IsValid c (step b e)
  unfolding step can_execute record_success record_failure
  step-IsValid b (attempt now) hf hs v = ground arith
  step-IsValid b (succeeded now) hf hs v = ground arith
  step-IsValid b (failed now x) hf hs v = ground arith

  steps-IsValid :
      (b : CircuitBreaker E) (es : List (Event E))
      → 0 < c.failure_threshold
      → 0 < c.success_threshold
      → IsValid c b
      → IsValid c (run b es)
  unfolding run
  steps-IsValid b [] hf hs v = v
  steps-IsValid b (e ∷ es) hf hs v = steps-IsValid (step b e) es hf hs (step-IsValid b e hf hs v)

  -- With positive thresholds, whatever tasks do to a new breaker and in whatever order they take
  -- its lock, it stays well formed: closed below the failure threshold, half-open below the success
  -- threshold, open only with a failure time and an opening time, each counter at most its total,
  -- and under the configuration it was made with.
  pub run-IsValid :
      (es : List (Event E))
      → 0 < c.failure_threshold
      → 0 < c.success_threshold
      → IsValid c (run (init c) es)
  run-IsValid es hf hs = steps-IsValid (init c) es hf hs (init-IsValid hf)

  -- No success among the events.
  abbrev pub Unsuccessful : List (Event E) → Type 0
  Unsuccessful [] = Unit
  Unsuccessful (succeeded now ∷ es) = ⊥
  Unsuccessful (attempt now ∷ es) = Unsuccessful es
  Unsuccessful (failed now e ∷ es) = Unsuccessful es

  run-closed_at :
      (b : CircuitBreaker E) (es : List (Event E))
      → Unsuccessful es
      → b.closed_at ≡ none
      → (run b es).closed_at ≡ none
  unfolding run step can_execute record_failure
  run-closed_at b [] u h = h
  run-closed_at b (attempt now ∷ es) u h = run-closed_at (can_execute now b).1 es u (ground arith)
  run-closed_at b (succeeded now ∷ es) u h = absurd u
  run-closed_at b (failed now e ∷ es) u h =
      run-closed_at (record_failure now e b) es u (ground arith)

  -- Until a call has succeeded, a breaker's metrics cannot be read: `get_metrics` raises
  -- AttributeError, also while the circuit is open.
  pub get_metrics-run :
      (es : List (Event E)) → Unsuccessful es → get_metrics (run (init c) es) ≡ none
  unfolding get_metrics init
  get_metrics-run es u = ground (arith, run-closed_at (init c) es u refl)
