-- ===== src/Breaker/Tests.antt =====
-- The breaker's theorems at concrete inputs.
use project_kernel_runtime.Base.{ℕ, ◌≡◌, refl, some, List, [], ◌∷◌, arith}
use project_kernel_runtime.Breaker.{
  closed, opened, half_open, CircuitBreakerConfig, CircuitBreaker, Event, attempt, succeeded,
  failed, init, can_execute, record_failure, run, step,
}
use project_kernel_runtime.Breaker.Protect.{Outcome, calls}
use project_kernel_runtime.Breaker.Invariant.{IsValid, run-IsValid}
use project_kernel_runtime.Breaker.Opening.{
  failures, opens_at_threshold, open_fails_fast, all_rejected,
}
use project_kernel_runtime.Breaker.Recovery.{returning, recovers, never_recovers}
use project_kernel_runtime.Breaker.Registry.{llm_circuit_breaker, database_circuit_breaker}

-- Failures are numbered.
abbrev llm : CircuitBreakerConfig ℕ
llm = llm_circuit_breaker 1000

abbrev database : CircuitBreakerConfig ℕ
database = database_circuit_breaker 1000

abbrev storm : List (Event ℕ)
storm = attempt 5 ∷ failed 6 1 ∷ failed 7 1 ∷ attempt 8 ∷ failed 9 2 ∷ attempt 10 ∷ []

abbrev opened_at_nine : CircuitBreaker ℕ
opened_at_nine = record (init llm) {
  state = opened;
  failure_count = 3;
  last_failure_time = some 9;
  total_failures = 3;
  opened_at = some 9;
}

storm_opens : run (init llm) storm ≡ record opened_at_nine { rejection_count = 1 }
unfolding run step init can_execute record_failure
storm_opens = refl

run-IsValid_example : IsValid llm (run (init llm) storm)
run-IsValid_example = run-IsValid llm storm (omega arith) (omega arith)

opens_at_threshold_example :
    (run (init llm) (succeeded 3 ∷ failures ((4, 1) ∷ (5, 1) ∷ (6, 2) ∷ []))).state ≡ opened
unfolding init
opens_at_threshold_example =
    opens_at_threshold (init llm) 3 ((4, 1) ∷ (5, 1) ∷ (6, 2) ∷ []) refl (omega arith)
      (refl, (refl, (refl, tt)))

abbrev late_calls : List (ℕ × ℕ × Outcome ℕ ℕ)
late_calls = (10, 20, Outcome.returned 1) ∷ (30008, 30009, Outcome.cancelled) ∷ []

open_fails_fast_example :
    calls late_calls opened_at_nine
    ≡ (all_rejected late_calls, record opened_at_nine { rejection_count = 2 })
unfolding init
open_fails_fast_example = open_fails_fast opened_at_nine 8 late_calls refl refl (omega arith)

abbrev trial : List (ℕ × ℕ × ℕ)
trial = (30011, 30012, 8) ∷ []

recovers_example : (calls (returning ((30009, 30010, 7) ∷ trial)) opened_at_nine).1.state ≡ closed
unfolding init
recovers_example =
    (recovers opened_at_nine 8 30009 30010 7 trial refl refl (omega arith) (omega arith) refl).1

abbrev database_opened : CircuitBreaker ℕ
database_opened = record (init database) {
  state = opened;
  failure_count = 10;
  last_failure_time = some 50;
  total_failures = 10;
  opened_at = some 50;
}

-- The preset of DATABASE_CIRCUIT_BREAKER is such a configuration: 5 successes, 3 calls.
abbrev two_more : List (ℕ × ℕ × ℕ)
two_more = (120052, 120053, 0) ∷ (120054, 120055, 0) ∷ []

never_recovers_example :
    (calls (returning ((120050, 120051, 0) ∷ two_more)) database_opened).1.state ≡ half_open
unfolding init
never_recovers_example =
    (never_recovers database_opened 49 120050 120051 0 two_more late_calls refl refl (omega arith)
      (omega arith) refl).0

abbrev five : Outcome ℕ ℕ
five = Outcome.returned 5
