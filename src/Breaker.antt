-- ===== src/Breaker.antt =====
-- The circuit breaker: src/infrastructure/resilience/circuit_breaker.py, class CircuitBreaker.
-- Each method holds the breaker's lock from its first to its last line, so it is one step on the
-- state. Times are whole ticks of the clock that `time.time()` reads, and a reading is an argument.
-- Exceptions are a type of the user's, and `exceptions_to_track` is the test `isinstance` makes.
pub mod Protect
pub mod Invariant
pub mod Opening
pub mod Recovery
pub mod Registry
mod Tests
use project_kernel_runtime.Base.{
  ℕ, zero, suc, ◌+◌, Bool, true, false, Option, none, some, List, [], ◌∷◌, ltb, leb, ◌==◌,
  if◌then◌else◌,
}

-- `open` is a word of the language: the state OPEN is `opened`.
pub data CircuitState : Type 0 where
  closed opened half_open : CircuitState

pub record CircuitBreakerConfig (E : Type 0) : Type 0 where
  pub failure_threshold : ℕ
  pub success_threshold : ℕ
  pub timeout : ℕ
  pub half_open_max_calls : ℕ
  pub exceptions_to_track : E → Bool

-- `closed_at` is `none` while the attribute does not exist: the constructor only annotates it.
pub record CircuitBreaker (E : Type 0) : Type 0 where
  pub config : CircuitBreakerConfig E
  pub state : CircuitState
  pub failure_count : ℕ
  pub success_count : ℕ
  pub last_failure_time : Option ℕ
  pub total_calls : ℕ
  pub total_failures : ℕ
  pub total_successes : ℕ
  pub rejection_count : ℕ
  pub opened_at : Option ℕ
  pub closed_at : Option ℕ

pub record CircuitMetrics : Type 0 where
  pub state : CircuitState
  pub failure_count : ℕ
  pub success_count : ℕ
  pub last_failure_time : Option ℕ
  pub total_calls : ℕ
  pub total_failures : ℕ
  pub total_successes : ℕ
  pub rejection_count : ℕ
  pub opened_at : Option ℕ
  pub closed_at : ℕ

-- `if self._last_failure_time:`, which a reading of 0 does not pass.
abbrev pub failed_before : Option ℕ → Option ℕ
failed_before none = none
failed_before (some zero) = none
failed_before (some (suc t)) = some (suc t)

module _ {E : Type 0} where
  unfoldable pub init : CircuitBreakerConfig E → CircuitBreaker E
  init c = record {
    config = c;
    state = closed;
    failure_count = 0;
    success_count = 0;
    last_failure_time = none;
    total_calls = 0;
    total_failures = 0;
    total_successes = 0;
    rejection_count = 0;
    opened_at = none;
    closed_at = none;
  }

  unfoldable pub can_execute : ℕ → CircuitBreaker E → Bool × CircuitBreaker E
  can_execute now b = elim b.state [
    | closed ↦ (true, b)
    | opened ↦ elim (failed_before b.last_failure_time) [
      | none ↦ (false, b)
      | some t ↦
          if leb (t + b.config.timeout) now
          then (true, record b { state = half_open; success_count = 0 })
          else (false, record b { rejection_count = b.rejection_count + 1 })
    ]
    | half_open ↦ (ltb b.success_count b.config.half_open_max_calls, b)
  ]

  unfoldable pub open_circuit : ℕ → CircuitBreaker E → CircuitBreaker E
  open_circuit now b = record b { state = opened; opened_at = some now; success_count = 0 }

  unfoldable pub close_circuit : ℕ → CircuitBreaker E → CircuitBreaker E
  close_circuit now b = record b {
    state = closed;
    failure_count = 0;
    success_count = 0;
    closed_at = some now;
    opened_at = none;
  }

  unfoldable pub record_success : ℕ → CircuitBreaker E → CircuitBreaker E
  unfolding close_circuit
  record_success now b =
      let b' : CircuitBreaker E = record b {
        success_count = b.success_count + 1;
        total_successes = b.total_successes + 1;
      } in
      elim b.state [
        | half_open ↦
            if leb b.config.success_threshold (b.success_count + 1)
            then close_circuit now b'
            else b'
        | _ ↦ record b' { failure_count = 0 }
      ]

  unfoldable pub record_failure : ℕ → E → CircuitBreaker E → CircuitBreaker E
  unfolding open_circuit
  record_failure now e b =
      let b' : CircuitBreaker E = record b {
        failure_count = b.failure_count + 1;
        total_failures = b.total_failures + 1;
        last_failure_time = some now;
      } in
      if b.config.exceptions_to_track e
      then elim b.state [
        | closed ↦
            if leb b.config.failure_threshold (b.failure_count + 1) then open_circuit now b' else b'
        | opened ↦ b'
        | half_open ↦ open_circuit now b'
      ]
      else b

  -- `none` is the AttributeError of reading `_closed_at` before it is assigned.
  unfoldable pub get_metrics : CircuitBreaker E → Option CircuitMetrics
  get_metrics b = elim b.closed_at [
    | none ↦ none
    | some t ↦ some (record {
      state = b.state;
      failure_count = b.failure_count;
      success_count = b.success_count;
      last_failure_time = b.last_failure_time;
      total_calls = b.total_calls;
      total_failures = b.total_failures;
      total_successes = b.total_successes;
      rejection_count = b.rejection_count;
      opened_at = b.opened_at;
      closed_at = t;
    })
  ]

-- What tasks that share a breaker do to it, in the order in which they take its lock.
pub data Event (E : Type 0) : Type 0 where
  attempt : ℕ → Event E
  succeeded : ℕ → Event E
  failed : ℕ → E → Event E

module _ {E : Type 0} where
  unfoldable pub step : CircuitBreaker E → Event E → CircuitBreaker E
  step b (attempt now) = (can_execute now b).1
  step b (succeeded now) = record_success now b
  step b (failed now e) = record_failure now e b

  unfoldable pub run : CircuitBreaker E → List (Event E) → CircuitBreaker E
  run b [] = b
  run b (e ∷ es) = run (step b e) es
