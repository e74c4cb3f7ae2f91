-- ===== src/Breaker/Protect.antt =====
-- The decorator `protected`: one guarded call, with the wrapped function's outcome as an argument.
use project_kernel_runtime.Base.{ℕ, true, false, List, [], ◌∷◌}
use project_kernel_runtime.Breaker.{CircuitBreaker, can_execute, record_success, record_failure}

-- What the wrapped function does. `cancelled` is a BaseException that is no Exception, as
-- CancelledError: `except Exception` lets it pass.
pub data Outcome (E R : Type 0) : Type 0 where
  returned : R → Outcome E R
  raised : E → Outcome E R
  cancelled : Outcome E R

-- What the caller of the decorated function sees; `rejected` is CircuitBreakerOpenError.
pub data Reply (E R : Type 0) : Type 0 where
  returned : R → Reply E R
  raised : E → Reply E R
  cancelled : Reply E R
  rejected : Reply E R

module _ {E R : Type 0} where
  unfoldable pub finish : ℕ → Outcome E R → CircuitBreaker E → Reply E R × CircuitBreaker E
  finish now (Outcome.returned r) b = (Reply.returned r, record_success now b)
  finish now (Outcome.raised e) b = (Reply.raised e, record_failure now e b)
  finish now Outcome.cancelled b = (Reply.cancelled, b)

  -- `begun` is the clock at the guard, `ended` the clock when the wrapped function is done.
  unfoldable pub protected : ℕ → ℕ → Outcome E R → CircuitBreaker E → Reply E R × CircuitBreaker E
  unfolding finish
  protected begun ended o b =
      let (admitted, b') = can_execute begun b in
      elim admitted [ true ↦ finish ended o b' | false ↦ (Reply.rejected, b') ]

  -- Calls one after another: the clock at the start and the end of each, and its outcome.
  unfoldable pub calls :
      List (ℕ × ℕ × Outcome E R) → CircuitBreaker E → List (Reply E R) × CircuitBreaker E
  calls [] b = ([], b)
  calls ((begun, ended, o) ∷ cs) b =
      let (r, b') = protected begun ended o b in let (rs, b'') = calls cs b' in (r ∷ rs, b'')
