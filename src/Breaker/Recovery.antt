-- ===== src/Breaker/Recovery.antt =====
-- How an open circuit recovers, and when it cannot.
use project_kernel_runtime.Base.{
  ℕ, suc, ◌+◌, ◌≤◌, ◌<◌, ◌≡◌, refl, some, List, [], ◌∷◌, map, length, arith,
}
use project_kernel_runtime.Breaker.{
  closed, opened, half_open, CircuitBreakerConfig, CircuitBreaker, can_execute, record_success,
}
use project_kernel_runtime.Breaker.Protect.{Outcome, Reply, protected, calls}
use project_kernel_runtime.Breaker.Opening.{all_rejected}

module _ {E R : Type 0} where
  -- Calls whose wrapped function returns: when each begins and ends, and what it returns.
  abbrev pub returning : List (ℕ × ℕ × R) → List (ℕ × ℕ × Outcome E R)
  returning = map (λ call. (call.0, call.1, Outcome.returned call.2))

  abbrev pub returns : List (ℕ × ℕ × R) → List (Reply E R)
  returns = map (λ call. Reply.returned call.2)

  closes_from_half_open :
      (c : CircuitBreakerConfig E) (b : CircuitBreaker E) (cs : List (ℕ × ℕ × R))
      → b.config ≡ c
      → b.state ≡ half_open
      → c.success_threshold ≤ c.half_open_max_calls
      → b.success_count < c.success_threshold
      → b.success_count + length cs ≡ c.success_threshold
      → ((calls (returning cs) b).0 ≡ returns cs)
        × ((calls (returning cs) b).1.state ≡ closed)
        × ((calls (returning cs) b).1.failure_count ≡ 0)
  unfolding calls protected can_execute record_success
  closes_from_half_open c b [] hc h m l k = absurd (omega arith)
  closes_from_half_open c b ((begun, ended, r) ∷ []) hc h m l k = ground arith
  closes_from_half_open c b ((begun, ended, r) ∷ d ∷ cs) hc h m l k =
      ground (arith, closes_from_half_open c (record_success ended b) (d ∷ cs))

  fills_half_open :
      (c : CircuitBreakerConfig E) (b : CircuitBreaker E) (cs : List (ℕ × ℕ × R))
      → b.config ≡ c
      → b.state ≡ half_open
      → c.half_open_max_calls < c.success_threshold
      → b.success_count + length cs ≡ c.half_open_max_calls
      → ((calls (returning cs) b).0 ≡ returns cs)
        × ((calls (returning cs) b).1.state ≡ half_open)
        × ((calls (returning cs) b).1.config ≡ c)
        × ((calls (returning cs) b).1.success_count ≡ c.half_open_max_calls)
  unfolding calls protected can_execute record_success
  fills_half_open c b [] hc h m k = ground arith
  fills_half_open c b ((begun, ended, r) ∷ cs) hc h m k =
      ground (arith, fills_half_open c (record_success ended b) cs)

  refuses_forever :
      (b : CircuitBreaker E) (ds : List (ℕ × ℕ × Outcome E R))
      → b.state ≡ half_open
      → b.config.half_open_max_calls ≤ b.success_count
      → calls ds b ≡ (all_rejected ds, b)
  unfolding calls protected can_execute
  refuses_forever b [] h k = refl
  refuses_forever b ((begun, ended, o) ∷ ds) h k = ground (arith, refuses_forever b ds)

  -- Once the timeout has passed, an open circuit whose `success_threshold` is positive and at most
  -- `half_open_max_calls` admits the next `success_threshold` calls; when all of them return, each
  -- caller gets its result and the circuit is closed with no failures counted.
  pub recovers :
      (b : CircuitBreaker E) (t begun ended : ℕ) (r : R) (cs : List (ℕ × ℕ × R))
      → b.state ≡ opened
      → b.last_failure_time ≡ some (suc t)
      → suc t + b.config.timeout ≤ begun
      → b.config.success_threshold ≤ b.config.half_open_max_calls
      → suc (length cs) ≡ b.config.success_threshold
      → ((calls (returning ((begun, ended, r) ∷ cs)) b).0 ≡ returns ((begun, ended, r) ∷ cs))
        × ((calls (returning ((begun, ended, r) ∷ cs)) b).1.state ≡ closed)
        × ((calls (returning ((begun, ended, r) ∷ cs)) b).1.failure_count ≡ 0)
  unfolding calls protected can_execute record_success
  recovers b t begun ended r [] h e l m k = ground arith
  recovers b t begun ended r (d ∷ cs) h e l m k = ground (
    arith,
    closes_from_half_open b.config (record_success ended (can_execute begun b).1) (d ∷ cs),
  )

  -- Where `half_open_max_calls` is positive and below `success_threshold`, and calls are made one
  -- after the other: once the timeout of an open breaker is over and `half_open_max_calls` calls were
  -- admitted that all returned, the breaker stays half open, and every later call, at any time, is
  -- refused with CircuitBreakerOpenError.
  pub never_recovers :
      (b : CircuitBreaker E) (t begun ended : ℕ) (r : R) (cs : List (ℕ × ℕ × R))
      (ds : List (ℕ × ℕ × Outcome E R))
      → b.state ≡ opened
      → b.last_failure_time ≡ some (suc t)
      → suc t + b.config.timeout ≤ begun
      → b.config.half_open_max_calls < b.config.success_threshold
      → suc (length cs) ≡ b.config.half_open_max_calls
      → let b' = (calls (returning ((begun, ended, r) ∷ cs)) b).1 in
        (b'.state ≡ half_open) × (calls ds b' ≡ (all_rejected ds, b'))
  unfolding calls protected can_execute record_success
  never_recovers b t begun ended r cs ds h e l m k =
      let b₁ = record_success ended (can_execute begun b).1 in
      ground (arith, fills_half_open b.config b₁ cs, refuses_forever (calls (returning cs) b₁).1 ds)
