-- ===== src/Breaker/Registry.antt =====
-- CircuitBreakerRegistry and the module's functions: the breakers by name, and calls through them.
-- The registry is one object, and a breaker taken from it is the object that it holds: a call
-- through a name writes the breaker back under that name.
use text.Mathlib.Text.{◌==◌}
use text.Mathlib.TextEquality.{eq_iff}
use project_kernel_runtime.Base.{
  ℕ, ◌≡◌, ◌*◌, Bool, true, false, Option, none, some, String, List, [], ◌∷◌, map, length, ◌↔◌, ◌≢◌,
  All, refl, if◌then◌else◌, arith,
}
use project_kernel_runtime.Base.Dict.{ne_of_eq_false, Dict, lookup, insert, lookup-insert}
use project_kernel_runtime.Breaker.{
  CircuitState, opened, CircuitBreakerConfig, CircuitBreaker, CircuitMetrics, init, get_metrics,
}
use project_kernel_runtime.Breaker.Protect.{Outcome, Reply, protected}

-- A second is `second` ticks of the clock. `exceptions_to_track=(Exception,)` names every exception.
module _ {E : Type 0} (second : ℕ) where
  abbrev pub default_config : CircuitBreakerConfig E
  default_config = record {
    failure_threshold = 5;
    success_threshold = 3;
    timeout = 60 * second;
    half_open_max_calls = 3;
    exceptions_to_track = λ e. true;
  }

  abbrev pub llm_circuit_breaker : CircuitBreakerConfig E
  llm_circuit_breaker = record default_config {
    failure_threshold = 3;
    success_threshold = 2;
    timeout = 30 * second;
  }

  abbrev pub sandbox_circuit_breaker : CircuitBreakerConfig E
  sandbox_circuit_breaker = record default_config {
    failure_threshold = 5;
    success_threshold = 3;
    timeout = 60 * second;
  }

  abbrev pub database_circuit_breaker : CircuitBreakerConfig E
  database_circuit_breaker = record default_config {
    failure_threshold = 10;
    success_threshold = 5;
    timeout = 120 * second;
  }

  -- `config or CircuitBreakerConfig()`
  abbrev pub config_or : Option (CircuitBreakerConfig E) → CircuitBreakerConfig E
  config_or none = default_config
  config_or (some c) = c

  -- The breaker of the name, and the registry with it.
  unfoldable pub get_or_create :
      String
      → Option (CircuitBreakerConfig E)
      → Dict (CircuitBreaker E)
      → CircuitBreaker E × Dict (CircuitBreaker E)
  get_or_create name config breakers = elim (lookup name breakers) [
    | none ↦ let b = init (config_or config) in (b, insert name b breakers)
    | some b ↦ (b, breakers)
  ]

module _ {E R : Type 0} (second : ℕ) where
  -- A call of a function decorated by `with_circuit_breaker(name, config)`.
  unfoldable pub with_circuit_breaker :
      String
      → Option (CircuitBreakerConfig E)
      → ℕ
      → ℕ
      → Outcome E R
      → Dict (CircuitBreaker E)
      → Reply E R × Dict (CircuitBreaker E)
  unfolding get_or_create
  with_circuit_breaker name config begun ended o breakers =
      let (b, breakers') = get_or_create second name config breakers in
      let (r, b') = protected begun ended o b in (r, insert name b' breakers')

  -- A decorated call answers as its own breaker does, starting from the registered one or else from
  -- a new one under its configuration, leaves that breaker in the registry, and touches no other
  -- name: the failures of one service never reject the calls of another.
  pub with_circuit_breaker_isolated :
      (name other : String) (config : Option (CircuitBreakerConfig E)) (begun ended : ℕ)
      (o : Outcome E R) (breakers : Dict (CircuitBreaker E))
      → let b = (get_or_create second name config breakers).0 in
        let after = with_circuit_breaker name config begun ended o breakers in
        (after.0 ≡ (protected begun ended o b).0)
        × (lookup other after.1
            ≡ (if name == other then some (protected begun ended o b).1 else lookup other breakers))
  unfolding with_circuit_breaker
  with_circuit_breaker_isolated name other config begun ended o breakers =
      let b = get_or_create second name config breakers in
      let b' = (protected begun ended o b.0).1 in
      ground (
        arith,
        lookup-insert name other b' b.1,
        lookup-insert name other b.0 breakers,
        eq_iff name other,
      )

pub record CircuitHealth : Type 0 where
  pub state : CircuitState
  pub failure_count : ℕ
  pub success_count : ℕ

pub record Health : Type 0 where
  pub status : String
  pub total_circuits : ℕ
  pub open_circuits : List String
  pub circuits : Dict CircuitHealth

-- `"unhealthy" if open_circuits else "healthy"`
abbrev pub status_of : List String → String
status_of names = elim names [ [] ↦ "healthy" | _ ↦ "unhealthy" ]

nil_of_healthy : (names : List String) → status_of names ≡ "healthy" → names ≡ []
nil_of_healthy [] h = refl
nil_of_healthy (name ∷ names) h = absurd (ne_of_eq_false "unhealthy" "healthy" refl h)

module _ {E : Type 0} where
  abbrev pub is_open : CircuitBreaker E → Bool
  is_open b = elim b.state [ opened ↦ true | _ ↦ false ]

  -- `[name for name, cb in self._breakers.items() if cb.state == CircuitState.OPEN]`
  unfoldable pub open_circuits : Dict (CircuitBreaker E) → List String
  open_circuits [] = []
  open_circuits ((name, b) ∷ breakers) =
      let rest = open_circuits breakers in if is_open b then name ∷ rest else rest

  -- `health_check`; the states stand for their values, "closed", "open" and "half_open".
  unfoldable pub health_check : Dict (CircuitBreaker E) → Health
  unfolding open_circuits
  health_check breakers =
      let names = open_circuits breakers in
      record {
        status = status_of names;
        total_circuits = length breakers;
        open_circuits = names;
        circuits =
            map
              (λ e. (
                e.0,
                record {
                  state = e.1.state;
                  failure_count = e.1.failure_count;
                  success_count = e.1.success_count;
                },
              ))
              breakers;
      }

  unfoldable pub get_all_metrics : Dict (CircuitBreaker E) → Option (Dict CircuitMetrics)
  get_all_metrics [] = some []
  get_all_metrics ((name, b) ∷ breakers) =
      let rest = get_all_metrics breakers in
      elim (get_metrics b) [
        | none ↦ none
        | some m ↦ elim rest [ none ↦ none | some ms ↦ some ((name, m) ∷ ms) ]
      ]

  abbrev pub NoneOpen : Dict (CircuitBreaker E) → Type 0
  NoneOpen = All (λ e. e.1.state ≢ opened)

  none_open : (breakers : Dict (CircuitBreaker E)) → open_circuits breakers ≡ [] → NoneOpen breakers
  unfolding open_circuits
  none_open [] h = tt
  none_open ((name, b) ∷ breakers) h = ground (arith, none_open breakers)

  open_circuits-nil :
      (breakers : Dict (CircuitBreaker E)) → NoneOpen breakers → open_circuits breakers ≡ []
  unfolding open_circuits
  open_circuits-nil [] h = refl
  open_circuits-nil ((name, b) ∷ breakers) h = ground (arith, open_circuits-nil breakers)

  -- The registry reports "healthy" exactly when no circuit is open; a half-open one counts as
  -- healthy.
  pub health_check_status :
      (breakers : Dict (CircuitBreaker E))
      → ((health_check breakers).status ≡ "healthy") ↔ NoneOpen breakers
  unfolding health_check
  health_check_status breakers = (
    λ h. none_open breakers (nil_of_healthy (open_circuits breakers) h),
    λ h. rw (open_circuits-nil breakers h, status_of) refl,
  )
