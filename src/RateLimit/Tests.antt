-- ===== src/RateLimit/Tests.antt =====
-- The window at a concrete history.
use project_kernel_runtime.Base.{ℕ, ◌≤◌, ◌≡◌, refl, some, [], ◌∷◌, arith}
use project_kernel_runtime.Base.Dict.{lookup, insert}
use project_kernel_runtime.RateLimit.{
  RateLimitConfig, recent, window, check_rate_limit, check, rate_limited, rate_limit_exceeded,
}
use project_kernel_runtime.RateLimit.Window.{count_in, Requests, admitted, sliding_window}

abbrev two_a_minute : RateLimitConfig
two_a_minute = record { requests_per_minute = 2; key_prefix = "ratelimit" }

abbrev asks : Requests
asks = (0, "a") ∷ (5, "b") ∷ (10, "a") ∷ (20, "a") ∷ (60, "a") ∷ (65, "a") ∷ (70, "a") ∷ []

admits : admitted 1 two_a_minute "a" asks [] ≡ 0 ∷ 10 ∷ 60 ∷ 70 ∷ []
unfolding admitted check_rate_limit window recent lookup insert
admits = refl

sliding_window_example : count_in 60 60 (admitted 1 two_a_minute "a" asks []) ≤ 2
sliding_window_example = sliding_window 1 two_a_minute "a" 60 asks (omega arith)

refused :
    (rate_limited 1 {R = ℕ} 7 "f" (record two_a_minute { requests_per_minute = 0 }) 5 []).0
    ≡ rate_limit_exceeded (some 60)
unfolding rate_limited check check_rate_limit window recent lookup
refused = refl
