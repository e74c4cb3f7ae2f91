-- ===== src/RateLimit.antt =====
-- src/infrastructure/resilience/rate_limiter.py: the in-memory limiter and the limiter before it.
-- Times are whole ticks, `second` of them to a second; a reading of the clock is an argument. The
-- limiter's methods hold its lock throughout, so each is one step on the windows.
-- `requests_per_minute` stands for `int(config.requests_per_minute)`.
pub mod Window
mod Tests
use text.Mathlib.Text.{◌==◌}
use Prim.Native.String.{◌++◌ as str_append}
use project_kernel_runtime.Base.{
  ℕ, ◌+◌, ◌-◌, ◌*◌, Bool, true, false, Option, none, some, String, List, [], ◌∷◌, ◌++◌, keep,
  length, ltb, if◌then◌else◌,
}
use project_kernel_runtime.Base.Dict.{Dict, lookup, insert, erase}

pub record RateLimitConfig : Type 0 where
  pub requests_per_minute : ℕ
  pub key_prefix : String

pub record RateLimitStatus : Type 0 where
  pub allowed : Bool
  pub remaining : ℕ
  pub reset_after : ℕ
  pub retry_after : Option ℕ
  pub limit : ℕ
  pub current : ℕ

abbrev pub Windows : Type 0
Windows = Dict (List ℕ)

-- `[t for t in times if t > now - 60]`, with the subtraction moved to the other side.
unfoldable pub recent : ℕ → ℕ → List ℕ → List ℕ
recent minute now = keep (λ t. ltb now (t + minute))

abbrev pub or_empty : Option (List ℕ) → List ℕ
or_empty none = []
or_empty (some times) = times

-- The times under a key; a missing key is given an empty list.
unfoldable pub window : String → Windows → List ℕ
window key windows = or_empty (lookup key windows)

abbrev pub first_or : ℕ → List ℕ → ℕ
first_or now [] = now
first_or now (t ∷ times) = t

-- What a caller gets: the result of the work, or RateLimitExceeded in its place.
pub data Guarded (R : Type 0) : Type 0 where
  done : R → Guarded R
  rate_limit_exceeded : Option ℕ → Guarded R

module _ (second : ℕ) where
  unfoldable pub check_rate_limit :
      ℕ → String → RateLimitConfig → Windows → RateLimitStatus × Windows
  check_rate_limit now key config windows =
      let kept = recent (60 * second) now (window key windows) in
      let current_count = length kept in
      let limit = config.requests_per_minute in
      let allowed = ltb current_count limit in
      let times = if allowed then kept ++ now ∷ [] else kept in
      let oldest = first_or now times in
      (
        record {
          allowed = allowed;
          remaining = limit - current_count - 1;
          reset_after = 60 * second + oldest - now;
          retry_after = if allowed then none else some (60 * second);
          limit = limit;
          current = current_count;
        },
        insert key times windows,
      )

  unfoldable pub reset : String → Windows → Windows
  reset key windows = erase key windows

  -- `RateLimiter.check` over the in-memory limiter.
  unfoldable pub check : ℕ → String → RateLimitConfig → Windows → RateLimitStatus × Windows
  check now key config windows =
      check_rate_limit now (str_append config.key_prefix (str_append ":" key)) config windows

  -- A call of a function decorated by `rate_limited`, whose work returns `result`.
  unfoldable pub rate_limited :
      {R : Type 0} → ℕ → String → RateLimitConfig → R → Windows → Guarded R × Windows
  rate_limited now key config result windows =
      let (status, windows') = check now key config windows in
      (if status.allowed then done result else rate_limit_exceeded status.retry_after, windows')
