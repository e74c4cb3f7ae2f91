-- ===== src/RateLimit/Window.antt =====
-- The sliding window: how many requests of a key any minute admits.
use text.Mathlib.Text.{◌==◌}
use text.Mathlib.TextEquality.{eq_iff}
use project_kernel_runtime.Base.{
  ℕ, suc, inl, inr, Bool-cases, leb→le, ◌+◌, ◌*◌, ◌≤◌, ◌<◌, ◌≡◌, refl, Bool, ◌&&◌, String, List, [],
  ◌∷◌, ◌++◌, keep, keep-append, length, length-append, ltb, leb, if◌then◌else◌, arith,
}
use project_kernel_runtime.Base.Dict.{insert, lookup, lookup-insert}
use project_kernel_runtime.RateLimit.{RateLimitConfig, Windows, recent, window, check_rate_limit}

-- The times in the minute that ends with `e`: after `e - minute`, and up to `e`.
abbrev pub in_minute : ℕ → ℕ → ℕ → Bool
in_minute minute e t = ltb e (t + minute) && leb t e

unfoldable pub count_in : ℕ → ℕ → List ℕ → ℕ
count_in minute e times = length (keep (in_minute minute e) times)

module _ (minute : ℕ) where
  count_in-recent :
      (now e : ℕ) (times : List ℕ)
      → now ≤ e
      → count_in minute e (recent minute now times) ≡ count_in minute e times
  unfolding count_in recent
  count_in-recent now e [] h = refl
  count_in-recent now e (t ∷ times) h = ground (arith, count_in-recent now e times)

  count_in-le-recent :
      (last e : ℕ) (times : List ℕ)
      → last ≤ e
      → count_in minute e times ≤ length (recent minute last times)
  unfolding count_in recent
  count_in-le-recent last e [] h = omega arith
  count_in-le-recent last e (t ∷ times) h = ground (arith, count_in-le-recent last e times)

  length-recent-le :
      (last now : ℕ) (times : List ℕ)
      → last ≤ now
      → length (recent minute now times) ≤ length (recent minute last times)
  unfolding recent
  length-recent-le last now [] h = omega arith
  length-recent-le last now (t ∷ times) h = ground (arith, length-recent-le last now times)

  recent_again :
      (now : ℕ) (times : List ℕ)
      → length (recent minute now (recent minute now times)) ≤ length (recent minute now times)
  unfolding recent
  recent_again now [] = omega arith
  recent_again now (t ∷ times) = ground (arith, recent_again now times)

  length-recent-append :
      (now t : ℕ) (times : List ℕ)
      → length (recent minute now (times ++ t ∷ [])) ≤ suc (length (recent minute now times))
  unfolding recent
  length-recent-append now t [] = ground arith
  length-recent-append now t (u ∷ times) = ground (arith, length-recent-append now t times)

  count_in-append :
      (e : ℕ) (xs ys : List ℕ)
      → count_in minute e (xs ++ ys) ≡ count_in minute e xs + count_in minute e ys
  unfolding count_in
  count_in-append e xs ys =
      rw (keep-append (in_minute minute e) xs ys)
        (length-append (keep (in_minute minute e) xs) (keep (in_minute minute e) ys))

-- Requests come in the order in which they take the lock: when, and for which key.
abbrev pub Requests : Type 0
Requests = List (ℕ × String)

-- No reading of the clock is before the one ahead of it.
abbrev pub Ordered : ℕ → Requests → Type 0
Ordered last [] = Unit
Ordered last ((now, key) ∷ requests) = (last ≤ now) × Ordered now requests

module _ (second : ℕ) (config : RateLimitConfig) (key : String) where
  -- When the requests for `key` that are admitted come, among the requests for all keys.
  unfoldable pub admitted : Requests → Windows → List ℕ
  admitted [] windows = []
  admitted ((now, k) ∷ requests) windows =
      let (status, windows') = check_rate_limit second now k config windows in
      let rest = admitted requests windows' in
      if k == key && status.allowed then now ∷ rest else rest

  -- A minute that ends before the requests has none of them.
  admitted_later :
      (e last : ℕ) (requests : Requests) (windows : Windows)
      → e < last
      → Ordered last requests
      → count_in (60 * second) e (admitted requests windows) ≡ 0
  unfolding admitted count_in
  admitted_later e last [] windows h o = refl
  admitted_later e last ((now, k) ∷ requests) windows h o =
      ground (arith, admitted_later e now requests (check_rate_limit second now k config windows).1)

  window-insert :
      (k : String) (times : List ℕ) (windows : Windows)
      → window key (insert k times windows) ≡ (if k == key then times else window key windows)
  unfolding window
  window-insert k times windows = rw lookup-insert (ground arith)

  -- A check keeps the stored minute within the limit, and moves what it admits into the window.
  check_step :
      (e last now : ℕ) (k : String) (requests : Requests) (windows : Windows)
      → last ≤ now
      → now ≤ e
      → length (recent (60 * second) last (window key windows)) ≤ config.requests_per_minute
      → let windows' = (check_rate_limit second now k config windows).1 in
        (length (recent (60 * second) now (window key windows')) ≤ config.requests_per_minute)
        × (count_in (60 * second) e (window key windows)
              + count_in (60 * second) e (admitted ((now, k) ∷ requests) windows)
            ≡ count_in (60 * second) e (window key windows')
              + count_in (60 * second) e (admitted requests windows'))
  unfolding admitted check_rate_limit
  check_step e last now k requests windows h h' b =
      let minute = 60 * second in
      let kept = recent minute now (window k windows) in
      let times = if ltb (length kept) config.requests_per_minute then kept ++ now ∷ [] else kept in
      ground (
        arith,
        window-insert k times windows,
        eq_iff k key,
        length-recent-le minute last now (window key windows) h,
        recent_again minute now (window key windows),
        length-recent-append minute now now kept,
        count_in-recent minute now e (window key windows) h',
        count_in-append minute e kept (now ∷ []),
        count_in-append minute e (now ∷ []) (admitted requests (insert k times windows)),
      )

  within_limit :
      (e last : ℕ) (requests : Requests) (windows : Windows)
      → last ≤ e
      → Ordered last requests
      → length (recent (60 * second) last (window key windows)) ≤ config.requests_per_minute
      → count_in (60 * second) e (window key windows)
          + count_in (60 * second) e (admitted requests windows)
        ≤ config.requests_per_minute
  within_limit e last [] windows h o b =
      omega (arith, none_admitted, count_in-le-recent (60 * second) last e (window key windows) h)
    where
      none_admitted : count_in (60 * second) e (admitted [] windows) ≡ 0
      none_admitted = admitted_later e (suc e) [] windows (omega arith) tt
  within_limit e last ((now, k) ∷ requests) windows h o b = elim (Bool-cases (leb now e)) [
    | inl le ↦
        let windows' = (check_rate_limit second now k config windows).1 in
        let (b', same) = check_step e last now k requests windows o.0 (leb→le now e le) b in
        omega (arith, within_limit e now requests windows' (leb→le now e le) o.1 b')
    | inr gt ↦ omega (
      arith,
      count_in-le-recent (60 * second) last e (window key windows) h,
      admitted_later e now ((now, k) ∷ requests) windows (ground arith) (omega arith, o.1),
    )
  ]

  -- Whatever other keys are asked for in between, and as long as the clock does not go back, no
  -- minute, wherever it lies, admits more requests for a key than `requests_per_minute`.
  pub sliding_window :
      (e : ℕ) (requests : Requests)
      → Ordered 0 requests
      → count_in (60 * second) e (admitted requests []) ≤ config.requests_per_minute
  unfolding lookup
  sliding_window e requests o =
      let b = within_limit e 0 requests [] (omega arith) o (unfold window recent in omega arith) in
      omega (arith, b)
