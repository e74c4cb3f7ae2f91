-- ===== src/McpLimit.antt =====
-- src/services/mcp/mcp_rate_limiter.py: the fixed-window limiter of plugin registration and of tool
-- execution. Times are whole ticks, `second` of them to a second. `check_rate_limit` takes no lock
-- and does not wait, so it is one step. It reads the clock up to three times: `now` first, then
-- `created` where the key is new (the entry's default), then `asked` in `is_blocked`.
pub mod Blocking
mod Tests
use text.Mathlib.Text.{◌==◌}
use Prim.Native.String.{◌++◌ as str_append}
use project_kernel_runtime.Base.{
  ℕ, ◌+◌, ◌-◌, ◌*◌, ◌/◌, Bool, true, false, Option, none, some, String, List, [], ◌∷◌, ltb, leb,
  not, ◌&&◌, if◌then◌else◌, keep,
}
use project_kernel_runtime.Base.Dict.{Dict, lookup, insert}

pub record RateLimitEntry : Type 0 where
  pub count : ℕ
  pub first_request : ℕ
  pub blocked_until : ℕ

pub record RateLimiter : Type 0 where
  pub max_requests : ℕ
  pub window : ℕ
  pub entries : Dict RateLimitEntry

-- Readings of the clock in one check.
pub record Readings : Type 0 where
  pub now : ℕ
  pub created : ℕ
  pub asked : ℕ

unfoldable pub is_blocked : ℕ → RateLimitEntry → Bool
is_blocked asked entry = ltb asked entry.blocked_until

unfoldable pub increment : RateLimitEntry → RateLimitEntry
increment entry = record entry { count = entry.count + 1 }

-- `self._entries[key]` of the defaultdict.
abbrev pub entry_or : ℕ → Option RateLimitEntry → RateLimitEntry
entry_or created none = record { count = 0; first_request = created; blocked_until = 0 }
entry_or created (some entry) = entry

-- `if now - entry.first_request > self.window_seconds`
unfoldable pub restart : ℕ → ℕ → RateLimitEntry → RateLimitEntry
restart window now entry =
    if ltb (entry.first_request + window) now
    then record entry { count = 0; first_request = now }
    else entry

module _ (second : ℕ) where
  -- What is returned: whether the request may go on, and the seconds to wait. The entry after it.
  unfoldable pub check_entry : ℕ → ℕ → Readings → RateLimitEntry → (Bool × ℕ) × RateLimitEntry
  unfolding is_blocked increment restart
  check_entry max_requests window r entry =
      if is_blocked r.asked entry
      then ((false, (entry.blocked_until - r.now) / second), entry)
      else (let entry' = restart window r.now entry in
          if leb max_requests entry'.count
          then (
            (false, window / second),
            record entry' { blocked_until = r.now + window; count = 0 },
          )
          else ((true, 0), increment entry'))

  unfoldable pub check_rate_limit : Readings → String → RateLimiter → (Bool × ℕ) × RateLimiter
  unfolding check_entry
  check_rate_limit r key limiter =
      let entry = entry_or r.created (lookup key limiter.entries) in
      let (answer, entry') = check_entry limiter.max_requests limiter.window r entry in
      (answer, record limiter { entries = insert key entry' limiter.entries })

  unfoldable pub check_plugin_registration_rate_limit :
      Readings → String → RateLimiter → (Bool × ℕ) × RateLimiter
  unfolding check_rate_limit
  check_plugin_registration_rate_limit r tenant limiter =
      check_rate_limit r (str_append "plugin_reg:" tenant) limiter

  unfoldable pub check_tool_execution_rate_limit :
      Readings → String → RateLimiter → (Bool × ℕ) × RateLimiter
  unfolding check_rate_limit
  check_tool_execution_rate_limit r name limiter =
      check_rate_limit r (str_append "tool_exec:" name) limiter

  -- The two limiters of the module.
  unfoldable pub plugin_rate_limiter : RateLimiter
  plugin_rate_limiter = record { max_requests = 50; window = 60 * second; entries = [] }

  unfoldable pub execution_rate_limiter : RateLimiter
  execution_rate_limiter = record { max_requests = 200; window = 60 * second; entries = [] }

-- `cleanup_old_entries`
unfoldable pub cleanup_old_entries : ℕ → ℕ → RateLimiter → RateLimiter
cleanup_old_entries now max_age limiter = record limiter {
  entries = keep (λ e. not (ltb (e.1.first_request + max_age) now)) limiter.entries;
}
