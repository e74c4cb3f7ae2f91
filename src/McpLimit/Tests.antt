-- ===== src/McpLimit/Tests.antt =====
-- The limiter at a concrete key.
use project_kernel_runtime.Base.{ℕ, ◌≡◌, refl, [], ◌∷◌}
use project_kernel_runtime.Base.Dict.{lookup, insert}
use project_kernel_runtime.McpLimit.{
  RateLimitEntry, Readings, check_rate_limit, cleanup_old_entries, plugin_rate_limiter,
}

abbrev at_once : ℕ → Readings
at_once t = record { now = t; created = t; asked = t }

abbrev full : RateLimitEntry
full = record { count = 2; first_request = 0; blocked_until = 0 }

-- A new key: the first check is granted and counted.
first_check :
    (check_rate_limit 1 (at_once 5) "plugin_reg:t" (plugin_rate_limiter 1)).1.entries
    ≡ ("plugin_reg:t", record { count = 1; first_request = 5; blocked_until = 0 }) ∷ []
unfolding check_rate_limit plugin_rate_limiter lookup insert
first_check = refl

cleaned :
    (cleanup_old_entries 3700 3600
      (record { max_requests = 50; window = 60; entries = ("k", full) ∷ [] })).entries
    ≡ []
unfolding cleanup_old_entries
cleaned = refl
