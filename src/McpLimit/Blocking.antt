-- ===== src/McpLimit/Blocking.antt =====
-- What the limiter grants, and how long it blocks.
use project_kernel_runtime.Base.{
  ℕ, ◌+◌, ◌-◌, ◌≤◌, ◌<◌, ◌≡◌, refl, Bool, true, false, List, [], ◌∷◌, map, All, length,
  le→ltb_false, lt→leb_false, lt→ltb, ◌/◌, Bool-cases, inl, inr, leb, arith,
}
use project_kernel_runtime.McpLimit.{
  RateLimitEntry, Readings, is_blocked, increment, restart, check_entry,
}

-- One key's checks in order: the readings of each.
module _ (second max_requests window : ℕ) where
  unfoldable pub checks : List Readings → RateLimitEntry → List Bool × RateLimitEntry
  checks [] entry = ([], entry)
  checks (r ∷ rs) entry =
      let (answer, entry') = check_entry second max_requests window r entry in
      let (answers, entry'') = checks rs entry' in (answer.0 ∷ answers, entry'')

  count_le :
      (entry : RateLimitEntry) (rs : List Readings)
      → entry.count ≤ max_requests
      → (checks rs entry).1.count ≤ max_requests
  unfolding checks check_entry
  count_le entry [] h = h
  count_le entry (r ∷ rs) h =
      count_le (check_entry second max_requests window r entry).1 rs (ground arith)

  granted :
      (r : Readings) (entry : RateLimitEntry)
      → entry.blocked_until ≤ r.asked
      → entry.count < max_requests
      → check_entry second max_requests window r entry
        ≡ ((true, 0), increment (restart window r.now entry))
  unfolding check_entry
  granted r entry h l =
      rw (le→ltb_false r.asked entry.blocked_until h)
        (rw (lt→leb_false max_requests (restart window r.now entry).count (ground arith)) refl)

  refused :
      (r : Readings) (entry : RateLimitEntry)
      → r.asked < entry.blocked_until
      → check_entry second max_requests window r entry
        ≡ ((false, (entry.blocked_until - r.now) / second), entry)
  unfolding check_entry
  refused r entry h = rw (lt→ltb r.asked entry.blocked_until h) refl

  refused_until :
      (rs : List Readings) (entry : RateLimitEntry)
      → All (λ r. r.asked < entry.blocked_until) rs
      → checks rs entry ≡ (map (λ r. false) rs, entry)
  unfolding checks
  refused_until [] entry a = refl
  refused_until (r ∷ rs) entry a = rw (refused r entry a.0) (rw (refused_until rs entry a.1) refl)

  granted_until :
      (rs : List Readings) (entry : RateLimitEntry) (over : ℕ)
      → entry.blocked_until ≤ over
      → All (λ r. over ≤ r.asked) rs
      → entry.count + length rs ≤ max_requests
      → (checks rs entry).0 ≡ map (λ r. true) rs
  unfolding checks
  granted_until [] entry over b a l = refl
  granted_until (r ∷ rs) entry over b a l = rw (granted r entry (omega arith) (omega arith)) (
      rw
        (granted_until rs (increment (restart window r.now entry)) over
          (unfold increment restart in ground arith) a.1 (unfold increment restart in ground arith))
        refl)

  turned_away :
      (r : Readings) (entry : RateLimitEntry)
      → is_blocked r.asked entry ≡ false
      → (check_entry second max_requests window r entry).0.0 ≡ false
      → (check_entry second max_requests window r entry).1
        ≡ record (restart window r.now entry) { blocked_until = r.now + window; count = 0 }
  unfolding check_entry
  turned_away r entry u h =
      elim (Bool-cases (leb max_requests (restart window r.now entry).count)) [
        | inl over ↦ rw (u, over) refl
        | inr under ↦ cc (rw (u, under) at h)
      ]

  -- A key that a check turns away, and that was not blocked before, is blocked until `now + window`.
  -- Every check before then is refused and changes nothing, so that asking does not prolong the
  -- block; and from then on the key starts afresh: the next `max_requests` checks are granted.
  pub blocked_for_window :
      (r : Readings) (during after : List Readings) (entry : RateLimitEntry)
      → is_blocked r.asked entry ≡ false
      → (check_entry second max_requests window r entry).0.0 ≡ false
      → All (λ later. later.asked < r.now + window) during
      → All (λ later. r.now + window ≤ later.asked) after
      → length after ≤ max_requests
      → let entry' = (check_entry second max_requests window r entry).1 in
        (checks during entry' ≡ (map (λ later. false) during, entry'))
        × ((checks after entry').0 ≡ map (λ later. true) after)
  blocked_for_window r during after entry u h a b l =
      let entry' = record (restart window r.now entry) {
        blocked_until = r.now + window;
        count = 0;
      } in
      rw (turned_away r entry u h) (
        refused_until during entry' a,
        granted_until after entry' (r.now + window) (omega arith) b (omega arith),
      )
