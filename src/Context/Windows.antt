-- ===== src/Context/Windows.antt =====
-- How much the windows and the recent messages hold.
use project_kernel_runtime.Base.{
  ℕ, ◌+◌, ◌-◌, ◌≤◌, ◌<◌, ltb, ◌≡◌, refl, ap, Option, String, List, [], ◌∷◌, ◌++◌, All, All-append,
  length, length-append, length-drop, length-slice_last, slice_last, slice_but_last,
  slice_but_last-append-slice_last, Bool-cases, inl, inr, arith,
}
use project_kernel_runtime.Context.{
  Message, ContextWindow, SessionContext, TextTools, create_window, window_or, overflow,
  add_message,
}

-- A window with one message.
abbrev pub IsSingle : ContextWindow → Type 0
IsSingle w = length w.messages ≡ 1

window_or-recent :
    (old : List Message) (c : SessionContext)
    → (window_or (create_window old c) c).recent_messages ≡ c.recent_messages
unfolding create_window
window_or-recent [] c = refl
window_or-recent (m ∷ ms) c = refl

window_or-IsSingle :
    (old : List Message) (c : SessionContext)
    → length old ≡ 1
    → All IsSingle c.windows
    → All IsSingle (window_or (create_window old c) c).windows
unfolding create_window
window_or-IsSingle [] c e a = a
window_or-IsSingle (m ∷ ms) c e a = All-append IsSingle c.windows _ a (e, tt)

length-slice_last_of_longer :
    (n : ℕ) (xs : List Message) → 0 < n → length xs ≡ n + 1 → length (slice_last n xs) ≡ n
length-slice_last_of_longer n xs h e = ground (arith, length-drop (length xs - n) xs)

-- Moving all but the last `n` of `n + 1` messages moves one.
length-slice_but_last :
    (n : ℕ) (xs : List Message) → 0 < n → length xs ≡ n + 1 → length (slice_but_last n xs) ≡ 1
length-slice_but_last n xs h e = omega (
  arith,
  ap length (slice_but_last-append-slice_last n xs),
  length-append (slice_but_last n xs) (slice_last n xs),
  length-slice_last_of_longer n xs h e,
)

module _ (text : TextTools) (max_recent : ℕ) (positive : 0 < max_recent) where
  -- However many messages a context holds, at most `max_recent` of them are recent after a message
  -- is added. And if at most that many were recent before, and every window had one message, then
  -- every window has one message still.
  pub windows_hold_one :
      (role content : String) (task_id : Option String) (c : SessionContext)
      → let c' = add_message text max_recent role content task_id c in
        (length c'.recent_messages ≤ max_recent)
        × (length c.recent_messages ≤ max_recent → All IsSingle c.windows → All IsSingle c'.windows)
  unfolding add_message overflow
  windows_hold_one role content task_id c =
      let m : Message = record {
        sequence = c.last_sequence + 1;
        role = role;
        content = content;
        task_id = task_id;
      } in
      let all = c.recent_messages ++ m ∷ [] in
      let count = length-append c.recent_messages (m ∷ []) in
      elim (Bool-cases (ltb max_recent (length all))) [
        | inl more ↦ rw more (
          rw (window_or-recent (slice_but_last max_recent all) _)
              (length-slice_last max_recent all positive),
          λ few a.
              window_or-IsSingle (slice_but_last max_recent all) _
                (length-slice_but_last max_recent all positive (ground (arith, count))) a,
        )
        | inr fits ↦ rw fits (ground arith, λ few a. a)
      ]
