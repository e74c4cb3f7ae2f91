-- ===== src/Context/History.antt =====
-- What becomes of the messages that are added to a context.
use project_kernel_runtime.Base.{
  ℕ, ◌+◌, ◌≤◌, ltb, ◌≡◌, refl, sym, ap, ◌∙◌, Option, String, List, [], ◌∷◌, ◌++◌, append_assoc,
  append-nil, All, All-append, length, slice_last, slice_but_last, slice_but_last-append-slice_last,
  Bool-cases, inl, inr, arith,
}
use project_kernel_runtime.Context.{
  Message, ContextWindow, SessionContext, TextTools, create_window, window_or, overflow,
  add_message, windows_then, insert_message, sort_messages, build_for_ui,
}

pub record NewMessage : Type 0 where
  pub role : String
  pub content : String
  pub task_id : Option String

-- The messages as they are numbered after `n`.
unfoldable pub numbered : ℕ → List NewMessage → List Message
numbered n [] = []
numbered n (d ∷ ds) =
    record { sequence = n + 1; role = d.role; content = d.content; task_id = d.task_id }
    ∷ numbered (n + 1) ds

abbrev pub all_messages : SessionContext → List Message
all_messages c = windows_then c.windows c.recent_messages

-- In the order of their numbers, none above the last one.
unfoldable pub Ordered : ℕ → List Message → Type 0
Ordered n [] = Unit
Ordered n (m ∷ ms) = (m.sequence ≤ n) × All (λ x. m.sequence ≤ x.sequence) ms × Ordered n ms

sort-Ordered : (n : ℕ) (ms : List Message) → Ordered n ms → sort_messages ms ≡ ms
unfolding Ordered sort_messages insert_message
sort-Ordered n [] o = refl
sort-Ordered n (m ∷ []) o = refl
sort-Ordered n (m ∷ k ∷ ms) (h, a, o) = rw (sort-Ordered n (k ∷ ms) o) (ground (arith, a.0))

All-above :
    (n : ℕ) (m : Message) (ms : List Message)
    → m.sequence ≤ n
    → All (λ x. m.sequence ≤ x.sequence) ms
    → (k : Message) → k.sequence ≡ n + 1
    → All (λ x. m.sequence ≤ x.sequence) (ms ++ k ∷ [])
All-above n m ms h a k e = All-append (λ x. m.sequence ≤ x.sequence) ms (k ∷ []) a (omega arith, tt)

Ordered-add :
    (n : ℕ) (ms : List Message) (k : Message)
    → k.sequence ≡ n + 1
    → Ordered n ms
    → Ordered (n + 1) (ms ++ k ∷ [])
unfolding Ordered
Ordered-add n [] k e o = (omega arith, tt, tt)
Ordered-add n (m ∷ ms) k e (h, a, o) =
    (omega arith, All-above n m ms h a k e, Ordered-add n ms k e o)

windows_then-append :
    (ws : List ContextWindow) (recent more : List Message)
    → windows_then ws (recent ++ more) ≡ windows_then ws recent ++ more
unfolding windows_then
windows_then-append [] recent more = refl
windows_then-append (w ∷ ws) recent more =
    ap (λ l. w.messages ++ l) (windows_then-append ws recent more)
    ∙ sym (append_assoc w.messages _ more)

windows_then-window :
    (ws : List ContextWindow) (w : ContextWindow) (recent : List Message)
    → windows_then (ws ++ w ∷ []) recent ≡ windows_then ws (w.messages ++ recent)
unfolding windows_then
windows_then-window [] w recent = refl
windows_then-window (v ∷ ws) w recent = ap (λ l. v.messages ++ l) (windows_then-window ws w recent)

window_or-all_messages :
    (old : List Message) (c : SessionContext)
    → all_messages (window_or (create_window old c) c)
      ≡ windows_then c.windows (old ++ c.recent_messages)
unfolding create_window
window_or-all_messages [] c = refl
window_or-all_messages (m ∷ ms) c = windows_then-window c.windows _ c.recent_messages

overflow-all_messages :
    (max_recent : ℕ) (c : SessionContext) → all_messages (overflow max_recent c) ≡ all_messages c
unfolding overflow
overflow-all_messages max_recent c =
    window_or-all_messages (slice_but_last max_recent c.recent_messages) _
    ∙ ap (windows_then c.windows) (slice_but_last-append-slice_last max_recent c.recent_messages)

window_or-last_sequence :
    (old : List Message) (c : SessionContext)
    → (window_or (create_window old c) c).last_sequence ≡ c.last_sequence
unfolding create_window
window_or-last_sequence [] c = refl
window_or-last_sequence (m ∷ ms) c = refl

module _ (text : TextTools) (max_recent : ℕ) where
  unfoldable pub add_messages : List NewMessage → SessionContext → SessionContext
  add_messages [] c = c
  add_messages (d ∷ ds) c =
      add_messages ds (add_message text max_recent d.role d.content d.task_id c)

  -- One more message, under the next number.
  record AddsOne (d : NewMessage) (c c' : SessionContext) : Type 0 where
    messages :
        all_messages c'
        ≡ all_messages c
          ++ record {
            sequence = c.last_sequence + 1;
            role = d.role;
            content = d.content;
            task_id = d.task_id;
          }
            ∷ []
    last : c'.last_sequence ≡ c.last_sequence + 1

  add_message-AddsOne :
      (d : NewMessage) (c : SessionContext)
      → AddsOne d c (add_message text max_recent d.role d.content d.task_id c)
  unfolding add_message overflow
  add_message-AddsOne d c =
      let m : Message = record {
        sequence = c.last_sequence + 1;
        role = d.role;
        content = d.content;
        task_id = d.task_id;
      } in
      let c' : SessionContext = record c {
        last_sequence = c.last_sequence + 1;
        recent_messages = c.recent_messages ++ m ∷ [];
      } in
      elim (Bool-cases (ltb max_recent (length c'.recent_messages))) [
        | inl more ↦ rw more (record {
          messages =
              overflow-all_messages max_recent c'
              ∙ windows_then-append c.windows c.recent_messages (m ∷ []);
          last = window_or-last_sequence (slice_but_last max_recent c'.recent_messages) _;
        })
        | inr fits ↦ rw fits (record {
          messages = windows_then-append c.windows c.recent_messages (m ∷ []);
          last = refl;
        })
      ]

  add_messages-Ordered :
      (ds : List NewMessage) (c : SessionContext)
      → Ordered c.last_sequence (all_messages c)
      → let c' = add_messages ds c in
        Ordered c'.last_sequence (all_messages c')
        × (all_messages c' ≡ all_messages c ++ numbered c.last_sequence ds)
  unfolding add_messages numbered
  add_messages-Ordered [] c o = (o, sym (append-nil (all_messages c)))
  add_messages-Ordered (d ∷ ds) c o =
      let c' = add_message text max_recent d.role d.content d.task_id c in
      let one = add_message-AddsOne d c in
      let (o', e) =
        add_messages-Ordered ds c'
          (rw (one.last, one.messages) (Ordered-add c.last_sequence (all_messages c) _ refl o)) in
      (
        o',
        e
            ∙ ap (λ n. all_messages c' ++ numbered n ds) one.last
            ∙ ap (λ l. l ++ numbered (c.last_sequence + 1) ds) one.messages
            ∙ append_assoc (all_messages c) _ _,
      )

  -- The user's view of a context: after any messages are added to a context whose messages are in
  -- the order of their numbers, it shows the last `limit` (all, if that is 0) of the messages that
  -- were there and the added ones, in that order and numbered on; moving messages to windows loses
  -- and reorders none.
  pub history_is_kept :
      (limit : ℕ) (ds : List NewMessage) (c : SessionContext)
      → Ordered c.last_sequence (all_messages c)
      → build_for_ui limit (add_messages ds c)
        ≡ slice_last limit (all_messages c ++ numbered c.last_sequence ds)
  unfolding build_for_ui
  history_is_kept limit ds c o =
      let (o', e) = add_messages-Ordered ds c o in
      ap (slice_last limit) (sort-Ordered (add_messages ds c).last_sequence _ o' ∙ e)
