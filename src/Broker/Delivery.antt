-- ===== src/Broker/Delivery.antt =====
-- Every message of a stream is handled at most three times, and ends completed or dead-lettered.
use text.Mathlib.TextPositions.{eq_refl}
use mathlib.Core.Path.{subst}
use project_kernel_runtime.Base.{
  sym, ℕ, zero, suc, ◌+◌, ◌-◌, ◌*◌, ◌≤◌, ◌<◌, ◌≡◌, refl, Bool, true, ◌||◌, Option, none, some,
  String, List, [], ◌∷◌, ◌++◌, All, All-append, any, length, inl, inr, Bool-cases, leb,
  leb_false→lt, ◌∙◌, arith,
}
use project_kernel_runtime.Base.Dict.{insert, lookup-insert}
use project_kernel_runtime.Broker.{
  MessageId, StreamMessage, LocalDurableBroker, Callback, same_id, queue_of, is_completed, handle,
  on_failure, on_success, round, rounds, finish, dead_letter, processing, set_pending,
}

module _ {D : Type 0} where
  -- Attempts that the messages of a queue have left.
  abbrev pub attempts_left : List (StreamMessage D) → ℕ
  attempts_left [] = 0
  attempts_left (m ∷ ms) = (3 - m.attempt_count) + attempts_left ms

  attempts_left-append :
      (xs ys : List (StreamMessage D))
      → attempts_left (xs ++ ys) ≡ attempts_left xs + attempts_left ys
  attempts_left-append [] ys = omega arith
  attempts_left-append (x ∷ xs) ys = omega (arith, attempts_left-append xs ys)

  abbrev pub HasAttempts : List (StreamMessage D) → Type 0
  HasAttempts = All (λ m. m.attempt_count < 3)

  abbrev pub holds : MessageId → List (StreamMessage D) → Bool
  holds i = any (λ m. same_id i m.id)

  holds-append :
      (i : MessageId) (xs ys : List (StreamMessage D))
      → holds i (xs ++ ys) ≡ (holds i xs || holds i ys)
  holds-append i [] ys = refl
  holds-append i (x ∷ xs) ys = ground (arith, holds-append i xs ys)

  queue_of-insert :
      (stream : String) (queue : List (StreamMessage D)) (b : LocalDurableBroker D)
      → queue_of stream (record b { streams = insert stream queue b.streams }) ≡ queue
  unfolding queue_of
  queue_of-insert stream queue b = rw (lookup-insert, eq_refl) refl

module _ {D : Type 0} (stream group : String) (callback : Callback D) where
  -- The callback leaves the queue of the stream alone, and what has been completed or given up.
  abbrev pub LeavesStream : Type 0
  LeavesStream =
      (m : StreamMessage D) (b : LocalDurableBroker D)
      → (queue_of stream (callback m b).1 ≡ queue_of stream b)
        × ((callback m b).1.completed ≡ b.completed)
        × ((callback m b).1.dlq ≡ b.dlq)

  -- A message with this identifier waits, is completed or is dead-lettered.
  abbrev pub accounted : MessageId → LocalDurableBroker D → Bool
  accounted i b = holds i (queue_of stream b) || is_completed i b || holds i b.dlq

  finish_step :
      (m : StreamMessage D) (b : LocalDurableBroker D) (o : Option String) (i : MessageId)
      → m.attempt_count < 3
      → HasAttempts (queue_of stream b)
      → let b' = finish stream m (o, b) in
        (attempts_left (queue_of stream b')
          < (3 - m.attempt_count) + attempts_left (queue_of stream b))
        × HasAttempts (queue_of stream b')
        × (accounted i b' ≡ (same_id i m.id || accounted i b))
  unfolding on_failure on_success queue_of is_completed
  finish_step m b none i h a = ground arith
  finish_step m b (some e) i h a = elim (Bool-cases (leb 3 (m.attempt_count + 1))) [
    | inl last ↦ rw last (
      omega arith,
      a,
      ground (
        arith,
        holds-append i b.dlq (
            record m { attempt_count = m.attempt_count + 1; status = dead_letter; error = some e }
            ∷ []),
      ),
    )
    | inr again ↦
        let m' = record m { attempt_count = m.attempt_count + 1 } in
        rw again (
          rw (lookup-insert, eq_refl)
            (
              omega (
                arith,
                attempts_left-append (queue_of stream b) (m' ∷ []),
                leb_false→lt 3 (m.attempt_count + 1) again,
              ),
              All-append (λ n. n.attempt_count < 3) (queue_of stream b) (m' ∷ []) a
                  (leb_false→lt 3 (m.attempt_count + 1) again, tt),
              ground (arith, holds-append i (queue_of stream b) (m' ∷ [])),
            ))
  ]

  same_id→≡ : (i j : MessageId) → same_id i j ≡ true → i ≡ j
  same_id→≡ i j h = ground arith

  -- What a round does to a stream whose queue is `m ∷ queue`.
  Progress :
      MessageId
      → StreamMessage D
      → List (StreamMessage D)
      → LocalDurableBroker D
      → LocalDurableBroker D
      → Type 0
  Progress i m queue b b' =
      (attempts_left (queue_of stream b') < (3 - m.attempt_count) + attempts_left queue)
      × HasAttempts (queue_of stream b')
      × (accounted i b ≡ true → accounted i b' ≡ true)

  skip_step :
      (m : StreamMessage D) (queue : List (StreamMessage D)) (b : LocalDurableBroker D)
      (i : MessageId)
      → queue_of stream b ≡ m ∷ queue
      → HasAttempts (m ∷ queue)
      → is_completed m.id b ≡ true
      → Progress i m queue b (record b { streams = insert stream queue b.streams })
  unfolding Progress is_completed
  skip_step m queue b i e a c =
      rw (queue_of-insert stream queue b) (omega arith, a.1, λ h. ground (arith, same_id→≡ i m.id))

  run_step :
      (m : StreamMessage D) (queue : List (StreamMessage D)) (b b₁ : LocalDurableBroker D)
      (o : Option String) (i : MessageId)
      → queue_of stream b ≡ m ∷ queue
      → HasAttempts (m ∷ queue)
      → queue_of stream b₁ ≡ queue
      → b₁.completed ≡ b.completed
      → b₁.dlq ≡ b.dlq
      → Progress i m queue b
          (finish stream (record m { consumer_group = some group; status = processing }) (o, b₁))
  unfolding Progress is_completed
  run_step m queue b b₁ o i e a eq ec ed =
      let m' = record m { consumer_group = some group; status = processing } in
      let (less, has, acc) = finish_step m' b₁ o i a.0 (rw eq a.1) in
      (ground arith, has, λ h. ground arith)

  handle_step :
      (m : StreamMessage D) (queue : List (StreamMessage D)) (b : LocalDurableBroker D)
      (i : MessageId)
      → LeavesStream
      → queue_of stream b ≡ m ∷ queue
      → HasAttempts (m ∷ queue)
      → Progress i m queue b (handle stream group callback m queue b)
  unfolding handle
  handle_step m queue b i quiet e a = elim (Bool-cases (is_completed m.id b)) [
    | inl done ↦ rw done (skip_step m queue b i e a done)
    | inr todo ↦
        let m' = record m { consumer_group = some group; status = processing } in
        let taken = record b {
          streams = insert stream queue b.streams;
          pending = set_pending m' b.pending;
        } in
        let (o, b₁) = callback m' taken in
        let (eq, ec, ed) = quiet m' taken in
        rw todo (
          run_step m queue b b₁ o i e a
            (eq ∙ queue_of-insert stream queue (record b { pending = set_pending m' b.pending })) ec
            ed)
  ]

  round_empty :
      (b : LocalDurableBroker D) → queue_of stream b ≡ [] → round stream group callback b ≡ b
  unfolding round
  round_empty b e = rw (e, round) refl

  round_cons :
      (m : StreamMessage D) (queue : List (StreamMessage D)) (b : LocalDurableBroker D)
      → queue_of stream b ≡ m ∷ queue
      → round stream group callback b ≡ handle stream group callback m queue b
  unfolding round
  round_cons m queue b e = rw (e, round) refl

  abbrev Drained : MessageId → ℕ → LocalDurableBroker D → Type 0
  Drained i n b =
      (queue_of stream (rounds n stream group callback b) ≡ [])
      × (accounted i (rounds n stream group callback b) ≡ true)

  rounds_step :
      (n : ℕ) (b : LocalDurableBroker D) (queue : List (StreamMessage D)) (i : MessageId)
      → LeavesStream
      → queue_of stream b ≡ queue
      → HasAttempts queue
      → attempts_left queue ≤ n
      → accounted i b ≡ true
      → Drained i n b
  unfolding rounds Progress
  rounds_step zero b [] i quiet e a l h = (e, h)
  rounds_step zero b (m ∷ queue) i quiet e a l h = absurd (omega arith)
  rounds_step (suc n) b [] i quiet e a l h =
      subst (Drained i n) (sym (round_empty b e)) (rounds_step n b [] i quiet e tt (omega arith) h)
  rounds_step (suc n) b (m ∷ queue) i quiet e a l h =
      let (less, has, acc) = handle_step m queue b i quiet e a in
      subst (Drained i n) (sym (round_cons m queue b e)) (
        rounds_step n (handle stream group callback m queue b)
          (queue_of stream (handle stream group callback m queue b)) i quiet refl has (omega arith)
          (acc h))

  attempts_left-le : (queue : List (StreamMessage D)) → attempts_left queue ≤ 3 * length queue
  attempts_left-le [] = omega arith
  attempts_left-le (m ∷ queue) = omega (arith, attempts_left-le queue)

  -- Take a stream whose messages have been tried fewer than three times each, and a callback that
  -- does not publish to that stream itself, whatever it returns or raises. Three rounds of the
  -- consumer for each message empty the queue, and each message that waited is then among the
  -- completed or the dead letters: none is lost, and none is tried for ever.
  pub drains :
      (b : LocalDurableBroker D) (i : MessageId)
      → LeavesStream
      → HasAttempts (queue_of stream b)
      → holds i (queue_of stream b) ≡ true
      → let b' = rounds (3 * length (queue_of stream b)) stream group callback b in
        (queue_of stream b' ≡ []) × ((is_completed i b' || holds i b'.dlq) ≡ true)
  drains b i quiet a h =
      let queue = queue_of stream b in
      let (empty, acc) =
        rounds_step (3 * length queue) b queue i quiet refl a (attempts_left-le queue)
          (ground arith) in
      (empty, ground arith)
