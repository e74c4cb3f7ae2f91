-- ===== src/Context/Checkpoint.antt =====
-- checkpoint.py: the sessions that are to be written, and the background loop that writes them. The
-- contexts are found by session in the cache, which `get_context` and `get_all_contexts` read;
-- `persisted` lists the contexts that were handed to `persist_to_db`, the oldest first.
use package.text.Mathlib.Text.{◌==◌}
use project_kernel_runtime.Base.{
  ℕ, ◌≡◌, refl, sym, ap, append-nil, append_assoc, map, ◌∙◌, Bool, false, not, Option, none, some,
  String, List, [], ◌∷◌, ◌++◌, keep, any, if◌then◌else◌, Bool-cases, inl, inr,
}
use mathlib.Core.Path.{ap₂}
use project_kernel_runtime.Base.Dict.{Dict, lookup, insert}
use project_kernel_runtime.Context.{SessionContext, TextTools, add_message}

pub record CheckpointManager : Type 0 where
  pub dirty_sessions : List String
  pub persisted : List SessionContext

abbrev pub is_in : String → List String → Bool
is_in s = any (λ t. s == t)

unfoldable pub mark_dirty : String → CheckpointManager → CheckpointManager
mark_dirty s m = record m {
  dirty_sessions = if is_in s m.dirty_sessions then m.dirty_sessions else s ∷ m.dirty_sessions;
}

unfoldable pub clear_dirty : String → CheckpointManager → CheckpointManager
clear_dirty s m = record m { dirty_sessions = keep (λ t. not (s == t)) m.dirty_sessions }

abbrev pub clean : SessionContext → SessionContext
clean c = record c { is_dirty = false }

-- One session of the loop of `flush_dirty_sessions`.
unfoldable pub flush_one :
    String → CheckpointManager × Dict SessionContext → CheckpointManager × Dict SessionContext
flush_one s (m, contexts) = elim (lookup s contexts) [
  | none ↦ (m, contexts)
  | some c ↦
      if c.is_dirty
      then (record m { persisted = m.persisted ++ c ∷ [] }, insert s (clean c) contexts)
      else (m, contexts)
]

unfoldable pub flush_each :
    List String → CheckpointManager × Dict SessionContext → CheckpointManager × Dict SessionContext
unfolding flush_one
flush_each [] s = s
flush_each (x ∷ xs) s = flush_each xs (flush_one x s)

-- With `get_context` or without it, as the flag says.
unfoldable pub flush_dirty_sessions :
    Bool → CheckpointManager × Dict SessionContext → CheckpointManager × Dict SessionContext
unfolding flush_each
flush_dirty_sessions has_get_context (m, contexts) =
    let m' : CheckpointManager = record m { dirty_sessions = [] } in
    if has_get_context then flush_each m.dirty_sessions (m', contexts) else (m', contexts)

-- A round of `_checkpoint_loop`, which passes no `get_context`.
unfoldable pub checkpoint :
    CheckpointManager × Dict SessionContext → CheckpointManager × Dict SessionContext
unfolding flush_dirty_sessions
checkpoint s = flush_dirty_sessions false s

-- `flush_all`, over the entries that `get_all_contexts` lists.
unfoldable pub flush_all :
    CheckpointManager → Dict SessionContext → CheckpointManager × Dict SessionContext
flush_all m [] = (m, [])
flush_all m ((s, c) ∷ rest) =
    let m' : CheckpointManager =
      if c.is_dirty then record m { persisted = m.persisted ++ c ∷ [] } else m in
    let (m'', rest') = flush_all m' rest in (m'', (s, if c.is_dirty then clean c else c) ∷ rest')

unfoldable pub dirty_of : Dict SessionContext → List SessionContext
dirty_of [] = []
dirty_of ((s, c) ∷ rest) = let later = dirty_of rest in if c.is_dirty then c ∷ later else later

clean_id : (c : SessionContext) → c.is_dirty ≡ false → clean c ≡ c
clean_id c e = ap (λ b. record c { is_dirty = b }) (sym e)

-- Flushing everything hands each dirty context to the database once, in the order of the cache, and
-- leaves every context as it was but clean.
pub flush_all_writes :
    (contexts : Dict SessionContext) (m : CheckpointManager)
    → let (m', contexts') = flush_all m contexts in
      (m'.persisted ≡ m.persisted ++ dirty_of contexts)
      × (contexts' ≡ map (λ e. (e.0, clean e.1)) contexts)
unfolding flush_all dirty_of
flush_all_writes [] m = (sym (append-nil m.persisted), refl)
flush_all_writes ((s, c) ∷ rest) m = elim (Bool-cases c.is_dirty) [
  | inl dirty ↦
      let (wrote, same) = flush_all_writes rest (record m { persisted = m.persisted ++ c ∷ [] }) in
      simp dirty
        (wrote ∙ append_assoc m.persisted (c ∷ []) (dirty_of rest), ap (◌∷◌ (s, clean c)) same)
  | inr unchanged ↦
      let (wrote, same) = flush_all_writes rest m in
      simp unchanged (wrote, ap₂ (λ x l. (s, x) ∷ l) (sym (clean_id c unchanged)) same)
]

-- A message of a cached session: the handler's own work, and its `mark_dirty`.
pub record Arrival : Type 0 where
  pub session_id : String
  pub role : String
  pub content : String
  pub task_id : Option String

pub data Event : Type 0 where
  message : Arrival → Event
  tick : Event

module _ (text : TextTools) (max_recent : ℕ) where
  unfoldable pub add_to :
      Option SessionContext
      → Arrival
      → CheckpointManager × Dict SessionContext
      → CheckpointManager × Dict SessionContext
  add_to none a s = s
  add_to (some c) a (m, contexts) = (
    mark_dirty c.session_id m,
    insert a.session_id (add_message text max_recent a.role a.content a.task_id c) contexts,
  )

  unfoldable pub step :
      Event → CheckpointManager × Dict SessionContext → CheckpointManager × Dict SessionContext
  unfolding checkpoint
  step (message a) (m, contexts) = add_to (lookup a.session_id contexts) a (m, contexts)
  step tick s = checkpoint s

  unfoldable pub run :
      List Event → CheckpointManager × Dict SessionContext → CheckpointManager × Dict SessionContext
  unfolding step
  run [] s = s
  run (e ∷ es) s = run es (step e s)

  add_to-persisted :
      (o : Option SessionContext) (a : Arrival) (s : CheckpointManager × Dict SessionContext)
      → (add_to o a s).0.persisted ≡ s.0.persisted
  unfolding add_to mark_dirty
  add_to-persisted none a s = refl
  add_to-persisted (some c) a (m, contexts) = refl

  step-persisted :
      (e : Event) (s : CheckpointManager × Dict SessionContext)
      → (step e s).0.persisted ≡ s.0.persisted
  unfolding step checkpoint flush_dirty_sessions
  step-persisted (message a) (m, contexts) =
      add_to-persisted (lookup a.session_id contexts) a (m, contexts)
  step-persisted tick (m, contexts) = refl

  run-persisted :
      (es : List Event) (s : CheckpointManager × Dict SessionContext)
      → (run es s).0.persisted ≡ s.0.persisted
  unfolding run
  run-persisted [] s = refl
  run-persisted (e ∷ es) s = run-persisted es (step e s) ∙ step-persisted e s

  -- The background loop writes nothing: whatever messages arrive and however often the loop comes
  -- round between them, nothing is handed to the database; and a round forgets which sessions were
  -- to be written.
  pub checkpoints_write_nothing :
      (es : List Event) (s : CheckpointManager × Dict SessionContext)
      → ((run es s).0.persisted ≡ s.0.persisted) × ((checkpoint (run es s)).0.dirty_sessions ≡ [])
  unfolding checkpoint flush_dirty_sessions
  checkpoints_write_nothing es s = (run-persisted es s, refl)
