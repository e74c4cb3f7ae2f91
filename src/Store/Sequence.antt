-- ===== src/Store/Sequence.antt =====
-- How `persist_message` numbers the messages of a session.
use package.text.Mathlib.Text.{◌==◌}
use project_kernel_runtime.Base.{
  ◌≡◌, refl, true, Option, none, some, String, List, [], ◌∷◌, All, All-append, Bool-cases, inl, inr,
  and_left,
}
use mathlib.Core.Option.{get_or}
use project_kernel_runtime.Store.{
  ℤ, pos, negsuc, suc_ℤ, MessageModel, Db, Draft, find, tenant_of, in_session, max_some,
  max_sequence, or_minus_one, next_sequence, persist_message,
}

-- Every message of the session is numbered 0.
abbrev pub AllZero : String → List MessageModel → Type 0
AllZero session_id = All (λ m. (m.session_id == session_id) ≡ true → m.sequence ≡ pos 0)

abbrev ZeroOrNone : Option ℤ → Type 0
ZeroOrNone none = Unit
ZeroOrNone (some n) = n ≡ pos 0

max_some-zero : (n : ℤ) (o : Option ℤ) → n ≡ pos 0 → ZeroOrNone o → max_some n o ≡ pos 0
max_some-zero n none e h = e
max_some-zero n (some m) e h = rw (e, h) refl

max_zero :
    (session_id tenant_id : String) (messages : List MessageModel)
    → AllZero session_id messages
    → ZeroOrNone (max_sequence (in_session session_id tenant_id) messages)
unfolding max_sequence
max_zero session_id tenant_id [] z = tt
max_zero session_id tenant_id (m ∷ ms) z =
    let rest = max_sequence (in_session session_id tenant_id) ms in
    let ih = max_zero session_id tenant_id ms z.1 in
    elim (Bool-cases (in_session session_id tenant_id m)) [
      | inl here ↦
          rw here
            (max_some-zero m.sequence rest (z.0 (and_left (m.session_id == session_id) _ here)) ih)
      | inr elsewhere ↦ rw elsewhere ih
    ]

next_zero :
    (session_id tenant_id : String) (messages : List MessageModel)
    → AllZero session_id messages
    → next_sequence session_id tenant_id messages ≡ pos 0
unfolding next_sequence
next_zero session_id tenant_id messages z =
    go (max_sequence (in_session session_id tenant_id) messages)
      (max_zero session_id tenant_id messages z)
  where
    go : (o : Option ℤ) → ZeroOrNone o → suc_ℤ (or_minus_one (get_or o (negsuc 0))) ≡ pos 0
    go none h = refl
    go (some n) h = rw h refl

unfoldable pub persist_all : String → List Draft → Db → Db
persist_all session_id [] db = db
persist_all session_id (d ∷ ds) db = persist_all session_id ds (persist_message session_id d db)

-- `max or -1` takes the number 0 for no number: in a session that starts with no messages,
-- or with none but such, every message that is ever written is numbered 0, so that ordering by
-- `sequence` says nothing of the order of a conversation.
pub sequences_stay_zero :
    (session_id : String) (ds : List Draft) (db : Db)
    → AllZero session_id db.messages
    → AllZero session_id (persist_all session_id ds db).messages
unfolding persist_all persist_message
sequences_stay_zero session_id [] db z = z
sequences_stay_zero session_id (d ∷ ds) db z =
    sequences_stay_zero session_id ds (persist_message session_id d db) (
      All-append _ db.messages _ z (
        (λ h.
            next_zero session_id (tenant_of (find (λ s. s.id == session_id) db.sessions))
              db.messages z),
        tt,
      ))
