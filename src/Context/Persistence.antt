-- ===== src/Context/Persistence.antt =====
-- persistence.py: `persist_to_db` and `clear_from_db`, over the rows of Store. A query sees the rows
-- that were added before it, since the session flushes on its own.
use package.text.Mathlib.Text.{◌==◌}
use package.text.Mathlib.TextPositions.{eq_refl}
use project_kernel_runtime.Base.{
  ◌⊎◌, inl, inr, sym, map, append-nil, append_assoc, map-append, All-append, ℕ, ◌+◌, ◌≤◌, ◌≡◌, refl,
  ap, ◌∙◌, Bool, false, ◌&&◌, not, Option, none, some, String, List, [], ◌∷◌, ◌++◌, keep,
  keep-append, length, length-append, All, if◌then◌else◌, arith,
}
use project_kernel_runtime.Base.{◌==◌ as nat_eq}
use project_kernel_runtime.Store.{ℤ, pos, negsuc, SessionModel, MessageModel, Db, find}
use project_kernel_runtime.Context.{Message, SessionContext}

abbrev pub is_number : ℕ → ℤ → Bool
is_number n (pos k) = nat_eq n k
is_number n (negsuc k) = false

-- The conditions of the query on messages.
unfoldable pub is_row : String → String → ℕ → MessageModel → Bool
is_row session_id tenant_id n r =
    r.session_id == session_id && r.tenant_id == tenant_id && is_number n r.sequence

-- `task_id` is a text in a row, empty for None.
abbrev pub text_or : Option String → String
text_or none = ""
text_or (some s) = s

unfoldable pub row_of : String → String → Message → MessageModel
row_of session_id tenant_id m = record {
  tenant_id = tenant_id;
  session_id = session_id;
  task_id = text_or m.task_id;
  role = m.role;
  content = m.content;
  tool_call_id = none;
  tool_calls = [];
  extra_metadata = [];
  sequence = pos m.sequence;
}

-- `scalar_one_or_none` raises where several rows are found: `none`.
unfoldable pub write_unless :
    List MessageModel → MessageModel → List MessageModel → Option (List MessageModel)
write_unless [] row rows = some (rows ++ row ∷ [])
write_unless (r ∷ []) row rows = some rows
write_unless (r ∷ s ∷ rs) row rows = none

abbrev pub then_write :
    Option (List MessageModel)
    → (List MessageModel → Option (List MessageModel))
    → Option (List MessageModel)
then_write none next = none
then_write (some rows) next = next rows

unfoldable pub write_messages :
    String → String → List Message → List MessageModel → Option (List MessageModel)
unfolding is_row row_of write_unless
write_messages session_id tenant_id [] rows = some rows
write_messages session_id tenant_id (m ∷ ms) rows =
    then_write
      (write_unless (keep (is_row session_id tenant_id m.sequence) rows)
        (row_of session_id tenant_id m) rows)
      (write_messages session_id tenant_id ms)

abbrev pub with_messages : Db → Option (List MessageModel) → Option Db
with_messages db none = none
with_messages db (some rows) = some (record db { messages = rows })

abbrev pub persist_with : Option SessionModel → SessionContext → Db → Option Db
persist_with none c db = some db
persist_with (some s) c db =
    with_messages db (write_messages c.session_id s.tenant_id c.recent_messages db.messages)

-- `none` is MultipleResultsFound, on which nothing is committed.
unfoldable pub persist_to_db : SessionContext → Db → Option Db
unfolding write_messages
persist_to_db c db = persist_with (find (λ s. s.id == c.session_id) db.sessions) c db

unfoldable pub clear_from_db : String → Db → Db
clear_from_db session_id db = record db {
  messages = keep (λ r. not (r.session_id == session_id)) db.messages;
}

-- Some of the messages, in their order.
abbrev pub IsDrawn : List Message → List Message → Type 0
IsDrawn [] ms = Unit
IsDrawn (a ∷ ns) [] = ⊥
IsDrawn (a ∷ ns) (m ∷ ms) = (a ≡ m) × IsDrawn ns ms ⊎ IsDrawn (a ∷ ns) ms

IsDrawn-skip : (ns ms : List Message) (m : Message) → IsDrawn ns ms → IsDrawn ns (m ∷ ms)
IsDrawn-skip [] ms m h = tt
IsDrawn-skip (a ∷ ns) ms m h = inr h

-- Some of one message, and then some of others.
IsDrawn-cons :
    (m : Message) (ms ns bs : List Message)
    → IsDrawn ns (m ∷ [])
    → IsDrawn bs ms
    → IsDrawn (ns ++ bs) (m ∷ ms)
IsDrawn-cons m ms [] bs h i = IsDrawn-skip bs ms m i
IsDrawn-cons m ms (a ∷ []) bs (inl (e, h)) i = inl (e, i)
IsDrawn-cons m ms (a ∷ ns) bs (inr h) i = elim h [ ]
IsDrawn-cons m ms (a ∷ b ∷ ns) bs (inl (e, h)) i = elim h [ ]

module _ (session_id tenant_id : String) where
  unfoldable pub rows_with : ℕ → List MessageModel → ℕ
  rows_with n rows = length (keep (is_row session_id tenant_id n) rows)

  -- No number twice.
  abbrev pub IsUnique : List MessageModel → Type 0
  IsUnique rows = (n : ℕ) → rows_with n rows ≤ 1

  rows_with-append :
      (n : ℕ) (xs ys : List MessageModel) → rows_with n (xs ++ ys) ≡ rows_with n xs + rows_with n ys
  unfolding rows_with
  rows_with-append n xs ys =
      ap length (keep-append (is_row session_id tenant_id n) xs ys)
      ∙ length-append (keep (is_row session_id tenant_id n) xs) _

  rows_with-row :
      (n : ℕ) (m : Message)
      → rows_with n (row_of session_id tenant_id m ∷ []) ≡ (if nat_eq n m.sequence then 1 else 0)
  unfolding rows_with is_row row_of
  rows_with-row n m = rw (eq_refl session_id, eq_refl tenant_id) (ground arith)

  absent-before :
      (before rows : List MessageModel)
      → ((n : ℕ) → rows_with n before ≤ rows_with n rows)
      → (ms : List Message) → All (λ m. rows_with m.sequence rows ≡ 0) ms
      → All (λ m. rows_with m.sequence before ≡ 0) ms
  absent-before before rows kept [] h = tt
  absent-before before rows kept (m ∷ ms) (e, h) =
      (omega (arith, e, kept m.sequence), absent-before before rows kept ms h)

  -- Rows to which those of messages were added that had none, in their order, so that no number
  -- stands twice.
  record Wrote (ms : List Message) (before rows' : List MessageModel) : Type 0 where
    added : List Message
    rows : rows' ≡ before ++ map (row_of session_id tenant_id) added
    drawn : IsDrawn added ms
    absent : All (λ m. rows_with m.sequence before ≡ 0) added
    unique : IsUnique rows'
    kept : (n : ℕ) → rows_with n before ≤ rows_with n rows'
    written : All (λ m. rows_with m.sequence rows' ≡ 1) ms

  write_one :
      (found : List MessageModel) (m : Message) (rows : List MessageModel)
      → length found ≡ rows_with m.sequence rows
      → IsUnique rows
      → (rows' : List MessageModel) × (write_unless found (row_of session_id tenant_id m) rows
          ≡ some rows')
        × Wrote (m ∷ []) rows rows'
  unfolding write_unless
  write_one [] m rows e u =
      let row = row_of session_id tenant_id m in
      let count : (n : ℕ)
          → rows_with n (rows ++ row ∷ [])
            ≡ rows_with n rows + (if nat_eq n m.sequence then 1 else 0) =
        λ n.
          rows_with-append n rows (row ∷ []) ∙ ap (λ k. rows_with n rows + k) (rows_with-row n m) in
      (
        rows ++ row ∷ [],
        refl,
        record {
          added = m ∷ [];
          rows = refl;
          drawn = inl (refl, tt);
          absent = (omega (arith, e), tt);
          unique = λ n. ground (arith, count n, u n, ap (λ k. rows_with k rows));
          kept = λ n. omega (arith, count n);
          written = (ground (arith, count m.sequence), tt);
        },
      )
  write_one (r ∷ []) m rows e u = (
    rows,
    refl,
    record {
      added = [];
      rows = sym (append-nil rows);
      drawn = tt;
      absent = tt;
      unique = u;
      kept = λ n. omega arith;
      written = (omega (arith, e), tt);
    },
  )
  write_one (r ∷ s ∷ rs) m rows e u = absurd (omega (arith, e, u m.sequence))

  write_messages-total :
      (ms : List Message) (rows : List MessageModel)
      → IsUnique rows
      → (rows' : List MessageModel) × (write_messages session_id tenant_id ms rows ≡ some rows')
        × Wrote ms rows rows'
  unfolding write_messages rows_with
  write_messages-total [] rows u = (
    rows,
    refl,
    record {
      added = [];
      rows = sym (append-nil rows);
      drawn = tt;
      absent = tt;
      unique = u;
      kept = λ n. omega arith;
      written = tt;
    },
  )
  write_messages-total (m ∷ ms) rows u =
      let (rows', e, one) =
        write_one (keep (is_row session_id tenant_id m.sequence) rows) m rows refl u in
      let (rows'', e', more) = write_messages-total ms rows' one.unique in
      (
        rows'',
        rw (e, then_write) e',
        record {
          added = one.added ++ more.added;
          rows =
              more.rows
              ∙ ap (λ l. l ++ map (row_of session_id tenant_id) more.added) one.rows
              ∙ append_assoc rows (map (row_of session_id tenant_id) one.added) _
              ∙ ap (λ l. rows ++ l) (sym (map-append (row_of session_id tenant_id) one.added _));
          drawn = IsDrawn-cons m ms one.added more.added one.drawn more.drawn;
          absent =
              All-append _ one.added more.added one.absent
                (absent-before rows rows' one.kept more.added more.absent);
          unique = more.unique;
          kept = λ n. omega (arith, one.kept n, more.kept n);
          written = (
            omega (arith, one.written.0, more.kept m.sequence, more.unique m.sequence),
            more.written,
          );
        },
      )

-- Persisting a context of a session that has a row, whose messages stand under no number twice:
-- it succeeds; the rows that stand stay as they are, and after them come those of some of the recent
-- messages, in their order, each with its message's role, content, task and number under the
-- session and its tenant; these are messages whose number had no row; no number stands twice; and
-- each recent message has exactly one row under its session, tenant and number.
pub persist_to_db_total :
    (c : SessionContext) (db : Db) (s : SessionModel)
    → find (λ s. s.id == c.session_id) db.sessions ≡ some s
    → IsUnique c.session_id s.tenant_id db.messages
    → (db' : Db) × (added : List Message) × (persist_to_db c db ≡ some db')
      × (db'.messages
          ≡ db.messages
            ++ map
                (λ m. record {
                  tenant_id = s.tenant_id;
                  session_id = c.session_id;
                  task_id = text_or m.task_id;
                  role = m.role;
                  content = m.content;
                  tool_call_id = none;
                  tool_calls = [];
                  extra_metadata = [];
                  sequence = pos m.sequence;
                })
                added)
      × IsDrawn added c.recent_messages
      × All (λ m. rows_with c.session_id s.tenant_id m.sequence db.messages ≡ 0) added
      × IsUnique c.session_id s.tenant_id db'.messages
      × All (λ m. rows_with c.session_id s.tenant_id m.sequence db'.messages ≡ 1) c.recent_messages
unfolding persist_to_db row_of
persist_to_db_total c db s e u =
    let (rows', wrote, w) =
      write_messages-total c.session_id s.tenant_id c.recent_messages db.messages u in
    (
      record db { messages = rows' },
      w.added,
      rw (e, persist_with, wrote) refl,
      w.rows,
      w.drawn,
      w.absent,
      w.unique,
      w.written,
    )
