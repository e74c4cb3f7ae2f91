-- ===== src/Audit/Streams.antt =====
-- What the stream of a tenant holds.
use text.Mathlib.Text.{◌==◌}
use text.Mathlib.TextEquality.{eq_iff}
use text.Mathlib.TextLemmas.{append_cancel_left}
use project_kernel_runtime.Base.{
  ℕ, ◌≡◌, ◌≢◌, refl, sym, ap, ◌∙◌, Option, none, some, String, List, [], ◌∷◌, ◌++◌, map, keep, take,
  append_assoc, append-nil, Bool-cases, inl, inr,
}
use project_kernel_runtime.Base.Dict.{
  lookup, lookup-insert_self, lookup-insert_other, ne_of_eq_false,
}
use project_kernel_runtime.Audit.{
  AuditEvent, Record, Streams, record_of, stream_of, records_in, xadd, xrange, global_record, log,
  get_tenant_logs, log_all,
}

abbrev held : String → Streams → List Record
held stream redis = records_in (lookup stream redis)

xadd_self :
    (stream : String) (r : Record) (redis : Streams)
    → held stream (xadd stream r redis) ≡ held stream redis ++ r ∷ []
unfolding xadd
xadd_self stream r redis =
    ap records_in (lookup-insert_self stream (held stream redis ++ r ∷ []) redis)

xadd_other :
    (stream other : String) (r : Record) (redis : Streams)
    → other ≢ stream
    → held other (xadd stream r redis) ≡ held other redis
unfolding xadd
xadd_other stream other r redis ne =
    ap records_in (lookup-insert_other stream other (held stream redis ++ r ∷ []) redis ne)

streams_differ : (s t : String) → s ≢ t → stream_of s ≢ stream_of t
streams_differ s t ne e = ne (append_cancel_left "audit:" s t e)

abbrev own : String → List AuditEvent → List Record
own t es = map record_of (keep (λ e. e.tenant_id == t) es)

held-log :
    (t : String) (e : AuditEvent) (redis : Streams)
    → t ≢ "global"
    → held (stream_of t) (log e redis) ≡ held (stream_of t) redis ++ own t (e ∷ [])
unfolding log
held-log t e redis ne =
    let first = xadd (stream_of e.tenant_id) (record_of e) redis in
    xadd_other "audit:global" (stream_of t) (global_record e) first (streams_differ t "global" ne)
    ∙ elim (Bool-cases (e.tenant_id == t)) [
      | inl same ↦
          rw (same, sym ((eq_iff e.tenant_id t).0 same))
            (xadd_self (stream_of e.tenant_id) (record_of e) redis)
      | inr other ↦
          rw (other, append-nil (held (stream_of t) redis))
            (xadd_other (stream_of e.tenant_id) (stream_of t) (record_of e) redis
              (streams_differ t e.tenant_id (λ p. ne_of_eq_false e.tenant_id t other (sym p))))
    ]

own_cons :
    (t : String) (e : AuditEvent) (es : List AuditEvent)
    → own t (e ∷ []) ++ own t es ≡ own t (e ∷ es)
own_cons t e es = elim (Bool-cases (e.tenant_id == t)) [
  | inl same ↦ rw same refl
  | inr other ↦ rw other refl
]

held-log_all :
    (t : String) (es : List AuditEvent) (redis : Streams)
    → t ≢ "global"
    → held (stream_of t) (log_all es redis) ≡ held (stream_of t) redis ++ own t es
unfolding log_all
held-log_all t [] redis ne = sym (append-nil (held (stream_of t) redis))
held-log_all t (e ∷ es) redis ne =
    held-log_all t es (log e redis) ne
    ∙ ap (λ rs. rs ++ own t es) (held-log t e redis ne)
    ∙ append_assoc (held (stream_of t) redis) (own t (e ∷ [])) (own t es)
    ∙ ap (λ rs. held (stream_of t) redis ++ rs) (own_cons t e es)

-- What a tenant that is not called `global` reads from its log, after any events of any tenants, are
-- the records of its own events, all fields of them, the oldest first and at most as many as asked
-- for, whatever type of events is asked for.
pub get_tenant_logs-log_all :
    (t : String) (limit : ℕ) (type : Option String) (es : List AuditEvent)
    → t ≢ "global"
    → get_tenant_logs t limit type (log_all es [])
      ≡ take limit (map record_of (keep (λ e. e.tenant_id == t) es))
unfolding get_tenant_logs xrange lookup
get_tenant_logs-log_all t limit none es ne = ap (take limit) (held-log_all t es [] ne)
get_tenant_logs-log_all t limit (some type) es ne = ap (take limit) (held-log_all t es [] ne)
