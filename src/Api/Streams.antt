-- ===== src/Api/Streams.antt =====
-- What a stream of a task sends and to whom: src/api/rest/routers/task_stream.py.
use package.text.Mathlib.Text.{◌==◌}
use project_kernel_runtime.Base.{
  any, List, [], ◌∷◌, arith, ℕ, ◌≡◌, ◌≢◌, refl, sym, Bool, true, false, not, ◌&&◌, Option, none,
  some, String, inl, inr, if◌then◌else◌, Bool-cases,
}
use project_kernel_runtime.Base.Dict.{lookup, insert, lookup-insert_self, lookup-insert_other}
use project_kernel_runtime.Values.{Value, text, flag, null, other, truthy, Kwargs}
use project_kernel_runtime.Auth.{JwtConfig, decode_token}
use project_kernel_runtime.Auth.Library.{
  JwtLibrary, Outcome, TokenPayload, returned, http_error, runtime_error, key_error,
}
use project_kernel_runtime.Api.{TaskRow, find_row, Tables}
use project_kernel_runtime.Api.Tasks.{
  is_some, accepted, stream_task_logs, stream_for, resolve_stream_user, task_belongs_to_tenant,
  user_or_none,
}

abbrev is_text : String → Value → Bool
is_text s (text t) = t == s
is_text s (flag b) = false
is_text s null = false
is_text s (other t b) = false

-- `data.get("tenant_id") and data.get("tenant_id") != user.tenant_id`
abbrev pub of_another : String → Option Value → Bool
of_another tenant_id none = false
of_another tenant_id (some v) = truthy v && not (is_text tenant_id v)

-- What `stream_handler` sends for an event that is a dict, if anything.
unfoldable pub stream_handler : TokenPayload → Kwargs → Option Kwargs
unfolding lookup insert
stream_handler user data' =
    if of_another user.tenant_id (lookup "tenant_id" data')
    then none
    else some (insert "tenant_id" (text user.tenant_id) data')

stamped_eq :
    (user : TokenPayload) (data' sent : Kwargs)
    → of_another user.tenant_id (lookup "tenant_id" data') ≡ false
    → stream_handler user data' ≡ some sent
    → insert "tenant_id" (text user.tenant_id) data' ≡ sent
unfolding stream_handler
stamped_eq user data' sent own h = cc (h, own)

-- Of the events of a task, a stream sends those that name its user's tenant or none, and sends each
-- under the user's tenant with all else as it was; it drops the events of every other tenant.
pub stream_handler_lem :
    (user : TokenPayload) (data' sent : Kwargs)
    → stream_handler user data' ≡ some sent
    → (of_another user.tenant_id (lookup "tenant_id" data') ≡ false)
      × (lookup "tenant_id" sent ≡ some (text user.tenant_id))
      × ((key : String) → key ≢ "tenant_id" → lookup key sent ≡ lookup key data')
unfolding stream_handler
stream_handler_lem user data' sent h =
    elim (Bool-cases (of_another user.tenant_id (lookup "tenant_id" data'))) [
      | inl theirs ↦ cc (h, theirs)
      | inr own ↦
          let stamped = stamped_eq user data' sent own h in
          (
            own,
            rw (sym stamped) (lookup-insert_self "tenant_id" (text user.tenant_id) data'),
            λ key ne.
                rw (sym stamped)
                  (lookup-insert_other "tenant_id" key (text user.tenant_id) data' ne),
          )
    ]

abbrev pub is_task_of : String → String → TaskRow → Bool
is_task_of task_id tenant_id t = t.id == task_id && t.tenant_id == tenant_id

any_found :
    {A : Type 0} (p : A → Bool) (xs : List A) → is_some (find_row p xs) ≡ true → any p xs ≡ true
unfolding find_row
any_found p [] h = cc h
any_found p (x ∷ xs) h = ground (arith, any_found p xs)

any_task :
    (task_id tenant_id : String) (db : Tables)
    → task_belongs_to_tenant task_id tenant_id db ≡ true
    → any (is_task_of task_id tenant_id) db.tasks ≡ true
unfolding task_belongs_to_tenant
any_task task_id tenant_id db h = any_found (is_task_of task_id tenant_id) db.tasks h

accepted_lem :
    (task_id : String) (db : Tables) (user : TokenPayload) (o : Outcome TokenPayload)
    → stream_for task_id db (user_or_none o) ≡ accepted user
    → (o ≡ returned user) × (task_belongs_to_tenant task_id user.tenant_id db ≡ true)
accepted_lem task_id db user (returned u) h =
    elim (Bool-cases (task_belongs_to_tenant task_id u.tenant_id db)) [
      | inl owned ↦ (cc (h, owned), cc (h, owned))
      | inr foreign ↦ cc (h, foreign)
    ]
accepted_lem task_id db user (http_error status e) h = cc h
accepted_lem task_id db user (runtime_error e) h = cc h
accepted_lem task_id db user (key_error e) h = cc h

module _ {T : Type 0} (jwt : JwtLibrary T) (config : JwtConfig) (is_empty : T → Bool) where
  -- When anonymous use is off, whoever a stream is accepted for has shown a token that decodes to
  -- that user, and the task is of that user's tenant, whatever tenant the query names.
  pub stream_task_logs_lem :
      (now : ℕ) (task_id : String) (tenant_id : Option String) (token : Option T) (db : Tables)
      (user : TokenPayload)
      → stream_task_logs jwt config is_empty false now task_id tenant_id token db ≡ accepted user
      → (shown : T) × (token ≡ some shown)
        × (decode_token jwt config now shown ≡ returned user)
        × (any (is_task_of task_id user.tenant_id) db.tasks ≡ true)
  unfolding stream_task_logs resolve_stream_user
  stream_task_logs_lem now task_id tenant_id none db user h = cc h
  stream_task_logs_lem now task_id tenant_id (some t) db user h = elim (Bool-cases (is_empty t)) [
    | inl empty ↦ cc (h, empty)
    | inr shown ↦
        let p = accepted_lem task_id db user (decode_token jwt config now t) (rw shown at h) in
        (t, refl, p.0, any_task task_id user.tenant_id db p.1)
  ]
