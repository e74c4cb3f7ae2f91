-- ===== src/Api/Tests.antt =====
-- Requests of two tenants on small tables.
use package.text.Mathlib.Text.{◌==◌}
use project_kernel_runtime.Base.{any, ◌≡◌, refl, true, false, some, String, List, [], ◌∷◌, keep}
use project_kernel_runtime.Values.{text}
use project_kernel_runtime.Auth.{decode_token, access_claims}
use project_kernel_runtime.Auth.Library.{returned, TokenPayload, Claims}
use project_kernel_runtime.Auth.Sample.{library, config, user}
use project_kernel_runtime.Auth.Tokens.{payload_for}
use project_kernel_runtime.Api.{refused, raised, find_row, get_session_or_404}
use project_kernel_runtime.Api.Sessions.{create_session, rename_session, get_session}
use project_kernel_runtime.Api.Forks.{fork_session}
use project_kernel_runtime.Api.Tasks.{stream_task_logs}
use project_kernel_runtime.Api.Streams.{is_task_of, stream_task_logs_lem}
use project_kernel_runtime.Api.Requests.{
  Call, serve, answer_request, create, sessions, rename, fork, dispatch, tasks,
}
use project_kernel_runtime.Api.Views.{view}
use project_kernel_runtime.Api.Interleaving.{answers_to, serve-view}
use project_kernel_runtime.Api.Lifecycle.{get_session-create_session, fork_session-create_session}
use project_kernel_runtime.Api.Sample.{environment, member, drawn, tables, new_work}

abbrev acme : TokenPayload
acme = member "acme"

abbrev globex : TokenPayload
globex = member "globex"

-- Another tenant's session is not there to be renamed.
globex_is_refused :
    answer_request environment drawn globex (rename "s1" "x") tables
    ≡ (refused 404 "Session not found", tables)
unfolding answer_request rename_session get_session_or_404
globex_is_refused = refl

abbrev calls : List Call
calls =
    record { user = globex; draw = drawn; request = rename "s1" "x" }
    ∷ record { user = acme; draw = drawn; request = create new_work }
    ∷ record { user = globex; draw = drawn; request = dispatch "s2" "test" }
    ∷ record { user = acme; draw = drawn; request = sessions }
    ∷ record { user = globex; draw = drawn; request = fork "s2" "m2" }
    ∷ record { user = acme; draw = drawn; request = tasks }
    ∷ []

serve-view_example :
    let (answers, db') = serve environment calls tables in
    serve environment (keep (λ c. c.user.tenant_id == "acme") calls) (view "acme" tables)
    ≡ (answers_to "acme" answers, view "acme" db')
serve-view_example = serve-view environment "acme" calls tables

get_session-create_session_example :
    get_session acme "s9" (create_session environment drawn acme new_work tables).1
    ≡ create_session environment drawn acme new_work tables
unfolding find_row
get_session-create_session_example =
    get_session-create_session environment drawn acme acme new_work tables refl refl

fork_session-create_session_example :
    let db' = (create_session environment drawn acme new_work tables).1 in
    fork_session environment drawn acme "s9" "m1" db'
    ≡ (raised "AttributeError: 'dict' object has no attribute 'slug'", db')
unfolding find_row
fork_session-create_session_example =
    fork_session-create_session environment drawn drawn acme acme new_work "m1" tables refl refl

abbrev shown : Claims × String
shown = library.encode (access_claims 100 user) "s3"

stream_task_logs_lem_example :
    (token : Claims × String) × (some shown ≡ some token)
    × (decode_token library config 500 token ≡ returned (payload_for library config 100 user))
    × (any (is_task_of "t1" "acme") tables.tasks ≡ true)
unfolding stream_task_logs
stream_task_logs_lem_example =
    stream_task_logs_lem library config (λ t. false) 500 "t1" (some "globex") (some shown) tables
      (payload_for library config 100 user) refl
