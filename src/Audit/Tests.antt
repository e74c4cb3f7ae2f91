-- ===== src/Audit/Tests.antt =====
-- Events of two tenants.
use text.Mathlib.Text.{◌==◌}
use project_kernel_runtime.Base.{◌≡◌, none, refl, some, List, [], ◌∷◌, map, keep, take}
use project_kernel_runtime.Base.Dict.{ne_of_eq_false, insert, lookup}
use project_kernel_runtime.Audit.{
  xrange, log, xadd, AuditEvent, event, record_of, global_record, log_all, get_tenant_logs,
}
use project_kernel_runtime.Audit.Streams.{get_tenant_logs-log_all}

abbrev events : List AuditEvent
events =
    event "auth.login" "acme" "u1" "info" "{}" "1"
    ∷ event "auth.login_failed" "globex" "u2" "warning" "{}" "2"
    ∷ event "auth.logout" "acme" "u1" "info" "{}" "3"
    ∷ []

get_tenant_logs-log_all_example :
    get_tenant_logs "acme" 100 (some "auth.logout") (log_all events [])
    ≡ take 100 (map record_of (keep (λ e. e.tenant_id == "acme") events))
get_tenant_logs-log_all_example =
    get_tenant_logs-log_all "acme" 100 (some "auth.logout") events
      (ne_of_eq_false "acme" "global" refl)

-- The stream of all tenants is the log of a tenant of that name.
reads_others : get_tenant_logs "global" 100 none (log_all events []) ≡ map global_record events
unfolding get_tenant_logs xrange log_all log xadd insert lookup
reads_others = refl
