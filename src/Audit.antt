-- ===== src/Audit.antt =====
-- The audit log of each tenant: src/infrastructure/observability/audit.py. Redis is a dictionary of
-- streams, each with its records, the oldest first; what the clock gives is an argument.
pub mod Streams
mod Tests
use package.text.Mathlib.Text.{◌==◌}
use Prim.Native.String.{◌++◌ as str_append}
use project_kernel_runtime.Base.{
  ℕ, Bool, true, false, Option, none, some, String, List, [], ◌∷◌, ◌++◌, keep, take, if◌then◌else◌,
}
use project_kernel_runtime.Base.Dict.{Dict, lookup, insert}
use project_kernel_runtime.Base.Texts.{is_in}

-- `details` is what `json.dumps` makes of the details.
pub record AuditEvent : Type 0 where
  pub event_type : String
  pub tenant_id : String
  pub user_id : String
  pub organization_id : Option String
  pub session_id : Option String
  pub task_id : Option String
  pub resource_type : Option String
  pub resource_id : Option String
  pub severity : String
  pub action : String
  pub details : String
  pub timestamp : String
  pub ip_address : Option String
  pub user_agent : Option String
  pub request_id : Option String

abbrev pub Record : Type 0
Record = Dict String

abbrev pub Streams : Type 0
Streams = Dict (List Record)

abbrev pub text_or_empty : Option String → String
text_or_empty none = ""
text_or_empty (some s) = s

abbrev pub record_of : AuditEvent → Record
record_of e =
    ("event_type", e.event_type)
    ∷ ("tenant_id", e.tenant_id)
    ∷ ("user_id", e.user_id)
    ∷ ("organization_id", text_or_empty e.organization_id)
    ∷ ("session_id", text_or_empty e.session_id)
    ∷ ("task_id", text_or_empty e.task_id)
    ∷ ("resource_type", text_or_empty e.resource_type)
    ∷ ("resource_id", text_or_empty e.resource_id)
    ∷ ("severity", e.severity)
    ∷ ("action", e.action)
    ∷ ("details", e.details)
    ∷ ("timestamp", e.timestamp)
    ∷ ("ip_address", text_or_empty e.ip_address)
    ∷ ("user_agent", text_or_empty e.user_agent)
    ∷ ("request_id", text_or_empty e.request_id)
    ∷ []

abbrev pub global_keys : List String
global_keys = "event_type" ∷ "tenant_id" ∷ "severity" ∷ "timestamp" ∷ "request_id" ∷ []

-- What every tenant's stream is called, and the one of all tenants.
abbrev pub stream_of : String → String
stream_of tenant_id = str_append "audit:" tenant_id

abbrev pub records_in : Option (List Record) → List Record
records_in none = []
records_in (some rs) = rs

-- `xadd` and `xrange` with a count.
unfoldable pub xadd : String → Record → Streams → Streams
unfolding insert lookup
xadd stream r redis = insert stream (records_in (lookup stream redis) ++ r ∷ []) redis

unfoldable pub xrange : String → ℕ → Streams → List Record
unfolding lookup
xrange stream count redis = take count (records_in (lookup stream redis))

-- `json.dumps` of the dict with the key `type`.
abbrev pub type_details : String → String
type_details type = str_append "{\"type\": \"" (str_append type "\"}")

unfoldable pub global_record : AuditEvent → Record
unfolding insert
global_record e =
    insert "details" (type_details e.event_type)
      (keep (λ (field : String × String). is_in field.0 global_keys) (record_of e))

-- `AuditLogger.log`
unfoldable pub log : AuditEvent → Streams → Streams
unfolding xadd global_record
log e redis =
    xadd "audit:global" (global_record e) (xadd (stream_of e.tenant_id) (record_of e) redis)

-- An event of `log_auth` and `log_tool_execution`; what they do not give is None.
abbrev pub event : String → String → String → String → String → String → AuditEvent
event type tenant user severity details timestamp = record {
  event_type = type;
  tenant_id = tenant;
  user_id = user;
  organization_id = none;
  session_id = none;
  task_id = none;
  resource_type = none;
  resource_id = none;
  severity = severity;
  action = "";
  details = details;
  timestamp = timestamp;
  ip_address = none;
  user_agent = none;
  request_id = none;
}

unfoldable pub log_auth : String → String → String → Bool → String → String → Streams → Streams
unfolding log
log_auth tenant user type success details timestamp redis =
    log (event type tenant user (if success then "info" else "warning") details timestamp) redis

abbrev pub tool_event : String → String → String → Bool → String → String → AuditEvent
tool_event tenant user tool allowed details timestamp =
    record (event (if allowed then "tool.executed" else "tool.denied") tenant user
      (if allowed then "info" else "warning") details timestamp) {
        resource_type = some "tool";
        resource_id = some tool;
        action = tool;
      }

unfoldable pub log_tool_execution :
    String → String → String → Bool → String → String → Streams → Streams
unfolding log
log_tool_execution tenant user tool allowed details timestamp redis =
    log (tool_event tenant user tool allowed details timestamp) redis

-- The same records are read whether or not a type of events is asked for.
unfoldable pub get_tenant_logs : String → ℕ → Option String → Streams → List Record
unfolding xrange
get_tenant_logs tenant limit none redis = xrange (stream_of tenant) limit redis
get_tenant_logs tenant limit (some type) redis = xrange (stream_of tenant) limit redis

-- Events one after another.
unfoldable pub log_all : List AuditEvent → Streams → Streams
unfolding log
log_all [] redis = redis
log_all (e ∷ es) redis = log_all es (log e redis)
