-- ===== src/McpServers/Execution.antt =====
-- The calls of tools of MCP servers: src/services/mcp/stdio_execution.py. What comes of a restart
-- and of a call of a protocol are arguments.
use Prim.Native.String.{◌++◌ as str_append}
use project_kernel_runtime.Base.{
  ◌+◌, Bool, true, false, not, ◌||◌, Option, none, some, String, List, [], if◌then◌else◌,
}
use project_kernel_runtime.Base.Dict.{lookup, insert}
use project_kernel_runtime.McpServers.{
  ServerStatus, starting, running, stopping, stopped, error, restarting, Server, Tools, Start,
  is_running, is_error, restart_server,
}
use project_kernel_runtime.McpServers.Lifecycle.{Manager, get_tenant_servers, put_servers}

-- What a call of a protocol comes to.
pub data Answer (V : Type 0) : Type 0 where
  answered : V → Answer V
  broken : String → Answer V
  failing : String → Answer V

-- What `execute_tool` returns, or raises.
pub data Outcome (V : Type 0) : Type 0 where
  returned : V → Outcome V
  value_error : String → Outcome V
  protocol_error : String → Outcome V

-- What may come to a call: the start of the recovery, the call, the start after a broken protocol,
-- and the second call.
pub record Answers (P V : Type 0) : Type 0 where
  pub recovery : Start P
  pub first : Answer V
  pub restart : Start P
  pub second : Answer V

abbrev pub status_value : ServerStatus → String
status_value starting = "starting"
status_value running = "running"
status_value stopping = "stopping"
status_value stopped = "stopped"
status_value error = "error"
status_value restarting = "restarting"

module _ {P : Type 0} where
  abbrev pub has_protocol : Option P → Bool
  has_protocol none = false
  has_protocol (some p) = true

  abbrev pub count_call : Server P → Server P
  count_call s = record s { metrics = record s.metrics { total_calls = s.metrics.total_calls + 1 } }

  abbrev pub count_failure : Server P → Server P
  count_failure s = record s {
    metrics = record s.metrics { failed_calls = s.metrics.failed_calls + 1 };
  }

  -- A server in error is restarted first; the restart raises nothing.
  unfoldable pub recover : Start P → Server P → Tools → Server P × Tools
  unfolding restart_server
  recover answer s t = if is_error s.status then restart_server answer s t else (s, t)

  unfoldable pub get_tools : String → String → Manager P → Outcome (List String)
  get_tools tenant name m = elim (lookup name (get_tenant_servers tenant m)) [
    | none ↦ value_error (str_append "Server '" (str_append name "' not found"))
    | some s ↦
        if not (is_running s.status) || not (has_protocol s.protocol)
        then returned []
        else returned s.tools
  ]

module _ {V : Type 0} where
  abbrev pub retried : String → Answer V → Outcome V
  retried name (answered v) = returned v
  retried name (broken e) =
      protocol_error (str_append "Retry failed for '" (str_append name (str_append "': " e)))
  retried name (failing e) =
      protocol_error (str_append "Retry failed for '" (str_append name (str_append "': " e)))

module _ {P V : Type 0} where
  -- The call and what follows, for each way in which it may end.
  abbrev pub called :
      Answer V → String → Answers P V → Server P → Tools → Outcome V × Server P × Tools
  called (answered v) name a s t = (returned v, s, t)
  called (broken e) name a s t =
      let (s', t') = restart_server a.restart (count_failure s) t in (retried name a.second, s', t')
  called (failing e) name a s t =
      (protocol_error (str_append "Tool execution failed: " e), count_failure s, t)

  unfoldable pub call_server :
      String → Answers P V → Server P → Tools → Outcome V × Server P × Tools
  unfolding restart_server
  call_server name a s t = called a.first name a (count_call s) t

  abbrev pub not_running : String → Server P → Outcome V
  not_running name s = protocol_error (
      str_append "Server '" (
        str_append name
          (str_append "' not running (status: " (str_append (status_value s.status) ")"))))

  unfoldable pub execute_on : String → Answers P V → Server P → Tools → Outcome V × Server P × Tools
  unfolding recover call_server
  execute_on name a s t =
      let (s', t') = recover a.recovery s t in
      if not (is_running s'.status) || not (has_protocol s'.protocol)
      then (not_running name s', s', t')
      else call_server name a s' t'

  unfoldable pub execute_tool : String → String → Answers P V → Manager P → Outcome V × Manager P
  unfolding execute_on
  execute_tool tenant name a m =
      let servers = get_tenant_servers tenant m in
      elim (lookup name servers) [
        | none ↦ (
          value_error (str_append "Server '" (str_append name "' not found")),
          put_servers tenant servers m,
        )
        | some s ↦
            let (outcome, s', t) = execute_on name a s m.tools in
            (outcome, record (put_servers tenant (insert name s' servers) m) { tools = t })
      ]
