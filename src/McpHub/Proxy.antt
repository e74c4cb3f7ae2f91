-- ===== src/McpHub/Proxy.antt =====
-- The tool of a plugin: src/services/mcp/mcp_proxy.py, with its metrics of mcp_models.py. What the
-- service answers is an argument, and so are the clock and whether the request is small enough.
use project_kernel_runtime.Base.{
  ℕ, ◌+◌, ◌-◌, ◌*◌, Bool, true, false, not, String, ltb, leb, if◌then◌else◌,
}
use project_kernel_runtime.McpLimit.{RateLimiter, Readings, check_tool_execution_rate_limit}
use project_kernel_runtime.McpHub.Validation.{PluginDef, description_or}

pub data ToolStatus : Type 0 where
  active disabled rate_limited error : ToolStatus

pub record ToolMetrics : Type 0 where
  pub total_calls : ℕ
  pub failed_calls : ℕ

pub record McpProxyTool : Type 0 where
  pub name : String
  pub description : String
  pub tenant_id : String
  pub endpoint_url : String
  pub status : ToolStatus
  pub metrics : ToolMetrics
  pub circuit_open : Bool
  pub circuit_opened_at : ℕ
  pub consecutive_failures : ℕ

-- `_circuit_opened_at` is None at first, and is read only when the circuit is open.
abbrev pub new_proxy : PluginDef → String → McpProxyTool
new_proxy def tenant = record {
  name = def.name;
  description = description_or "MCP Tool" def;
  tenant_id = tenant;
  endpoint_url = def.endpoint_url;
  status = active;
  metrics = record { total_calls = 0; failed_calls = 0 };
  circuit_open = false;
  circuit_opened_at = 0;
  consecutive_failures = 0;
}

abbrev pub circuit_break_threshold : ℕ
circuit_break_threshold = 5

abbrev pub circuit_recovery_timeout : ℕ
circuit_recovery_timeout = 60

-- What comes of the request.
pub data Reply (V : Type 0) : Type 0 where
  replied : V → Reply V
  timed_out : Reply V
  http_error : ℕ → Reply V
  failed : String → Reply V

pub data ProxyResult (V : Type 0) : Type 0 where
  result : V → ProxyResult V
  circuit_is_open too_large request_timed_out : ProxyResult V
  limited : ℕ → ProxyResult V
  http_status : ℕ → ProxyResult V
  error_text : String → ProxyResult V

unfoldable pub record_call : Bool → ToolMetrics → ToolMetrics
record_call success m = record {
  total_calls = m.total_calls + 1;
  failed_calls = if success then m.failed_calls else m.failed_calls + 1;
}

module _ (second : ℕ) where
  unfoldable pub check_circuit_breaker : ℕ → McpProxyTool → Bool × McpProxyTool
  check_circuit_breaker now t =
      if t.circuit_open
      then (if ltb (circuit_recovery_timeout * second) (now - t.circuit_opened_at)
          then (true, record t { circuit_open = false; consecutive_failures = 0 })
          else (false, t))
      else (true, t)

  unfoldable pub trip_circuit_breaker : ℕ → McpProxyTool → McpProxyTool
  trip_circuit_breaker now t =
      let count = t.consecutive_failures + 1 in
      if leb circuit_break_threshold count
      then record t { consecutive_failures = count; circuit_open = true; circuit_opened_at = now }
      else record t { consecutive_failures = count }

  abbrev pub count_failure : ℕ → McpProxyTool → McpProxyTool
  count_failure now t =
      let t' = trip_circuit_breaker now t in record t' { metrics = record_call false t'.metrics }

  abbrev pub after_reply : {V : Type 0} → ℕ → Reply V → McpProxyTool → ProxyResult V × McpProxyTool
  after_reply now (replied v) t = (
    result v,
    record t { metrics = record_call true t.metrics; consecutive_failures = 0; status = active },
  )
  after_reply now timed_out t = (request_timed_out, count_failure now t)
  after_reply now (http_error code) t = (http_status code, count_failure now t)
  after_reply now (failed e) t = (error_text e, count_failure now t)

  abbrev pub after_limit :
      {V : Type 0} → Bool × ℕ → Bool → ℕ → Reply V → McpProxyTool → ProxyResult V × McpProxyTool
  after_limit (false, wait) is_small now reply t =
      (limited wait, record t { status = rate_limited })
  after_limit (true, wait) false now reply t = (too_large, t)
  after_limit (true, wait) true now reply t = after_reply now reply t

  -- `execute`: the clock of the circuit, those of the limiter, and that after the reply.
  unfoldable pub execute :
      {V : Type 0}
      → ℕ
      → Readings
      → ℕ
      → Bool
      → Reply V
      → McpProxyTool
      → RateLimiter
      → ProxyResult V × McpProxyTool × RateLimiter
  unfolding check_circuit_breaker trip_circuit_breaker record_call check_tool_execution_rate_limit
  execute now r later is_small reply t limiter =
      let (may_go, t') = check_circuit_breaker now t in
      if not may_go
      then (circuit_is_open, t', limiter)
      else (let (answer, limiter') = check_tool_execution_rate_limit second r t'.name limiter in
          let (out, t'') = after_limit answer is_small later reply t' in (out, t'', limiter'))
