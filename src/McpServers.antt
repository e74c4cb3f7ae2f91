-- ===== src/McpServers.antt =====
-- The MCP servers over stdio of all tenants: src/services/mcp/stdio_models.py, stdio_manager.py,
-- and of stdio_lifecycle.py starting a server and its tools; src/tools/stdio_adapter_registry.py.
-- Registering is in Lifecycle, the health checks in Health, the calls in Execution. A protocol is a
-- handle of a type `P`, and what comes of starting a process is an argument. Times are left out, and
-- so is `server.process`, which nothing assigns; of a tool's manifest only the name is kept.
pub mod Lifecycle
pub mod Health
pub mod Execution
pub mod Counting
pub mod Registering
pub mod Tenants
pub mod Fresh
pub mod Restoring
mod Tests
use text.Mathlib.Text.{starts_with}
use Prim.Native.String.{◌++◌ as str_append}
use project_kernel_runtime.Base.{
  ℕ, ◌+◌, Bool, true, false, not, ◌&&◌, Option, none, some, String, List, [], ◌∷◌, keep,
  if◌then◌else◌,
}
use project_kernel_runtime.Base.Dict.{Dict, lookup, insert, erase}

pub data ServerStatus : Type 0 where
  starting running stopping stopped error restarting : ServerStatus

abbrev pub is_running : ServerStatus → Bool
is_running running = true
is_running starting = false
is_running stopping = false
is_running stopped = false
is_running error = false
is_running restarting = false

abbrev pub is_error : ServerStatus → Bool
is_error error = true
is_error starting = false
is_error running = false
is_error stopping = false
is_error stopped = false
is_error restarting = false

pub record ServerMetrics : Type 0 where
  pub total_calls : ℕ
  pub failed_calls : ℕ
  pub restart_count : ℕ

pub record Server (P : Type 0) : Type 0 where
  pub name : String
  pub command : String
  pub args : List String
  pub working_dir : Option String
  pub description : String
  pub tenant_id : String
  pub status : ServerStatus
  pub protocol : Option P
  pub tools : List String
  pub metrics : ServerMetrics
  pub error_message : Option String

-- `StdioMCPToolAdapter`
pub record Adapter : Type 0 where
  pub server_name : String
  pub tenant_id : String
  pub tool : String

-- The adapters of each tenant, the registry of all tools, and `_tool_name_to_server`.
pub record Tools : Type 0 where
  pub adapters : Dict (Dict Adapter)
  pub instances : Dict Adapter
  pub owners : Dict String

-- What comes of `initialize_server`, and then of `list_tools`.
pub data Start (P : Type 0) : Type 0 where
  not_started : String → Start P
  no_tools : P → String → Start P
  started : P → List String → Start P

abbrev pub max_restart_attempts : ℕ
max_restart_attempts = 5

unfoldable pub adapter_name : String → String → String
adapter_name server tool = str_append "mcp_" (str_append server (str_append "_" tool))

unfoldable pub tenant_adapters : String → Tools → Dict Adapter
tenant_adapters tenant t = elim (lookup tenant t.adapters) [ none ↦ [] | some adapters ↦ adapters ]

-- `register_adapters`, with `register_with_tool_registry` for each adapter that it made. The
-- registry of all tools keeps an entry that is there.
unfoldable pub register_adapter : Adapter → Tools → Tools
unfolding tenant_adapters adapter_name
register_adapter a t =
    let name = adapter_name a.server_name a.tool in
    let adapters = tenant_adapters a.tenant_id t in
    elim (lookup name adapters) [
      | some other ↦ t
      | none ↦ record t {
        adapters = insert a.tenant_id (insert name a adapters) t.adapters;
        instances = elim (lookup name t.instances) [
          | some other ↦ t.instances
          | none ↦ insert name a t.instances
        ];
      }
    ]

unfoldable pub register_adapters : String → String → List String → Tools → Tools
unfolding register_adapter
register_adapters tenant server [] t = t
register_adapters tenant server (tool ∷ tools) t =
    register_adapters tenant server tools
      (register_adapter (record { server_name = server; tenant_id = tenant; tool = tool }) t)

unfoldable pub own_tools : String → String → List String → Dict String → Dict String
unfolding adapter_name
own_tools tenant server [] owners = owners
own_tools tenant server (tool ∷ tools) owners =
    own_tools tenant server tools
      (insert (adapter_name server tool) (str_append tenant (str_append ":" server)) owners)

unfoldable pub erase_tools : {V : Type 0} → String → List String → Dict V → Dict V
unfolding adapter_name
erase_tools server [] d = d
erase_tools server (tool ∷ tools) d = erase_tools server tools (erase (adapter_name server tool) d)

unfoldable pub unregister_adapters : String → String → Tools → Tools
unfolding tenant_adapters
unregister_adapters tenant server t = record t {
  adapters =
      insert tenant
        (keep (λ e. not (starts_with e.0 (str_append "mcp_" (str_append server "_"))))
          (tenant_adapters tenant t))
        t.adapters;
}

module _ {P : Type 0} where
  unfoldable pub register_mcp_tools : Server P → Tools → Tools
  unfolding register_adapters own_tools
  register_mcp_tools s t =
      let t' = register_adapters s.tenant_id s.name s.tools t in
      record t' { owners = own_tools s.tenant_id s.name s.tools t'.owners }

  unfoldable pub unregister_mcp_tools : Server P → Tools → Tools
  unfolding unregister_adapters erase_tools
  unregister_mcp_tools s t =
      let t' =
        unregister_adapters s.tenant_id s.name
          (record t { instances = erase_tools s.name s.tools t.instances }) in
      record t' { owners = erase_tools s.name s.tools t'.owners }

  -- A failed start.
  abbrev pub start_failed : String → Server P → Server P
  start_failed e s = record s {
    status = error;
    error_message = some (str_append "Failed to start: " e);
  }

  -- `_start_server`: the error that it raises, or none; and the server's object.
  unfoldable pub start_server : Start P → Server P → Tools → Option String × Server P × Tools
  unfolding register_mcp_tools
  start_server (not_started e) s t = (
    some (str_append "Failed to start server '" (str_append s.name (str_append "': " e))),
    start_failed e s,
    t,
  )
  start_server (no_tools p e) s t = (
    some (str_append "Failed to start server '" (str_append s.name (str_append "': " e))),
    start_failed e (record s { protocol = some p; status = running }),
    t,
  )
  start_server (started p tools) s t =
      let s' : Server P = record s { protocol = some p; status = running; tools = tools } in
      (none, s', register_mcp_tools s' t)

  -- `_restart_server`, which swallows the error of the start.
  unfoldable pub restart_server : Start P → Server P → Tools → Server P × Tools
  unfolding start_server unregister_mcp_tools
  restart_server answer s t =
      let counted : Server P = record s {
        status = restarting;
        metrics = record s.metrics { restart_count = s.metrics.restart_count + 1 };
      } in
      let (failure, s', t') = start_server answer counted (unregister_mcp_tools counted t) in
      elim failure [ none ↦ (s', t') | some e ↦ (record s' { status = error }, t') ]
