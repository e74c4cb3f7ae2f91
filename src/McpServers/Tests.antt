-- ===== src/McpServers/Tests.antt =====
-- Runs of the MCP servers of two tenants, with numbers for protocols.
use project_kernel_runtime.Base.{
  ℕ, ◌≡◌, refl, Bool, true, false, none, some, String, List, [], ◌∷◌, All, inr,
}
use project_kernel_runtime.Base.Dict.{lookup, ne_of_eq_false}
use project_kernel_runtime.McpServers.{
  Server, Adapter, Tools, Start, not_started, started, running, error, adapter_name,
}
use project_kernel_runtime.McpServers.Lifecycle.{
  Manager, ServerConfig, new_server, configs_of, get_tenant_servers, register_server,
  unregister_server, restore_servers,
}
use project_kernel_runtime.McpServers.Health.{Each, KeepsBudget, check_rounds, restarts_are_bounded}
use project_kernel_runtime.McpServers.Execution.{answered, broken, protocol_error, Answers}
use project_kernel_runtime.McpServers.Counting.{
  AreCounted, execute_all, returned_count, repeated, execute_all-AreCounted, recovery_is_unbounded,
}
use project_kernel_runtime.McpServers.Registering.{running_server}
use project_kernel_runtime.McpServers.Tenants.{tenants_share_names}
use project_kernel_runtime.McpServers.Fresh.{is_started}
use project_kernel_runtime.McpServers.Restoring.{that_start, restore_servers_lem}

abbrev config : String → String → ServerConfig
config tenant name = record {
  name = name;
  command = "npx";
  args = [];
  working_dir = none;
  description = "";
  tenant_id = tenant;
}

abbrev server : Server ℕ
server = record (new_server (config "a" "git")) {
  status = running;
  protocol = some 1;
  tools = "log" ∷ [];
}

abbrev adapter : Adapter
adapter = record { server_name = "git"; tenant_id = "a"; tool = "log" }

abbrev tools : Tools
tools = record {
  adapters = ("a", ("mcp_git_log", adapter) ∷ []) ∷ [];
  instances = ("mcp_git_log", adapter) ∷ [];
  owners = ("mcp_git_log", "a:git") ∷ [];
}

abbrev manager : Manager ℕ
manager = record {
  tenant_servers = ("a", ("git", server) ∷ []) ∷ [];
  tools = tools;
  files = [];
  is_checking = true;
}

-- All processes are dead, and none starts.
abbrev outage : (ℕ → Bool) × (String → String → Start ℕ)
outage = (λ p. false, λ tenant name. not_started "no such command")

restarts_are_bounded_example :
    let m = check_rounds (repeated 3 outage) manager in
    (Each (Each KeepsBudget) manager.tenant_servers m.tenant_servers) × (m.files ≡ manager.files)
restarts_are_bounded_example = restarts_are_bounded (repeated 3 outage) manager

abbrev answers : Answers ℕ String
answers = record {
  recovery = not_started "no such command";
  first = broken "Broken pipe";
  restart = started 2 ("log" ∷ []);
  second = answered "ok";
}

execute_all-AreCounted_example :
    let (os, s, t) = execute_all "git" (answers ∷ answers ∷ []) server tools in
    AreCounted 2 (returned_count os) server.metrics s.metrics
execute_all-AreCounted_example = execute_all-AreCounted "git" (answers ∷ answers ∷ []) server tools

abbrev broken_server : Server ℕ
broken_server = record server { status = error }

recovery_is_unbounded_example :
    let calls = repeated 9 (record answers { recovery = not_started "gone" }) in
    let (os, s, t) = execute_all "git" calls broken_server tools in
    (s.metrics.restart_count ≡ 9)
    × (s.status ≡ error)
    × (os ≡ repeated 9 (protocol_error "Server 'git' not running (status: error)"))
recovery_is_unbounded_example =
    recovery_is_unbounded "git" "gone" 9 answers broken_server tools refl

tenants_share_names_example :
    let c = config "b" "git" in
    let (result, m1) = register_server (started 7 ("log" ∷ [])) c manager in
    let (done, m2) = unregister_server "b" "git" m1 in
    (result ≡ inr (running_server c 7 ("log" ∷ [])))
    × (lookup "mcp_git_log" m1.tools.instances ≡ some adapter)
    × (done ≡ true)
    × (lookup "mcp_git_log" m2.tools.instances ≡ none)
    × (get_tenant_servers "a" m2 ≡ get_tenant_servers "a" manager)
    × (lookup "a" m2.tools.adapters ≡ lookup "a" manager.tools.adapters)
unfolding lookup adapter_name
tenants_share_names_example =
    tenants_share_names (config "b" "git") 7 ("log" ∷ []) "log" "a" adapter manager refl
      (ne_of_eq_false "a" "b" refl) refl refl

abbrev saved : List ServerConfig
saved = config "a" "git" ∷ config "a" "web" ∷ []

abbrev restarted : Manager ℕ
restarted = record {
  tenant_servers = [];
  tools = record { adapters = []; instances = []; owners = [] };
  files = ("a", saved) ∷ [];
  is_checking = false;
}

abbrev starts : String → Start ℕ
starts name = started 1 ("log" ∷ [])

restore_servers_lem_example :
    let m = restore_servers starts saved restarted in
    (configs_of (get_tenant_servers "a" m) ≡ that_start starts saved)
    × (lookup "a" m.files ≡ some saved)
    × (All (λ c. is_started (starts c.name) ≡ true) saved
        → (configs_of (get_tenant_servers "a" m) ≡ saved) × (lookup "a" m.files ≡ some saved))
unfolding lookup
restore_servers_lem_example =
    restore_servers_lem starts "a" saved restarted (refl, (refl, tt))
      ((ne_of_eq_false "web" "git" refl, tt), (tt, tt)) refl refl
