-- ===== src/McpServers/Lifecycle.antt =====
-- Registering and removing MCP servers, and their files: `register_server`, `unregister_server`,
-- `_save_tenant_servers` and `restore_persisted_servers` of src/services/mcp/stdio_lifecycle.py.
use Prim.Native.String.{◌++◌ as str_append}
use project_kernel_runtime.Base.{
  Bool, true, false, Option, none, some, String, List, [], ◌∷◌, ◌⊎◌, inl, inr,
}
use project_kernel_runtime.Base.Dict.{Dict, lookup, insert, erase}
use project_kernel_runtime.McpServers.{
  Server, Tools, Start, starting, start_server, unregister_mcp_tools,
}

-- An entry of `stdio_servers.json`.
pub record ServerConfig : Type 0 where
  pub name : String
  pub command : String
  pub args : List String
  pub working_dir : Option String
  pub description : String
  pub tenant_id : String

-- `files` are the files `stdio_servers.json`, by tenant.
pub record Manager (P : Type 0) : Type 0 where
  pub tenant_servers : Dict (Dict (Server P))
  pub tools : Tools
  pub files : Dict (List ServerConfig)
  pub is_checking : Bool

abbrev pub already_registered : ServerConfig → String
already_registered c = str_append "Server '" (
    str_append c.name (str_append "' already registered for tenant '" (str_append c.tenant_id "'")))

module _ {P : Type 0} where
  abbrev pub get_tenant_servers : String → Manager P → Dict (Server P)
  get_tenant_servers tenant m = elim (lookup tenant m.tenant_servers) [
    | none ↦ []
    | some servers ↦ servers
  ]

  abbrev pub put_servers : String → Dict (Server P) → Manager P → Manager P
  put_servers tenant servers m = record m {
    tenant_servers = insert tenant servers m.tenant_servers;
  }

  abbrev pub config_of : Server P → ServerConfig
  config_of s = record {
    name = s.name;
    command = s.command;
    args = s.args;
    working_dir = s.working_dir;
    description = s.description;
    tenant_id = s.tenant_id;
  }

  abbrev pub configs_of : Dict (Server P) → List ServerConfig
  configs_of [] = []
  configs_of ((k, s) ∷ servers) = config_of s ∷ configs_of servers

  unfoldable pub save_tenant_servers : String → Manager P → Manager P
  save_tenant_servers tenant m =
      let servers = get_tenant_servers tenant m in
      record (put_servers tenant servers m) { files = insert tenant (configs_of servers) m.files }

  -- The object that `register_server` makes.
  abbrev pub new_server : ServerConfig → Server P
  new_server c = record {
    name = c.name;
    command = c.command;
    args = c.args;
    working_dir = c.working_dir;
    description = c.description;
    tenant_id = c.tenant_id;
    status = starting;
    protocol = none;
    tools = [];
    metrics = record { total_calls = 0; failed_calls = 0; restart_count = 0 };
    error_message = none;
  }

  -- After the start: the server that failed is taken out again.
  abbrev pub registered :
      ServerConfig → Option String × Server P × Tools → Manager P → (String ⊎ Server P) × Manager P
  registered c (some e, s, t) m = (
    inl e,
    record (put_servers c.tenant_id (erase c.name (get_tenant_servers c.tenant_id m)) m) {
      tools = t;
    },
  )
  registered c (none, s, t) m = (
    inr s,
    save_tenant_servers c.tenant_id
        (record (put_servers c.tenant_id (insert c.name s (get_tenant_servers c.tenant_id m)) m) {
          tools = t;
          is_checking = true;
        }),
  )

  unfoldable pub register_server :
      Start P → ServerConfig → Manager P → (String ⊎ Server P) × Manager P
  unfolding start_server save_tenant_servers
  register_server answer c m =
      let servers = get_tenant_servers c.tenant_id m in
      elim (lookup c.name servers) [
        | some other ↦ (inl (already_registered c), put_servers c.tenant_id servers m)
        | none ↦
            let s = new_server c in
            let m' = put_servers c.tenant_id (insert c.name s servers) m in
            registered c (start_server answer s m.tools) m'
      ]

  -- The dict of a tenant without servers goes, and is made again by the saving.
  abbrev pub drop_empty : String → Manager P → Manager P
  drop_empty tenant m = elim (get_tenant_servers tenant m) [
    | [] ↦ record m { tenant_servers = erase tenant m.tenant_servers }
    | e ∷ es ↦ m
  ]

  unfoldable pub unregister_server : String → String → Manager P → Bool × Manager P
  unfolding unregister_mcp_tools save_tenant_servers
  unregister_server tenant name m =
      let servers = get_tenant_servers tenant m in
      elim (lookup name servers) [
        | none ↦ (false, put_servers tenant servers m)
        | some s ↦ (
          true,
          save_tenant_servers tenant (
              drop_empty tenant (record (put_servers tenant (erase name servers) m) {
                tools = unregister_mcp_tools s m.tools;
              })),
        )
      ]

  -- The loop over one tenant's file; what a start comes to is looked up by the server's name.
  unfoldable pub restore_servers : (String → Start P) → List ServerConfig → Manager P → Manager P
  unfolding register_server
  restore_servers answers [] m = m
  restore_servers answers (c ∷ cs) m =
      let (result, m') = register_server (answers c.name) c m in restore_servers answers cs m'

  -- `restore_persisted_servers` for the tenants whose files are given.
  unfoldable pub restore_persisted_servers :
      (String → String → Start P) → Dict (List ServerConfig) → Manager P → Manager P
  unfolding restore_servers
  restore_persisted_servers answers [] m = m
  restore_persisted_servers answers ((tenant, configs) ∷ files) m =
      restore_persisted_servers answers files (restore_servers (answers tenant) configs m)
