-- ===== src/McpServers/Registering.antt =====
-- What registering and removing an MCP server leaves in the manager: `register_server` and
-- `unregister_server` of src/services/mcp/stdio_lifecycle.py.
use text.Mathlib.TextEquality.{eq_iff}
use project_kernel_runtime.Base.{
  ◌≡◌, ◌≢◌, refl, ap, ◌∙◌, true, none, some, String, List, arith, inr,
}
use project_kernel_runtime.Base.Dict.{
  Dict, lookup, insert, erase, lookup-insert, lookup-insert_self, lookup-erase,
}
use project_kernel_runtime.McpServers.{
  Server, started, running, register_mcp_tools, unregister_mcp_tools, start_server,
}
use project_kernel_runtime.McpServers.Lifecycle.{
  Manager, ServerConfig, get_tenant_servers, put_servers, new_server, save_tenant_servers,
  drop_empty, registered, register_server, unregister_server,
}

module _ {P : Type 0} where
  abbrev pub running_server : ServerConfig → P → List String → Server P
  running_server c p tools = record (new_server c) {
    status = running;
    protocol = some p;
    tools = tools;
  }

  -- The dict of servers of a tenant after a change of another's.
  pub get_tenant_servers-put_servers :
      (tenant other : String) (servers : Dict (Server P)) (m : Manager P)
      → other ≢ tenant
      → get_tenant_servers other (put_servers tenant servers m) ≡ get_tenant_servers other m
  get_tenant_servers-put_servers tenant other servers m h =
      ground (arith, lookup-insert tenant other servers m.tenant_servers, eq_iff tenant other)

  pub get_tenant_servers-put_self :
      (tenant : String) (servers : Dict (Server P)) (m : Manager P)
      → get_tenant_servers tenant (put_servers tenant servers m) ≡ servers
  get_tenant_servers-put_self tenant servers m =
      rw (get_tenant_servers, lookup-insert_self tenant servers m.tenant_servers) refl

  pub get_tenant_servers-save :
      (tenant other : String) (m : Manager P)
      → get_tenant_servers other (save_tenant_servers tenant m) ≡ get_tenant_servers other m
  unfolding save_tenant_servers
  get_tenant_servers-save tenant other m = ground (
    arith,
    lookup-insert tenant other (get_tenant_servers tenant m) m.tenant_servers,
    eq_iff tenant other,
  )

  pub get_tenant_servers-drop_empty :
      (tenant other : String) (m : Manager P)
      → get_tenant_servers other (drop_empty tenant m) ≡ get_tenant_servers other m
  get_tenant_servers-drop_empty tenant other m =
      ground (arith, lookup-erase tenant other m.tenant_servers, eq_iff tenant other)

  pub register_server-registered :
      (c : ServerConfig) (p : P) (tools : List String) (m : Manager P)
      → lookup c.name (get_tenant_servers c.tenant_id m) ≡ none
      → let s = running_server c p tools in
        register_server (started p tools) c m
        ≡ registered c
            (none, s, register_mcp_tools s m.tools)
            (put_servers c.tenant_id
              (insert c.name (new_server c) (get_tenant_servers c.tenant_id m))
              m)
  unfolding register_server start_server
  register_server-registered c p tools m h = rw (register_server, h) refl

  -- What a registration that started its server leaves.
  pub after_register_server :
      (c : ServerConfig) (p : P) (tools : List String) (other : String) (m : Manager P)
      → lookup c.name (get_tenant_servers c.tenant_id m) ≡ none
      → other ≢ c.tenant_id
      → let s = running_server c p tools in
        let (result, m1) = register_server (started p tools) c m in
        (result ≡ inr s)
        × (m1.tools ≡ register_mcp_tools s m.tools)
        × (lookup c.name (get_tenant_servers c.tenant_id m1) ≡ some s)
        × (get_tenant_servers other m1 ≡ get_tenant_servers other m)
  unfolding save_tenant_servers
  after_register_server c p tools other m fresh ne =
      let s = running_server c p tools in
      let m0 =
        put_servers c.tenant_id (insert c.name (new_server c) (get_tenant_servers c.tenant_id m))
          m in
      let servers = insert c.name s (get_tenant_servers c.tenant_id m0) in
      let m1 : Manager P = record (put_servers c.tenant_id servers m0) {
        tools = register_mcp_tools s m.tools;
        is_checking = true;
      } in
      rw (register_server-registered c p tools m fresh) (
        refl,
        refl,
        ap (lookup c.name) (
              get_tenant_servers-save c.tenant_id c.tenant_id m1
              ∙ get_tenant_servers-put_self c.tenant_id servers m0)
            ∙ lookup-insert_self c.name s (get_tenant_servers c.tenant_id m0),
        get_tenant_servers-save c.tenant_id other m1
            ∙ get_tenant_servers-put_servers c.tenant_id other servers m0 ne
            ∙ get_tenant_servers-put_servers c.tenant_id other _ m ne,
      )

  pub tools-drop_empty : (tenant : String) (m : Manager P) → (drop_empty tenant m).tools ≡ m.tools
  tools-drop_empty tenant m = ground arith

  pub unregister_server-found :
      (tenant name : String) (s : Server P) (m : Manager P)
      → lookup name (get_tenant_servers tenant m) ≡ some s
      → unregister_server tenant name m ≡ (
        true,
        save_tenant_servers tenant (
            drop_empty tenant
              (record (put_servers tenant (erase name (get_tenant_servers tenant m)) m) {
                tools = unregister_mcp_tools s m.tools;
              })),
      )
  unfolding unregister_server
  unregister_server-found tenant name s m h = rw (unregister_server, h) refl

  -- What the removal of a server that is there leaves.
  pub after_unregister_server :
      (tenant name other : String) (s : Server P) (m : Manager P)
      → lookup name (get_tenant_servers tenant m) ≡ some s
      → other ≢ tenant
      → let (done, m') = unregister_server tenant name m in
        (done ≡ true)
        × (m'.tools ≡ unregister_mcp_tools s m.tools)
        × (get_tenant_servers other m' ≡ get_tenant_servers other m)
  unfolding save_tenant_servers
  after_unregister_server tenant name other s m found ne =
      let m1 = put_servers tenant (erase name (get_tenant_servers tenant m)) m in
      let m2 : Manager P = record m1 { tools = unregister_mcp_tools s m.tools } in
      rw (unregister_server-found tenant name s m found) (
        refl,
        tools-drop_empty tenant m2,
        get_tenant_servers-save tenant other (drop_empty tenant m2)
            ∙ get_tenant_servers-drop_empty tenant other m2
            ∙ get_tenant_servers-put_servers tenant other (erase name (get_tenant_servers tenant m))
                m ne,
      )
