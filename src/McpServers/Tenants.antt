-- ===== src/McpServers/Tenants.antt =====
-- What the servers of two tenants share: the registry of all tools, which
-- src/tools/stdio_adapter_registry.py and src/services/mcp/stdio_lifecycle.py key by the names of the
-- server and the tool, without the tenant.
use text.Mathlib.Text.{◌==◌}
use text.Mathlib.TextEquality.{eq_iff}
use text.Mathlib.TextPositions.{eq_refl}
use project_kernel_runtime.Base.{
  ◌≡◌, ◌≢◌, refl, ap, ◌∙◌, Bool, true, none, some, String, List, [], ◌∷◌, any, arith, inl, inr,
  Bool-cases,
}
use project_kernel_runtime.Base.Dict.{
  Dict, lookup, insert, lookup-insert, lookup-insert_other, lookup-erase,
}
use project_kernel_runtime.McpServers.{
  Server, Adapter, Tools, started, adapter_name, tenant_adapters, register_adapter,
  register_adapters, erase_tools, unregister_adapters, register_mcp_tools, unregister_mcp_tools,
}
use project_kernel_runtime.McpServers.Registering.{
  running_server, after_register_server, after_unregister_server,
}
use project_kernel_runtime.McpServers.Lifecycle.{
  Manager, ServerConfig, get_tenant_servers, register_server, unregister_server,
}

abbrev pub has_tool : String → List String → Bool
has_tool tool tools = any (λ x. x == tool) tools

-- The registry of all tools keeps what it has.
register_adapter-keeps :
    (a b : Adapter) (n : String) (t : Tools)
    → lookup n t.instances ≡ some b
    → lookup n (register_adapter a t).instances ≡ some b
unfolding register_adapter
register_adapter-keeps a b n t h =
    let name = adapter_name a.server_name a.tool in
    ground (arith, lookup-insert name n a t.instances, eq_iff name n)

register_adapters-keeps :
    (tenant server : String) (tools : List String) (b : Adapter) (n : String) (t : Tools)
    → lookup n t.instances ≡ some b
    → lookup n (register_adapters tenant server tools t).instances ≡ some b
unfolding register_adapters
register_adapters-keeps tenant server [] b n t h = h
register_adapters-keeps tenant server (tool ∷ tools) b n t h =
    register_adapters-keeps tenant server tools b n _ (register_adapter-keeps _ b n t h)

-- The adapters of another tenant stay.
register_adapter-others :
    (a : Adapter) (other : String) (t : Tools)
    → other ≢ a.tenant_id
    → lookup other (register_adapter a t).adapters ≡ lookup other t.adapters
unfolding register_adapter
register_adapter-others a other t h =
    let name = adapter_name a.server_name a.tool in
    ground (
      arith,
      lookup-insert a.tenant_id other (insert name a (tenant_adapters a.tenant_id t)) t.adapters,
      eq_iff a.tenant_id other,
    )

register_adapters-others :
    (tenant server : String) (tools : List String) (other : String) (t : Tools)
    → other ≢ tenant
    → lookup other (register_adapters tenant server tools t).adapters ≡ lookup other t.adapters
unfolding register_adapters
register_adapters-others tenant server [] other t h = refl
register_adapters-others tenant server (tool ∷ tools) other t h =
    register_adapters-others tenant server tools other _ h ∙ register_adapter-others _ other t h

module _ {V : Type 0} where
  lookup-erase_tools-none :
      (server : String) (tools : List String) (n : String) (d : Dict V)
      → lookup n d ≡ none
      → lookup n (erase_tools server tools d) ≡ none
  unfolding erase_tools
  lookup-erase_tools-none server [] n d h = h
  lookup-erase_tools-none server (tool ∷ tools) n d h =
      lookup-erase_tools-none server tools n _
        (ground (arith, lookup-erase (adapter_name server tool) n d))

  lookup-erase_tools :
      (server : String) (tools : List String) (tool : String) (d : Dict V)
      → has_tool tool tools ≡ true
      → lookup (adapter_name server tool) (erase_tools server tools d) ≡ none
  unfolding erase_tools
  lookup-erase_tools server [] tool d h = cc
  lookup-erase_tools server (x ∷ tools) tool d h = elim (Bool-cases (x == tool)) [
    | inl e ↦
        lookup-erase_tools-none server tools (adapter_name server tool) _
          (rw ((eq_iff x tool).0 e, lookup-erase, eq_refl) refl)
    | inr e ↦ lookup-erase_tools server tools tool _ (ground arith)
  ]

module _ {P : Type 0} where
  unregister_mcp_tools-others :
      (s : Server P) (other : String) (t : Tools)
      → other ≢ s.tenant_id
      → lookup other (unregister_mcp_tools s t).adapters ≡ lookup other t.adapters
  unfolding unregister_mcp_tools unregister_adapters
  unregister_mcp_tools-others s other t h = lookup-insert_other s.tenant_id other _ t.adapters h

  unregister_mcp_tools-tool :
      (s : Server P) (tool : String) (t : Tools)
      → has_tool tool s.tools ≡ true
      → lookup (adapter_name s.name tool) (unregister_mcp_tools s t).instances ≡ none
  unfolding unregister_mcp_tools unregister_adapters
  unregister_mcp_tools-tool s tool t h = lookup-erase_tools s.name s.tools tool t.instances h

  -- Two tenants' servers of one name share the names of their tools. Where the registry has an
  -- adapter for a tool, a tenant that registers a server with the same name and tool finds the
  -- other's adapter kept, and when it unregisters its own, the tool is gone from the registry, for
  -- every tenant; another tenant's servers and adapters stay as they were.
  pub tenants_share_names :
      (c : ServerConfig) (p : P) (tools : List String) (tool other : String) (a : Adapter)
      (m : Manager P)
      → lookup c.name (get_tenant_servers c.tenant_id m) ≡ none
      → other ≢ c.tenant_id
      → has_tool tool tools ≡ true
      → lookup (adapter_name c.name tool) m.tools.instances ≡ some a
      → let (result, m1) = register_server (started p tools) c m in
        let (done, m2) = unregister_server c.tenant_id c.name m1 in
        (result ≡ inr (running_server c p tools))
        × (lookup (adapter_name c.name tool) m1.tools.instances ≡ some a)
        × (done ≡ true)
        × (lookup (adapter_name c.name tool) m2.tools.instances ≡ none)
        × (get_tenant_servers other m2 ≡ get_tenant_servers other m)
        × (lookup other m2.tools.adapters ≡ lookup other m.tools.adapters)
  unfolding register_mcp_tools
  tenants_share_names c p tools tool other a m fresh ne has kept =
      let s = running_server c p tools in
      let m1 = (register_server (started p tools) c m).1 in
      let (result, t1, found, same) = after_register_server c p tools other m fresh ne in
      let (done, t2, others) = after_unregister_server c.tenant_id c.name other s m1 found ne in
      (
        result,
        rw t1 (
            register_adapters-keeps c.tenant_id c.name tools a (adapter_name c.name tool) m.tools
              kept),
        done,
        rw t2 (unregister_mcp_tools-tool s tool m1.tools has),
        others ∙ same,
        ap (λ (t : Tools). lookup other t.adapters) t2
            ∙ unregister_mcp_tools-others s other m1.tools ne
            ∙ ap (λ (t : Tools). lookup other t.adapters) t1
            ∙ register_adapters-others c.tenant_id c.name tools other m.tools ne,
      )
