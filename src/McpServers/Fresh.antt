-- ===== src/McpServers/Fresh.antt =====
-- One registration of an MCP server that the tenant does not have: `register_server` of
-- src/services/mcp/stdio_lifecycle.py.
use project_kernel_runtime.Base.{
  ◌≡◌, ◌≢◌, refl, sym, ap, ◌∙◌, Bool, true, false, none, some, String, List, [], ◌∷◌, ◌++◌, All,
  ◌⊎◌, inl, inr, Bool-cases,
}
use mathlib.Core.Path.{subst}
use project_kernel_runtime.Base.Dict.{
  Dict, lookup, insert, erase, lookup-insert_self, lookup-insert_other, insert-insert,
  insert-absent, erase-absent, erase-insert,
}
use project_kernel_runtime.McpServers.{
  Server, Start, not_started, no_tools, started, register_mcp_tools, start_server,
}
use project_kernel_runtime.McpServers.Lifecycle.{
  Manager, ServerConfig, config_of, configs_of, get_tenant_servers, put_servers, new_server,
  save_tenant_servers, register_server,
}
use project_kernel_runtime.McpServers.Registering.{
  running_server, get_tenant_servers-put_self, get_tenant_servers-save, register_server-registered,
}

-- No two of these have one name.
abbrev pub AreNamed : List ServerConfig → Type 0
AreNamed [] = Unit
AreNamed (c ∷ cs) = All (λ d. d.name ≢ c.name) cs × AreNamed cs

module _ {P : Type 0} where
  abbrev pub is_started : Start P → Bool
  is_started (not_started e) = false
  is_started (no_tools p e) = false
  is_started (started p tools) = true

  -- No server of a dict has the name of one of these.
  abbrev pub AreFresh : List ServerConfig → Dict (Server P) → Type 0
  AreFresh cs servers = All (λ c. lookup c.name servers ≡ none) cs

  -- A dict to which a server was added.
  insert-AreFresh :
      (c : ServerConfig) (cs : List ServerConfig) (s : Server P) (servers : Dict (Server P))
      → All (λ d. d.name ≢ c.name) cs
      → AreFresh cs servers
      → AreFresh cs (insert c.name s servers)
  insert-AreFresh c [] s servers n h = tt
  insert-AreFresh c (d ∷ cs) s servers (n, ns) (h, hs) =
      (lookup-insert_other c.name d.name s servers n ∙ h, insert-AreFresh c cs s servers ns hs)

  configs_of-append : (a b : Dict (Server P)) → configs_of (a ++ b) ≡ configs_of a ++ configs_of b
  configs_of-append [] b = refl
  configs_of-append ((k, s) ∷ a) b = ap (◌∷◌ (config_of s)) (configs_of-append a b)

  -- A registration that started its server adds it at the end, and saves.
  register-started :
      (c : ServerConfig) (p : P) (tools : List String) (m : Manager P)
      → lookup c.name (get_tenant_servers c.tenant_id m) ≡ none
      → let m' = (register_server (started p tools) c m).1 in
        let servers = insert c.name (running_server c p tools) (get_tenant_servers c.tenant_id m) in
        (get_tenant_servers c.tenant_id m' ≡ servers)
        × (lookup c.tenant_id m'.files ≡ some (configs_of servers))
  unfolding save_tenant_servers
  register-started c p tools m fresh =
      let s = running_server c p tools in
      let old = get_tenant_servers c.tenant_id m in
      let m0 = put_servers c.tenant_id (insert c.name (new_server c) old) m in
      let servers = insert c.name s (get_tenant_servers c.tenant_id m0) in
      let m1 : Manager P = record (put_servers c.tenant_id servers m0) {
        tools = register_mcp_tools s m.tools;
        is_checking = true;
      } in
      let here = get_tenant_servers-put_self c.tenant_id servers m0 in
      let twice =
        ap (insert c.name s)
          (get_tenant_servers-put_self c.tenant_id (insert c.name (new_server c) old) m)
        ∙ insert-insert c.name s (new_server c) old in
      rw (register_server-registered c p tools m fresh) (
        get_tenant_servers-save c.tenant_id c.tenant_id m1 ∙ here ∙ twice,
        lookup-insert_self c.tenant_id (configs_of (get_tenant_servers c.tenant_id m1)) m.files
            ∙ ap (λ l. some (configs_of l)) (here ∙ twice),
      )

  -- How a registration leaves the servers, and the file if it changes it.
  abbrev pub IsRegistered : Start P → String → ServerConfig → List ServerConfig → Manager P → Type 0
  IsRegistered answer tenant c cs m =
      let old = get_tenant_servers tenant m in
      let m' = (register_server answer c m).1 in
      let new = get_tenant_servers tenant m' in
      AreFresh cs new
      × ((is_started answer ≡ true)
            × (configs_of new ≡ configs_of old ++ c ∷ [])
            × (lookup tenant m'.files ≡ some (configs_of new))
          ⊎ (is_started answer ≡ false) × (new ≡ old) × (m'.files ≡ m.files))

  register_started-IsRegistered :
      (answer : Start P) (c : ServerConfig) (cs : List ServerConfig) (m : Manager P)
      → is_started answer ≡ true
      → lookup c.name (get_tenant_servers c.tenant_id m) ≡ none
      → All (λ d. d.name ≢ c.name) cs
      → AreFresh cs (get_tenant_servers c.tenant_id m)
      → IsRegistered answer c.tenant_id c cs m
  register_started-IsRegistered (not_started e) c cs m f fresh n h = cc
  register_started-IsRegistered (no_tools p e) c cs m f fresh n h = cc
  register_started-IsRegistered (started p tools) c cs m f fresh n h =
      let s = running_server c p tools in
      let old = get_tenant_servers c.tenant_id m in
      let (new, file) = register-started c p tools m fresh in
      (
        subst (AreFresh cs) (sym new) (insert-AreFresh c cs s old n h),
        inl (
          refl,
          ap configs_of (new ∙ insert-absent c.name s old fresh)
              ∙ configs_of-append old ((c.name, s) ∷ []),
          file ∙ ap (λ l. some (configs_of l)) (sym new),
        ),
      )

  register-undone :
      (c : ServerConfig) (m : Manager P)
      → lookup c.name (get_tenant_servers c.tenant_id m) ≡ none
      → let old = get_tenant_servers c.tenant_id m in
        let m0 = put_servers c.tenant_id (insert c.name (new_server c) old) m in
        get_tenant_servers c.tenant_id
          (put_servers c.tenant_id (erase c.name (get_tenant_servers c.tenant_id m0)) m0)
        ≡ old
  register-undone c m fresh =
      let old = get_tenant_servers c.tenant_id m in
      let m0 = put_servers c.tenant_id (insert c.name (new_server c) old) m in
      get_tenant_servers-put_self c.tenant_id _ m0
      ∙ ap (erase c.name) (get_tenant_servers-put_self c.tenant_id _ m)
      ∙ erase-insert c.name (new_server c) old
      ∙ erase-absent c.name old fresh

  -- One that failed leaves the servers and the file as they were.
  register-failed :
      (answer : Start P) (c : ServerConfig) (m : Manager P)
      → is_started answer ≡ false
      → lookup c.name (get_tenant_servers c.tenant_id m) ≡ none
      → let m' = (register_server answer c m).1 in
        (get_tenant_servers c.tenant_id m' ≡ get_tenant_servers c.tenant_id m)
        × (m'.files ≡ m.files)
  unfolding register_server start_server
  register-failed (started p tools) c m f fresh = cc
  register-failed (not_started e) c m f fresh =
      rw (register_server, fresh) (register-undone c m fresh, refl)
  register-failed (no_tools p e) c m f fresh =
      rw (register_server, fresh) (register-undone c m fresh, refl)

  register_server-IsRegistered :
      (answer : Start P) (c : ServerConfig) (cs : List ServerConfig) (m : Manager P)
      → lookup c.name (get_tenant_servers c.tenant_id m) ≡ none
      → All (λ d. d.name ≢ c.name) cs
      → AreFresh cs (get_tenant_servers c.tenant_id m)
      → IsRegistered answer c.tenant_id c cs m
  register_server-IsRegistered answer c cs m fresh n h = elim (Bool-cases (is_started answer)) [
    | inl e ↦ register_started-IsRegistered answer c cs m e fresh n h
    | inr e ↦
        let (same, files) = register-failed answer c m e fresh in
        (subst (AreFresh cs) (sym same) h, inr (e, same, files))
  ]

  pub register_server-tenant :
      (answer : Start P) (tenant : String) (c : ServerConfig) (cs : List ServerConfig)
      (m : Manager P)
      → c.tenant_id ≡ tenant
      → lookup c.name (get_tenant_servers tenant m) ≡ none
      → All (λ d. d.name ≢ c.name) cs
      → AreFresh cs (get_tenant_servers tenant m)
      → IsRegistered answer tenant c cs m
  register_server-tenant answer tenant c cs m e =
      subst
        (λ t.
          lookup c.name (get_tenant_servers t m) ≡ none
          → All (λ d. d.name ≢ c.name) cs
          → AreFresh cs (get_tenant_servers t m)
          → IsRegistered answer t c cs m)
        e (register_server-IsRegistered answer c cs m)

pub nil-AreFresh : (P : Type 0) (cs : List ServerConfig) → AreFresh {P = P} cs []
unfolding lookup
nil-AreFresh P [] = tt
nil-AreFresh P (c ∷ cs) = (refl, nil-AreFresh P cs)
