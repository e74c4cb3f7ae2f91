-- ===== src/McpServers/Restoring.antt =====
-- What is left of a tenant's MCP servers when the runtime starts again from their file:
-- `restore_persisted_servers` of src/services/mcp/stdio_lifecycle.py.
use project_kernel_runtime.Base.{
  Option, ◌≡◌, refl, sym, ap, ◌∙◌, true, false, some, String, List, [], ◌∷◌, ◌++◌, All, keep,
  append-nil, append_assoc, inl, inr,
}
use mathlib.Core.Path.{subst}
use project_kernel_runtime.Base.Dict.{lookup}
use project_kernel_runtime.McpServers.{Start}
use project_kernel_runtime.McpServers.Lifecycle.{
  Manager, ServerConfig, configs_of, get_tenant_servers, register_server, restore_servers,
}
use project_kernel_runtime.McpServers.Fresh.{
  is_started, AreFresh, AreNamed, register_server-tenant, nil-AreFresh,
}

-- A file is written when a server has started, and only then.
abbrev pub file_after :
    List ServerConfig → List ServerConfig → Option (List ServerConfig) → Option (List ServerConfig)
file_after [] now old = old
file_after (c ∷ cs) now old = some now

file_after-some :
    (ts now old : List ServerConfig) → now ≡ old ++ ts → file_after ts now (some old) ≡ some now
file_after-some [] now old h = ap some (sym (h ∙ append-nil old))
file_after-some (t ∷ ts) now old h = refl

file_after-all : (cs : List ServerConfig) → file_after cs cs (some cs) ≡ some cs
file_after-all [] = refl
file_after-all (c ∷ cs) = refl

module _ {P : Type 0} where
  -- The entries whose servers start.
  abbrev pub that_start : (String → Start P) → List ServerConfig → List ServerConfig
  that_start answers = keep (λ c. is_started (answers c.name))

  -- What becomes of a tenant's file over the restoring.
  abbrev IsRestored :
      (String → Start P) → String → List ServerConfig → Manager P → Manager P → Type 0
  IsRestored answers tenant cs m m' =
      (configs_of (get_tenant_servers tenant m')
        ≡ configs_of (get_tenant_servers tenant m) ++ that_start answers cs)
      × (lookup tenant m'.files
          ≡ file_after (that_start answers cs) (configs_of (get_tenant_servers tenant m'))
              (lookup tenant m.files))

  started-IsRestored :
      (answers : String → Start P) (tenant : String) (c : ServerConfig) (cs : List ServerConfig)
      (m m1 m' : Manager P)
      → is_started (answers c.name) ≡ true
      → configs_of (get_tenant_servers tenant m1)
        ≡ configs_of (get_tenant_servers tenant m) ++ c ∷ []
      → lookup tenant m1.files ≡ some (configs_of (get_tenant_servers tenant m1))
      → IsRestored answers tenant cs m1 m'
      → IsRestored answers tenant (c ∷ cs) m m'
  started-IsRestored answers tenant c cs m m1 m' e new file (configs, files) =
      let all =
        configs
        ∙ ap (λ l. l ++ that_start answers cs) new
        ∙ append_assoc (configs_of (get_tenant_servers tenant m)) (c ∷ [])
            (that_start answers cs) in
      rw e (
        all,
        files
            ∙ ap (file_after (that_start answers cs) (configs_of (get_tenant_servers tenant m')))
                file
            ∙ file_after-some (that_start answers cs) (configs_of (get_tenant_servers tenant m'))
                (configs_of (get_tenant_servers tenant m1)) configs,
      )

  failed-IsRestored :
      (answers : String → Start P) (tenant : String) (c : ServerConfig) (cs : List ServerConfig)
      (m m1 m' : Manager P)
      → is_started (answers c.name) ≡ false
      → get_tenant_servers tenant m1 ≡ get_tenant_servers tenant m
      → m1.files ≡ m.files
      → IsRestored answers tenant cs m1 m'
      → IsRestored answers tenant (c ∷ cs) m m'
  failed-IsRestored answers tenant c cs m m1 m' e same file (configs, files) = rw e (
    configs ∙ ap (λ l. configs_of l ++ that_start answers cs) same,
    files
        ∙ ap
            (λ fs.
              file_after (that_start answers cs) (configs_of (get_tenant_servers tenant m'))
                (lookup tenant fs))
            file,
  )

  restore_servers-IsRestored :
      (answers : String → Start P) (tenant : String) (cs : List ServerConfig) (m : Manager P)
      → All (λ c. c.tenant_id ≡ tenant) cs
      → AreNamed cs
      → AreFresh cs (get_tenant_servers tenant m)
      → IsRestored answers tenant cs m (restore_servers answers cs m)
  unfolding restore_servers
  restore_servers-IsRestored answers tenant [] m o n h =
      (sym (append-nil (configs_of (get_tenant_servers tenant m))), refl)
  restore_servers-IsRestored answers tenant (c ∷ cs) m (e, o) (n, ns) (h, hs) =
      let m1 = (register_server (answers c.name) c m).1 in
      let (fresh, left) = register_server-tenant (answers c.name) tenant c cs m e h n hs in
      let rest = restore_servers-IsRestored answers tenant cs m1 o ns fresh in
      elim left [
        | inl (e1, new, file) ↦
            started-IsRestored answers tenant c cs m m1 (restore_servers answers cs m1) e1 new file
              rest
        | inr (e0, same, file) ↦
            failed-IsRestored answers tenant c cs m m1 (restore_servers answers cs m1) e0 same file
              rest
      ]

  that_start-all :
      (answers : String → Start P) (cs : List ServerConfig)
      → All (λ c. is_started (answers c.name) ≡ true) cs
      → that_start answers cs ≡ cs
  that_start-all answers [] h = refl
  that_start-all answers (c ∷ cs) (e, h) = rw e (ap (◌∷◌ c) (that_start-all answers cs h))

  -- When the runtime starts and restores a tenant's file, in which names are distinct and the tenant
  -- is its own, the servers that it has then are the file's that start, in the file's order and with
  -- what the file says of them. If one of them starts, the file holds those that started and no others;
  -- if none does, the file stays as it was; and if all start, servers and file are what was saved.
  pub restore_servers_lem :
      (answers : String → Start P) (tenant : String) (cs : List ServerConfig) (m : Manager P)
      → All (λ c. c.tenant_id ≡ tenant) cs
      → AreNamed cs
      → get_tenant_servers tenant m ≡ []
      → lookup tenant m.files ≡ some cs
      → let m' = restore_servers answers cs m in
        (configs_of (get_tenant_servers tenant m') ≡ that_start answers cs)
        × (lookup tenant m'.files
            ≡ file_after (that_start answers cs) (that_start answers cs) (some cs))
        × (All (λ c. is_started (answers c.name) ≡ true) cs
            → (configs_of (get_tenant_servers tenant m') ≡ cs) × (lookup tenant m'.files ≡ some cs))
  restore_servers_lem answers tenant cs m own named nothing file =
      let (configs, files) =
        restore_servers-IsRestored answers tenant cs m own named
          (subst (AreFresh cs) (sym nothing) (nil-AreFresh P cs)) in
      let now = configs ∙ ap (λ l. configs_of l ++ that_start answers cs) nothing in
      let at_file =
        files
        ∙ ap (λ l. file_after (that_start answers cs) l (lookup tenant m.files)) now
        ∙ ap (file_after (that_start answers cs) (that_start answers cs)) file in
      (
        now,
        at_file,
        λ all. (
          now ∙ that_start-all answers cs all,
          at_file
              ∙ ap (λ l. file_after l l (some cs)) (that_start-all answers cs all)
              ∙ file_after-all cs,
        ),
      )
