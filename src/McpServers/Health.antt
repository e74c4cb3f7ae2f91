-- ===== src/McpServers/Health.antt =====
-- The health checks of MCP servers: `_check_all_servers` of src/services/mcp/stdio_health.py, and
-- how many restarts they come to.
use project_kernel_runtime.Base.{
  Bool-cases, ◌⊎◌, inl, inr, ◌+◌, ◌≤◌, ◌≡◌, refl, ◌∙◌, Bool, false, ◌||◌, Option, none, some,
  String, List, [], ◌∷◌, if◌then◌else◌, ltb, arith,
}
use project_kernel_runtime.Base.Dict.{Dict}
use project_kernel_runtime.McpServers.{
  Server, Tools, Start, not_started, no_tools, started, error, is_running, is_error,
  max_restart_attempts, start_server, restart_server,
}
use project_kernel_runtime.McpServers.Lifecycle.{Manager}

module _ {A : Type 0} where
  -- Two dicts have the same keys in one order, and their values are related one by one.
  abbrev pub Each : (A → A → Type 0) → Dict A → Dict A → Type 0
  Each R [] [] = Unit
  Each R [] (e ∷ es) = ⊥
  Each R (d ∷ ds) [] = ⊥
  Each R ((k, a) ∷ ds) ((l, b) ∷ es) = (l ≡ k) × R a b × Each R ds es

  Each-refl : (R : A → A → Type 0) → ((a : A) → R a a) → (ds : Dict A) → Each R ds ds
  Each-refl R same [] = tt
  Each-refl R same ((k, a) ∷ ds) = (refl, same a, Each-refl R same ds)

  Each-trans :
      (R : A → A → Type 0)
      → ((a b c : A) → R a b → R b c → R a c)
      → (ds es fs : Dict A) → Each R ds es
      → Each R es fs
      → Each R ds fs
  Each-trans R join [] [] [] h i = tt
  Each-trans R join [] [] (f ∷ fs) h i = elim i [ ]
  Each-trans R join [] (e ∷ es) fs h i = elim h [ ]
  Each-trans R join (d ∷ ds) [] fs h i = elim h [ ]
  Each-trans R join (d ∷ ds) (e ∷ es) [] h i = elim i [ ]
  Each-trans R join ((k, a) ∷ ds) ((l, b) ∷ es) ((n, c) ∷ fs) (e, r, h) (f, q, i) =
      (f ∙ e, join a b c r q, Each-trans R join ds es fs h i)

module _ {P : Type 0} where
  -- The restarts of one server between two moments: none, or not past the budget; none is forgotten.
  abbrev pub KeepsBudget : Server P → Server P → Type 0
  KeepsBudget s s' =
      (s.metrics.restart_count ≤ s'.metrics.restart_count)
      × ((s'.metrics.restart_count ≡ s.metrics.restart_count)
          ⊎ (s'.metrics.restart_count ≤ max_restart_attempts))

  KeepsBudget-refl : (s : Server P) → KeepsBudget s s
  KeepsBudget-refl s = (omega arith, inl refl)

  KeepsBudget-trans : (a b c : Server P) → KeepsBudget a b → KeepsBudget b c → KeepsBudget a c
  KeepsBudget-trans a b c (g, h) (g', h') = (
    omega (arith, g, g'),
    elim h' [
      | inr i ↦ inr i
      | inl same ↦ elim h [ inl e ↦ inl (same ∙ e) | inr i ↦ inr (omega (arith, same, i)) ]
    ],
  )

module _ {P : Type 0} (alive : P → Bool) where
  -- The object of the loop and the dict is one.
  abbrev pub is_healthy : Option P → Bool
  is_healthy none = false
  is_healthy (some p) = alive p

  unfoldable pub check_server : Start P → Server P → Tools → Server P × Tools
  unfolding restart_server
  check_server answer s t =
      if is_running s.status || is_error s.status
      then (if is_healthy s.protocol
          then (s, t)
          else (if ltb s.metrics.restart_count max_restart_attempts
              then restart_server answer (record s { status = error }) t
              else (record s { status = error }, t)))
      else (s, t)

  unfoldable pub check_servers :
      (String → Start P) → Dict (Server P) → Tools → Dict (Server P) × Tools
  unfolding check_server
  check_servers answers [] t = ([], t)
  check_servers answers ((name, s) ∷ servers) t =
      let (s', t') = check_server (answers name) s t in
      let (servers', t'') = check_servers answers servers t' in ((name, s') ∷ servers', t'')

  unfoldable pub check_tenants :
      (String → String → Start P) → Dict (Dict (Server P)) → Tools → Dict (Dict (Server P)) × Tools
  unfolding check_servers
  check_tenants answers [] t = ([], t)
  check_tenants answers ((tenant, servers) ∷ rest) t =
      let (servers', t') = check_servers (answers tenant) servers t in
      let (rest', t'') = check_tenants answers rest t' in ((tenant, servers') ∷ rest', t'')

  unfoldable pub check_all_servers : (String → String → Start P) → Manager P → Manager P
  unfolding check_tenants
  check_all_servers answers m =
      let (tenants, t) = check_tenants answers m.tenant_servers m.tools in
      record m { tenant_servers = tenants; tools = t }

  pub restart_count-restart_server :
      (answer : Start P) (s : Server P) (t : Tools)
      → (restart_server answer s t).0.metrics.restart_count ≡ s.metrics.restart_count + 1
  unfolding restart_server start_server
  restart_count-restart_server (not_started e) s t = refl
  restart_count-restart_server (no_tools p e) s t = refl
  restart_count-restart_server (started p tools) s t = refl

  check_server-KeepsBudget :
      (answer : Start P) (s : Server P) (t : Tools) → KeepsBudget s (check_server answer s t).0
  unfolding check_server
  check_server-KeepsBudget answer s t =
      let count = restart_count-restart_server answer (record s { status = error }) t in
      elim (Bool-cases (is_running s.status || is_error s.status)) [
        | inr e ↦ rw e (KeepsBudget-refl s)
        | inl e ↦ elim (Bool-cases (is_healthy s.protocol)) [
          | inl healthy ↦ rw (e, healthy) (KeepsBudget-refl s)
          | inr dead ↦ elim (Bool-cases (ltb s.metrics.restart_count max_restart_attempts)) [
            | inl left ↦
                rw (e, dead, left) (omega (arith, count), inr (ground (arith, count, left)))
            | inr out ↦ rw (e, dead, out) (KeepsBudget-refl s)
          ]
        ]
      ]

  check_servers-KeepsBudget :
      (answers : String → Start P) (servers : Dict (Server P)) (t : Tools)
      → Each KeepsBudget servers (check_servers answers servers t).0
  unfolding check_servers
  check_servers-KeepsBudget answers [] t = tt
  check_servers-KeepsBudget answers ((name, s) ∷ servers) t = (
    refl,
    check_server-KeepsBudget (answers name) s t,
    check_servers-KeepsBudget answers servers _,
  )

  check_tenants-KeepsBudget :
      (answers : String → String → Start P) (tenants : Dict (Dict (Server P))) (t : Tools)
      → Each (Each KeepsBudget) tenants (check_tenants answers tenants t).0
  unfolding check_tenants
  check_tenants-KeepsBudget answers [] t = tt
  check_tenants-KeepsBudget answers ((tenant, servers) ∷ rest) t = (
    refl,
    check_servers-KeepsBudget (answers tenant) servers t,
    check_tenants-KeepsBudget answers rest _,
  )

module _ {P : Type 0} where
  -- The loop: at each round, which processes are alive and what comes of the starts.
  unfoldable pub check_rounds :
      List ((P → Bool) × (String → String → Start P)) → Manager P → Manager P
  check_rounds [] m = m
  check_rounds ((alive, answers) ∷ rounds) m =
      check_rounds rounds (check_all_servers alive answers m)

  -- However many rounds of health checks come, whatever processes die and whatever their starts come
  -- to: tenants and servers are neither added nor dropped, no file is written, and of each server, the
  -- count of restarts does not fall, and is what it was before or at most the budget. So the checks
  -- alone take no server past its budget, and restart none that calls have taken past it.
  pub restarts_are_bounded :
      (rounds : List ((P → Bool) × (String → String → Start P))) (m : Manager P)
      → let m' = check_rounds rounds m in
        Each (Each KeepsBudget) m.tenant_servers m'.tenant_servers × (m'.files ≡ m.files)
  unfolding check_rounds check_all_servers
  restarts_are_bounded [] m =
      (Each-refl (Each KeepsBudget) (Each-refl KeepsBudget KeepsBudget-refl) m.tenant_servers, refl)
  restarts_are_bounded ((alive, answers) ∷ rounds) m =
      let m' = check_all_servers alive answers m in
      let (bounded, files) = restarts_are_bounded rounds m' in
      (
        Each-trans (Each KeepsBudget) (Each-trans KeepsBudget KeepsBudget-trans) m.tenant_servers
            m'.tenant_servers (check_rounds rounds m').tenant_servers
            (check_tenants-KeepsBudget alive answers m.tenant_servers m.tools) bounded,
        files,
      )
