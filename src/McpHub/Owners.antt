-- ===== src/McpHub/Owners.antt =====
-- What the hub of src/services/mcp/mcp_hub.py promises: each name of a plugin has at most one owner,
-- the tenant that registered it, only its owner takes it away, and what a tenant is told that it has
-- is what it owns.
use text.Mathlib.Text.{◌==◌}
use text.Mathlib.TextEquality.{eq_iff}
use project_kernel_runtime.Base.{
  ℕ, ◌≡◌, ◌≢◌, refl, ap, ◌∙◌, Bool, true, false, Option, none, some, String, List, [], ◌∷◌, ◌⊎◌,
  inl, inr, arith, Bool-cases,
}
use mathlib.Core.Path.{subst}
use project_kernel_runtime.Base.Dict.{lookup, lookup-insert, lookup-erase, ne_of_eq_false}
use project_kernel_runtime.Base.Texts.{is_in}
use project_kernel_runtime.McpLimit.{Readings, check_plugin_registration_rate_limit}
use project_kernel_runtime.McpHub.{
  Hub, without, HubError, kept, addressed, admitted, validated, removed, register_plugin,
  unregister_plugin, list_plugins,
}
use project_kernel_runtime.McpHub.Validation.{
  UrlLibrary, UrlError, PluginError, PluginDef, validate_endpoint_url, validate_plugin_definition,
}
use project_kernel_runtime.McpHub.Proxy.{McpProxyTool, new_proxy}
use project_kernel_runtime.McpHub.Promises.{
  owner, owners_of, is_owner, Request, register, unregister, Response, raised, registered,
  unregistered, Promise, accepts, rejects, finds_none, removes, forbids, Promises, done, next,
}
use project_kernel_runtime.McpHub.Index.{IsIndexed, keep_plugin-IsIndexed, unregister-IsIndexed}

module _ (lib : UrlLibrary) (second : ℕ) where
  abbrev pub registered_or : (HubError ⊎ String) × Hub → Response × Hub
  registered_or (inl e, h) = (raised e, h)
  registered_or (inr name, h) = (registered name, h)

  abbrev pub unregistered_or : (HubError ⊎ Bool) × Hub → Response × Hub
  unregistered_or (inl e, h) = (raised e, h)
  unregistered_or (inr b, h) = (unregistered b, h)

  unfoldable pub handle : Request → Hub → Response × Hub
  handle (register r def tenant hosts) h =
      registered_or (register_plugin lib second r def tenant hosts h)
  handle (unregister name tenant) h = unregistered_or (unregister_plugin name tenant h)

  unfoldable pub handle_all : List Request → Hub → List (Request × Response) × Hub
  handle_all [] h = ([], h)
  handle_all (q ∷ qs) h =
      let (r, h') = handle q h in let (rs, h'') = handle_all qs h' in ((q, r) ∷ rs, h'')

  Keeps : Request → Hub → Response × Hub → Type 0
  Keeps q h out = Promise lib (owners_of h) q out.0 (owners_of out.1) × IsIndexed out.1

  kept-Keeps :
      (o : Option McpProxyTool) (r : Readings) (def : PluginDef) (tenant : String)
      (hosts : Option (List String)) (h : Hub)
      → lookup def.name h.plugins ≡ o
      → validate_plugin_definition lib def ≡ []
      → validate_endpoint_url lib def.endpoint_url hosts ≡ []
      → IsIndexed h
      → Keeps (register r def tenant hosts) h (registered_or (kept o def tenant h))
  unfolding Keeps owners_of
  kept-Keeps (some other) r def tenant hosts h e v u i = (rejects (λ n. refl), i)
  kept-Keeps none r def tenant hosts h e v u i = (
    accepts v u (ap owner e) (λ n.
        ground
          (arith, lookup-insert def.name n (new_proxy def tenant) h.plugins, eq_iff def.name n)),
    keep_plugin-IsIndexed (new_proxy def tenant) h e i,
  )

  addressed-Keeps :
      (es : List UrlError) (r : Readings) (def : PluginDef) (tenant : String)
      (hosts : Option (List String)) (h : Hub)
      → validate_plugin_definition lib def ≡ []
      → validate_endpoint_url lib def.endpoint_url hosts ≡ es
      → IsIndexed h
      → Keeps (register r def tenant hosts) h (registered_or (addressed es def tenant h))
  unfolding Keeps
  addressed-Keeps (e ∷ es) r def tenant hosts h v u i = (rejects (λ n. refl), i)
  addressed-Keeps [] r def tenant hosts h v u i =
      kept-Keeps (lookup def.name h.plugins) r def tenant hosts h refl v u i

  admitted-Keeps :
      (answer : Bool × ℕ) (r : Readings) (def : PluginDef) (tenant : String)
      (hosts : Option (List String)) (h : Hub)
      → validate_plugin_definition lib def ≡ []
      → IsIndexed h
      → Keeps
          (register r def tenant hosts)
          h
          (registered_or (admitted lib second answer def tenant hosts h))
  unfolding Keeps
  admitted-Keeps (false, wait) r def tenant hosts h v i = (rejects (λ n. refl), i)
  admitted-Keeps (true, wait) r def tenant hosts h v i =
      addressed-Keeps (validate_endpoint_url lib def.endpoint_url hosts) r def tenant hosts h v refl
        i

  validated-Keeps :
      (es : List PluginError) (r : Readings) (def : PluginDef) (tenant : String)
      (hosts : Option (List String)) (h : Hub)
      → validate_plugin_definition lib def ≡ es
      → IsIndexed h
      → Keeps
          (register r def tenant hosts)
          h
          (registered_or (validated lib second es r def tenant hosts h))
  unfolding Keeps IsIndexed owners_of
  validated-Keeps (e ∷ es) r def tenant hosts h v i = (rejects (λ n. refl), i)
  validated-Keeps [] r def tenant hosts h v i =
      let (answer, limiter) = check_plugin_registration_rate_limit second r tenant h.limiter in
      admitted-Keeps answer r def tenant hosts (record h { limiter = limiter }) v i

  removed-Keeps :
      (o : Option McpProxyTool) (name tenant : String) (h : Hub)
      → lookup name h.plugins ≡ o
      → IsIndexed h
      → Keeps (unregister name tenant) h (unregistered_or (removed o name tenant h))
  unfolding Keeps owners_of
  removed-Keeps none name tenant h e i = (finds_none (ap owner e) (λ n. refl), i)
  removed-Keeps (some p) name tenant h e i = elim (Bool-cases (p.tenant_id == tenant)) [
    | inl own ↦
        let same = (eq_iff p.tenant_id tenant).0 own in
        rw own (
          removes (ap owner e ∙ ap some same)
              (λ n. ground (arith, lookup-erase name n h.plugins, eq_iff name n)),
          subst (λ t. IsIndexed (without t name h)) same (unregister-IsIndexed p name h e i),
        )
    | inr not_own ↦
        rw not_own (forbids (ap owner e) (ne_of_eq_false p.tenant_id tenant not_own) (λ n. refl), i)
  ]

  handle-Keeps : (q : Request) (h : Hub) → IsIndexed h → Keeps q h (handle q h)
  unfolding handle register_plugin unregister_plugin
  handle-Keeps (register r def tenant hosts) h i =
      validated-Keeps (validate_plugin_definition lib def) r def tenant hosts h refl i
  handle-Keeps (unregister name tenant) h i =
      removed-Keeps (lookup name h.plugins) name tenant h refl i

  -- Over any requests, from a hub whose sets agree with its plugins, the hub keeps its promises: a
  -- plugin is registered only where its definition and its address pass the tests and nobody owns its
  -- name, only the owner takes a name away, and in the end what a tenant is told that it has is what
  -- it owns.
  pub handle_all-Promises :
      (qs : List Request) (h : Hub)
      → IsIndexed h
      → let (run, h') = handle_all qs h in
        Promises lib (owners_of h) run (owners_of h')
        × ((tenant name : String)
            → tenant ≢ ""
            → is_in name (list_plugins (some tenant) h') ≡ is_owner tenant (owners_of h' name))
  unfolding handle_all list_plugins Keeps IsIndexed
  handle_all-Promises [] h i =
      (done, λ tenant name ne. ground (arith, i tenant name, eq_iff tenant ""))
  handle_all-Promises (q ∷ qs) h i =
      let (kept_promise, i') = handle-Keeps q h i in
      let (rest, listed) = handle_all-Promises qs (handle q h).1 i' in
      (next kept_promise rest, listed)
