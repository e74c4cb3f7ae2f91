-- ===== src/McpHub.antt =====
-- The hub of MCP plugins: src/services/mcp/mcp_hub.py, with the plugin's tool of mcp_proxy.py and
-- mcp_models.py in Proxy, mcp_validation.py in Validation, and mcp_capabilities.py in Capabilities.
-- The registry of all tools keeps which of its entries are plugins and which are built in.
pub mod Validation
pub mod Proxy
pub mod Capabilities
pub mod Sanitize
pub mod Promises
pub mod Index
pub mod Owners
mod Tests
use text.Mathlib.Text.{◌==◌}
use project_kernel_runtime.Base.{
  ℕ, Bool, true, false, not, Option, none, some, String, List, [], ◌∷◌, keep, map, if◌then◌else◌,
  ◌⊎◌, inl, inr,
}
use project_kernel_runtime.Base.Dict.{Dict, lookup, insert, erase}
use project_kernel_runtime.Base.Texts.{is_in}
use project_kernel_runtime.McpLimit.{RateLimiter, Readings, check_plugin_registration_rate_limit}
use project_kernel_runtime.McpHub.Validation.{
  UrlLibrary, UrlError, PluginError, PluginDef, validate_endpoint_url, validate_plugin_definition,
}
use project_kernel_runtime.McpHub.Proxy.{McpProxyTool, new_proxy}

pub data Tool : Type 0 where
  built_in : Tool
  plugin : McpProxyTool → Tool

pub record Hub : Type 0 where
  pub plugins : Dict McpProxyTool
  pub tenant_plugins : Dict (List String)
  pub tool_instances : Dict Tool
  pub limiter : RateLimiter

-- What `register_plugin` and `unregister_plugin` raise.
pub data HubError : Type 0 where
  validation_failed : List PluginError → HubError
  rate_limited : ℕ → HubError
  url_failed : List UrlError → HubError
  already_registered : String → HubError
  other_tenant : HubError

-- A set of texts: `add` and `discard`.
abbrev pub add_name : String → List String → List String
add_name name names = if is_in name names then names else name ∷ names

abbrev pub discard_name : String → List String → List String
discard_name name names = keep (λ n. not (n == name)) names

abbrev pub names_or_empty : Option (List String) → List String
names_or_empty none = []
names_or_empty (some names) = names

-- What is kept of a plugin that has passed every test.
abbrev pub keep_plugin : McpProxyTool → Hub → Hub
keep_plugin proxy h = record h {
  plugins = insert proxy.name proxy h.plugins;
  tenant_plugins =
      insert proxy.tenant_id
        (add_name proxy.name (names_or_empty (lookup proxy.tenant_id h.tenant_plugins)))
        h.tenant_plugins;
  tool_instances = insert proxy.name (plugin proxy) h.tool_instances;
}

-- The last test of `register_plugin`: whether the name is taken.
abbrev pub kept : Option McpProxyTool → PluginDef → String → Hub → (HubError ⊎ String) × Hub
kept (some other) def tenant h = (inl (already_registered def.name), h)
kept none def tenant h = (inr def.name, keep_plugin (new_proxy def tenant) h)

-- The test of the address with the hosts that are allowed, and what follows.
abbrev pub addressed : List UrlError → PluginDef → String → Hub → (HubError ⊎ String) × Hub
addressed (e ∷ es) def tenant h = (inl (url_failed (e ∷ es)), h)
addressed [] def tenant h = kept (lookup def.name h.plugins) def tenant h

module _ (lib : UrlLibrary) (second : ℕ) where
  -- From the rate limit on.
  abbrev pub admitted :
      Bool × ℕ → PluginDef → String → Option (List String) → Hub → (HubError ⊎ String) × Hub
  admitted (false, wait) def tenant hosts h = (inl (rate_limited wait), h)
  admitted (true, wait) def tenant hosts h =
      addressed (validate_endpoint_url lib def.endpoint_url hosts) def tenant h

  -- From the test of the definition on.
  abbrev pub validated :
      List PluginError
      → Readings
      → PluginDef
      → String
      → Option (List String)
      → Hub
      → (HubError ⊎ String) × Hub
  validated (e ∷ es) r def tenant hosts h = (inl (validation_failed (e ∷ es)), h)
  validated [] r def tenant hosts h =
      let (answer, limiter) = check_plugin_registration_rate_limit second r tenant h.limiter in
      admitted answer def tenant hosts (record h { limiter = limiter })

  unfoldable pub register_plugin :
      Readings → PluginDef → String → Option (List String) → Hub → (HubError ⊎ String) × Hub
  unfolding validate_plugin_definition validate_endpoint_url check_plugin_registration_rate_limit
  register_plugin r def tenant hosts h =
      validated (validate_plugin_definition lib def) r def tenant hosts h

-- `self._tenant_plugins[tenant_id].discard(name)` raises a KeyError where the tenant is missing,
-- which `register_plugin` rules out; such a dict is left as it is.
abbrev pub discarded :
    Option (List String) → String → String → Dict (List String) → Dict (List String)
discarded none tenant name d = d
discarded (some names) tenant name d = insert tenant (discard_name name names) d

abbrev pub discard_from : String → String → Dict (List String) → Dict (List String)
discard_from tenant name d = discarded (lookup tenant d) tenant name d

-- What is left without a plugin of a tenant.
abbrev pub without : String → String → Hub → Hub
without tenant name h = record h {
  plugins = erase name h.plugins;
  tenant_plugins = discard_from tenant name h.tenant_plugins;
  tool_instances = erase name h.tool_instances;
}

abbrev pub removed : Option McpProxyTool → String → String → Hub → (HubError ⊎ Bool) × Hub
removed none name tenant h = (inr false, h)
removed (some proxy) name tenant h =
    if not (proxy.tenant_id == tenant)
    then (inl other_tenant, h)
    else (inr true, without tenant name h)

unfoldable pub unregister_plugin : String → String → Hub → (HubError ⊎ Bool) × Hub
unregister_plugin name tenant h = removed (lookup name h.plugins) name tenant h

-- An empty identifier is read as no tenant.
unfoldable pub list_plugins : Option String → Hub → List String
list_plugins none h = map (λ e. e.0) h.plugins
list_plugins (some tenant) h =
    if tenant == ""
    then map (λ e. e.0) h.plugins
    else names_or_empty (lookup tenant h.tenant_plugins)
