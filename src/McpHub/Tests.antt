-- ===== src/McpHub/Tests.antt =====
-- Runs of the hub with two tenants.
use project_kernel_runtime.Base.{◌≡◌, ◌≢◌, refl, true, false, none, some, String, List, [], ◌∷◌}
use project_kernel_runtime.Base.Dict.{lookup}
use project_kernel_runtime.Base.Texts.{is_in}
use project_kernel_runtime.McpLimit.{Readings, plugin_rate_limiter}
use project_kernel_runtime.McpHub.{Hub, list_plugins}
use project_kernel_runtime.McpHub.Validation.{UrlLibrary, PluginDef, is_name, is_name_rest}
use project_kernel_runtime.McpHub.Promises.{
  Request, register, unregister, Promises, owners_of, is_owner,
}
use project_kernel_runtime.McpHub.Index.{IsIndexed}
use project_kernel_runtime.McpHub.Owners.{handle_all, handle_all-Promises}

abbrev library : UrlLibrary
library = record {
  parse = λ url. some (record { scheme = "https"; netloc = url; hostname = some url });
  is_ip_address = λ host. false;
  lower = λ host. host;
}

abbrev weather : PluginDef
weather = record {
  name = "weather";
  endpoint_url = "tools.example";
  description = none;
  parameters = [];
}

abbrev readings : Readings
readings = record { now = 5; created = 5; asked = 5 }

abbrev empty_hub : Hub
empty_hub = record {
  plugins = [];
  tenant_plugins = [];
  tool_instances = [];
  limiter = plugin_rate_limiter 1;
}

empty_hub-IsIndexed : IsIndexed empty_hub
unfolding IsIndexed owners_of lookup
empty_hub-IsIndexed tenant name = refl

-- The name of a plugin may end in a line break.
is_name_line_break : is_name "weather\n" ≡ true
unfolding is_name is_name_rest
is_name_line_break = refl

abbrev requests : List Request
requests =
    register readings weather "a" none
    ∷ register readings weather "b" none
    ∷ unregister "weather" "b"
    ∷ unregister "weather" "a"
    ∷ []

handle_all-Promises_example :
    let (run, h) = handle_all library 1 requests empty_hub in
    Promises library (owners_of empty_hub) run (owners_of h)
    × ((tenant name : String)
        → tenant ≢ ""
        → is_in name (list_plugins (some tenant) h) ≡ is_owner tenant (owners_of h name))
handle_all-Promises_example = handle_all-Promises library 1 requests empty_hub empty_hub-IsIndexed
