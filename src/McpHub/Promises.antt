-- ===== src/McpHub/Promises.antt =====
-- What the hub of src/services/mcp/mcp_hub.py promises of each request: its answers, and how the
-- owners of the names change.
use text.Mathlib.Text.{◌==◌}
use project_kernel_runtime.Base.{
  ◌≡◌, ◌≢◌, Bool, true, false, Option, none, some, String, List, [], ◌∷◌, if◌then◌else◌,
}
use project_kernel_runtime.Base.Dict.{Dict, lookup}
use project_kernel_runtime.McpLimit.{Readings}
use project_kernel_runtime.McpHub.{Hub, HubError, other_tenant, names_or_empty}
use project_kernel_runtime.McpHub.Validation.{
  UrlLibrary, PluginDef, validate_endpoint_url, validate_plugin_definition,
}
use project_kernel_runtime.McpHub.Proxy.{McpProxyTool}

abbrev pub Owners : Type 0
Owners = String → Option String

abbrev pub owner : Option McpProxyTool → Option String
owner none = none
owner (some proxy) = some proxy.tenant_id

unfoldable pub owners_of : Hub → Owners
owners_of h name = owner (lookup name h.plugins)

abbrev pub is_owner : String → Option String → Bool
is_owner tenant none = false
is_owner tenant (some t) = t == tenant

abbrev pub names_of : String → Dict (List String) → List String
names_of tenant d = names_or_empty (lookup tenant d)

-- What is asked of the hub, and its answers.
pub data Request : Type 0 where
  register : Readings → PluginDef → String → Option (List String) → Request
  unregister : String → String → Request

pub data Response : Type 0 where
  raised : HubError → Response
  registered : String → Response
  unregistered : Bool → Response

-- What the hub promises of a request: the answers, and how the owners change.
pub data Promise (lib : UrlLibrary) : Owners → Request → Response → Owners → Type 0 where
  accepts :
      {o o' : Owners} {r : Readings} {def : PluginDef} {tenant : String}
      {hosts : Option (List String)}
      → validate_plugin_definition lib def ≡ []
      → validate_endpoint_url lib def.endpoint_url hosts ≡ []
      → o def.name ≡ none
      → ((n : String) → o' n ≡ (if def.name == n then some tenant else o n))
      → Promise lib o (register r def tenant hosts) (registered def.name) o'
  rejects :
      {o o' : Owners} {r : Readings} {def : PluginDef} {tenant : String}
      {hosts : Option (List String)} {e : HubError}
      → ((n : String) → o' n ≡ o n)
      → Promise lib o (register r def tenant hosts) (raised e) o'
  finds_none :
      {o o' : Owners} {name tenant : String}
      → o name ≡ none
      → ((n : String) → o' n ≡ o n)
      → Promise lib o (unregister name tenant) (unregistered false) o'
  removes :
      {o o' : Owners} {name tenant : String}
      → o name ≡ some tenant
      → ((n : String) → o' n ≡ (if name == n then none else o n))
      → Promise lib o (unregister name tenant) (unregistered true) o'
  forbids :
      {o o' : Owners} {name tenant other : String}
      → o name ≡ some other
      → other ≢ tenant
      → ((n : String) → o' n ≡ o n)
      → Promise lib o (unregister name tenant) (raised other_tenant) o'

-- A run that keeps the promises, request by request.
pub data Promises (lib : UrlLibrary) : Owners → List (Request × Response) → Owners → Type 0 where
  done : {o : Owners} → Promises lib o [] o
  next :
      {o o' o'' : Owners} {request : Request} {response : Response}
      {run : List (Request × Response)}
      → Promise lib o request response o'
      → Promises lib o' run o''
      → Promises lib o ((request, response) ∷ run) o''
