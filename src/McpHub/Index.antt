-- ===== src/McpHub/Index.antt =====
-- The sets of names of the tenants in the hub of src/services/mcp/mcp_hub.py.
use text.Mathlib.Text.{◌==◌}
use text.Mathlib.TextEquality.{eq_iff}
use project_kernel_runtime.Base.{
  ◌≡◌, refl, not, ◌&&◌, ◌||◌, Option, none, some, String, List, [], ◌∷◌, if◌then◌else◌, arith,
}
use project_kernel_runtime.Base.Dict.{Dict, lookup, lookup-insert, lookup-erase}
use project_kernel_runtime.Base.Texts.{is_in}
use project_kernel_runtime.McpHub.{
  Hub, without, add_name, discard_name, names_or_empty, keep_plugin, discarded, discard_from,
}
use project_kernel_runtime.McpHub.Proxy.{McpProxyTool}
use project_kernel_runtime.McpHub.Promises.{owners_of, is_owner, names_of}

-- The sets of the tenants hold just what they own.
unfoldable pub IsIndexed : Hub → Type 0
IsIndexed h =
    (tenant name : String)
    → is_in name (names_of tenant h.tenant_plugins) ≡ is_owner tenant (owners_of h name)

pub is_in-add_name :
    (name n : String) (names : List String)
    → is_in n (add_name name names) ≡ ((name == n) || is_in n names)
is_in-add_name name n names = ground (arith, eq_iff name n)

pub is_in-discard_name :
    (name n : String) (names : List String)
    → is_in n (discard_name name names) ≡ (not (name == n) && is_in n names)
is_in-discard_name name n [] = ground arith
is_in-discard_name name n (m ∷ names) =
    ground (arith, is_in-discard_name name n names, eq_iff name n, eq_iff m n, eq_iff m name)

pub is_in-discarded :
    (o : Option (List String)) (tenant name t n : String) (d : Dict (List String))
    → lookup tenant d ≡ o
    → is_in n (names_of t (discarded o tenant name d))
      ≡ (if tenant == t then not (name == n) && is_in n (names_of t d) else is_in n (names_of t d))
is_in-discarded none tenant name t n d e = ground (arith, eq_iff tenant t)
is_in-discarded (some names) tenant name t n d e = ground (
  arith,
  lookup-insert tenant t (discard_name name names) d,
  is_in-discard_name name n names,
  eq_iff tenant t,
)

pub is_in-discard_from :
    (tenant name t n : String) (d : Dict (List String))
    → is_in n (names_of t (discard_from tenant name d))
      ≡ (if tenant == t then not (name == n) && is_in n (names_of t d) else is_in n (names_of t d))
is_in-discard_from tenant name t n d = is_in-discarded (lookup tenant d) tenant name t n d refl

pub keep_plugin-IsIndexed :
    (p : McpProxyTool) (h : Hub)
    → lookup p.name h.plugins ≡ none
    → IsIndexed h
    → IsIndexed (keep_plugin p h)
unfolding IsIndexed owners_of
keep_plugin-IsIndexed p h fresh i t n =
    let names = names_or_empty (lookup p.tenant_id h.tenant_plugins) in
    ground (
      arith,
      lookup-insert p.name n p h.plugins,
      lookup-insert p.tenant_id t (add_name p.name names) h.tenant_plugins,
      is_in-add_name p.name n names,
      eq_iff p.name n,
      eq_iff p.tenant_id t,
      i t n,
    )

-- A name that goes, with the plugin of the tenant that asks.
pub unregister-IsIndexed :
    (p : McpProxyTool) (name : String) (h : Hub)
    → lookup name h.plugins ≡ some p
    → IsIndexed h
    → IsIndexed (without p.tenant_id name h)
unfolding IsIndexed owners_of
unregister-IsIndexed p name h found i t n = ground (
  arith,
  lookup-erase name n h.plugins,
  is_in-discard_from p.tenant_id name t n h.tenant_plugins,
  eq_iff name n,
  eq_iff p.tenant_id t,
  i t n,
)
