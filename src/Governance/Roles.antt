-- ===== src/Governance/Roles.antt =====
-- What the roles, the risk mode and the tenant's lists allow.
use text.Mathlib.Text.{◌==◌, starts_with}
use text.Mathlib.TextEquality.{eq_iff}
use project_kernel_runtime.Base.{
  none, Bool-cases, inl, inr, ◌≡◌, refl, ◌⊎◌, Bool, true, false, not, ◌&&◌, ◌||◌, Option, some,
  String, List, [], ◌∷◌, keep, arith,
}
use project_kernel_runtime.Base.Dict.{lookup}
use project_kernel_runtime.Values.{Kwargs, is_truthy, truthy_text}
use project_kernel_runtime.Paths.{
  FilePath, FileSystem, Resolution, resolved, denied, relative_to, root_of, resolve_workspace_path,
  get_session_root, resolve_within, candidate_of, text_of, join,
}
use project_kernel_runtime.Paths.Isolation.{granted_is_isolated}
use project_kernel_runtime.Governance.{
  Session, allowed, is_in, is_wildcard, role_permissions, needs_approval, file_tools, file_verdict,
  assert_action_allowed, TenantConfig, only_allowed, get_allowed_tools,
}

not_wildcard :
    (role : String) → (role == "admin") ≡ false → is_wildcard (role_permissions role) ≡ false
unfolding role_permissions
not_wildcard role h = rw h (ground arith)

is_in-keep :
    (t : String) (p : String → Bool) (names : List String)
    → is_in t (keep p names) ≡ (is_in t names && p t)
is_in-keep t p [] = refl
is_in-keep t p (n ∷ names) = ground (arith, is_in-keep t p names, eq_iff n t)

module _ (fs : FileSystem) (show : FilePath → String) where
  -- What a session that is not an admin's is allowed: a tool of its role's list, or one whose name
  -- begins "mcp_"; and where the risk mode asks for approval of that tool, the arguments carry one.
  pub allowed_is_permitted :
      (session : Session) (tool_name : String) (kwargs : Kwargs) (config : Option Kwargs)
      → (session.user_role == "admin") ≡ false
      → assert_action_allowed fs show session tool_name kwargs config ≡ allowed
      → ((is_in tool_name (role_permissions session.user_role) || starts_with tool_name "mcp_")
          ≡ true)
        × ((needs_approval tool_name session.risk_mode ≡ false)
            ⊎ (is_truthy (lookup "__approved__" kwargs) ≡ true))
  unfolding assert_action_allowed
  allowed_is_permitted session tool_name kwargs config h e =
      ground (arith, not_wildcard session.user_role h)

  within_of_allowed :
      (tool_name : String) (r : Resolution)
      → file_verdict fs show tool_name r ≡ allowed
      → (target : FilePath) × (r ≡ resolved target)
        × ((tool_name == "read_file") ≡ true
            ⊎ (starts_with (show target) (show fs.temp_root) ≡ false))
  unfolding file_verdict
  within_of_allowed tool_name (resolved target) h = (target, refl, ground arith)
  within_of_allowed tool_name (denied target) h = cc

  -- `str` of an absolute path below an absolute directory begins with `str` of the directory.
  abbrev pub ShowsPrefix : Type 0
  ShowsPrefix =
      (path base : FilePath)
      → path.is_absolute ≡ true
      → base.is_absolute ≡ true
      → relative_to path base ≡ true
      → starts_with (show path) (show base) ≡ true

  -- `Path.resolve` makes every path absolute, and the directory for temporary files is absolute.
  abbrev pub ResolvesAbsolute : Type 0
  ResolvesAbsolute =
      ((p : FilePath) → (fs.resolve p).is_absolute ≡ true) × (fs.temp_root.is_absolute ≡ true)

  root_of-absolute :
      (session_id : Option String) (tenant_id : String)
      → ResolvesAbsolute
      → (root_of fs session_id tenant_id).is_absolute ≡ true
  unfolding root_of get_session_root
  root_of-absolute none tenant_id h = h.0 fs.workspace_root
  root_of-absolute (some s) tenant_id h = elim (Bool-cases (s == "")) [
    | inl e ↦ rw e (h.0 fs.workspace_root)
    | inr e ↦ rw e (h.0 _)
  ]

  resolve_within-absolute :
      (root candidate target : FilePath)
      → ResolvesAbsolute
      → resolve_within fs root candidate ≡ resolved target
      → target.is_absolute ≡ true
  unfolding resolve_within
  resolve_within-absolute root candidate target h e =
      ground (arith, e, h.0 candidate, h.0 (join root candidate.parts))

  target-absolute :
      (path session_id : Option String) (tenant_id : String) (target : FilePath)
      → ResolvesAbsolute
      → resolve_workspace_path fs path session_id tenant_id ≡ resolved target
      → target.is_absolute ≡ true
  unfolding resolve_workspace_path
  target-absolute path session_id tenant_id target h e = ground (
    arith,
    e,
    root_of-absolute session_id tenant_id h,
    resolve_within-absolute (root_of fs session_id tenant_id) (candidate_of fs (text_of path))
        target h,
  )

  -- A session that is not an admin's and is allowed `write_file`, `create_file` or `edit_file`
  -- writes below its own root: the path resolves there, and not among the temporary files.
  pub writes_stay_in_root :
      (session : Session) (tool_name : String) (kwargs : Kwargs) (config : Option Kwargs)
      → ShowsPrefix
      → ResolvesAbsolute
      → (session.user_role == "admin") ≡ false
      → is_in tool_name file_tools ≡ true
      → (tool_name == "read_file") ≡ false
      → assert_action_allowed fs show session tool_name kwargs config ≡ allowed
      → (target : FilePath) × (resolve_workspace_path fs
            (truthy_text (lookup "filepath" kwargs))
            session.id
            session.tenant_id
          ≡ resolved target)
        × (relative_to target (root_of fs session.id session.tenant_id) ≡ true)
  unfolding assert_action_allowed
  writes_stay_in_root session tool_name kwargs config shows absolute h f r e =
      let path = truthy_text (lookup "filepath" kwargs) in
      let (target, eq, safe) =
        within_of_allowed tool_name (resolve_workspace_path fs path session.id session.tenant_id)
          (ground arith) in
      (
        target,
        eq,
        ground (
          arith,
          safe,
          shows target fs.temp_root
              (target-absolute path session.id session.tenant_id target absolute eq) absolute.1,
          granted_is_isolated fs path session.id session.tenant_id target eq,
        ),
      )

abbrev is_empty : List String → Bool
is_empty [] = true
is_empty (n ∷ names) = false

is_in-only_allowed :
    (t : String) (allow names : List String)
    → is_in t (only_allowed allow names) ≡ (is_in t names && (is_empty allow || is_in t allow))
is_in-only_allowed t [] names = ground arith
is_in-only_allowed t (a ∷ allow) names = is_in-keep t (λ n. is_in n (a ∷ allow)) names

-- The tools listed for a role under a tenant's configuration are those of the role that are on the
-- allow list, unless that is empty, and not on the deny list.
pub is_in-get_allowed_tools :
    (t role : String) (c : TenantConfig)
    → is_in t (get_allowed_tools role (some c)) ≡ (
        is_in t (role_permissions role)
        && (is_empty c.allow_tools || is_in t c.allow_tools)
        && not (is_in t c.deny_tools))
unfolding get_allowed_tools
is_in-get_allowed_tools t role c =
    let names = role_permissions role in
    ground (
      arith,
      is_in-keep t (λ n. not (is_in n c.deny_tools)) (only_allowed c.allow_tools names),
      is_in-only_allowed t c.allow_tools names,
    )

-- The wildcard of an admin is taken for a tool's name, so an admin of a tenant whose allow
-- list is not empty and does not hold "*" itself has no tool at all.
pub admin_loses_tools :
    (c : TenantConfig) (a : String) (allow : List String)
    → c.allow_tools ≡ a ∷ allow
    → is_in "*" (a ∷ allow) ≡ false
    → get_allowed_tools "admin" (some c) ≡ []
unfolding get_allowed_tools
admin_loses_tools c a allow e h = rw (e, only_allowed) (rw h refl)
