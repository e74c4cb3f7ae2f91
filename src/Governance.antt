-- ===== src/Governance.antt =====
-- src/services/governance/policy_engine.py: which tool actions a session may take.
-- The temporary directory is compared as text: `show` is `str` of a path.
pub mod Roles
mod Tests
use text.Mathlib.Text.{◌==◌, starts_with}
use project_kernel_runtime.Base.{
  Bool, true, false, not, ◌&&◌, ◌||◌, Option, none, some, String, List, [], ◌∷◌, any, keep,
  if◌then◌else◌,
}
use project_kernel_runtime.Base.Dict.{lookup}
use project_kernel_runtime.Values.{Value, Kwargs, is_truthy, truthy_text}
use project_kernel_runtime.Paths.{
  FilePath, FileSystem, Resolution, resolved, denied, resolve_workspace_path,
}

-- The attributes of a session that the engine reads.
pub record Session : Type 0 where
  pub id : Option String
  pub tenant_id : String
  pub user_role : String
  pub risk_mode : String

-- GovernanceApprovalRequiredError, and GovernanceDeniedError for each reason.
pub data Verdict : Type 0 where
  allowed : Verdict
  approval_required : Verdict
  not_permitted : Verdict
  temp_write : Verdict
  path_escapes : Verdict

abbrev pub is_in : String → List String → Bool
is_in name names = any (λ n. n == name) names

abbrev pub admin_tools : List String
admin_tools = "*" ∷ []

abbrev pub developer_tools : List String
developer_tools =
    "bash_execute" ∷ "read_file" ∷ "write_file" ∷ "git_clone" ∷ "git_read" ∷ "git_write"
    ∷ "git_commit" ∷ "git_create_pr" ∷ "code_review" ∷ "security_scan" ∷ "generate_tests"
    ∷ "generate_docs" ∷ "generate_cicd" ∷ "database_query" ∷ "api_test" ∷ "manage_dependencies"
    ∷ "code_graph_query" ∷ "web_search" ∷ "update_agent_memory" ∷ "search_past_decisions"
    ∷ "delegate_task" ∷ "dispatch_output" ∷ []

abbrev pub viewer_tools : List String
viewer_tools = "read_file" ∷ "code_graph_query" ∷ "web_search" ∷ []

-- `ROLE_PERMISSIONS.get(role, [])`
unfoldable pub role_permissions : String → List String
role_permissions role =
    if role == "admin"
    then admin_tools
    else if role == "developer"
    then developer_tools
    else if role == "viewer"
    then viewer_tools
    else []

-- ALWAYS_APPROVE_TOOLS is empty.
unfoldable pub needs_approval : String → String → Bool
needs_approval tool_name risk_mode =
    tool_name == "mcp_Blender_capture_viewport_screenshot"
    || (tool_name == "bash_execute" && risk_mode == "strict")

-- `allowed == ["*"]`
abbrev pub is_wildcard : List String → Bool
is_wildcard (t ∷ []) = t == "*"
is_wildcard _ = false

-- Whether `allowed != ["*"] and tool_name not in allowed and not is_dynamic_mcp_tool` fails.
unfoldable pub permitted : String → String → Bool
permitted user_role tool_name =
    let names = role_permissions user_role in
    is_wildcard names || is_in tool_name names || starts_with tool_name "mcp_"

abbrev pub file_tools : List String
file_tools = "read_file" ∷ "write_file" ∷ "create_file" ∷ "edit_file" ∷ []

module _ (fs : FileSystem) (show : FilePath → String) where
  unfoldable pub file_verdict : String → Resolution → Verdict
  file_verdict tool_name (denied target) = path_escapes
  file_verdict tool_name (resolved target) =
      if starts_with (show target) (show fs.temp_root)
      then (if tool_name == "read_file" then allowed else temp_write)
      else allowed

  abbrev pub bash_verdict : Resolution → Verdict
  bash_verdict (denied target) = path_escapes
  bash_verdict (resolved target) = allowed

  -- `kwargs.get("working_dir", ".")`
  abbrev pub working_dir : Option Value → Option String
  working_dir none = some "."
  working_dir (some v) = truthy_text (some v)

  unfoldable pub path_verdict : Session → String → Kwargs → Verdict
  unfolding file_verdict
  path_verdict session tool_name kwargs =
      if is_in tool_name file_tools
      then file_verdict tool_name (
          resolve_workspace_path fs (truthy_text (lookup "filepath" kwargs)) session.id
            session.tenant_id)
      else if tool_name == "bash_execute"
      then bash_verdict (
          resolve_workspace_path fs (working_dir (lookup "working_dir" kwargs)) session.id
            session.tenant_id)
      else allowed

  -- The tenant's configuration, the last argument, is not read.
  unfoldable pub assert_action_allowed : Session → String → Kwargs → Option Kwargs → Verdict
  unfolding needs_approval permitted path_verdict
  assert_action_allowed session tool_name kwargs tenant_config =
      if session.user_role == "admin"
      then allowed
      else if needs_approval tool_name session.risk_mode
          && not (is_truthy (lookup "__approved__" kwargs))
      then approval_required
      else if permitted session.user_role tool_name
      then path_verdict session tool_name kwargs
      else not_permitted

-- The lists of a tenant's configuration.
pub record TenantConfig : Type 0 where
  pub deny_tools : List String
  pub allow_tools : List String

abbrev pub only_allowed : List String → List String → List String
only_allowed [] tools = tools
only_allowed (a ∷ allow) tools = keep (λ t. is_in t (a ∷ allow)) tools

-- `tenant_config` is falsy where it is none.
unfoldable pub get_allowed_tools : String → Option TenantConfig → List String
unfolding role_permissions
get_allowed_tools role none = role_permissions role
get_allowed_tools role (some c) =
    keep (λ t. not (is_in t c.deny_tools)) (only_allowed c.allow_tools (role_permissions role))
