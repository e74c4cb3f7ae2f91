-- ===== src/Api/Sample.antt =====
-- Tables of two tenants, a user of each, and an environment in which texts stay as they are.
use Prim.Native.String.{◌++◌ as str_append}
use project_kernel_runtime.Base.{true, none, some, String, List, [], ◌∷◌}
use project_kernel_runtime.Crypto.{Fernet}
use project_kernel_runtime.Auth.Library.{TokenPayload}
use project_kernel_runtime.Store.{pos}
use project_kernel_runtime.Api.{
  local, WorkspaceModel, SessionRow, MessageRow, TaskRow, Tables, Draw, Environment,
}
use project_kernel_runtime.Api.Sessions.{SessionCreateRequest}

abbrev pub fernet : Fernet
fernet = record { encrypt = λ s. str_append "gAAAA" s; decrypt = λ s. some s }

abbrev pub environment : Environment
environment = record {
  strip = λ s. s;
  lower = λ s. s;
  path_name = λ s. s;
  workspace_path = λ tenant slug. str_append tenant (str_append "/" slug);
  fernet = fernet;
  mount_repository = λ session url branch token. none;
}

abbrev pub member : String → TokenPayload
member tenant = record {
  tenant_id = tenant;
  user_id = "u1";
  email = "u1@example.org";
  role = "developer";
  tier = "pro";
  limits = [];
  exp = 0;
  iat = 0;
  organization_id = none;
}

abbrev pub drawn : Draw
drawn = record {
  session_id = "s9";
  task_id = "task_9";
  workspace_id = λ n. "w9";
  message_id = λ n. "m9";
  slug_digits = λ n. "0123456789ab";
  now = 70;
}

abbrev pub session_row : String → String → List WorkspaceModel → SessionRow
session_row id tenant workspaces = record {
  id = id;
  tenant_id = tenant;
  organization_id = none;
  user_id = "u1";
  name = "Work";
  user_role = "developer";
  mode = "web";
  workspaces = workspaces;
  github_token = none;
  is_active = true;
  created_at = 10;
  last_active_at = 20;
}

abbrev pub docs : WorkspaceModel
docs = record {
  id = "w1";
  tenant_id = "acme";
  slug = "docs";
  name = "docs";
  type = local;
  path = some "acme/docs";
  url = none;
  branch = "main";
}

abbrev pub message : String → String → String → MessageRow
message id tenant session = record {
  id = id;
  tenant_id = tenant;
  session_id = session;
  task_id = none;
  role = "user";
  content = "hello";
  tool_call_id = none;
  tool_calls = [];
  extra_metadata = [];
  sequence = pos 0;
}

abbrev pub task_row : String → String → String → TaskRow
task_row id tenant session = record {
  id = id;
  tenant_id = tenant;
  session_id = session;
  description = "build";
  status = "pending";
  created_at = 30;
}

abbrev pub tables : Tables
tables = record {
  sessions =
      session_row "s1" "acme" (docs ∷ [])
      ∷ session_row "s2" "globex" []
      ∷ session_row "s3" "acme" []
      ∷ [];
  workspaces = docs ∷ [];
  tasks = task_row "t1" "acme" "s1" ∷ task_row "t2" "globex" "s2" ∷ [];
  messages = message "m1" "acme" "s3" ∷ message "m2" "globex" "s2" ∷ [];
  task_queue = [];
}

abbrev pub new_work : SessionCreateRequest
new_work = record { name = "New"; workspaces = []; mode = "web" }
