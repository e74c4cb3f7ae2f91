-- ===== src/Api/Workspaces.antt =====
-- The workspaces of a session: src/api/rest/routers/session_utils.py.
use text.Mathlib.Text.{◌==◌}
use Prim.Native.String.{◌++◌ as str_append}
use Prim.Native.Char.{code}
use project_kernel_runtime.Base.{
  ℕ, suc, ◌-◌, leb, ◌==◌ as nat_eq, Bool, true, ◌&&◌, Option, none, some, String, List, [], ◌∷◌,
  ◌++◌, if◌then◌else◌,
}
use project_kernel_runtime.Base.Texts.{char_count}
use project_kernel_runtime.Paths.{take_chars, drop_chars}
use project_kernel_runtime.Api.{WorkspaceType, local, git, WorkspaceModel, Environment, find_row}

-- What a request says of a workspace to bind.
pub record WorkspaceBinding : Type 0 where
  pub type : WorkspaceType
  pub path : Option String
  pub url : Option String
  pub branch : String
  pub slug : Option String

abbrev pub local_binding : WorkspaceBinding
local_binding = record { type = local; path = none; url = none; branch = "main"; slug = none }

-- A prepared workspace.
pub record WorkspaceData : Type 0 where
  pub type : WorkspaceType
  pub slug : String
  pub branch : String
  pub name : String
  pub path : Option String
  pub url : Option String

-- `x or None` for a text.
abbrev pub or_none : Option String → Option String
or_none none = none
or_none (some s) = if s == "" then none else some s

-- `name.replace(" ", "-")`
unfoldable pub dashed : String → String
dashed String.[] = ""
dashed (String.◌∷◌ c s) =
    let rest = dashed s in if nat_eq (code c) 32 then str_append "-" rest else String.◌∷◌ c rest

abbrev pub only_slashes : String → Bool
only_slashes String.[] = true
only_slashes (String.◌∷◌ c s) = nat_eq (code c) 47 && only_slashes s

-- `url.rstrip("/")`
unfoldable pub rstrip_slash : String → String
rstrip_slash String.[] = ""
rstrip_slash (String.◌∷◌ c s) =
    let rest = rstrip_slash s in
    if nat_eq (code c) 47 && only_slashes s then "" else String.◌∷◌ c rest

-- `url.split("/")[-1]`, after the part `seen` before the next character.
unfoldable pub last_segment : String → String → String
last_segment seen String.[] = seen
last_segment seen (String.◌∷◌ c s) =
    if nat_eq (code c) 47
    then last_segment "" s
    else last_segment (str_append seen (String.◌∷◌ c "")) s

-- `name[:-4] if name.endswith(".git") else name`
unfoldable pub without_git : String → String
unfolding take_chars drop_chars char_count
without_git name =
    let start = char_count name - 4 in
    if leb 4 (char_count name) && drop_chars start name == ".git"
    then take_chars start name
    else name

module _ (env : Environment) where
  abbrev pub slug_text : String → String
  slug_text name = take_chars 64 (dashed (env.lower name))

  -- `f"workspace-{uuid.uuid4().hex[:8]}"`
  abbrev pub random_slug : String → String
  random_slug digits = str_append "workspace-" (take_chars 8 digits)

  abbrev pub kind_slug : WorkspaceType → Option String → Option String → String → String
  kind_slug local none url digits = random_slug digits
  kind_slug local (some path) url digits = slug_text (env.path_name path)
  kind_slug git path none digits = random_slug digits
  kind_slug git path (some url) digits =
      slug_text (without_git (last_segment "" (rstrip_slash url)))

  abbrev pub slug_or : Option String → String → String
  slug_or none other = other
  slug_or (some slug) other = slug

  unfoldable pub make_slug : WorkspaceBinding → String → String
  unfolding dashed rstrip_slash last_segment without_git take_chars
  make_slug ws digits =
      slug_or (or_none ws.slug) (kind_slug ws.type (or_none ws.path) (or_none ws.url) digits)

  abbrev pub data_path : WorkspaceType → String → Option String
  data_path local path = some path
  data_path git path = none

  abbrev pub data_url : WorkspaceType → Option String → Option String
  data_url local url = none
  data_url git url = url

  abbrev pub prepare : String → WorkspaceBinding → String → WorkspaceData
  prepare tenant_id ws slug = record {
    type = ws.type;
    slug = slug;
    branch = ws.branch;
    name = slug;
    path = data_path ws.type (env.workspace_path tenant_id slug);
    url = data_url ws.type ws.url;
  }

  -- The bindings from the `n`-th on.
  unfoldable pub prepare_from :
      String → (ℕ → String) → ℕ → List WorkspaceBinding → List WorkspaceData
  unfolding make_slug
  prepare_from tenant_id digits n [] = []
  prepare_from tenant_id digits n (ws ∷ rest) =
      prepare tenant_id ws (make_slug ws (digits n)) ∷ prepare_from tenant_id digits (suc n) rest

  unfoldable pub prepare_workspaces :
      List WorkspaceBinding → String → (ℕ → String) → List WorkspaceData
  unfolding prepare_from
  prepare_workspaces [] tenant_id digits = prepare_from tenant_id digits 0 (local_binding ∷ [])
  prepare_workspaces (ws ∷ rest) tenant_id digits = prepare_from tenant_id digits 0 (ws ∷ rest)

-- `WorkspaceModel.tenant_id == tenant_id` and `WorkspaceModel.slug == slug`
abbrev pub is_workspace : String → String → WorkspaceModel → Bool
is_workspace tenant_id slug ws = ws.tenant_id == tenant_id && ws.slug == slug

abbrev pub new_workspace : String → String → WorkspaceData → WorkspaceModel
new_workspace tenant_id id data' = record {
  id = id;
  tenant_id = tenant_id;
  slug = data'.slug;
  name = data'.name;
  type = data'.type;
  path = data'.path;
  url = data'.url;
  branch = data'.branch;
}

abbrev pub row_or_new :
    Option WorkspaceModel
    → WorkspaceModel
    → List WorkspaceModel
    → WorkspaceModel × List WorkspaceModel
row_or_new (some ws) new rows = (ws, rows)
row_or_new none new rows = (new, rows ++ new ∷ [])

unfoldable pub get_or_create_workspace :
    String → String → WorkspaceData → List WorkspaceModel → WorkspaceModel × List WorkspaceModel
unfolding find_row
get_or_create_workspace tenant_id id data' rows =
    row_or_new (find_row (is_workspace tenant_id data'.slug) rows)
      (new_workspace tenant_id id data') rows

-- The workspaces of a session, one after another; the `n`-th new row takes the `n`-th identifier.
unfoldable pub bind_workspaces :
    String
    → (ℕ → String)
    → ℕ
    → List WorkspaceData
    → List WorkspaceModel
    → List WorkspaceModel × List WorkspaceModel
unfolding get_or_create_workspace
bind_workspaces tenant_id ids n [] rows = ([], rows)
bind_workspaces tenant_id ids n (d ∷ ds) rows =
    let (ws, rows') = get_or_create_workspace tenant_id (ids n) d rows in
    let (bound, rows'') = bind_workspaces tenant_id ids (suc n) ds rows' in (ws ∷ bound, rows'')
