-- ===== src/McpHub/Validation.antt =====
-- src/services/mcp/mcp_validation.py: the tests of a plugin's definition and address. What
-- `urlparse`, `ip_address` and `lower` say is an argument; errors are values, not texts. A
-- definition's parameters are a list, of which an entry that is no object is `none`.
use text.Mathlib.Text.{◌==◌}
use Prim.Native.Char.{code}
use project_kernel_runtime.Base.{
  ℕ, ◌+◌, Bool, true, false, not, ◌&&◌, ◌||◌, Option, none, some, String, List, [], ◌∷◌, ◌++◌, map,
  length, if◌then◌else◌, ltb, leb,
}
use project_kernel_runtime.Base.{◌==◌ as nat_eq}
use project_kernel_runtime.Base.Texts.{char_count, any_char, is_in}

-- An address taken apart: its scheme, its `netloc`, and its host.
pub record ParsedUrl : Type 0 where
  pub scheme : String
  pub netloc : String
  pub hostname : Option String

pub record UrlLibrary : Type 0 where
  pub parse : String → Option ParsedUrl
  pub is_ip_address : String → Bool
  pub lower : String → String

pub data UrlError : Type 0 where
  bad_length invalid_format bad_scheme no_host ip_address malicious : UrlError
  blocked_host not_in_allowed : String → UrlError

pub data PluginError : Type 0 where
  name_length name_characters description_length too_many_parameters : PluginError
  endpoint : UrlError → PluginError
  not_an_object missing_name : ℕ → PluginError
  invalid_type : ℕ → String → PluginError

pub record Param : Type 0 where
  pub name : String
  pub type_name : String

-- A name, a URL or a list that is missing is empty; whether a description is missing matters.
pub record PluginDef : Type 0 where
  pub name : String
  pub endpoint_url : String
  pub description : Option String
  pub parameters : List (Option Param)

-- `plugin_def.get("description", default)`
abbrev pub description_or : String → PluginDef → String
description_or default def = elim def.description [ none ↦ default | some d ↦ d ]

abbrev pub allowed_url_schemes : List String
allowed_url_schemes = "https" ∷ "http" ∷ []

abbrev pub blocked_hosts : List String
blocked_hosts = "localhost" ∷ "127.0.0.1" ∷ "0.0.0.0" ∷ "::1" ∷ []

abbrev pub max_url_length : ℕ
max_url_length = 2048

abbrev pub max_plugin_name_length : ℕ
max_plugin_name_length = 128

abbrev pub valid_types : List String
valid_types = "string" ∷ "number" ∷ "integer" ∷ "boolean" ∷ "array" ∷ "object" ∷ []

-- `errors.append(e)` under a test.
abbrev pub error_if : {E : Type 0} → Bool → E → List E
error_if b e = if b then e ∷ [] else []

-- `[<>\"']`
abbrev pub is_malicious : ℕ → Bool
is_malicious c = nat_eq c 60 || nat_eq c 62 || nat_eq c 34 || nat_eq c 39

abbrev pub between : ℕ → ℕ → ℕ → Bool
between low high c = leb low c && leb c high

-- `[a-zA-Z0-9_-]`
abbrev pub is_name_char : ℕ → Bool
is_name_char c =
    between 97 122 c || between 65 90 c || between 48 57 c || nat_eq c 95 || nat_eq c 45

-- `re.match(r"^[a-zA-Z0-9_-]+$", s)`: `$` also matches before a last line break.
unfoldable pub is_name_rest : String → Bool
is_name_rest String.[] = true
is_name_rest (String.◌∷◌ c s) =
    (is_name_char (code c) && is_name_rest s) || (nat_eq (code c) 10 && s == "")

unfoldable pub is_name : String → Bool
unfolding is_name_rest
is_name String.[] = false
is_name (String.◌∷◌ c s) = is_name_char (code c) && is_name_rest s

abbrev pub host_of : ParsedUrl → String
host_of p = elim p.hostname [ none ↦ "" | some host ↦ host ]

abbrev pub not_allowed : String → Option (List String) → List UrlError
not_allowed host none = []
not_allowed host (some []) = []
not_allowed host (some (h ∷ hosts)) = error_if (not (is_in host (h ∷ hosts))) (not_in_allowed host)

module _ (lib : UrlLibrary) where
  abbrev pub parsed_errors : String → Option (List String) → Option ParsedUrl → List UrlError
  parsed_errors url hosts none = invalid_format ∷ []
  parsed_errors url hosts (some p) =
      let host = host_of p in
      error_if (not (is_in p.scheme allowed_url_schemes)) bad_scheme
      ++ error_if (p.netloc == "") no_host
      ++ error_if (is_in (lib.lower host) blocked_hosts) (blocked_host host)
      ++ not_allowed host hosts
      ++ error_if (lib.is_ip_address host) ip_address
      ++ error_if (any_char is_malicious url) malicious

  unfoldable pub validate_endpoint_url : String → Option (List String) → List UrlError
  unfolding char_count any_char
  validate_endpoint_url url hosts =
      if url == "" || ltb max_url_length (char_count url)
      then bad_length ∷ []
      else parsed_errors url hosts (lib.parse url)

  unfoldable pub parameter_errors : ℕ → List (Option Param) → List PluginError
  parameter_errors i [] = []
  parameter_errors i (none ∷ ps) = not_an_object i ∷ parameter_errors (i + 1) ps
  parameter_errors i (some p ∷ ps) =
      error_if (p.name == "") (missing_name i)
      ++ error_if (not (is_in p.type_name valid_types)) (invalid_type i p.type_name)
      ++ parameter_errors (i + 1) ps

  unfoldable pub validate_plugin_definition : PluginDef → List PluginError
  unfolding validate_endpoint_url parameter_errors is_name char_count
  validate_plugin_definition def =
      error_if (def.name == "" || ltb max_plugin_name_length (char_count def.name)) name_length
      ++ error_if (not (is_name def.name)) name_characters
      ++ map endpoint (validate_endpoint_url def.endpoint_url none)
      ++ error_if (ltb 1000 (char_count (description_or "" def))) description_length
      ++ error_if (ltb 50 (length def.parameters)) too_many_parameters
      ++ parameter_errors 0 def.parameters
