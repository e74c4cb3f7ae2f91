-- ===== src/McpHub/Capabilities.antt =====
-- src/services/mcp/mcp_capabilities.py: what a server says that it can do, the tests of it, and the
-- hub's test of its tools' names in mcp_hub.py. Errors are values. A bound of a parameter is of a
-- type `N` with the order that the language gives it; timeouts are in ticks.
use text.Mathlib.Text.{◌==◌}
use project_kernel_runtime.Base.{
  ℕ, ◌*◌, Bool, true, false, not, ◌&&◌, ◌||◌, Option, none, some, String, List, [], ◌∷◌, ◌++◌, keep,
  map, length, ltb,
}
use project_kernel_runtime.Base.{◌==◌ as nat_eq}
use project_kernel_runtime.Base.Texts.{char_count, is_in}
use project_kernel_runtime.McpHub.{Hub, add_name}
use project_kernel_runtime.McpHub.Validation.{error_if, is_name, valid_types}

pub data CapabilityError : Type 0 where
  name_length name_characters description_length too_many_parameters : CapabilityError
  enum_not_texts minimum_exceeds bad_timeout bad_retries : CapabilityError
  invalid_type unsupported_version bad_logging_level : String → CapabilityError

-- An entry of `enum` that is no text is `none`.
pub record ParameterSchema (N : Type 0) : Type 0 where
  pub name : String
  pub type_name : String
  pub enum : Option (List (Option String))
  pub minimum : Option N
  pub maximum : Option N

pub record ToolCapability (N : Type 0) : Type 0 where
  pub name : String
  pub description : String
  pub parameters : List (ParameterSchema N)

pub record ServerCapabilities (N : Type 0) : Type 0 where
  pub version : String
  pub tools : List (ToolCapability N)
  pub logging_level : Option String

pub record ConnectionConfig : Type 0 where
  pub timeout : ℕ
  pub max_retries : ℕ

abbrev pub supported_protocol_versions : List String
supported_protocol_versions = "1.0.0" ∷ "2024-11-05" ∷ []

abbrev pub logging_levels : List String
logging_levels = "debug" ∷ "info" ∷ "warn" ∷ "error" ∷ []

abbrev pub are_texts : List (Option String) → Bool
are_texts [] = true
are_texts (none ∷ vs) = false
are_texts (some v ∷ vs) = are_texts vs

abbrev pub enum_errors : Option (List (Option String)) → List CapabilityError
enum_errors none = []
enum_errors (some vs) = error_if (not (are_texts vs)) enum_not_texts

-- A missing level and an empty one pass.
abbrev pub logging_errors : Option String → List CapabilityError
logging_errors none = []
logging_errors (some level) =
    error_if (not (level == "") && not (is_in level logging_levels)) (bad_logging_level level)

-- `0 < timeout_seconds <= 300` and `max_retries <= 10`; retries are no fewer than 0 here.
unfoldable pub validate_connection : ℕ → ConnectionConfig → List CapabilityError
validate_connection second c =
    error_if (nat_eq c.timeout 0 || ltb (300 * second) c.timeout) bad_timeout
    ++ error_if (ltb 10 c.max_retries) bad_retries

module _ {N : Type 0} (greater : N → N → Bool) where
  abbrev pub bound_errors : Option N → Option N → List CapabilityError
  bound_errors none high = []
  bound_errors (some low) none = []
  bound_errors (some low) (some high) = error_if (greater low high) minimum_exceeds

  unfoldable pub validate_parameter : ParameterSchema N → List CapabilityError
  validate_parameter p =
      error_if (not (is_in p.type_name valid_types)) (invalid_type p.type_name)
      ++ enum_errors p.enum
      ++ bound_errors p.minimum p.maximum

  unfoldable pub validate_parameters : List (ParameterSchema N) → List CapabilityError
  unfolding validate_parameter
  validate_parameters [] = []
  validate_parameters (p ∷ ps) = validate_parameter p ++ validate_parameters ps

  unfoldable pub validate_tool : ToolCapability N → List CapabilityError
  unfolding validate_parameters is_name char_count
  validate_tool t =
      error_if (ltb 128 (char_count t.name)) name_length
      ++ error_if (not (is_name t.name)) name_characters
      ++ error_if (ltb 1000 (char_count t.description)) description_length
      ++ error_if (ltb 50 (length t.parameters)) too_many_parameters
      ++ validate_parameters t.parameters

  unfoldable pub validate_tools : List (ToolCapability N) → List CapabilityError
  unfolding validate_tool
  validate_tools [] = []
  validate_tools (t ∷ ts) = validate_tool t ++ validate_tools ts

  unfoldable pub validate_server : ServerCapabilities N → List CapabilityError
  unfolding validate_tools
  validate_server s =
      error_if (not (is_in s.version supported_protocol_versions)) (unsupported_version s.version)
      ++ validate_tools s.tools
      ++ logging_errors s.logging_level

  -- The set of the tools' names.
  unfoldable pub get_tool_names : List (ToolCapability N) → List String
  get_tool_names [] = []
  get_tool_names (t ∷ ts) = add_name t.name (get_tool_names ts)

-- What `validate_capabilities` of the hub answers.
pub data Verdict : Type 0 where
  invalid : List CapabilityError → Verdict
  conflicts : List String → Verdict
  valid : ℕ → Verdict

abbrev pub without_conflicts : List String → ℕ → Verdict
without_conflicts [] count = valid count
without_conflicts (n ∷ ns) count = conflicts (n ∷ ns)

module _ {N : Type 0} (greater : N → N → Bool) where
  abbrev pub verdict : List CapabilityError → ServerCapabilities N → Hub → Verdict
  verdict (e ∷ es) s h = invalid (e ∷ es)
  verdict [] s h =
      let names = get_tool_names greater s.tools in
      without_conflicts (keep (λ n. is_in n (map (λ e. e.0) h.plugins)) names) (length names)

  unfoldable pub validate_capabilities : ServerCapabilities N → Hub → Verdict
  unfolding validate_server get_tool_names
  validate_capabilities s h = verdict (validate_server greater s) s h
