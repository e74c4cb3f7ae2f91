-- ===== src/Security.antt =====
-- The tests of a tool's arguments, and the tenant of a request:
-- src/infrastructure/security/path_validation.py (`validate_command_args`) and tenant_context.py. The
-- context variable of a request is a state; `lower` is an argument.
mod Tests
use text.Mathlib.Text.{◌==◌, starts_with}
use Prim.Native.String.{◌++◌ as str_append}
use project_kernel_runtime.Base.{
  ℕ, Bool, true, false, not, ◌&&◌, ◌||◌, Option, none, some, String, List, [], ◌∷◌, if◌then◌else◌,
}
use project_kernel_runtime.Base.{◌==◌ as nat_eq}
use project_kernel_runtime.Base.Texts.{any_char}
use project_kernel_runtime.Values.{Kwargs}
use project_kernel_runtime.Auth.Library.{TokenPayload}

-- `pattern in s`
unfoldable pub contains : String → String → Bool
contains pattern String.[] = starts_with "" pattern
contains pattern (String.◌∷◌ c s) = starts_with (String.◌∷◌ c s) pattern || contains pattern s

abbrev pub dangerous : List String
dangerous =
    "rm -rf /" ∷ "mkfs" ∷ "dd if=" ∷ ":(){" ∷ "shutdown" ∷ "reboot" ∷ "format" ∷ "del /f"
    ∷ "curl | sh" ∷ "wget |" ∷ "chmod 777" ∷ "nc -e" ∷ "/dev/tcp" ∷ []

-- The first of the patterns that a text contains.
unfoldable pub first_pattern : String → List String → Option String
unfolding contains
first_pattern s [] = none
first_pattern s (p ∷ ps) = let rest = first_pattern s ps in if contains p s then some p else rest

-- `[;&|`$()]`
abbrev pub is_shell_operator : ℕ → Bool
is_shell_operator c =
    nat_eq c 59
    || nat_eq c 38
    || nat_eq c 124
    || nat_eq c 96
    || nat_eq c 36
    || nat_eq c 40
    || nat_eq c 41

-- The error of a path, and of a command, where there is one.
unfoldable pub filepath_error : Option String → Option String
unfolding contains
filepath_error none = none
filepath_error (some p) =
    if contains ".." p
    then some "Path cannot contain '..'"
    else (if starts_with p "/"
        then some "Absolute paths not allowed"
        else (if contains "/." p || starts_with p "."
            then some "Hidden files not allowed"
            else none))

abbrev pub operator_error : String → Option String → Option String
operator_error command (some p) = some (str_append "Command contains dangerous pattern: " p)
operator_error command none =
    if any_char is_shell_operator command then some "Shell operators not allowed" else none

unfoldable pub command_error : (String → String) → Option String → Option String
unfolding first_pattern
command_error lower none = none
command_error lower (some command) =
    operator_error command (first_pattern (lower command) dangerous)

abbrev pub both_valid : Option String → Option String → Bool × String
both_valid (some e) command = (false, e)
both_valid none (some e) = (false, e)
both_valid none none = (true, "")

-- `validate_command_args` of the values of `filepath` and `command`.
unfoldable pub validate_command_args :
    (String → String) → Option String → Option String → Bool × String
unfolding filepath_error command_error
validate_command_args lower filepath command =
    both_valid (filepath_error filepath) (command_error lower command)

-- What a call raises.
pub data Denied : Type 0 where
  no_context : Denied
  other_tenant : String → Denied

-- `require_tenant_context`
unfoldable pub require_tenant_context : Option TokenPayload → Option TokenPayload
require_tenant_context ctx = ctx

unfoldable pub is_tenant_admin : Option TokenPayload → Option Bool
is_tenant_admin none = none
is_tenant_admin (some ctx) = some (ctx.role == "admin")

-- `require_in_tenant`, of which `none` is that it returns.
unfoldable pub require_in_tenant : String → Option TokenPayload → Option Denied
require_in_tenant tenant none = some no_context
require_in_tenant tenant (some ctx) =
    if not (ctx.tenant_id == tenant) then some (other_tenant tenant) else none

-- `TenantContextMiddleware`: the application runs with the context of the scope, which is cleared
-- after it, whatever it did; without one, the variable is left alone.
unfoldable pub with_tenant_context :
    {A : Type 0}
    → Bool
    → Option TokenPayload
    → (Option TokenPayload → A × Option TokenPayload)
    → Option TokenPayload
    → A × Option TokenPayload
with_tenant_context false scope app ctx = app ctx
with_tenant_context true none app ctx = app ctx
with_tenant_context true (some payload) app ctx = let (a, after) = app (some payload) in (a, none)
