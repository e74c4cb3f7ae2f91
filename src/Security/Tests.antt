-- ===== src/Security/Tests.antt =====
-- Arguments that are refused.
use project_kernel_runtime.Base.{◌≡◌, refl, false, none, some}
use project_kernel_runtime.Security.{
  validate_command_args, filepath_error, command_error, first_pattern, contains,
}

refuses_parent :
    validate_command_args (λ s. s) (some "a/../b") none ≡ (false, "Path cannot contain '..'")
unfolding validate_command_args filepath_error contains
refuses_parent = refl

-- A harmless word is taken for a dangerous command.
refuses_formatting :
    validate_command_args (λ s. s) none (some "npm run format")
    ≡ (false, "Command contains dangerous pattern: format")
unfolding validate_command_args filepath_error command_error first_pattern contains
refuses_formatting = refl
