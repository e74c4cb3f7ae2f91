-- ===== src/Crypto.antt =====
-- Encrypted texts: src/infrastructure/security/crypto.py. Fernet is an argument.
use text.Mathlib.Text.{◌==◌}
use project_kernel_runtime.Base.{◌≡◌, false, Option, none, some, String, if◌then◌else◌}

-- `decrypt` gives `none` where it raises.
pub record Fernet : Type 0 where
  pub encrypt : String → String
  pub decrypt : String → Option String

-- A token decrypts to what was encrypted, and is not empty.
pub record FernetLaws (f : Fernet) : Type 0 where
  pub decrypt-encrypt : (s : String) → f.decrypt (f.encrypt s) ≡ some s
  pub encrypt_nonempty : (s : String) → (f.encrypt s == "") ≡ false

module _ (f : Fernet) where
  unfoldable pub encrypt_string : String → String
  encrypt_string s = if s == "" then s else f.encrypt s

  abbrev pub or_empty : Option String → String
  or_empty none = ""
  or_empty (some s) = s

  unfoldable pub decrypt_string : String → String
  decrypt_string s = if s == "" then s else or_empty (f.decrypt s)
