-- ===== src/Base/Texts.antt =====
-- Texts as sequences of characters.
use Prim.Native.String.{String}
use Prim.Native.Char.{code}
use Prim.Native.Nat.{ℕ, suc}
use text.Mathlib.Text.{◌==◌}
use mathlib.Core.Bool.{Bool, false, ◌||◌}
use mathlib.Core.List.{List, [], ◌∷◌}

-- `len(s)`
unfoldable pub char_count : String → ℕ
char_count String.[] = 0
char_count (String.◌∷◌ c s) = suc (char_count s)

unfoldable pub any_char : (ℕ → Bool) → String → Bool
any_char p String.[] = false
any_char p (String.◌∷◌ c s) = p (code c) || any_char p s

-- `s in set`
abbrev pub is_in : String → List String → Bool
is_in s [] = false
is_in s (t ∷ ts) = (t == s) || is_in s ts
