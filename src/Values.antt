-- ===== src/Values.antt =====
-- Values of the dynamic language, as tool arguments and tenant settings hold them.
use package.text.Mathlib.Text.{◌==◌}
use project_kernel_runtime.Base.{Bool, false, not, Option, none, some, String, if◌then◌else◌}
use project_kernel_runtime.Base.Dict.{Dict}

-- Any value that is no text, no Boolean and not None goes by its `str` and its truth.
pub data Value : Type 0 where
  text : String → Value
  flag : Bool → Value
  null : Value
  other : String → Bool → Value

abbrev pub truthy : Value → Bool
truthy (text s) = not (s == "")
truthy (flag b) = b
truthy null = false
truthy (other s b) = b

abbrev pub str : Value → String
str (text s) = s
str (flag b) = if b then "True" else "False"
str null = "None"
str (other s b) = s

abbrev pub Kwargs : Type 0
Kwargs = Dict Value

-- `x or None` for the result of a `get`.
abbrev pub truthy_text : Option Value → Option String
truthy_text none = none
truthy_text (some v) = if truthy v then some (str v) else none

abbrev pub is_truthy : Option Value → Bool
is_truthy none = false
is_truthy (some v) = truthy v
