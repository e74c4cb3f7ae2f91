-- ===== src/McpHub/Sanitize.antt =====
-- `sanitize_request_payload` of src/services/mcp/mcp_validation.py: the arguments of a call, as they
-- go to the service of a plugin.
use Prim.Native.String.{String}
use Prim.Native.Char.{code}
use mathlib.Core.Path.{ap₂}
use project_kernel_runtime.Base.{ℕ, ◌≡◌, refl, ap, Bool, ◌||◌, if◌then◌else◌, Bool-cases, inl, inr}
use project_kernel_runtime.Base.{◌==◌ as nat_eq}

-- A value of the language: a text, one that is neither text nor collection, a list, a dict.
mutual
  pub data Json : Type 0 where
    text : String → Json
    scalar : String → Json
    list : Items → Json
    object : Fields → Json

  pub data Items : Type 0 where
    no_items : Items
    item : Json → Items → Items

  pub data Fields : Type 0 where
    no_fields : Fields
    field : String → Json → Fields → Fields

-- `[<>'\"&]`
abbrev pub is_unsafe : ℕ → Bool
is_unsafe c = nat_eq c 60 || nat_eq c 62 || nat_eq c 39 || nat_eq c 34 || nat_eq c 38

-- `re.sub(r"[<>'\"&]", "", s)`
unfoldable pub remove_unsafe : String → String
remove_unsafe String.[] = String.[]
remove_unsafe (String.◌∷◌ c s) =
    let rest = remove_unsafe s in if is_unsafe (code c) then rest else String.◌∷◌ c rest

-- Of a list, only the dicts are sanitized.
unfoldable mutual
  unfolding remove_unsafe

  pub sanitize : Fields → Fields
  sanitize no_fields = no_fields
  sanitize (field key value fields) = field key (sanitize_value value) (sanitize fields)

  pub sanitize_value : Json → Json
  sanitize_value (text s) = text (remove_unsafe s)
  sanitize_value (scalar s) = scalar s
  sanitize_value (list items) = list (sanitize_items items)
  sanitize_value (object fields) = object (sanitize fields)

  pub sanitize_items : Items → Items
  sanitize_items no_items = no_items
  sanitize_items (item value items) = item (sanitize_item value) (sanitize_items items)

  pub sanitize_item : Json → Json
  sanitize_item (text s) = text s
  sanitize_item (scalar s) = scalar s
  sanitize_item (list items) = list items
  sanitize_item (object fields) = object (sanitize fields)

remove_unsafe-twice : (s : String) → remove_unsafe (remove_unsafe s) ≡ remove_unsafe s
unfolding remove_unsafe
remove_unsafe-twice String.[] = refl
remove_unsafe-twice (String.◌∷◌ c s) = elim (Bool-cases (is_unsafe (code c))) [
  | inl e ↦ rw e (remove_unsafe-twice s)
  | inr e ↦ rw e (rw e (ap (String.◌∷◌ c) (remove_unsafe-twice s)))
]

-- Sanitizing twice is sanitizing once.
mutual
  unfolding sanitize

  pub sanitize-sanitize : (fields : Fields) → sanitize (sanitize fields) ≡ sanitize fields
  sanitize-sanitize no_fields = refl
  sanitize-sanitize (field key value fields) =
      ap₂ (field key) (value-twice value) (sanitize-sanitize fields)

  value-twice : (v : Json) → sanitize_value (sanitize_value v) ≡ sanitize_value v
  value-twice (text s) = ap text (remove_unsafe-twice s)
  value-twice (scalar s) = refl
  value-twice (list items) = ap list (items-twice items)
  value-twice (object fields) = ap object (sanitize-sanitize fields)

  items-twice : (items : Items) → sanitize_items (sanitize_items items) ≡ sanitize_items items
  items-twice no_items = refl
  items-twice (item value items) = ap₂ item (item-twice value) (items-twice items)

  item-twice : (v : Json) → sanitize_item (sanitize_item v) ≡ sanitize_item v
  item-twice (text s) = refl
  item-twice (scalar s) = refl
  item-twice (list items) = refl
  item-twice (object fields) = ap object (sanitize-sanitize fields)
