-- ===== src/Base/Dict.antt =====
-- A Python dict with text keys, in insertion order.
use text.Mathlib.Text.{◌==◌}
use text.Mathlib.TextEquality.{eq_iff}
use text.Mathlib.TextPositions.{eq_refl}
use Prim.Native.String.{String}
use mathlib.Core.Path.{◌≡◌, refl}
use mathlib.Core.Logic.{◌≢◌}
use mathlib.Core.Bool.{false}
use mathlib.Core.Option.{Option, none, some}
use mathlib.Core.List.{List, [], ◌∷◌, ◌++◌}
use native.Mathlib.Omega.{arith}
use project_kernel_runtime.Base.Tests.{if◌then◌else◌}

-- Two texts that the test tells apart.
pub ne_of_eq_false : (s t : String) → (s == t) ≡ false → s ≢ t
ne_of_eq_false s t h e = cc (h, (eq_iff s t).1 e)

abbrev pub Dict {ℓ} : Type ℓ → Type ℓ
Dict V = List (String × V)

module _ {ℓ} {V : Type ℓ} where
  -- `d.get(k)`
  unfoldable pub lookup : String → Dict V → Option V
  lookup k [] = none
  lookup k ((j, v) ∷ d) = if j == k then some v else lookup k d

  -- `d[k] = v`, which keeps the place of a key that is there.
  unfoldable pub insert : String → V → Dict V → Dict V
  insert k v [] = (k, v) ∷ []
  insert k v ((j, w) ∷ d) = if j == k then (k, v) ∷ d else (j, w) ∷ insert k v d

  -- `d.pop(k, None)`
  unfoldable pub erase : String → Dict V → Dict V
  erase k [] = []
  erase k ((j, v) ∷ d) = let rest = erase k d in if j == k then rest else (j, v) ∷ rest

  pub lookup-nil : (k : String) → lookup k [] ≡ none
  unfolding lookup
  lookup-nil k = refl

  pub lookup-insert :
      (k j : String) (v : V) (d : Dict V)
      → lookup j (insert k v d) ≡ (if k == j then some v else lookup j d)
  unfolding lookup insert
  lookup-insert k j v [] = refl
  lookup-insert k j v ((i, w) ∷ d) =
      ground (arith, eq_iff k j, eq_iff i k, eq_iff i j, lookup-insert k j v d)

  pub lookup-insert_self : (k : String) (v : V) (d : Dict V) → lookup k (insert k v d) ≡ some v
  lookup-insert_self k v d = simp (lookup-insert, eq_refl)

  pub lookup-insert_other :
      (k j : String) (v : V) (d : Dict V) → j ≢ k → lookup j (insert k v d) ≡ lookup j d
  lookup-insert_other k j v d h = ground (arith, lookup-insert k j v d, eq_iff k j)

  pub lookup-erase :
      (k j : String) (d : Dict V) → lookup j (erase k d) ≡ (if k == j then none else lookup j d)
  unfolding lookup erase
  lookup-erase k j [] = ground arith
  lookup-erase k j ((i, v) ∷ d) =
      ground (arith, lookup-erase k j d, eq_iff i k, eq_iff i j, eq_iff k j)

  pub insert-insert : (k : String) (v w : V) (d : Dict V) → insert k v (insert k w d) ≡ insert k v d
  unfolding insert
  insert-insert k v w [] = ground (arith, eq_refl k)
  insert-insert k v w ((j, u) ∷ d) = ground (arith, eq_refl k, insert-insert k v w d)

  -- A key that is not there is added at the end.
  pub insert-absent :
      (k : String) (v : V) (d : Dict V) → lookup k d ≡ none → insert k v d ≡ d ++ (k, v) ∷ []
  unfolding insert lookup
  insert-absent k v [] e = refl
  insert-absent k v ((j, w) ∷ d) e = ground (arith, insert-absent k v d)

  pub erase-absent : (k : String) (d : Dict V) → lookup k d ≡ none → erase k d ≡ d
  unfolding erase lookup
  erase-absent k [] e = refl
  erase-absent k ((j, w) ∷ d) e = ground (arith, erase-absent k d)

  pub erase-insert : (k : String) (v : V) (d : Dict V) → erase k (insert k v d) ≡ erase k d
  unfolding erase insert
  erase-insert k v [] = ground (arith, eq_refl k)
  erase-insert k v ((j, w) ∷ d) = ground (arith, eq_refl k, erase-insert k v d)

pub ruleset dict_laws = (lookup-nil, lookup-insert, lookup-erase)
