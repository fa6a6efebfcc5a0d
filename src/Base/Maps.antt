-- ===== src/Base/Maps.antt =====
-- Go's `map[string]V`: an association list with one entry for each key. The list's order is an
-- order in which `range` may visit the map; the theorems hold for each list, so for each order.
use Prim.Native.String.{String}
use mathlib.Core.Path.{◌≡◌, refl}
use mathlib.Core.Bool.{Bool, false, ◌||◌}
use mathlib.Core.Option.{Option, none, some}
use mathlib.Core.List.{List, [], ◌∷◌}
use native.Mathlib.Omega.{arith}
use text.Mathlib.Text.{◌==◌ as str_eq}
use text.Mathlib.TextEquality.{eq_iff}
use text.Mathlib.TextPositions.{eq_refl}
use pnyxdb.Base.Tests.{if◌then◌else◌}

abbrev pub Dict {ℓ} : Type ℓ → Type ℓ
Dict V = List (String × V)

module _ {ℓ} {V : Type ℓ} where
  unfoldable pub lookup : String → Dict V → Option V
  lookup k [] = none
  lookup k ((j, v) ∷ m) = if str_eq j k then some v else lookup k m

  -- `m[k] = v`
  unfoldable pub insert : String → V → Dict V → Dict V
  insert k v [] = (k, v) ∷ []
  insert k v ((j, w) ∷ m) = if str_eq j k then (k, v) ∷ m else (j, w) ∷ insert k v m

  -- `delete(m, k)`
  unfoldable pub delete : String → Dict V → Dict V
  delete k [] = []
  delete k ((j, w) ∷ m) = let rest = delete k m in if str_eq j k then rest else (j, w) ∷ rest

  -- Reading after a write, and after a deletion.
  pub lookup-insert :
      (key sought : String) (value : V) (dict : Dict V)
      → lookup sought (insert key value dict)
        ≡ (if str_eq key sought then some value else lookup sought dict)
  unfolding insert lookup
  lookup-insert key sought value [] = refl
  lookup-insert key sought value ((top, old) ∷ rest) =
      let below = lookup-insert key sought value rest in
      ground (arith, eq_iff top key, eq_iff top sought, eq_iff key sought, below)

  pub lookup-delete :
      (key sought : String) (dict : Dict V)
      → lookup sought (delete key dict) ≡ (if str_eq key sought then none else lookup sought dict)
  unfolding delete lookup
  lookup-delete key sought [] = ground arith
  lookup-delete key sought ((top, old) ∷ rest) =
      let below = lookup-delete key sought rest in
      ground (arith, eq_iff top key, eq_iff top sought, eq_iff key sought, below)

  pub lookup-insert_self : (k : String) (v : V) (m : Dict V) → lookup k (insert k v m) ≡ some v
  lookup-insert_self k v m = simp (lookup-insert, eq_refl)

-- Membership in a slice of strings.
unfoldable pub contains : String → List String → Bool
contains v [] = false
contains v (x ∷ xs) = str_eq x v || contains v xs
