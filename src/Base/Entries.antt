-- ===== src/Base/Entries.antt =====
-- Maps with one entry for each key, and their keys and values as parallel lists.
use mathlib.Core.Path.{◌≡◌, refl, ap, ◌∙◌, subst}
use mathlib.Core.Logic.{inl, inr}
use mathlib.Core.Option.{Option, none, some}
use mathlib.Core.List.{List, [], ◌∷◌}
use Prim.Native.String.{String}
use native.Mathlib.Omega.{arith}
use text.Mathlib.Text.{◌==◌ as str_eq}
use text.Mathlib.TextEquality.{eq_iff}
use pnyxdb.Base.Tests.{Bool-cases}
use pnyxdb.Base.Maps.{Dict, lookup, insert, lookup-insert}

-- No key has two entries.
abbrev pub Distinct {ℓ} : {V : Type ℓ} → Dict V → Type ℓ
Distinct [] = Unit
Distinct ((k, v) ∷ m) = (lookup k m ≡ none) × Distinct m

abbrev pub keys {ℓ} : {V : Type ℓ} → Dict V → List String
keys [] = []
keys ((k, v) ∷ m) = k ∷ keys m

abbrev pub map_values {ℓ κ} : {V : Type ℓ} {W : Type κ} → (V → W) → Dict V → Dict W
map_values f [] = []
map_values f ((k, v) ∷ m) = (k, f v) ∷ map_values f m

abbrev pub map_some {ℓ κ} : {V : Type ℓ} {W : Type κ} → (V → W) → Option V → Option W
map_some f none = none
map_some f (some v) = some (f v)

pub lookup-map_values {ℓ κ} :
    {V : Type ℓ} {W : Type κ} (f : V → W) (k : String) (m : Dict V)
    → lookup k (map_values f m) ≡ map_some f (lookup k m)
unfolding lookup
lookup-map_values f k [] = refl
lookup-map_values f k ((j, v) ∷ m) = elim (Bool-cases (str_eq j k)) [
  | inl t ↦ rw (t, lookup) refl
  | inr t ↦ rw (t, lookup) (lookup-map_values f k m)
]

pub Distinct-insert {ℓ} :
    {V : Type ℓ} (k : String) (v : V) (m : Dict V) → Distinct m → Distinct (insert k v m)
unfolding insert lookup
Distinct-insert k v [] d = (refl, tt)
Distinct-insert k v ((j, w) ∷ m) d = elim (Bool-cases (str_eq j k)) [
  | inl t ↦ rw (t, insert) (rw (← (eq_iff j k).0 t) d.0, d.1)
  | inr t ↦
      rw (t, insert)
        (
          rw (lookup-insert) (ground (arith, eq_iff j k, eq_iff k j, d.0)),
          Distinct-insert k v m d.1,
        )
]

pub Distinct-map_values {ℓ κ} :
    {V : Type ℓ} {W : Type κ} (f : V → W) (m : Dict V) → Distinct m → Distinct (map_values f m)
Distinct-map_values f [] d = tt
Distinct-map_values f ((k, v) ∷ m) d =
    (lookup-map_values f k m ∙ ap (map_some f) d.0, Distinct-map_values f m d.1)

-- The entries of a map put into another one.
abbrev pub merge {ℓ} : {V : Type ℓ} → Dict V → Dict V → Dict V
merge [] old = old
merge ((k, v) ∷ m) old = merge m (insert k v old)

abbrev pub first_of {ℓ} : {V : Type ℓ} → Option V → Option V → Option V
first_of none o = o
first_of (some v) o = some v

pub lookup-merge {ℓ} :
    {V : Type ℓ} (j : String) (m old : Dict V)
    → Distinct m
    → lookup j (merge m old) ≡ first_of (lookup j m) (lookup j old)
unfolding lookup
lookup-merge {V = V} j [] old d = refl
lookup-merge {V = V} j ((k, v) ∷ m) old d = elim (Bool-cases (str_eq k j)) [
  | inl t ↦
      let gone : lookup j m ≡ none =
        subst (λ (i : String). lookup i m ≡ none) ((eq_iff k j).0 t) d.0 in
      let here : lookup j (insert k v old) ≡ some v = lookup-insert k j v old ∙ rw t refl in
      rw (t, lookup)
        (lookup-merge j m (insert k v old) d.1
          ∙ ap (λ (o : Option V). first_of o (lookup j (insert k v old))) gone
          ∙ here)
  | inr t ↦
      let other : lookup j (insert k v old) ≡ lookup j old = lookup-insert k j v old ∙ rw t refl in
      rw (t, lookup) (lookup-merge j m (insert k v old) d.1 ∙ ap (first_of (lookup j m)) other)
]
