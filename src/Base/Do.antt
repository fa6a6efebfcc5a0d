-- ===== src/Base/Do.antt =====
-- Steps that may yield nothing, in `do` blocks: a computation on fuel, a lookup that may miss.
use mathlib.Core.Path.{◌≡◌, refl, subst}
use mathlib.Core.Logic.{◌⊎◌, inl, inr}
use mathlib.Core.Bool.{Bool, true, false}
use mathlib.Core.Option.{Option, none, some, some-injective}
use pnyxdb.Base.Tests.{if◌then◌else◌}

infixl 5 ◌>>=◌
abbrev pub ◌>>=◌ {ℓ κ} : {A : Type ℓ} {B : Type κ} → Option A → (A → Option B) → Option B
none >>= f = none
some a >>= f = f a

-- A `do` block that yields a value had a value at its first step.
pub >>=-eq-some {ℓ κ} :
    {A : Type ℓ} {B : Type κ} (m : Option A) (f : A → Option B) {b : B}
    → (m >>= f) ≡ some b
    → (a : A) × (m ≡ some a) × (f a ≡ some b)
>>=-eq-some none f h = cc
>>=-eq-some (some a) f h = (a, refl, h)

-- Inversion of a branch.
pub if-cases {ℓ} :
    {A : Type ℓ} (b : Bool) {x y z : A}
    → (if b then x else y) ≡ z
    → ((b ≡ true) × (x ≡ z)) ⊎ ((b ≡ false) × (y ≡ z))
if-cases true h = inl (refl, h)
if-cases false h = inr (refl, h)

-- What holds of a value holds of the one that an equation of results puts in its place.
pub subst_some {ℓ κ} : {A : Type ℓ} (P : A → Type κ) {x y : A} → some x ≡ some y → P x → P y
subst_some P {x} {y} h = subst P (some-injective x y h)

-- The step yields a value.
abbrev pub Returns {ℓ} : {A : Type ℓ} → Option A → Type ℓ
Returns {A = A} o = (a : A) × (o ≡ some a)

pub Returns-some {ℓ} : {A : Type ℓ} (a : A) → Returns (some a)
Returns-some a = (a, refl)

pub Returns->>= {ℓ κ} :
    {A : Type ℓ} {B : Type κ} (m : Option A) (f : A → Option B)
    → Returns m
    → ((a : A) → m ≡ some a → Returns (f a))
    → Returns (m >>= f)
Returns->>= none f h k = cc (h.1)
Returns->>= (some a) f h k = k a refl

pub Returns-if {ℓ} :
    {A : Type ℓ} (b : Bool) {x y : Option A} → Returns x → Returns y → Returns (if b then x else y)
Returns-if true h k = h
Returns-if false h k = k
