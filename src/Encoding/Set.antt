-- ===== src/Encoding/Set.antt =====
-- consensus/encoding/set.go: a set of byte strings with its binary form. The proofs stand in the
-- children.
pub mod Entries
pub mod Distinct
pub mod Refinement
pub mod RoundTrip
pub mod Made
use pnyxdb.Base.{
  ℕ, zero, suc, ◌+◌, ◌-◌, ◌^◌, Bool, true, false, Option, none, some, List, [], ◌∷◌, ◌++◌, Bytes,
  length, take, drop, bytes_equal, ltb, leb, if◌then◌else◌,
}
use pnyxdb.Encoding.Uint64.{uint64_to_bytes, bytes_to_uint64}

-- `Elements`: a Go map from byte strings to offsets.
abbrev pub Elements : Type 0
Elements = List (Bytes × ℕ)

unfoldable pub find : Bytes → Elements → Option ℕ
unfolding bytes_equal
find e [] = none
find e ((x, n) ∷ m) = if bytes_equal x e then some n else find e m

-- `s.Elements[e] = n`
unfoldable pub write : Bytes → ℕ → Elements → Elements
unfolding bytes_equal
write e n [] = (e, n) ∷ []
write e n ((x, m) ∷ rest) = if bytes_equal x e then (e, n) ∷ rest else (x, m) ∷ write e n rest

unfoldable pub remove_key : Bytes → Elements → Elements
unfolding bytes_equal
remove_key e [] = []
remove_key e ((x, n) ∷ m) =
    let rest = remove_key e m in if bytes_equal x e then rest else (x, n) ∷ rest

pub record Set : Type 0 where
  pub elements : Elements
  pub raw : Bytes

-- `fault` is a slice out of bounds, at which a Go program ends.
pub data Outcome {ℓ} (A : Type ℓ) : Type ℓ where
  ok : A → Outcome A
  err_empty_element : Outcome A
  err_unexpected_eof : Outcome A
  fault : Outcome A

-- `NewSet`
unfoldable pub new_set : Set
new_set = record { elements = []; raw = [] }

abbrev pub is_some {ℓ} : {A : Type ℓ} → Option A → Bool
is_some none = false
is_some (some a) = true

-- `Contains`
unfoldable pub contains : Bytes → Set → Bool
unfolding find
contains [] s = false
contains (b ∷ bs) s = is_some (find (b ∷ bs) s.elements)

-- `Add`: whether the element was inserted, and the set.
add_new : Bytes → Set → Option ℕ → Outcome (Bool × Set)
unfolding write uint64_to_bytes
add_new e s (some n) = ok (false, s)
add_new e s none = ok (
  true,
  record {
    elements = write e (length s.raw) s.elements;
    raw = s.raw ++ (uint64_to_bytes (length e) ++ e);
  },
)

unfoldable pub add : Bytes → Set → Outcome (Bool × Set)
unfolding add_new find
add [] s = err_empty_element
add (b ∷ bs) s = add_new (b ∷ bs) s (find (b ∷ bs) s.elements)

-- The loop of `Remove`: offsets behind `p` move by `l`.
shift : ℕ → ℕ → Elements → Elements
shift p l [] = []
shift p l ((x, n) ∷ m) = (x, if ltb p n then n - l else n) ∷ shift p l m

-- `Remove`: whether the element was there, and the set.
remove_at : Bytes → Set → Option ℕ → Outcome (Bool × Set)
unfolding shift remove_key
remove_at e s none = ok (false, s)
remove_at e s (some p) =
    let l = length e + 8 in
    ok (
      true,
      record {
        elements = shift p l (remove_key e s.elements);
        raw = take p s.raw ++ drop (l + p) s.raw;
      },
    )

unfoldable pub remove : Bytes → Set → Outcome (Bool × Set)
unfolding remove_at find
remove [] s = err_empty_element
remove (b ∷ bs) s = remove_at (b ∷ bs) s (find (b ∷ bs) s.elements)

-- `MarshalBinary`
unfoldable pub marshal_binary : Set → Bytes
marshal_binary s = s.raw

-- The loop of `UnmarshalBinary` at the offset `i`, over the bytes `rest = data[i:]`. `int(n)` is
-- negative from 2^63 on, and `i+8+length` wraps to a negative number there: both pass the test
-- against `l`, and the slice that follows is out of bounds.
unfoldable pub parse : ℕ → ℕ → Bytes → Elements → Outcome Elements
unfolding write bytes_to_uint64
parse fuel i [] m = ok m
parse zero i (b ∷ bs) m = fault
parse (suc fuel) i (b ∷ bs) m =
    let rest = b ∷ bs in
    let n = bytes_to_uint64 rest in
    let next = parse fuel (i + (8 + n)) (drop (8 + n) rest) (write (take n (drop 8 rest)) i m) in
    if ltb (length rest) 8
    then err_unexpected_eof
    else if leb (2 ^ 63) (i + 8 + n)
    then fault
    else if ltb (length rest) (8 + n)
    then err_unexpected_eof
    else next

with_raw : Bytes → Outcome Elements → Outcome Set
with_raw data_bytes (ok m) = ok (record { elements = m; raw = data_bytes })
with_raw data_bytes err_empty_element = err_empty_element
with_raw data_bytes err_unexpected_eof = err_unexpected_eof
with_raw data_bytes fault = fault

-- `UnmarshalBinary`: a round takes eight bytes at least, so the length is enough fuel.
unfoldable pub unmarshal_binary : Bytes → Outcome Set
unfolding parse with_raw
unmarshal_binary bytes = with_raw bytes (parse (length bytes) 0 bytes [])
