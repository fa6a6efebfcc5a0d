-- ===== src/Encoding/Set/Entries.antt =====
-- The set that a list of distinct elements stands for, and the map of offsets of such a set.
use pnyxdb.Base.{
  ℕ, ◌+◌, ◌≡◌, refl, ap, ◌∙◌, Bool, true, false, ◌||◌, none, some, List, [], ◌∷◌, ◌++◌, Bytes,
  length, bytes_equal, length-append, append-nil, append_assoc, add-zero, if◌then◌else◌, Bool-cases,
  inl, inr, arith,
}
use pnyxdb.Encoding.Uint64.{uint64_to_bytes, length-uint64_to_bytes}
use pnyxdb.Encoding.Set.{Elements, Set, find, write}

-- One element in the binary form: its length, and its bytes.
abbrev pub encode : Bytes → Bytes
encode e = uint64_to_bytes (length e) ++ e

unfoldable pub encode_all : List Bytes → Bytes
encode_all [] = []
encode_all (e ∷ es) = encode e ++ encode_all es

-- The offsets of the elements, the first at `o`.
unfoldable pub offsets : ℕ → List Bytes → Elements
offsets o [] = []
offsets o (e ∷ es) = (e, o) ∷ offsets (o + (8 + length e)) es

unfoldable pub member : Bytes → List Bytes → Bool
member e [] = false
member e (x ∷ xs) = bytes_equal x e || member e xs

unfoldable pub without : Bytes → List Bytes → List Bytes
without e [] = []
without e (x ∷ xs) = if bytes_equal x e then without e xs else x ∷ without e xs

-- No element twice.
unfoldable pub distinct : List Bytes → Bool
distinct [] = true
distinct (x ∷ xs) = if member x xs then false else distinct xs

-- The set whose elements were added in this order.
abbrev pub of_list : List Bytes → Set
of_list es = record { elements = offsets 0 es; raw = encode_all es }

pub length-encode : (e : Bytes) → length (encode e) ≡ 8 + length e
length-encode e =
    omega (arith, length-append (uint64_to_bytes (length e)) e, length-uint64_to_bytes (length e))

pub encode_all-append :
    (es : List Bytes) (e : Bytes) → encode_all (es ++ (e ∷ [])) ≡ encode_all es ++ encode e
unfolding encode_all
encode_all-append [] e = simp append-nil
encode_all-append (x ∷ es) e = simp (encode_all-append es e, append_assoc)

pub encode_all-cons :
    (e : Bytes) (es : List Bytes) → encode_all (e ∷ es) ≡ encode e ++ encode_all es
unfolding encode_all
encode_all-cons e es = refl

pub length-encode_all :
    (x : Bytes) (es : List Bytes)
    → length (encode_all (x ∷ es)) ≡ (8 + length x) + length (encode_all es)
unfolding encode_all
length-encode_all x es =
    length-append (encode x) (encode_all es)
    ∙ ap (λ n. n + length (encode_all es)) (length-encode x)

-- An element that is not there is written behind the others, at the length of the binary form.
pub write-offsets :
    (e : Bytes) (es : List Bytes) (o n : ℕ)
    → n ≡ o + length (encode_all es)
    → member e es ≡ false
    → write e n (offsets o es) ≡ offsets o (es ++ (e ∷ []))
unfolding write offsets member
write-offsets e [] o n p h = unfold encode_all in ap (λ k. (e, k) ∷ []) (p ∙ add-zero o)
write-offsets e (x ∷ es) o n p h =
    let at_end : n ≡ (o + (8 + length x)) + length (encode_all es) =
      omega (arith, length-encode_all x es) in
    ground (arith, write-offsets e es (o + (8 + length x)) n at_end)

pub find-offsets-none :
    (e : Bytes) (es : List Bytes) (o : ℕ) → member e es ≡ false → find e (offsets o es) ≡ none
unfolding find offsets member
find-offsets-none e [] o h = refl
find-offsets-none e (x ∷ es) o h = ground (arith, find-offsets-none e es (o + (8 + length x)))

pub find-offsets-some :
    (e : Bytes) (es : List Bytes) (o : ℕ)
    → member e es ≡ true
    → (p : ℕ) × (find e (offsets o es) ≡ some p)
unfolding find offsets member
find-offsets-some e [] o h = cc
find-offsets-some e (x ∷ es) o h = elim (Bool-cases (bytes_equal x e)) [
  | inl t ↦ (o, rw t)
  | inr t ↦
      let (p, k) = find-offsets-some e es (o + (8 + length x)) (ground (arith, h, t)) in (p, rw t k)
]
