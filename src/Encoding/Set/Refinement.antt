-- ===== src/Encoding/Set/Refinement.antt =====
-- `Contains`, `Add` and `Remove` on the set of a list of distinct elements.
use pnyxdb.Base.{
  ℕ, ◌+◌, ◌<◌, ◌≡◌, refl, sym, ap, ◌∙◌, subst, Bool, true, false, some, List, [], ◌∷◌, ◌++◌, Bytes,
  length, take, drop, bytes_equal, bytes_equal_sound, take-append_add, drop-append_add, drop-append,
  zero-add, add-zero, append_assoc, ltb, if◌then◌else◌, Bool-cases, inl, inr, arith,
}
use pnyxdb.Encoding.Set.{
  Elements, Set, Outcome, ok, err_empty_element, find, remove_key, shift, contains, add_new, add,
  remove_at, remove,
}
use pnyxdb.Encoding.Set.Entries.{
  encode, encode_all, offsets, member, without, distinct, of_list, length-encode, encode_all-append,
  write-offsets, find-offsets-none, find-offsets-some,
}

-- Offsets behind `p` move down.
shift-offsets :
    (p l q : ℕ) (es : List Bytes) → p < q + l → shift p l (offsets (q + l) es) ≡ offsets q es
unfolding shift offsets
shift-offsets p l q [] h = refl
shift-offsets p l q (e ∷ es) h =
    let far : q + l + (8 + length e) ≡ (q + (8 + length e)) + l = omega arith in
    let ih = shift-offsets p l (q + (8 + length e)) es (omega arith) in rw far (ground (arith, ih))

remove_key-offsets :
    (e : Bytes) (es : List Bytes) (o : ℕ)
    → member e es ≡ false
    → remove_key e (offsets o es) ≡ offsets o es
unfolding remove_key offsets member
remove_key-offsets e [] o h = refl
remove_key-offsets e (x ∷ es) o h = ground (arith, remove_key-offsets e es (o + (8 + length x)))

pub without_lem : (e : Bytes) (es : List Bytes) → member e es ≡ false → without e es ≡ es
unfolding without member
without_lem e [] h = refl
without_lem e (x ∷ es) h = ground (arith, without_lem e es)

-- Where an element stands, and what is left when it is cut out there.
record Located (e : Bytes) (es : List Bytes) : Type 0 where
  distance : ℕ
  found : (o : ℕ) → find e (offsets o es) ≡ some (o + distance)
  cut :
      take distance (encode_all es) ++ drop ((length e + 8) + distance) (encode_all es)
      ≡ encode_all (without e es)
  moved :
      (o : ℕ)
      → shift (o + distance) (length e + 8) (remove_key e (offsets o es)) ≡ offsets o (without e es)

Located-here :
    (e x : Bytes) (es : List Bytes)
    → bytes_equal x e ≡ true
    → member e es ≡ false
    → Located e (x ∷ es)
unfolding find offsets encode_all without remove_key
Located-here e x es t gone =
    let size : length x ≡ length e = ap length (bytes_equal_sound x e t) in
    let width : length e + 8 + 0 ≡ length (encode x) = omega (arith, length-encode x, size) in
    record {
      distance = 0;
      found = λ o. rw (t, add-zero);
      cut =
          rw (t, without_lem e es gone)
            (ap (λ (n : ℕ). drop n (encode x ++ encode_all es)) width
              ∙ drop-append (encode x) (encode_all es));
      moved = λ o.
          let place : o + (8 + length x) ≡ o + (length e + 8) = omega (arith, size) in
          rw (t, remove_key-offsets e es (o + (8 + length x)) gone, without_lem e es gone)
            (ap (λ (q : ℕ). shift (o + 0) (length e + 8) (offsets q es)) place
              ∙ shift-offsets (o + 0) (length e + 8) o es (omega arith));
    }

shift_keep :
    (p l : ℕ) (x : Bytes) (n : ℕ) (m : Elements)
    → ltb p n ≡ false
    → shift p l ((x, n) ∷ m) ≡ (x, n) ∷ shift p l m
unfolding shift
shift_keep p l x n m h = rw h

Located-later :
    (e x : Bytes) (es : List Bytes) → bytes_equal x e ≡ false → Located e es → Located e (x ∷ es)
unfolding find offsets encode_all without remove_key
Located-later e x es t rest =
    let later = encode_all es in
    let d = rest.distance in
    let l = length e + 8 in
    let first : (8 + length x) + d ≡ length (encode x) + d = omega (arith, length-encode x) in
    let last : l + (length (encode x) + d) ≡ length (encode x) + (l + d) = omega arith in
    record {
      distance = (8 + length x) + d;
      found = λ o. rw t (rest.found (o + (8 + length x)) ∙ ap some (omega arith));
      cut =
          rw
            (
              t,
              first,
              last,
              take-append_add (encode x) later d,
              drop-append_add (encode x) later (l + d),
            )
            (append_assoc (encode x) (take d later) (drop (l + d) later)
              ∙ ap (λ (bs : Bytes). encode x ++ bs) rest.cut);
      moved = λ o.
          let place : (o + (8 + length x)) + d ≡ o + ((8 + length x) + d) = omega arith in
          let others = remove_key e (offsets (o + (8 + length x)) es) in
          rw t (
            shift_keep (o + ((8 + length x) + d)) l x o others (ground arith)
            ∙ ap (λ (m : Elements). (x, o) ∷ m)
                (ap (λ (q : ℕ). shift q l others) (sym place) ∙ rest.moved (o + (8 + length x))));
    }

located : (e : Bytes) (es : List Bytes) → member e es ≡ true → distinct es ≡ true → Located e es
unfolding member distinct
located e [] h d = cc
located e (x ∷ es) h d = elim (Bool-cases (bytes_equal x e)) [
  | inl t ↦
      Located-here e x es t
        (subst (λ (y : Bytes). member y es ≡ false) (bytes_equal_sound x e t) (ground (arith, d)))
  | inr t ↦ Located-later e x es t (located e es (ground (arith, h, t)) (ground (arith, d)))
]

abbrev pub contains_spec : Bytes → List Bytes → Bool
contains_spec [] es = false
contains_spec (b ∷ bs) es = member (b ∷ bs) es

-- The empty element is in no set; any other is in the set exactly if it is in the list.
pub contains-of_list : (e : Bytes) (es : List Bytes) → contains e (of_list es) ≡ contains_spec e es
unfolding contains
contains-of_list [] es = refl
contains-of_list (b ∷ bs) es = elim (Bool-cases (member (b ∷ bs) es)) [
  | inl t ↦ rw (t, (find-offsets-some (b ∷ bs) es 0 t).1)
  | inr t ↦ rw (t, find-offsets-none (b ∷ bs) es 0 t)
]

-- What `Add` is to do to the list.
abbrev pub add_spec : Bytes → List Bytes → Outcome (Bool × Set)
add_spec [] es = err_empty_element
add_spec (b ∷ bs) es =
    if member (b ∷ bs) es
    then ok (false, of_list es)
    else ok (true, of_list (es ++ ((b ∷ bs) ∷ [])))

-- `Add` refuses the empty element, leaves a set alone that has the element, and puts a new element
-- behind the others, in the map and in the binary form.
pub add-of_list : (e : Bytes) (es : List Bytes) → add e (of_list es) ≡ add_spec e es
unfolding add
add-of_list [] es = refl
add-of_list (b ∷ bs) es = elim (Bool-cases (member (b ∷ bs) es)) [
  | inl t ↦ rw (t, (find-offsets-some (b ∷ bs) es 0 t).1)
  | inr t ↦
      rw (t, find-offsets-none (b ∷ bs) es 0 t, add_new)
        (rw (
          write-offsets (b ∷ bs) es 0 (length (encode_all es)) (omega arith) t,
          encode_all-append es (b ∷ bs),
        ))
]

abbrev pub remove_spec : Bytes → List Bytes → Outcome (Bool × Set)
remove_spec [] es = err_empty_element
remove_spec (b ∷ bs) es =
    if member (b ∷ bs) es then ok (true, of_list (without (b ∷ bs) es)) else ok (false, of_list es)

-- On the set of a list of distinct elements, `Remove` refuses the empty element, leaves a set
-- alone that has not the element, and else cuts the element out of the binary form and moves the
-- offsets of those behind it.
pub remove-of_list :
    (e : Bytes) (es : List Bytes) → distinct es ≡ true → remove e (of_list es) ≡ remove_spec e es
unfolding remove
remove-of_list [] es d = refl
remove-of_list (b ∷ bs) es d = elim (Bool-cases (member (b ∷ bs) es)) [
  | inl t ↦
      let there = located (b ∷ bs) es t d in
      rw (t, there.found 0, remove_at) (rw (there.moved 0, zero-add, there.cut))
  | inr t ↦ rw (t, find-offsets-none (b ∷ bs) es 0 t)
]
