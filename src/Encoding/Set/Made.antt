-- ===== src/Encoding/Set/Made.antt =====
-- A set that `Add` and `Remove` built up from the empty one, element by element.
use pnyxdb.Base.{
  ◌≡◌, ◌<◌, ◌^◌, refl, sym, ap, ◌∙◌, subst, Bool, true, List, [], ◌∷◌, ◌++◌, Bytes, length,
  Bool-cases, inl, inr,
}
use pnyxdb.Encoding.Set.{Set, ok, new_set, add, remove, marshal_binary, unmarshal_binary}
use pnyxdb.Encoding.Set.Entries.{encode_all, offsets, of_list, member, distinct}
use pnyxdb.Encoding.Set.Distinct.{distinct-append, distinct-without}
use pnyxdb.Encoding.Set.Refinement.{add_spec, add-of_list, remove_spec, remove-of_list}
use pnyxdb.Encoding.Set.RoundTrip.{unmarshal_binary-marshal_binary}

-- What calls of `Add` and `Remove` that return no error make of a new set.
pub data Made : Set → Type 0 where
  created : Made new_set
  added : {s t : Set} (e : Bytes) (changed : Bool) → Made s → add e s ≡ ok (changed, t) → Made t
  removed :
      {s t : Set} (e : Bytes) (changed : Bool) → Made s → remove e s ≡ ok (changed, t) → Made t

-- Such a set is that of a list of distinct elements.
record Listed (s : Set) : Type 0 where
  elements : List Bytes
  same : s ≡ of_list elements
  no_repeats : distinct elements ≡ true

subst_ok : {A : Type 0} (P : A → Type 0) {x y : A} → ok x ≡ ok y → P x → P y
subst_ok P {x} {y} h p = subst P (cc h) p

Listed-of_list : (es : List Bytes) → distinct es ≡ true → Listed (of_list es)
Listed-of_list es d = record { elements = es; same = refl; no_repeats = d }

abbrev Second : Bool × Set → Type 0
Second r = Listed r.1

add-Listed :
    (e : Bytes) (es : List Bytes) (r : Bool × Set)
    → distinct es ≡ true
    → add_spec e es ≡ ok r
    → Second r
add-Listed [] es r d h = cc h
add-Listed (b ∷ bs) es r d h = elim (Bool-cases (member (b ∷ bs) es)) [
  | inl t ↦ subst_ok Second (rw t at h) (Listed-of_list es d)
  | inr t ↦
      subst_ok Second (rw t at h)
        (Listed-of_list (es ++ ((b ∷ bs) ∷ [])) (distinct-append (b ∷ bs) es d t))
]

remove-Listed :
    (e : Bytes) (es : List Bytes) (r : Bool × Set)
    → distinct es ≡ true
    → remove_spec e es ≡ ok r
    → Second r
remove-Listed [] es r d h = cc h
remove-Listed (b ∷ bs) es r d h = elim (Bool-cases (member (b ∷ bs) es)) [
  | inl t ↦ subst_ok Second (rw t at h) (Listed-of_list _ (distinct-without (b ∷ bs) es d))
  | inr t ↦ subst_ok Second (rw t at h) (Listed-of_list es d)
]

Made-Listed : {s : Set} → Made s → Listed s
unfolding new_set encode_all offsets distinct
Made-Listed created = Listed-of_list [] refl
Made-Listed (added {s} {t} e changed made h) =
    let old = Made-Listed made in
    add-Listed e old.elements (changed, t) old.no_repeats
      (sym (add-of_list e old.elements) ∙ ap (add e) (sym old.same) ∙ h)
Made-Listed (removed {s} {t} e changed made h) =
    let old = Made-Listed made in
    remove-Listed e old.elements (changed, t) old.no_repeats
      (sym (remove-of_list e old.elements old.no_repeats) ∙ ap (remove e) (sym old.same) ∙ h)

-- A set that was made from a new one by calls of `Add` and `Remove` without an error, in any order,
-- and whose binary form is shorter than 2^63 bytes: a fresh parse of that binary form gives the set,
-- its elements and the offsets that the calls kept up step by step.
pub unmarshal_binary-Made :
    (s : Set)
    → Made s
    → length (marshal_binary s) < 2 ^ 63
    → unmarshal_binary (marshal_binary s) ≡ ok s
unfolding marshal_binary
unmarshal_binary-Made s made small =
    let list = Made-Listed made in
    let parsed =
      unmarshal_binary-marshal_binary list.elements list.no_repeats
        (subst (λ (x : Set). length (Set.raw x) < 2 ^ 63) list.same small) in
    subst (λ (x : Set). unmarshal_binary (marshal_binary x) ≡ ok x) (sym list.same) parsed
