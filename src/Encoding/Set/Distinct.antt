-- ===== src/Encoding/Set/Distinct.antt =====
-- Lists of distinct elements: what appending and taking out an element does to them.
use pnyxdb.Base.{
  ◌≡◌, refl, ap, true, false, not, ◌||◌, ◌&&◌, List, [], ◌∷◌, ◌++◌, Bytes, bytes_equal,
  bytes_equal_sound, bytes_equal_sym, Bool-cases, inl, inr, arith,
}
use pnyxdb.Encoding.Set.Entries.{member, without, distinct}

pub member-append :
    (x : Bytes) (es : List Bytes) (e : Bytes)
    → member x (es ++ (e ∷ [])) ≡ (member x es || bytes_equal e x)
unfolding member
member-append x [] e = ground arith
member-append x (y ∷ es) e = ground (arith, member-append x es e)

pub member-without :
    (x e : Bytes) (es : List Bytes)
    → member x (without e es) ≡ (not (bytes_equal e x) && member x es)
unfolding member without
member-without x e [] = ground arith
member-without x e (y ∷ es) = elim (Bool-cases (bytes_equal y e)) [
  | inl t ↦
      let same = ap (λ (z : Bytes). bytes_equal z x) (bytes_equal_sound y e t) in
      rw t (ground (arith, member-without x e es, same))
  | inr t ↦ elim (Bool-cases (bytes_equal e x)) [
    | inl s ↦
        let same = ap (λ (z : Bytes). bytes_equal y z) (bytes_equal_sound e x s) in
        rw t (ground (arith, t, s, member-without x e es, same))
    | inr s ↦ rw (t, s) (ground (arith, s, member-without x e es))
  ]
]

pub distinct-without :
    (e : Bytes) (es : List Bytes) → distinct es ≡ true → distinct (without e es) ≡ true
unfolding distinct without
distinct-without e [] d = refl
distinct-without e (x ∷ es) d = ground (arith, distinct-without e es, member-without x e es)

pub distinct-append :
    (e : Bytes) (es : List Bytes)
    → distinct es ≡ true
    → member e es ≡ false
    → distinct (es ++ (e ∷ [])) ≡ true
unfolding distinct member
distinct-append e [] d h = refl
distinct-append e (x ∷ es) d h =
    ground (arith, distinct-append e es, member-append x es e, bytes_equal_sym x e)
