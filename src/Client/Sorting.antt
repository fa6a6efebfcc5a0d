-- ===== src/Client/Sorting.antt =====
-- `sort.Strings` puts the elements in order.
use pnyxdb.Base.{
  suc, ◌≡◌, refl, ap, ◌∙◌, Bool, true, false, ◌||◌, List, [], ◌∷◌, Bytes, length, bytes_equal,
  Bool-cases, inl, inr, arith, All, All-map,
}
use pnyxdb.Encoding.Set.Entries.{member}
use pnyxdb.Client.{bytes_leb, insert_sorted, sort}

-- Each element is at most the ones behind it.
abbrev pub InOrder : List Bytes → Type 0
InOrder [] = Unit
InOrder (x ∷ xs) = All (λ y. bytes_leb x y ≡ true) xs × InOrder xs

bytes_leb_total : (xs ys : Bytes) → bytes_leb xs ys ≡ false → bytes_leb ys xs ≡ true
unfolding bytes_leb
bytes_leb_total [] ys h = cc
bytes_leb_total (x ∷ xs) [] h = refl
bytes_leb_total (x ∷ xs) (y ∷ ys) h = ground (arith, bytes_leb_total xs ys, h)

bytes_leb_trans :
    (xs ys zs : Bytes) → bytes_leb xs ys ≡ true → bytes_leb ys zs ≡ true → bytes_leb xs zs ≡ true
unfolding bytes_leb
bytes_leb_trans [] ys zs h k = refl
bytes_leb_trans (x ∷ xs) [] zs h k = cc
bytes_leb_trans (x ∷ xs) (y ∷ ys) [] h k = cc
bytes_leb_trans (x ∷ xs) (y ∷ ys) (z ∷ zs) h k = ground (arith, bytes_leb_trans xs ys zs, h, k)

insert-InOrder : (x : Bytes) (ys : List Bytes) → InOrder ys → InOrder (insert_sorted x ys)
unfolding insert_sorted
insert-InOrder x [] h = (tt, tt)
insert-InOrder x (y ∷ ys) h = elim (Bool-cases (bytes_leb x y)) [
  | inl t ↦ rw t ((t, All-map ys (λ z. bytes_leb_trans x y z t) h.0), h)
  | inr t ↦ rw t (insert-All x y ys (bytes_leb_total x y t) h.0, insert-InOrder x ys h.1)
]
  where
    insert-All :
        (x y : Bytes) (ys : List Bytes)
        → bytes_leb y x ≡ true
        → All (λ z. bytes_leb y z ≡ true) ys
        → All (λ z. bytes_leb y z ≡ true) (insert_sorted x ys)
    insert-All x y [] h a = (h, tt)
    insert-All x y (z ∷ zs) h a = elim (Bool-cases (bytes_leb x z)) [
      | inl t ↦ rw t (h, a)
      | inr t ↦ rw t (a.0, insert-All x y zs h a.1)
    ]

pub sort-InOrder : (xs : List Bytes) → InOrder (sort xs)
unfolding sort
sort-InOrder [] = tt
sort-InOrder (x ∷ xs) = insert-InOrder x (sort xs) (sort-InOrder xs)

member-insert_sorted :
    (e x : Bytes) (ys : List Bytes)
    → member e (insert_sorted x ys) ≡ (bytes_equal x e || member e ys)
unfolding insert_sorted member
member-insert_sorted e x [] = refl
member-insert_sorted e x (y ∷ ys) = elim (Bool-cases (bytes_leb x y)) [
  | inl t ↦ rw t
  | inr t ↦ rw t (rw (member-insert_sorted e x ys) (ground arith))
]

pub member-sort : (e : Bytes) (xs : List Bytes) → member e (sort xs) ≡ member e xs
unfolding sort member
member-sort e [] = refl
member-sort e (x ∷ xs) =
    member-insert_sorted e x (sort xs) ∙ ap (λ (b : Bool). bytes_equal x e || b) (member-sort e xs)

length-insert_sorted : (x : Bytes) (ys : List Bytes) → length (insert_sorted x ys) ≡ suc (length ys)
unfolding insert_sorted
length-insert_sorted x [] = refl
length-insert_sorted x (y ∷ ys) = elim (Bool-cases (bytes_leb x y)) [
  | inl t ↦ rw t
  | inr t ↦ rw t (ap suc (length-insert_sorted x ys))
]

pub length-sort : (xs : List Bytes) → length (sort xs) ≡ length xs
unfolding sort
length-sort [] = refl
length-sort (x ∷ xs) = length-insert_sorted x (sort xs) ∙ ap suc (length-sort xs)
