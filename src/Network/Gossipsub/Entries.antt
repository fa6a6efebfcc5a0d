-- ===== src/Network/Gossipsub/Entries.antt =====
-- Lists of subscribers of which one entry changes, and the pending messages that `Accept` splits.
use pnyxdb.Base.{
  ℕ, zero, suc, ◌≡◌, sym, ap, ◌∙◌, Bool, true, Option, some, List, [], ◌∷◌, get_elem?, >>=-eq-some,
  subst_some, some-injective, Bool-cases, inl, inr, ◌⊎◌, Any, at_head, in_tail, Any-cons, Among,
}
use pnyxdb.Network.Gossipsub.{at, split, remove_at}

-- A change of one entry that keeps a property of each entry keeps that some entry has it.
pub at-Any :
    {A : Type 0} (P : A → Type 0) (f : A → Option A) (i : ℕ) (xs ys : List A)
    → ((x y : A) → f x ≡ some y → P x → P y)
    → at i f xs ≡ some ys
    → Any P xs
    → Any P ys
unfolding at
at-Any P f i [] ys step h a = elim a [ ]
at-Any P f zero (x ∷ xs) ys step h a =
    let (y, e, k) = >>=-eq-some (f x) _ h in
    subst_some (Any P) k (elim (Any-cons a) [ inl p ↦ at_head (step x y e p) | inr b ↦ in_tail b ])
at-Any P f (suc i) (x ∷ xs) ys step h a =
    let (zs, e, k) = >>=-eq-some (at i f xs) _ h in
    subst_some (Any P) k
      (elim (Any-cons a) [ inl p ↦ at_head p | inr b ↦ in_tail (at-Any P f i xs zs step e b) ])

-- The entry that changes, where it is known.
pub at-new :
    {A : Type 0} (P : A → Type 0) (f : A → Option A) (i : ℕ) (s : A) (xs ys : List A)
    → get_elem? xs i ≡ some s
    → ((y : A) → f s ≡ some y → P y)
    → at i f xs ≡ some ys
    → Any P ys
unfolding at
at-new P f i s [] ys here new h = cc
at-new P f zero s (x ∷ xs) ys here new h =
    let (y, e, k) = >>=-eq-some (f x) _ h in
    subst_some (Any P) k (at_head (new y (sym (ap f (some-injective x s here)) ∙ e)))
at-new P f (suc i) s (x ∷ xs) ys here new h =
    let (zs, e, k) = >>=-eq-some (at i f xs) _ h in
    subst_some (Any P) k (in_tail (at-new P f i s xs zs here new e))

-- `Accept` takes a pending message, or leaves it pending.
pub split-Among :
    {M : Type 0} (acceptor : M → Bool) (m : M) (ms : List M)
    → Among m ms
    → ((acceptor m ≡ true) × Among m (split acceptor ms).0) ⊎ Among m (split acceptor ms).1
unfolding split
split-Among acceptor m [] a = elim a [ ]
split-Among acceptor m (x ∷ ms) a = elim (Bool-cases (acceptor x)) [
  | inl t ↦ rw t (elim (Any-cons a) [
    | inl e ↦ inl (sym (ap acceptor e) ∙ t, at_head e)
    | inr b ↦ elim (split-Among acceptor m ms b) [ inl (k, c) ↦ inl (k, in_tail c) | inr c ↦ inr c ]
  ])
  | inr t ↦ rw t (elim (Any-cons a) [
    | inl e ↦ inr (at_head e)
    | inr b ↦ elim (split-Among acceptor m ms b) [ inl k ↦ inl k | inr c ↦ inr (in_tail c) ]
  ])
]

pub remove_at-Any :
    {A : Type 0} (P : A → Type 0) (i : ℕ) (xs : List A) (r : A × List A)
    → remove_at i xs ≡ some r
    → Any P xs
    → P r.0 ⊎ Any P r.1
unfolding remove_at
remove_at-Any P i [] r h a = cc
remove_at-Any P zero (x ∷ xs) r h a =
    subst_some (λ (r : _ × List _). P r.0 ⊎ Any P r.1) h (Any-cons a)
remove_at-Any P (suc i) (x ∷ xs) r h a =
    let (q, e, k) = >>=-eq-some (remove_at i xs) _ h in
    subst_some (λ (r : _ × List _). P r.0 ⊎ Any P r.1) k
      (elim (Any-cons a) [
        | inl p ↦ inr (at_head p)
        | inr b ↦ elim (remove_at-Any P i xs q e b) [ inl p ↦ inl p | inr c ↦ inr (in_tail c) ]
      ])
