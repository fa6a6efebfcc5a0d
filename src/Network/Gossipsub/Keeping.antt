-- ===== src/Network/Gossipsub/Keeping.antt =====
-- Each goroutine of the network keeps every message in a place.
use pnyxdb.Base.{
  ℕ, suc, ◌≡◌, refl, sym, subst, Bool, true, false, Option, some, List, [], ◌∷◌, get_elem?,
  if◌then◌else◌, if-cases, >>=-eq-some, subst_some, Option-cases, inl, inr, Any, at_head, in_tail,
  Any-left, Any-right,
}
use pnyxdb.Network.Gossipsub.{
  Subscriber, Runner, waiting, stopped, panicked, visiting, keeping, Network, at, push, accept,
  remove_at, leave, visit, keep, on, is_reading,
}
use pnyxdb.Network.Gossipsub.Places.{
  Has, Holding, unseen, to_keep, Placed, in_run, in_pending, taken, taken_before, push-Has,
  push-Has_new,
}
use pnyxdb.Network.Gossipsub.Entries.{at-Any, at-new, split-Among, remove_at-Any}

pub on-Placed :
    {M : Type 0} (m : M) (i : ℕ) (f : Subscriber M → Option (Subscriber M)) (n n' : Network M)
    → ((s s' : Subscriber M) → f s ≡ some s' → Has m s → Has m s')
    → on i f n ≡ some n'
    → Placed m n
    → Placed m n'
unfolding on
on-Placed m i f n n' step h placed =
    let (subs, e, k) = >>=-eq-some (at i f n.subscribers) _ h in
    subst_some (Placed m) k (elim placed [
      | in_run r ↦ in_run r
      | in_pending a ↦ in_pending a
      | taken a ↦ taken (at-Any (Has m) f i n.subscribers subs step e a)
      | taken_before a ↦ taken_before a
    ])

pub accept-Placed :
    {M : Type 0} (m : M) (acceptor : M → Bool) (n n' : Network M)
    → accept acceptor n ≡ some n'
    → Placed m n
    → Placed m n'
unfolding accept
accept-Placed m acceptor n n' h placed = elim (if-cases (is_reading n.runner) h) [
  | inl (t, p) ↦ cc
  | inr (t, p) ↦ subst_some (Placed m) p (elim placed [
    | in_run r ↦ in_run r
    | in_pending a ↦ elim (split-Among acceptor m n.pending a) [
      | inl (k, b) ↦
          taken (Any-right n.subscribers _ (at_head (record { takes = k; place = inr (inl b) })))
      | inr b ↦ in_pending b
    ]
    | taken a ↦ taken (Any-left n.subscribers _ a)
    | taken_before a ↦ taken_before a
  ])
]

pub leave-Placed :
    {M : Type 0} (m : M) (i : ℕ) (n n' : Network M) → leave i n ≡ some n' → Placed m n → Placed m n'
unfolding leave
leave-Placed m i n n' h placed = elim (if-cases (is_reading n.runner) h) [
  | inl (t, p) ↦ cc
  | inr (t, p) ↦
      let (r, e, k) = >>=-eq-some (remove_at i n.subscribers) _ p in
      elim (if-cases (Subscriber.listening r.0) k) [
        | inl (t2, p2) ↦ cc
        | inr (t2, p2) ↦ subst_some (Placed m) p2 (elim placed [
          | in_run r ↦ in_run r
          | in_pending a ↦ in_pending a
          | taken a ↦ elim (remove_at-Any (Has m) i n.subscribers r e a) [
            | inl has ↦ taken_before (at_head has)
            | inr b ↦ taken b
          ]
          | taken_before a ↦ taken_before (in_tail a)
        ])
      ]
]

Holding-visiting :
    {M : Type 0} {m m' : M} {i : ℕ} {d : Bool}
    → Holding m (visiting m' i d)
    → (m' ≡ m) × (d ≡ false)
Holding-visiting (unseen i) = (refl, refl)

Holding-keeping : {M : Type 0} {m m' : M} → Holding m (keeping m') → m' ≡ m
Holding-keeping to_keep = refl

ends-Placed :
    {M : Type 0} (m m' : M) (i : ℕ) (d : Bool) (n : Network M)
    → n.runner ≡ visiting m' i d
    → Placed m n
    → Placed m (record n { runner = if d then waiting else keeping m' })
ends-Placed m m' i d n p (in_run r) =
    let (e, f) = Holding-visiting (subst (Holding m) p r) in
    in_run (rw f (subst (λ x. Holding m (keeping x)) (sym e) to_keep))
ends-Placed m m' i d n p (in_pending a) = in_pending a
ends-Placed m m' i d n p (taken a) = taken a
ends-Placed m m' i d n p (taken_before a) = taken_before a

-- A round of the loop that gives the message to no one.
skips-Placed :
    {M : Type 0} (m m' : M) (i : ℕ) (d : Bool) (n : Network M)
    → n.runner ≡ visiting m' i d
    → Placed m n
    → Placed m (record n { runner = visiting m' (suc i) d })
skips-Placed m m' i d n p (in_run r) =
    let (e, f) = Holding-visiting (subst (Holding m) p r) in
    in_run (rw f (subst (λ x. Holding m (visiting x (suc i) false)) (sym e) (unseen (suc i))))
skips-Placed m m' i d n p (in_pending a) = in_pending a
skips-Placed m m' i d n p (taken a) = taken a
skips-Placed m m' i d n p (taken_before a) = taken_before a

gives-Placed :
    {M : Type 0} (m m' : M) (i : ℕ) (d : Bool) (s : Subscriber M) (n : Network M)
    (subs : List (Subscriber M))
    → n.runner ≡ visiting m' i d
    → get_elem? n.subscribers i ≡ some s
    → s.acceptor m' ≡ true
    → at i (push n.buffer m') n.subscribers ≡ some subs
    → Placed m n
    → Placed m (record n { subscribers = subs; runner = visiting m' (suc i) true })
gives-Placed m m' i d s n subs p here takes pushed (in_run r) =
    let (e, f) = Holding-visiting (subst (Holding m) p r) in
    taken (
      subst (λ x. Any (Has x) subs) e
        (at-new (Has m') (push n.buffer m') i s n.subscribers subs here
          (λ y q. push-Has_new n.buffer m' s y q takes) pushed))
gives-Placed m m' i d s n subs p here takes pushed (in_pending a) = in_pending a
gives-Placed m m' i d s n subs p here takes pushed (taken a) = taken (
    at-Any (Has m) (push n.buffer m') i n.subscribers subs (λ x y. push-Has n.buffer m m' x y)
      pushed a)
gives-Placed m m' i d s n subs p here takes pushed (taken_before a) = taken_before a

pub visit-Placed :
    {M : Type 0} (m : M) (n n' : Network M) (r : Runner M)
    → n.runner ≡ r
    → visit n ≡ some n'
    → Placed m n
    → Placed m n'
unfolding visit
visit-Placed m n n' waiting p h placed = cc (rw (p, visit) at h)
visit-Placed m n n' stopped p h placed = cc (rw (p, visit) at h)
visit-Placed m n n' panicked p h placed = cc (rw (p, visit) at h)
visit-Placed m n n' (keeping x) p h placed = cc (rw (p, visit) at h)
visit-Placed m n n' (visiting x i d) p h placed = elim (Option-cases (get_elem? n.subscribers i)) [
  | inl q ↦ subst_some (Placed m) (rw (p, q, visit) at h) (ends-Placed m x i d n p placed)
  | inr (s, q) ↦ elim (if-cases (Subscriber.acceptor s x) (rw (p, q, visit) at h)) [
    | inl (t, k) ↦
        let (subs, e, l) = >>=-eq-some (at i (push n.buffer x) n.subscribers) _ k in
        subst_some (Placed m) l (gives-Placed m x i d s n subs p q t e placed)
    | inr (t, k) ↦ subst_some (Placed m) k (skips-Placed m x i d n p placed)
  ]
]

pub keep-Placed :
    {M : Type 0} (m : M) (n n' : Network M) (r : Runner M)
    → n.runner ≡ r
    → keep n ≡ some n'
    → Placed m n
    → Placed m n'
unfolding keep
keep-Placed m n n' waiting p h placed = cc (rw (p, keep) at h)
keep-Placed m n n' stopped p h placed = cc (rw (p, keep) at h)
keep-Placed m n n' panicked p h placed = cc (rw (p, keep) at h)
keep-Placed m n n' (visiting x i d) p h placed = cc (rw (p, keep) at h)
keep-Placed m n n' (keeping x) p h placed = subst_some (Placed m) (rw (p, keep) at h) (elim placed [
  | in_run r ↦
      in_pending (Any-right n.pending (x ∷ []) (at_head (Holding-keeping (subst (Holding m) p r))))
  | in_pending a ↦ in_pending (Any-left n.pending (x ∷ []) a)
  | taken a ↦ taken a
  | taken_before a ↦ taken_before a
])
