-- ===== src/Network/Gossipsub/Places.antt =====
-- Where a message is, and that the goroutines of a subscriber keep it.
use pnyxdb.Base.{
  ℕ, ◌≡◌, refl, ap, ◌∙◌, subst, true, false, Option, some, [], ◌∷◌, length, ltb, if-cases,
  subst_some, inl, inr, ◌⊎◌, Any, at_head, Any-left, Any-right, Any-cons, ◌&&◌, arith, Among,
  List-cases,
}
use pnyxdb.Network.Gossipsub.{
  Subscriber, Runner, visiting, keeping, Network, push, release, stop_release, relay, stop_relay,
  lose, cancel,
}
use pnyxdb.Network.Gossipsub.Steps.{
  IsLocal, releases, release_stops, relays, relay_stops, loses, is_cancelled,
}

-- A subscriber takes the message, and has it in one of its channels, unless its context is done.
pub record Has {M : Type 0} (m : M) (s : Subscriber M) : Type 0 where
  pub takes : s.acceptor m ≡ true
  pub place : (s.cancelled ≡ true) ⊎ Among m s.to_send ⊎ Among m s.input ⊎ Among m s.output

-- `run` has the message, and no acceptor took it yet.
pub data Holding {M : Type 0} (m : M) : Runner M → Type 0 where
  unseen : (i : ℕ) → Holding m (visiting m i false)
  to_keep : Holding m (keeping m)

-- The message is with `run`, is pending, or has a subscriber that takes it.
pub data Placed {M : Type 0} (m : M) (n : Network M) : Type 0 where
  in_run : Holding m n.runner → Placed m n
  in_pending : Among m n.pending → Placed m n
  taken : Any (Has m) n.subscribers → Placed m n
  taken_before : Any (Has m) n.gone → Placed m n

pub push-Has :
    {M : Type 0} (buffer : ℕ) (m x : M) (s s' : Subscriber M)
    → push buffer x s ≡ some s'
    → Has m s
    → Has m s'
unfolding push
push-Has buffer m x s s' h has = elim (if-cases (ltb (length s.input) buffer) h) [
  | inl (t, p) ↦ subst_some (Has m) p (record {
    takes = has.takes;
    place = elim has.place [
      | inl c ↦ inl c
      | inr (inl a) ↦ inr (inl a)
      | inr (inr (inl a)) ↦ inr (inr (inl (Any-left s.input (x ∷ []) a)))
      | inr (inr (inr a)) ↦ inr (inr (inr a))
    ];
  })
  | inr (t, p) ↦ cc
]

pub push-Has_new :
    {M : Type 0} (buffer : ℕ) (x : M) (s s' : Subscriber M)
    → push buffer x s ≡ some s'
    → s.acceptor x ≡ true
    → Has x s'
unfolding push
push-Has_new buffer x s s' h takes = elim (if-cases (ltb (length s.input) buffer) h) [
  | inl (t, p) ↦ subst_some (Has x) p (record {
    takes = takes;
    place = inr (inr (inl (Any-right s.input (x ∷ []) (at_head refl))));
  })
  | inr (t, p) ↦ cc
]

pub local-Has :
    {M : Type 0} (buffer : ℕ) (m : M) {f : Subscriber M → Option (Subscriber M)}
    (s s' : Subscriber M)
    → IsLocal buffer f
    → f s ≡ some s'
    → Has m s
    → Has m s'
unfolding release stop_release relay stop_relay lose cancel push
local-Has buffer m s s' releases h has = elim (List-cases s.to_send) [
  | inl p ↦ cc (rw (p, release) at h)
  | inr (x, xs, p) ↦
      let pushed = rw (p, release) at h in
      let rest : Subscriber _ = record s { to_send = xs } in
      elim has.place [
        | inl c ↦ push-Has buffer m x rest s' pushed (record { takes = has.takes; place = inl c })
        | inr (inl a) ↦ elim (Any-cons (subst (Among m) p a)) [
          | inl e ↦
              subst (λ y. Has y s') e
                (push-Has_new buffer x rest s' pushed (ap s.acceptor e ∙ has.takes))
          | inr b ↦
              push-Has buffer m x rest s' pushed (record { takes = has.takes; place = inr (inl b) })
        ]
        | inr (inr q) ↦
            push-Has buffer m x rest s' pushed (record { takes = has.takes; place = inr (inr q) })
      ]
]
local-Has buffer m s s' release_stops h has = elim (if-cases s.cancelled h) [
  | inl (t, p) ↦ subst_some (Has m) p (record { takes = has.takes; place = inl t })
  | inr (t, p) ↦ cc
]
local-Has buffer m s s' relays h has = elim (if-cases s.listening h) [
  | inr (t, q) ↦ cc
  | inl (t, q) ↦ elim (List-cases s.input) [
    | inl p ↦ cc (rw p at q)
    | inr (x, xs, p) ↦ subst_some (Has m) (rw p at q) (record {
      takes = has.takes;
      place = elim has.place [
        | inl c ↦ inl c
        | inr (inl a) ↦ inr (inl a)
        | inr (inr (inl a)) ↦ elim (Any-cons (subst (Among m) p a)) [
          | inl e ↦ inr (inr (inr (Any-right s.output (x ∷ []) (at_head e))))
          | inr b ↦ inr (inr (inl b))
        ]
        | inr (inr (inr a)) ↦ inr (inr (inr (Any-left s.output (x ∷ []) a)))
      ];
    })
  ]
]
local-Has buffer m s s' relay_stops h has = elim (if-cases s.cancelled h) [
  | inl (t, p) ↦ subst_some (Has m) p (record { takes = has.takes; place = inl t })
  | inr (t, p) ↦ cc
]
local-Has buffer m s s' loses h has = elim (if-cases (s.listening && s.cancelled) h) [
  | inr (t, q) ↦ cc
  | inl (t, q) ↦ elim (List-cases s.input) [
    | inl p ↦ cc (rw p at q)
    | inr (x, xs, p) ↦
        subst_some (Has m) (rw p at q)
          (record { takes = has.takes; place = inl (ground (arith, t)) })
  ]
]
local-Has buffer m s s' is_cancelled h has =
    subst_some (Has m) h (record { takes = has.takes; place = inl refl })
