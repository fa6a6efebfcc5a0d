-- ===== src/Keyring/Rounds.antt =====
-- How many rounds `buildTrustWeb` takes: each key joins the queue once at most.
use pnyxdb.Base.{
  List-cases, ℕ, zero, suc, ◌+◌, ◌≤◌, ◌<◌, String, ◌≡◌, sym, ap, ◌∙◌, true, false, some, List, [],
  ◌∷◌, Dict, lookup, insert, contains, str_eq, eq_iff, eq_refl, leb, length, length-append,
  if◌then◌else◌, Bool-cases, Option-cases, inl, inr, arith, Returns, Returns-some,
}
use pnyxdb.Keyring.Trust.{trust_threshold}
use pnyxdb.Keyring.Web.{
  Signature, Key, Web, populate, effective_of, signatures_of, credited, sign_one, sign_all, visit,
  build_trust_web,
}

-- How many keys were not visited.
unvisited : Dict Key → List String → ℕ
unvisited [] vs = 0
unvisited ((u, k) ∷ ks) vs = (if contains u vs then 0 else 1) + unvisited ks vs

-- The queue, and the keys that may still join it.
rounds : Web → ℕ
unfolding unvisited
rounds w = length w.queue + unvisited w.keys w.visited

unvisited-insert :
    (u : String) (j k : Key) (ks : Dict Key) (vs : List String)
    → lookup u ks ≡ some j
    → unvisited (insert u k ks) vs ≡ unvisited ks vs
unfolding unvisited lookup insert
unvisited-insert u j k [] vs h = cc
unvisited-insert u j k ((v, l) ∷ ks) vs h = elim (Bool-cases (str_eq v u)) [
  | inl t ↦
      rw (t, insert)
        (ap (λ (x : String). (if contains x vs then 0 else 1) + unvisited ks vs)
          (sym ((eq_iff v u).0 t)))
  | inr t ↦
      rw (t, insert)
        (ap (λ (n : ℕ). (if contains v vs then 0 else 1) + n)
          (unvisited-insert u j k ks vs (rw (t, lookup) at h)))
]

unvisited_le :
    (u : String) (ks : Dict Key) (vs : List String) → unvisited ks (u ∷ vs) ≤ unvisited ks vs
unfolding unvisited contains
unvisited_le u [] vs = omega arith
unvisited_le u ((v, k) ∷ ks) vs = ground (arith, unvisited_le u ks vs)

unvisited_lt :
    (u : String) (k : Key) (ks : Dict Key) (vs : List String)
    → lookup u ks ≡ some k
    → contains u vs ≡ false
    → unvisited ks (u ∷ vs) < unvisited ks vs
unfolding unvisited contains lookup
unvisited_lt u k [] vs h new = cc
unvisited_lt u k ((v, l) ∷ ks) vs h new = elim (Bool-cases (str_eq v u)) [
  | inl t ↦
      let back : str_eq u v ≡ true = (eq_iff u v).1 (sym ((eq_iff v u).0 t)) in
      let absent : contains v vs ≡ false =
        ap (λ (x : String). contains x vs) ((eq_iff v u).0 t) ∙ new in
      ground (arith, unvisited_le u ks vs)
  | inr t ↦ ground (arith, unvisited_lt u k ks vs (rw (t, lookup) at h) new)
]

sign_one-rounds :
    (current signee : String) (s : Signature) (w : Web)
    → rounds (sign_one current signee s w) ≤ rounds w
unfolding rounds sign_one
sign_one-rounds current signee s w = elim (Option-cases (lookup signee w.keys)) [
  | inl p ↦ rw (p, sign_one) (omega arith)
  | inr (key, p) ↦
      let key' = credited current (effective_of (lookup current w.keys)) s.level key in
      let same : (vs : List String)
          → unvisited (insert signee key' w.keys) vs ≡ unvisited w.keys vs =
        λ vs. unvisited-insert signee key key' w.keys vs p in
      rw (p, sign_one)
        (elim (Bool-cases (contains signee w.visited)) [
          | inl t ↦ elim (Bool-cases (leb trust_threshold key'.effective_trust)) [
            | inl l ↦ rw (t, l) (omega (arith, same w.visited))
            | inr l ↦ rw (t, l) (omega (arith, same w.visited))
          ]
          | inr t ↦ elim (Bool-cases (leb trust_threshold key'.effective_trust)) [
            | inl l ↦
                rw (t, l)
                  (omega (
                    arith,
                    same (signee ∷ w.visited),
                    unvisited_lt signee key w.keys w.visited p t,
                    length-append w.queue (signee ∷ []),
                  ))
            | inr l ↦ rw (t, l) (omega (arith, same w.visited))
          ]
        ])
]

sign_all-rounds :
    (current : String) (ss : Dict Signature) (w : Web) → rounds (sign_all current ss w) ≤ rounds w
unfolding sign_all
sign_all-rounds current [] w = omega arith
sign_all-rounds current ((u, s) ∷ ss) w =
    omega
      (arith, sign_all-rounds current ss (sign_one current u s w), sign_one-rounds current u s w)

visit-Returns : (fuel : ℕ) (w : Web) → rounds w < fuel → Returns (visit fuel w)
unfolding visit rounds
visit-Returns zero w h = absurd (omega arith)
visit-Returns (suc fuel) w h = elim (List-cases w.queue) [
  | inl q ↦ rw (q, visit) (Returns-some w.keys)
  | inr (c, cs, q) ↦
      rw (q, visit)
        (visit-Returns fuel _ (
          omega (
            arith,
            h,
            ap length q,
            sign_all-rounds c (signatures_of (lookup c w.keys)) (record w { queue = cs }),
          )))
]

populate-rounds : (ring : Dict Key) → rounds (populate ring) ≤ length ring
unfolding populate rounds unvisited contains
populate-rounds [] = omega arith
populate-rounds ((u, k) ∷ ring) =
    let web = populate ring in
    elim (Bool-cases (leb trust_threshold k.trust)) [
      | inl t ↦
          rw (t, populate)
            (rw (eq_refl u)
              (omega (arith, populate-rounds ring, unvisited_le u web.keys web.visited)))
      | inr t ↦ rw (t, populate) (ground (arith, populate-rounds ring))
    ]

-- One round more than there are keys is enough to build the web of trust.
pub build_trust_web-Returns :
    (fuel : ℕ) (ring : Dict Key) → length ring < fuel → Returns (build_trust_web fuel ring)
unfolding build_trust_web
build_trust_web-Returns fuel ring h =
    visit-Returns fuel (populate ring) (omega (arith, populate-rounds ring))
