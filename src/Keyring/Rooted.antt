-- ===== src/Keyring/Rooted.antt =====
-- Where the trust that `buildTrustWeb` computes comes from.
use pnyxdb.Base.{
  List-cases, ℕ, zero, suc, ◌≤◌, String, ◌≡◌, refl, sym, ap, ◌∙◌, subst, not, ◌&&◌, Option, none,
  some, List, [], ◌∷◌, ◌++◌, Dict, lookup, lookup-insert, contains, str_eq, eq_iff, leb, All,
  Bool-cases, Option-cases, ◌⊎◌, inl, inr, arith, subst_some, if-cases,
}
use pnyxdb.Keyring.Trust.{trust_threshold}
use pnyxdb.Keyring.Web.{
  Signature, Key, Web, populate, effective_of, signatures_of, credited, sign_one, sign_all, visit,
  build_trust_web, trusted,
}

-- The signatures hold one for the identity.
abbrev pub Signs : String → Dict Signature → Type 0
Signs u [] = ⊥
Signs u ((v, s) ∷ rest) = (v ≡ u) ⊎ Signs u rest

-- A chain of signatures leads to the identity from a key that the user trusts.
pub data Rooted (ring : Dict Key) : String → Type 0 where
  by_user :
      {u : String} (k : Key) → lookup u ring ≡ some k → trust_threshold ≤ k.trust → Rooted ring u
  by_signature :
      {s u : String} → Rooted ring s → Signs u (signatures_of (lookup s ring)) → Rooted ring u

record Sound (ring : Dict Key) (w : Web) : Type 0 where
  kept : (u : String) → signatures_of (lookup u w.keys) ≡ signatures_of (lookup u ring)
  queued : All (Rooted ring) w.queue
  earned :
      (u : String) (k : Key)
      → lookup u w.keys ≡ some k
      → trust_threshold ≤ k.effective_trust
      → Rooted ring u

All-join :
    (P : String → Type 0) (xs : List String) (y : String) → All P xs → P y → All P (xs ++ (y ∷ []))
All-join P [] y h p = (p, tt)
All-join P (x ∷ xs) y h p = (h.0, All-join P xs y h.1 p)

-- A round for a signature of a rooted key.
sign_one-Sound :
    (ring : Dict Key) (current signee : String) (s : Signature) (w : Web)
    → Rooted ring signee
    → Sound ring w
    → Sound ring (sign_one current signee s w)
unfolding sign_one signatures_of
sign_one-Sound ring current signee s w r h = elim (Option-cases (lookup signee w.keys)) [
  | inl p ↦ rw (p, sign_one) h
  | inr (key, p) ↦
      let key' = credited current (effective_of (lookup current w.keys)) s.level key in
      rw (p, sign_one)
        (record {
          kept = λ u. elim (Bool-cases (str_eq signee u)) [
            | inl t ↦
                rw (lookup-insert, t)
                  (sym (ap signatures_of p)
                    ∙ ap (λ (v : String). signatures_of (lookup v w.keys)) ((eq_iff signee u).0 t)
                    ∙ h.kept u)
            | inr t ↦ rw (lookup-insert, t) (h.kept u)
          ];
          queued =
              elim (Bool-cases
                (leb trust_threshold key'.effective_trust && not (contains signee w.visited))) [
                  | inl t ↦ rw t (All-join (Rooted ring) w.queue signee h.queued r)
                  | inr t ↦ rw t h.queued
                ];
          earned = λ u k q high. elim (if-cases (str_eq signee u) (rw lookup-insert at q)) [
            | inl (t, e) ↦ subst (Rooted ring) ((eq_iff signee u).0 t) r
            | inr (t, e) ↦ h.earned u k e high
          ];
        })
]

sign_all-Sound :
    (ring : Dict Key) (current : String) (ss : Dict Signature) (w : Web)
    → Rooted ring current
    → ((u : String) → Signs u ss → Signs u (signatures_of (lookup current ring)))
    → Sound ring w
    → Sound ring (sign_all current ss w)
unfolding sign_all
sign_all-Sound ring current [] w r sub h = h
sign_all-Sound ring current ((u, s) ∷ ss) w r sub h =
    sign_all-Sound ring current ss (sign_one current u s w) r (λ v m. sub v (inr m))
      (sign_one-Sound ring current u s w (by_signature r (sub u (inl refl))) h)

visit-Sound :
    (fuel : ℕ) (ring : Dict Key) (w : Web) (keys : Dict Key) (u : String) (k : Key)
    → Sound ring w
    → visit fuel w ≡ some keys
    → lookup u keys ≡ some k
    → trust_threshold ≤ k.effective_trust
    → Rooted ring u
unfolding visit
visit-Sound zero ring w keys u k h e p high = cc
visit-Sound (suc fuel) ring w keys u k h e p high = elim (List-cases w.queue) [
  | inl q ↦
      subst_some (λ (ds : Dict Key). lookup u ds ≡ some k → Rooted ring u) (rw (q, visit) at e)
        (λ x. h.earned u k x high) p
  | inr (c, cs, q) ↦
      let split : Rooted ring c × All (Rooted ring) cs = subst (All (Rooted ring)) q h.queued in
      visit-Sound fuel ring _ keys u k
        (sign_all-Sound ring c (signatures_of (lookup c w.keys)) (record w { queue = cs }) split.0
          (λ v m. subst (Signs v) (h.kept c) m)
          (record { kept = h.kept; queued = split.1; earned = h.earned }))
        (rw (q, visit) at e) p high
]

reset_of : Option Key → Option Key
reset_of none = none
reset_of (some key) = some (record key { effective_trust = key.trust; signed_by = [] })

lookup-populate :
    (ring : Dict Key) (u : String) → lookup u (populate ring).keys ≡ reset_of (lookup u ring)
unfolding populate lookup reset_of
lookup-populate [] u = refl
lookup-populate ((v, k) ∷ ring) u = elim (Bool-cases (str_eq v u)) [
  | inl t ↦ rw (t, lookup) refl
  | inr t ↦ rw (t, lookup) (lookup-populate ring u)
]

-- Each entry is what a lookup of its identity finds: no identity has two.
abbrev pub Unambiguous : Dict Key → Dict Key → Type 0
Unambiguous ring = All (λ (e : String × Key). lookup e.0 ring ≡ some e.1)

populate-Rooted :
    (ring part : Dict Key) → Unambiguous ring part → All (Rooted ring) (populate part).queue
unfolding populate
populate-Rooted ring [] h = tt
populate-Rooted ring ((u, k) ∷ part) h = elim (Bool-cases (leb trust_threshold k.trust)) [
  | inl t ↦ rw (t, populate) (by_user k h.0 (ground (arith, t)), populate-Rooted ring part h.1)
  | inr t ↦ rw (t, populate) (populate-Rooted ring part h.1)
]

populate-Sound : (ring : Dict Key) → Unambiguous ring ring → Sound ring (populate ring)
unfolding reset_of signatures_of
populate-Sound ring h = record {
  kept = λ u.
      rw lookup-populate
        (elim (Option-cases (lookup u ring)) [ inl p ↦ rw p refl | inr (k, p) ↦ rw p refl ]);
  queued = populate-Rooted ring ring h;
  earned = λ u k p high. elim (Option-cases (lookup u ring)) [
    | inl q ↦ cc (rw (lookup-populate, q) at p)
    | inr (j, q) ↦ by_user j q (
        subst (λ (n : ℕ). trust_threshold ≤ n) (sym (ap effective (rw (lookup-populate, q) at p)))
          high)
  ];
}
  where
    effective : Option Key → ℕ
    effective none = 0
    effective (some k) = k.effective_trust

-- Of keys with distinct identities, the web of trust that is built trusts an identity only if a
-- chain of signatures leads to it from a key that the user trusts.
pub build_trust_web-Rooted :
    (fuel : ℕ) (ring keys : Dict Key) (u : String)
    → Unambiguous ring ring
    → build_trust_web fuel ring ≡ some keys
    → trusted u keys ≡ none
    → Rooted ring u
unfolding build_trust_web trusted
build_trust_web-Rooted fuel ring keys u h e ok = elim (Option-cases (lookup u keys)) [
  | inl p ↦ cc (rw (p, trusted) at ok)
  | inr (k, p) ↦
      visit-Sound fuel ring (populate ring) keys u k (populate-Sound ring h) e p
        (ground (arith, rw (p, trusted) at ok))
]
