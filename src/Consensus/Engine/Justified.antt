-- ===== src/Consensus/Engine/Justified.antt =====
-- What an endorsement that a node sends shows of its state.
use pnyxdb.Base.{
  ℕ, ◌≡◌, refl, sym, subst, String, Bool, true, false, Option, none, some, List, [], ◌∷◌, ◌++◌,
  Bytes, Dict, map, All, if◌then◌else◌, Option-cases, Bool-cases, inl, inr, ◌⊎◌, arith, >>=-eq-some,
  subst_some, insert, lookup, lookup-insert_self,
}
use pnyxdb.Consensus.Query.{Version, Query, Endorsement, expired}
use pnyxdb.Consensus.Version.{matches}
use pnyxdb.Consensus.QueryStore.State.{QueryStore, get_conflicting, uuid_of, is_error, endorse}
use pnyxdb.Consensus.Engine.Conflicts.{Waits, conflicting-Waits}
use pnyxdb.Consensus.Engine.Node.{Node, Engine, endorsement_message, broadcast}
use pnyxdb.Consensus.Engine.Signing.{sign_endorsement, verify_query, verified, hash_of}
use pnyxdb.Consensus.Engine.Endorse.{
  all_expired, requirements_met, can_endorse, endorsement_of, endorse_query, round,
}

module _ (node : Node) where
  open node use {driver, identity}
  open driver use {Store, get}

  -- The store has the required version.
  abbrev pub Met : Store → String × Option Version → Type 0
  Met s (k, v) = ((get s k).err ≡ none) × (matches (get s k).version v ≡ none)

  -- The query may be endorsed now on the condition that the conflicting queries are dropped.
  pub record Endorsable (now : ℕ) (q : Query) (eng : Engine Store) (e : Endorsement) : Type 0 where
    pub named : e.uuid ≡ q.uuid
    pub emitted : e.emitter ≡ identity
    pub not_expired : expired now (some q) ≡ false
    pub met : All (Met eng.store) q.requirements
    pub conditions : Waits now q (QueryStore.queries eng.query_store) e.conditions

  none-is_error : {A : Type 0} (o : Option A) → is_error o ≡ false → o ≡ none
  none-is_error none h = refl
  none-is_error (some a) h = cc

  requirements_met-All :
      (s : Store) (rs : Dict (Option Version)) → requirements_met node s rs ≡ true → All (Met s) rs
  unfolding requirements_met
  requirements_met-All s [] h = tt
  requirements_met-All s ((k, v) ∷ rs) h =
      let rest = requirements_met-All s rs in
      let first = none-is_error (get s k).err in
      let second = none-is_error (matches (get s k).version v) in
      elim (Bool-cases (is_error (get s k).err)) [
        | inl t ↦ ground (arith, h, t)
        | inr t ↦ elim (Bool-cases (is_error (matches (get s k).version v))) [
          | inl u ↦ ground (arith, h, t, u)
          | inr u ↦ ((first t, second u), rest (ground (arith, h, t, u)))
        ]
      ]

  all_expired-All :
      (now : ℕ) (cs : List (Option Query))
      → all_expired now cs ≡ true
      → All (λ (c : Option Query). expired now c ≡ true) cs
  unfolding all_expired
  all_expired-All now [] h = tt
  all_expired-All now (c ∷ cs) h = elim (Bool-cases (expired now c)) [
    | inl t ↦ (t, all_expired-All now cs (ground (arith, h, t)))
    | inr t ↦ ground (arith, h, t)
  ]

  -- What a round leaves: the engine as it was, or with the query endorsed and the endorsement sent.
  pub Endorses : ℕ → Query → Engine Store → Bool × Engine Store → Type 0
  Endorses now q eng r =
      (r.1 ≡ eng)
      ⊎ ((e : Endorsement) × (r.0 ≡ true)
          × (r.1.sent ≡ eng.sent ++ (endorsement_message e ∷ []))
          × (r.1.query_store ≡ endorse q.uuid eng.query_store)
          × Endorsable now q eng e)

  endorse_query-Endorses :
      (now : ℕ) (q : Query) (cs : List (Option Query)) (eng : Engine Store)
      → get_conflicting q eng.query_store ≡ cs
      → can_endorse node now q eng.store ≡ true
      → All (λ (c : Option Query). expired now c ≡ true) cs
      → Endorses now q eng (true, endorse_query node q cs eng)
  unfolding get_conflicting endorse_query Endorses broadcast can_endorse sign_endorsement
      endorsement_of
  endorse_query-Endorses now q cs eng found able ends =
      elim (Option-cases (sign_endorsement node (endorsement_of node q cs))) [
        | inl p ↦ rw (p, endorse_query) (inl refl)
        | inr (e, p) ↦
            let (h, ph, k) =
              >>=-eq-some (Node.hash_endorsement node (endorsement_of node q cs)) _ p in
            let (g, pg, l) = >>=-eq-some (Node.sign node h) _ k in
            let fresh : expired now (some q) ≡ false = ground (arith, able) in
            let met : requirements_met node eng.store q.requirements ≡ true =
              ground (arith, able, fresh) in
            rw (p, endorse_query)
              (inr (
                e,
                refl,
                refl,
                refl,
                subst_some (Endorsable now q eng) l (record {
                  named = refl;
                  emitted = refl;
                  not_expired = fresh;
                  met = requirements_met-All eng.store q.requirements met;
                  conditions =
                      subst
                        (λ (l : List (Option Query)).
                          Waits now q (QueryStore.queries eng.query_store) (map uuid_of l))
                        found
                        (conflicting-Waits now q (QueryStore.queries eng.query_store) (
                          subst (All (λ (c : Option Query). expired now c ≡ true)) (sym found)
                            ends));
                }),
              ))
      ]

  -- One round of `handleQuery` leaves the engine as it was, or marks the query as endorsed and sends
  -- one endorsement of it, by this node, at a time at which it has not expired and the store has
  -- every version it requires. The endorsement's conditions are then, in some order, exactly the
  -- identifiers of the stored queries with another key that are pending, endorsed by this node and in
  -- conflict with it, and all of these have expired.
  pub round-Endorses :
      (now : ℕ) (q : Query) (eng : Engine Store) → Endorses now q eng (round node now q eng)
  unfolding round Endorses
  round-Endorses now q eng = elim (Bool-cases (can_endorse node now q eng.store)) [
    | inr t ↦ rw (t, round) (inl refl)
    | inl t ↦ rw (t, round) (go (get_conflicting q eng.query_store) refl t)
  ]
    where
      go :
          (cs : List (Option Query))
          → get_conflicting q eng.query_store ≡ cs
          → can_endorse node now q eng.store ≡ true
          → Endorses now q eng (elim cs as (λ x. Bool × Engine Store) [
            | [] ↦ (true, endorse_query node q [] eng)
            | ◌∷◌ c rest ↦
                if all_expired now (c ∷ rest)
                then (true, endorse_query node q (c ∷ rest) eng)
                else (false, eng)
          ])
      go [] found able = endorse_query-Endorses now q [] eng found able tt
      go (c ∷ cs) found able = elim (Bool-cases (all_expired now (c ∷ cs))) [
        | inl u ↦
            rw u (
              endorse_query-Endorses now q (c ∷ cs) eng found able (all_expired-All now (c ∷ cs) u))
        | inr u ↦ rw u (inl refl)
      ]

  hash_of-insert :
      (q : Query) (u : String) (h : Bytes) (hashes : Dict Bytes)
      → q.uuid ≡ u
      → hash_of node q (insert u h hashes) ≡ some h
  unfolding hash_of
  hash_of-insert q u h hashes e =
      let found : lookup q.uuid (insert u h hashes) ≡ some h =
        subst (λ (i : String). lookup i (insert u h hashes) ≡ some h) (sym e)
          (lookup-insert_self u h hashes) in
      rw (found, hash_of) refl

  -- After a query was verified, any query with its identifier, emitter and signature is verified as
  -- well, whatever else it says: the cached hash of the first stands in for its own.
  pub verify_query-stale :
      (q forged : Query) (eng : Engine Store)
      → forged.uuid ≡ q.uuid
      → forged.emitter ≡ q.emitter
      → forged.signature ≡ q.signature
      → (verify_query node q eng).0 ≡ true
      → (verify_query node forged (verify_query node q eng).1).0 ≡ true
  unfolding verify_query verified hash_of
  verify_query-stale q forged eng same_uuid same_emitter same_signature h =
      elim (Option-cases (hash_of node q eng.hashes)) [
        | inl p ↦ cc (rw (p, verified) at h)
        | inr (hash, p) ↦ elim (Bool-cases (Node.verify node q.emitter hash q.signature)) [
          | inr t ↦ cc (rw (p, t, verified) at h)
          | inl t ↦
              let first : verify_query node q eng
                  ≡ (true, record eng { hashes = insert q.uuid hash eng.hashes }) =
                rw (p, verified) (rw t refl) in
              let cached = hash_of-insert forged q.uuid hash eng.hashes same_uuid in
              let same_test : Node.verify node forged.emitter hash forged.signature ≡ true =
                subst (λ (e : String). Node.verify node e hash forged.signature ≡ true)
                  (sym same_emitter)
                  (subst (λ (s : Bytes). Node.verify node q.emitter hash s ≡ true)
                    (sym same_signature) t) in
              subst (λ (r : Bool × Engine Store). (verify_query node forged r.1).0 ≡ true)
                (sym first) (rw (cached, verified) (rw same_test refl))
        ]
      ]
