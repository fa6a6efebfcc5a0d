-- ===== src/Consensus/Engine/Atomic.antt =====
-- `apply` does all that a query asks for, or nothing.
use pnyxdb.Base.{
  ◌≡◌, refl, sym, ap, ◌∙◌, String, Option, none, some, List, [], ◌∷◌, Bytes, Dict, lookup, insert,
  lookup-insert, str_eq, Bool-cases, Option-cases, inl, inr, ◌⊎◌, map_values, map_some,
}
use pnyxdb.Consensus.Query.{Query}
use pnyxdb.Consensus.Operation.{Operation}
use pnyxdb.Consensus.Driver.{
  Wrote, StoreError, wrote, fault, failed, write, settled, stamped, IsLawful,
}
use pnyxdb.Consensus.QueryStore.State.{QueryStore, get_query}
use pnyxdb.Consensus.Engine.Node.{Node}
use pnyxdb.Consensus.Engine.Apply.{
  Loop, finished, stopped, crashed, stored, current, run_all, flush, apply,
}
use pnyxdb.Consensus.Engine.Sequence.{
  own, outcome, left_by, Ran-cases, subst_finished, run_all-outcome, apply-left_by,
}
use pnyxdb.Operations.{Value, exec}

Loop-cases :
    {A : Type 0} (l : Loop A) → (l ≡ stopped) ⊎ (l ≡ crashed) ⊎ ((a : A) × (l ≡ finished a))
Loop-cases (finished a) = inr (inr (a, refl))
Loop-cases stopped = inl refl
Loop-cases crashed = inr (inl refl)

Wrote-cases : (w : Wrote) → (w ≡ wrote) ⊎ (w ≡ fault) ⊎ ((e : StoreError) × (w ≡ failed e))
Wrote-cases wrote = inl refl
Wrote-cases fault = inr (inl refl)
Wrote-cases (failed e) = inr (inr (e, refl))

stored-injective : {S : Type 0} {s t : S} → stored s ≡ stored t → s ≡ t
stored-injective h = cc

module _ (node : Node) where
  open node use {driver, floats, sha512}
  open driver use {Store, get}
  open floats use {Float}

  -- If the loop runs to its end, then it has a value for each key that an operation names.
  run_all-named :
      (s : Store) (ops : List Operation) (values out : Dict (Value Float)) (k : String)
      → run_all node s ops values ≡ finished out
      → lookup k out ≡ none
      → (own k ops ≡ []) × (lookup k values ≡ none)
  unfolding run_all
  run_all-named s [] values out k h empty =
      (refl, subst_finished (λ (o : Dict (Value Float)). lookup k o ≡ none) (sym h) empty)
  run_all-named s (op ∷ ops) values out k h empty =
      elim (Option-cases (current node s op.key (lookup op.key values))) [
        | inl p ↦ cc (rw (p, run_all) at h)
        | inr (v, p) ↦ elim (Ran-cases (exec floats op v)) [
          | inr (inl (e, w, q)) ↦ cc (rw (p, q, run_all) at h)
          | inr (inr q) ↦ cc (rw (p, q, run_all) at h)
          | inl (w, q) ↦
              let (none_left, gone) =
                run_all-named s ops (insert op.key w values) out k (rw (p, q, run_all) at h)
                  empty in
              let kept = sym (lookup-insert op.key k w values) ∙ gone in
              elim (Bool-cases (str_eq op.key k)) [
                | inl t ↦ cc (rw t at kept)
                | inr t ↦ rw t (none_left, rw t at kept)
              ]
        ]
      ]

  -- What a query that was applied has done to a key: nothing if none of its operations is on the
  -- key, and else all of these have run, one after the other, and what they leave is stored.
  abbrev pub Done : Query → Store → Store → String → Type 0
  Done q s s' k =
      ((own k q.operations ≡ []) × (get s' k ≡ get s k))
      ⊎ ((raw : Bytes) × (left_by node q s k ≡ some raw) × (get s' k ≡ stamped sha512 raw))

  -- With a storage as the interface asks: if `apply` ends without a panic, then the store is as it
  -- was, or the query is known and has been applied to every key: a key on which it has no operation
  -- reads as before, and on every other key all of its operations have run without an error, one
  -- after the other, and the key reads as the bytes they leave, with the version of those bytes.
  pub apply_atomic :
      (uuid : String) (qs : QueryStore) (s s' : Store)
      → IsLawful driver sha512
      → apply node uuid qs s ≡ stored s'
      → (s' ≡ s) ⊎ ((q : Query) × (get_query uuid qs ≡ some q) × ((k : String) → Done q s s' k))
  unfolding apply flush lookup
  apply_atomic uuid qs s s' lawful h = elim (Option-cases (get_query uuid qs)) [
    | inl p ↦ inl (stored-injective (sym (rw (p, apply) at h)))
    | inr (q, p) ↦ elim (Loop-cases (run_all node s q.operations [])) [
      | inl r ↦ inl (stored-injective (sym (rw (p, r, apply) at h)))
      | inr (inl r) ↦ cc (rw (p, r, apply) at h)
      | inr (inr (values, r)) ↦
          let batch = write driver sha512 s (map_values Value.raw values) in
          let ends : flush node s (finished values) ≡ stored s' = rw (p, r, apply) at h in
          elim (Wrote-cases batch.1) [
            | inl w ↦
                let (t, applied, left) = apply-left_by node uuid qs q s values lawful p r w in
                let same : t ≡ s' = stored-injective (sym applied ∙ h) in
                let reads : (k : String)
                    → get s' k ≡ settled sha512 (left_by node q s k) (get s k) =
                  λ k. ap (λ (x : Store). get x k) (sym same) ∙ left k in
                inr (q, p, λ k. done_on q s s' k values r (reads k))
            | inr (inl w) ↦ cc (rw (w, flush) at ends)
            | inr (inr (e, w)) ↦
                inl
                  (sym (stored-injective (rw (w, flush) at ends)) ∙ lawful.not_written s _ _ _ e w)
          ]
    ]
  ]
    where
      done_on :
          (q : Query) (s s' : Store) (k : String) (values : Dict (Value Float))
          → run_all node s q.operations [] ≡ finished values
          → get s' k ≡ settled sha512 (left_by node q s k) (get s k)
          → Done q s s' k
      done_on q s s' k values r reads =
          elim (Option-cases (outcome node s k (own k q.operations) none)) [
            | inl p ↦
                let missing = run_all-outcome node s q.operations [] values r k ∙ p in
                let (mine, x) = run_all-named s q.operations [] values k r missing in
                let unsettled = ap (map_some Value.raw) p in
                inl (mine, reads ∙ ap (λ (o : Option Bytes). settled sha512 o (get s k)) unsettled)
            | inr (v, p) ↦
                let leaves = ap (map_some Value.raw) p in
                inr (
                  v.raw,
                  leaves,
                  reads ∙ ap (λ (o : Option Bytes). settled sha512 o (get s k)) leaves,
                )
          ]
