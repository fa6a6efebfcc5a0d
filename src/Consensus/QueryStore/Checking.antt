-- ===== src/Consensus/QueryStore/Checking.antt =====
-- `CheckState` returns where conditions go down in rank.
use pnyxdb.Base.{
  ℕ, suc, ◌<◌, String, ◌≡◌, sym, ap, ◌∙◌, subst, Bool, not, Option, none, some, List, [], ◌∷◌,
  lookup, length, leb, arith, All, if◌then◌else◌, inl, inr, if-cases, Option-cases, Bool-cases,
  subst_some, str_eq, eq_iff, Returns, Returns-some, Returns->>=, Returns-if,
}
use pnyxdb.Consensus.QueryStore.State.{
  committed, QueryInfo, EndorsementInfo, QueryStore, put, check_speculative_state,
}
use pnyxdb.Consensus.QueryStore.Check.{
  is_applicable, is_dropped, is_committed, condition_old, definitely_valid, count_definite, commit,
  decide, check_state, info_or_zero,
}
use pnyxdb.Consensus.QueryStore.View.{
  Core, core, core_of, endorsements_of, view, view-put, is_applicable-SameView,
}
use pnyxdb.Consensus.QueryStore.Marking.{WellFormed, WellFormed-put, WellFormed-SameView}
use pnyxdb.Consensus.QueryStore.Termination.{
  Ranked, ConditionsBelow, Ranked-SameView, ConditionsBelow-le, is_applicable-Returns,
}
use pnyxdb.Consensus.QueryStore.Forward.{view-SameStates}
use pnyxdb.Consensus.QueryStore.Decision.{
  definitely_valid_lem, count_definite_lem, after_evaluation,
}
use pnyxdb.Consensus.QueryStore.Cascade.{length-insert}
use pnyxdb.Consensus.QueryStore.Returning.{checkpoint_drop-Returns}
use pnyxdb.Consensus.QueryStore.Sizes.{
  is_applicable-SameSize, speculative-SameSize, count_definite-SameSize,
}

-- Marking a query as applied changes no endorsement.
Ranked-speculative :
    (rank : String → ℕ) (u : String) (x : Bool) (a : QueryStore)
    → Ranked rank (view a)
    → Ranked rank (view (check_speculative_state u x a))
unfolding check_speculative_state
Ranked-speculative rank u x a w = elim (Option-cases (lookup u a.queries)) [
  | inl p ↦ rw (p, check_speculative_state) w
  | inr (qi, p) ↦
      rw (p, check_speculative_state)
        (record {
          below = λ j k h. elim (if-cases (str_eq u j) (rw view-put at h)) [
            | inl (t, e) ↦
                subst_some (λ (k : Core). ConditionsBelow rank (rank j) k.endorsements) e
                  (subst
                    (λ (i : String).
                      ConditionsBelow rank (rank i) (endorsements_of qi.endorsements))
                    ((eq_iff u j).0 t) (w.below u (core qi) (ap core_of p)))
            | inr (t, e) ↦ w.below j k e
          ];
        })
]

module _ (rank : String → ℕ) (fuel now : ℕ) where
  definitely_valid-Returns :
      (cs cp : List String) (a : QueryStore)
      → Ranked rank (view a)
      → All (λ c. rank c < fuel) cs
      → Returns (definitely_valid fuel now cs cp a)
  unfolding definitely_valid condition_old
  definitely_valid-Returns [] cp a w h = Returns-some _
  definitely_valid-Returns (c ∷ cs) cp a w h = elim (Bool-cases (is_dropped (lookup c a.queries))) [
    | inl t ↦ rw (t, definitely_valid) (definitely_valid-Returns cs cp a w h.1)
    | inr t ↦
        rw (t, definitely_valid)
          (Returns->>= (condition_old fuel now c (lookup c a.queries) a) _
            (old (lookup c a.queries)) (λ s e. Returns-some _))
  ]
    where
      old : (o : Option QueryInfo) → Returns (condition_old fuel now c o a)
      old none = Returns-some _
      old (some qi) =
          Returns->>= (is_applicable fuel c a) _ (is_applicable-Returns rank fuel c a w h.0)
            (λ s e. Returns-some _)

  count_definite-Returns :
      (es : List EndorsementInfo) (n : ℕ) (cp : List String) (a : QueryStore)
      → Ranked rank (view a)
      → ConditionsBelow rank fuel (endorsements_of es)
      → Returns (count_definite fuel now es n cp a)
  unfolding count_definite
  count_definite-Returns [] n cp a w h = Returns-some _
  count_definite-Returns (e ∷ es) n cp a w h =
      Returns->>= (definitely_valid fuel now e.endorsement.conditions cp a) _
        (definitely_valid-Returns e.endorsement.conditions cp a w h.0)
        (λ s k.
          count_definite-Returns es (if s.0 then suc n else n) s.1 s.2
            (Ranked-SameView rank
              (definitely_valid_lem fuel now e.endorsement.conditions cp a s k).0 w)
            h.1)

commit-Returns :
    (fuel : ℕ) (u : String) (k : Core) (a : QueryStore)
    → WellFormed a
    → view a u ≡ some k
    → suc (length a.queries) < fuel
    → Returns (commit fuel u a)
unfolding commit
commit-Returns fuel u k a w here h = elim (Option-cases (lookup u a.queries)) [
  | inl p ↦ cc (ap core_of p)
  | inr (qi, p) ↦
      let (q, holds, name) = w.named u _ (ap core_of p) in
      let done : QueryInfo = record qi { state = committed } in
      rw p (
        checkpoint_drop-Returns fuel qi.dependents (put u done a)
          (WellFormed-put u done q a holds name w)
          (omega (arith, length-insert u qi done a.queries p)))
]

module _ (rank : String → ℕ) (fuel now : ℕ) where
  decide-Returns :
      (u : String) (qi : QueryInfo) (k : Core) (b : QueryStore)
      → WellFormed b
      → view b u ≡ some k
      → Ranked rank (view b)
      → ConditionsBelow rank fuel (endorsements_of qi.endorsements)
      → suc (length b.queries) < fuel
      → Returns (decide fuel now u qi b)
  unfolding decide
  decide-Returns u qi k b w here r below h =
      Returns->>= (count_definite fuel now qi.endorsements 0 [] b) _
        (count_definite-Returns rank fuel now qi.endorsements 0 [] b r below)
        (λ s m.
          let v = (count_definite_lem fuel now qi.endorsements 0 [] b s m).0 in
          Returns-if (leb b.threshold s.0)
            (Returns->>= (commit fuel u s.2) _
              (commit-Returns fuel u k s.2 (WellFormed-SameView v w) (v.views u ∙ here)
                (omega (arith, count_definite-SameSize fuel now qi.endorsements 0 [] b s m)))
              (λ c e. Returns-some _))
            (Returns-some _))

  -- `CheckState` of a stored query.
  pub check_state-Returns :
      (u : String) (k : Core) (a : QueryStore)
      → WellFormed a
      → view a u ≡ some k
      → Ranked rank (view a)
      → rank u < fuel
      → suc (length a.queries) < fuel
      → Returns (check_state fuel now u a)
  unfolding check_state
  check_state-Returns u k a w here r low h =
      Returns->>= (is_applicable fuel u a) _ (is_applicable-Returns rank fuel u a r low) (λ x m.
        let b = check_speculative_state u x.0 x.1 in
        let qi = info_or_zero (lookup u b.queries) in
        let (same, es, st) = after_evaluation fuel u a k x here m in
        let (k', there) = view-SameStates u k same here in
        let ranked =
          Ranked-speculative rank u x.0 x.1
            (Ranked-SameView rank (is_applicable-SameView fuel u a x m) r) in
        let below =
          subst (ConditionsBelow rank fuel) (sym es) (
            ConditionsBelow-le rank (rank u) fuel k.endorsements (omega arith)
              (r.below u k here)) in
        Returns-if (not x.0) (Returns-some _) (
          Returns-if (is_committed qi.state) (Returns-some _) (
            decide-Returns u qi k' b (same.well_formed w) there ranked below (
              omega (arith, speculative-SameSize u x.0 x.1, is_applicable-SameSize fuel u a x m)))))
