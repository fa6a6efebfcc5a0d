-- ===== src/Consensus/QueryStore/Evaluate.antt =====
-- `isApplicable` computes what `Meaning` defines.
use pnyxdb.Base.{
  ℕ, zero, suc, String, ◌≡◌, refl, sym, ap, ◌∙◌, subst, Bool, some, List, [], ◌∷◌, lookup, ltb, leb,
  length, All, inl, inr, >>=-eq-some, if-cases, Option-cases, subst_some,
}
use pnyxdb.Consensus.Query.{Endorsement}
use pnyxdb.Consensus.QueryStore.State.{
  QueryState, pending, committed, dropped, QueryInfo, EndorsementInfo, QueryStore,
}
use pnyxdb.Consensus.QueryStore.Check.{
  none_applicable, refresh, count_valid, compute, by_state, is_applicable,
}
use pnyxdb.Consensus.QueryStore.View.{
  core, core_of, endorsements_of, view, SameView, SameView-sym, Evaluator, refresh-SameView,
  count_valid-SameView, is_applicable-SameView,
}
use pnyxdb.Consensus.QueryStore.Meaning.{
  length-endorsements_of, Evaluates, NoneApplicable, CountsValid, EndorsementCoherent, Coherent,
  transfer, Coherent-put, counts_cons, absent, was_dropped, was_committed, too_few, counted, end,
  stop, go_on, no_more,
}

abbrev Sound : Evaluator → Type 0
Sound f =
    (c : String) (a : QueryStore) (r : Bool × QueryStore)
    → Coherent a
    → f c a ≡ some r
    → Coherent r.1 × Evaluates a.threshold (view a) c r.0

abbrev KeepsView : Evaluator → Type 0
KeepsView f =
    (c : String) (a : QueryStore) (r : Bool × QueryStore) → f c a ≡ some r → SameView a r.1

module _ (f : Evaluator) (keeps : KeepsView f) (sound : Sound f) where
  none_applicable_sound :
      (cs : List String) (a : QueryStore) (r : Bool × QueryStore)
      → Coherent a
      → none_applicable f cs a ≡ some r
      → Coherent r.1 × NoneApplicable a.threshold (view a) cs r.0
  unfolding none_applicable
  none_applicable_sound [] a r co h =
      subst_some
        (λ (s : Bool × QueryStore). Coherent s.1 × NoneApplicable a.threshold (view a) [] s.0) h
        (co, end)
  none_applicable_sound (c ∷ cs) a r co h =
      let (s, e, k) = >>=-eq-some (f c a) _ h in
      let (co', ev) = sound c a s co e in
      elim (if-cases s.0 k) [
        | inl (t, p) ↦
            subst_some
              (λ (s : Bool × QueryStore).
                Coherent s.1 × NoneApplicable a.threshold (view a) (c ∷ cs) s.0)
              p (co', stop (subst (Evaluates a.threshold (view a) c) t ev))
        | inr (t, p) ↦
            let (co'', rest) = none_applicable_sound cs s.1 r co' p in
            (
              co'',
              go_on (subst (Evaluates a.threshold (view a) c) t ev)
                  (transfer (λ t v. NoneApplicable t v cs r.0) (SameView-sym (keeps c a s e)) rest),
            )
      ]

  refresh_sound :
      (e : EndorsementInfo) (a : QueryStore) (r : EndorsementInfo × QueryStore)
      → EndorsementCoherent a.threshold (view a) e
      → Coherent a
      → refresh f e a ≡ some r
      → Coherent r.1
        × NoneApplicable a.threshold (view a) e.endorsement.conditions r.0.cached.result
  unfolding refresh
  refresh_sound e a r old co h = elim (if-cases e.cached.fresh h) [
    | inl (t, p) ↦
        subst_some
          (λ (s : EndorsementInfo × QueryStore).
            Coherent s.1
            × NoneApplicable a.threshold (view a) e.endorsement.conditions s.0.cached.result)
          p (co, old t)
    | inr (t, p) ↦
        let (s, k, l) = >>=-eq-some (none_applicable f e.endorsement.conditions a) _ p in
        subst_some
          (λ (s : EndorsementInfo × QueryStore).
            Coherent s.1
            × NoneApplicable a.threshold (view a) e.endorsement.conditions s.0.cached.result)
          l (none_applicable_sound e.endorsement.conditions a s co k)
  ]

  count_valid_sound :
      (es : List EndorsementInfo) (a : QueryStore) (r : ℕ × List EndorsementInfo × QueryStore)
      → All (EndorsementCoherent a.threshold (view a)) es
      → Coherent a
      → count_valid f es a ≡ some r
      → Coherent r.2
        × CountsValid a.threshold (view a) (endorsements_of es) r.0
        × All (EndorsementCoherent a.threshold (view a)) r.1
  unfolding count_valid
  count_valid_sound [] a r old co h =
      subst_some
        (λ (s : ℕ × List EndorsementInfo × QueryStore).
          Coherent s.2
          × CountsValid a.threshold (view a) [] s.0
          × All (EndorsementCoherent a.threshold (view a)) s.1)
        h (co, no_more, tt)
  count_valid_sound (e ∷ es) a r old co h =
      let (s, k, l) = >>=-eq-some (refresh f e a) _ h in
      let (t, m, n) = >>=-eq-some (count_valid f es s.1) _ l in
      let (v1, e1) = refresh-SameView f keeps e a s k in
      let (co1, ok1) = refresh_sound e a s old.0 co k in
      let back = SameView-sym v1 in
      let (co2, ok2, all2) =
        count_valid_sound es s.1 t (transfer (λ t v. All (EndorsementCoherent t v) es) v1 old.1) co1
          m in
      subst_some
        (λ (s : ℕ × List EndorsementInfo × QueryStore).
          Coherent s.2
          × CountsValid a.threshold (view a) (endorsements_of (e ∷ es)) s.0
          × All (EndorsementCoherent a.threshold (view a)) s.1)
        n
        (
          co2,
          counts_cons e.endorsement (endorsements_of es) s.0.cached.result ok1
              (transfer (λ th v. CountsValid th v (endorsements_of es) t.0) back ok2),
          (
            (λ _.
                subst
                  (λ (x : Endorsement).
                    NoneApplicable a.threshold (view a) x.conditions s.0.cached.result)
                  (sym e1) ok1),
            transfer (λ th v. All (EndorsementCoherent th v) t.1) back all2,
          ),
        )

  compute_sound :
      (u : String) (q : QueryInfo) (a : QueryStore) (r : Bool × QueryStore)
      → view a u ≡ some (core q)
      → q.state ≡ pending
      → All (EndorsementCoherent a.threshold (view a)) q.endorsements
      → Coherent a
      → compute f u q a ≡ some r
      → Coherent r.1 × Evaluates a.threshold (view a) u r.0
  unfolding compute
  compute_sound u q a r here live old co h =
      elim (if-cases (ltb (length q.endorsements) a.threshold) h) [
        | inl (t, p) ↦
            let ev = too_few (core q) here live (rw length-endorsements_of t) in
            subst_some
              (λ (s : Bool × QueryStore). Coherent s.1 × Evaluates a.threshold (view a) u s.0) p
              (
                Coherent-put u _ a here
                    (record { query_result = λ _ _. ev; endorsement_results = old }) co,
                ev,
              )
        | inr (t, p) ↦
            let (s, k, l) = >>=-eq-some (count_valid f q.endorsements a) _ p in
            let (v, e) = count_valid-SameView f keeps q.endorsements a s k in
            let (co', n, all) = count_valid_sound q.endorsements a s old co k in
            let ev = counted (core q) here live (rw length-endorsements_of t) s.0 n refl in
            subst_some
              (λ (s : Bool × QueryStore). Coherent s.1 × Evaluates a.threshold (view a) u s.0) l
              (
                Coherent-put u _ s.2 (v.views u ∙ here ∙ cc)
                    (record {
                      query_result =
                          λ _ _. transfer (λ th w. Evaluates th w u (leb a.threshold s.0)) v ev;
                      endorsement_results =
                          transfer (λ th w. All (EndorsementCoherent th w) s.1) v all;
                    })
                    co',
                ev,
              )
      ]

  by_state_sound :
      (st : QueryState) (u : String) (q : QueryInfo) (a : QueryStore) (r : Bool × QueryStore)
      → lookup u a.queries ≡ some q
      → q.state ≡ st
      → Coherent a
      → by_state f st u q a ≡ some r
      → Coherent r.1 × Evaluates a.threshold (view a) u r.0
  unfolding by_state
  by_state_sound dropped u q a r here st co h =
      subst_some (λ (s : Bool × QueryStore). Coherent s.1 × Evaluates a.threshold (view a) u s.0) h
        (co, was_dropped (core q) (ap core_of here) st)
  by_state_sound committed u q a r here st co h =
      subst_some (λ (s : Bool × QueryStore). Coherent s.1 × Evaluates a.threshold (view a) u s.0) h
        (co, was_committed (core q) (ap core_of here) st)
  by_state_sound pending u q a r here st co h = elim (if-cases q.cached.fresh h) [
    | inl (t, p) ↦
        subst_some (λ (s : Bool × QueryStore). Coherent s.1 × Evaluates a.threshold (view a) u s.0)
          p (co, (co.at u q here).query_result st t)
    | inr (t, p) ↦
        compute_sound u q a r (ap core_of here) st (co.at u q here).endorsement_results co p
  ]

-- From a coherent store, where `isApplicable` returns, it returns what the evaluation with no
-- cache gives, and leaves a coherent store.
pub is_applicable_sound :
    (fuel : ℕ) (u : String) (a : QueryStore) (r : Bool × QueryStore)
    → Coherent a
    → is_applicable fuel u a ≡ some r
    → Coherent r.1 × Evaluates a.threshold (view a) u r.0
unfolding is_applicable
is_applicable_sound zero u a r co h = cc
is_applicable_sound (suc fuel) u a r co h = elim (Option-cases (lookup u a.queries)) [
  | inl p ↦
      subst_some (λ (s : Bool × QueryStore). Coherent s.1 × Evaluates a.threshold (view a) u s.0)
        (rw (p, is_applicable) at h) (co, absent (ap core_of p))
  | inr (q, p) ↦
      by_state_sound (is_applicable fuel) (is_applicable-SameView fuel) (is_applicable_sound fuel)
        q.state u q a r p refl co (rw (p, is_applicable) at h)
]
