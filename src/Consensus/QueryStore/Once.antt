-- ===== src/Consensus/QueryStore/Once.antt =====
-- A query commits once: `CheckState` says so for one call at most.
use pnyxdb.Base.{
  ℕ, ◌≤◌, String, ◌≡◌, ap, ◌∙◌, Bool, true, false, not, some, List, [], lookup, eq_refl, arith, leb,
  inl, inr, >>=-eq-some, if-cases, Bool-cases, contains, subst_some,
}
use pnyxdb.Consensus.QueryStore.State.{QueryInfo, QueryStore, check_speculative_state}
use pnyxdb.Consensus.QueryStore.Check.{
  is_applicable, commit, count_definite, decide, check_state, is_committed, info_or_zero,
}
use pnyxdb.Consensus.QueryStore.View.{Core, view, is_applicable-SameView}
use pnyxdb.Consensus.QueryStore.Marking.{WellFormed}
use pnyxdb.Consensus.QueryStore.Terminal.{commit_lem}
use pnyxdb.Consensus.QueryStore.States.{
  status, state_of, SameStates-trans, SameStates-SameView, speculative-SameStates,
}
use pnyxdb.Consensus.QueryStore.Decision.{count_definite_lem, check_state_decision}
use pnyxdb.Consensus.QueryStore.Forward.{
  stage, Advances-check_state, Advances-SameStates, applicable-stage, view-SameStates,
}
use pnyxdb.Consensus.QueryStore.Reachable.{Reach, Reach-Advances}

decide-stage :
    (fuel now : ℕ) (u : String) (qi : QueryInfo) (a : QueryStore) (k : Core)
    (r : Bool × List String × QueryStore)
    → WellFormed a
    → view a u ≡ some k
    → decide fuel now u qi a ≡ some r
    → r.0 ≡ true
    → 2 ≤ stage (status r.2 u)
unfolding decide
decide-stage fuel now u qi a k r w here h t =
    let (s, m, l) = >>=-eq-some (count_definite fuel now qi.endorsements 0 [] a) _ h in
    let (v, x) = count_definite_lem fuel now qi.endorsements 0 [] a s m in
    let counted = Advances-SameStates w (SameStates-SameView v) in
    elim (if-cases (leb a.threshold s.0) l) [
      | inl (c, p) ↦
          let (b, e, n) = >>=-eq-some (commit fuel u s.2) _ p in
          let ends = commit_lem fuel u s.2 b k counted.well_formed (v.views u ∙ here) e u in
          subst_some (λ (r : Bool × List String × QueryStore). 2 ≤ stage (status r.2 u)) n
            (elim (Bool-cases (contains u k.dependents)) [
              | inl d ↦ rw (ends, eq_refl) (rw d (omega arith))
              | inr d ↦ rw (ends, eq_refl) (rw d (omega arith))
            ])
      | inr (c, p) ↦ cc (p, t)
    ]

pub check_state-stage :
    (fuel now : ℕ) (u : String) (a : QueryStore) (r : Bool × List String × QueryStore)
    → WellFormed a
    → check_state fuel now u a ≡ some r
    → r.0 ≡ true
    → 2 ≤ stage (status r.2 u)
unfolding check_state
check_state-stage fuel now u a r w h t =
    let (x, m, l) = >>=-eq-some (is_applicable fuel u a) _ h in
    let b = check_speculative_state u x.0 x.1 in
    let same =
      SameStates-trans (SameStates-SameView (is_applicable-SameView fuel u a x m))
        (speculative-SameStates u x.0 x.1) in
    let qi = info_or_zero (lookup u b.queries) in
    elim (if-cases (not x.0) l) [
      | inl (c, p) ↦ cc (p, t)
      | inr (c, p) ↦ elim (if-cases (is_committed qi.state) p) [
        | inl (c2, p2) ↦ cc (p2, t)
        | inr (c2, p2) ↦
            let (low, (k, here)) = applicable-stage fuel u a x m (ground (arith, c)) in
            let (k', there) = view-SameStates u k same here in
            decide-stage fuel now u qi b k' r (Advances-SameStates w same).well_formed there p2 t
      ]
    ]

-- From a well-formed store: once `CheckState` commits a query, no later call of it, whatever calls
-- come between, commits that query again.
pub commits_once :
    (fuel now later_fuel later : ℕ) (u : String) (a c : QueryStore)
    (r s : Bool × List String × QueryStore)
    → WellFormed a
    → check_state fuel now u a ≡ some r
    → r.0 ≡ true
    → Reach r.2 c
    → check_state later_fuel later u c ≡ some s
    → s.0 ≡ false
unfolding check_state
commits_once fuel now later_fuel later u a c r s w h t reach again =
    let first = Advances-check_state fuel now u a r w h in
    let high : 2 ≤ stage (status c u) = omega (
      arith,
      check_state-stage fuel now u a r w h t,
      (Reach-Advances first.well_formed reach).forward u,
    ) in
    let (x, m, l) = >>=-eq-some (is_applicable later_fuel u c) _ again in
    elim (Bool-cases x.0) [
      | inr unfit ↦ elim (if-cases (not x.0) l) [
        | inl (t, p) ↦ cc p
        | inr (t, p) ↦ ground (arith, t, unfit)
      ]
      | inl fit ↦
          let (low, (k, here)) = applicable-stage later_fuel u c x m fit in
          check_state_decision later_fuel later u c k x s here m again
          ∙ ground (arith, high, low, ap state_of here)
    ]
