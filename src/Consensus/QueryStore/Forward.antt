-- ===== src/Consensus/QueryStore/Forward.antt =====
-- That a query only goes forward through its states, for the single operations.
use pnyxdb.Base.{
  ℕ, zero, suc, ◌≤◌, String, ◌≡◌, ap, ◌∙◌, Bool, true, false, not, Option, none, some, List, [],
  ◌∷◌, lookup, eq_iff, arith, leb, if◌then◌else◌, inl, inr, >>=-eq-some, if-cases, Option-cases,
  subst_some,
}
use pnyxdb.Consensus.Query.{Query, Proof}
use pnyxdb.Consensus.QueryStore.State.{
  QueryState, pending, committed, dropped, QueryInfo, QueryStore, check_speculative_state,
}
use pnyxdb.Consensus.QueryStore.Check.{
  by_state, is_applicable, commit, count_definite, decide, check_state, is_committed, info_or_zero,
  checkpoint_choice, drop_all,
}
use pnyxdb.Consensus.QueryStore.View.{Core, core, core_of, view, is_applicable-SameView}
use pnyxdb.Consensus.QueryStore.Marking.{WellFormed}
use pnyxdb.Consensus.QueryStore.Terminal.{drop_all-Drops, commit_lem, commit-WellFormed}
use pnyxdb.Consensus.QueryStore.States.{
  status, state_of, SameStates, SameStates-refl, SameStates-trans, SameStates-SameView,
  speculative-SameStates,
}
use pnyxdb.Consensus.QueryStore.Arrivals.{Arrives}
use pnyxdb.Consensus.QueryStore.Decision.{count_definite_lem}

-- The order in which a query passes through its states.
abbrev pub stage : Option QueryState → ℕ
stage none = 0
stage (some pending) = 1
stage (some committed) = 2
stage (some dropped) = 3

pub record Advances (a b : QueryStore) : Type 0 where
  pub forward : (u : String) → stage (status a u) ≤ stage (status b u)
  pub well_formed : WellFormed b

pub Advances-trans : {a b c : QueryStore} → Advances a b → Advances b c → Advances a c
Advances-trans p q = record {
  forward = λ u. omega (arith, p.forward u, q.forward u);
  well_formed = q.well_formed;
}

pub Advances-SameStates : {a b : QueryStore} → WellFormed a → SameStates a b → Advances a b
Advances-SameStates w s = record {
  forward = λ u. ground (arith, s.states u);
  well_formed = s.well_formed w;
}

pub Advances-Arrives :
    (q : Query) (a : QueryStore) (r : Bool × QueryStore) → Arrives q a r → Advances a r.1
Advances-Arrives q a r h = record {
  forward = λ u. ground (arith, h.states u);
  well_formed = h.well_formed;
}

pub Advances-drop_all :
    (fuel : ℕ) (ds : List String) (a b : QueryStore)
    → WellFormed a
    → drop_all fuel ds a ≡ some b
    → Advances a b
Advances-drop_all fuel ds a b w h =
    let d = drop_all-Drops fuel ds a b w h in
    record { forward = λ u. ground (arith, d.views u); well_formed = d.well_formed }

pub by_state-stage :
    (f : String → QueryStore → Option (Bool × QueryStore)) (st : QueryState) (u : String)
    (q : QueryInfo) (a : QueryStore) (s : Bool × QueryStore)
    → by_state f st u q a ≡ some s
    → s.0 ≡ true
    → stage (some st) ≤ 2
unfolding by_state
by_state-stage f dropped u q a s h t = cc
by_state-stage f committed u q a s h t = omega arith
by_state-stage f pending u q a s h t = omega arith

-- A query that is evaluated as applicable is stored, and not dropped.
pub applicable-stage :
    (fuel : ℕ) (u : String) (a : QueryStore) (s : Bool × QueryStore)
    → is_applicable fuel u a ≡ some s
    → s.0 ≡ true
    → (stage (status a u) ≤ 2) × ((k : Core) × (view a u ≡ some k))
unfolding is_applicable
applicable-stage zero u a s h t = cc
applicable-stage (suc fuel) u a s h t = elim (Option-cases (lookup u a.queries)) [
  | inl p ↦ cc (rw (p, is_applicable) at h, t)
  | inr (q, p) ↦
      let low =
        by_state-stage (is_applicable fuel) q.state u q a s (rw (p, is_applicable) at h) t in
      (ground (arith, low, ap core_of p), (core q, ap core_of p))
]

pub Advances-commit :
    (fuel : ℕ) (u : String) (a b : QueryStore) (k : Core)
    → WellFormed a
    → view a u ≡ some k
    → stage (status a u) ≤ 2
    → commit fuel u a ≡ some b
    → Advances a b
Advances-commit fuel u a b k w here low h = record {
  forward = λ j. ground (arith, commit_lem fuel u a b k w here h j, eq_iff u j);
  well_formed = commit-WellFormed fuel u a b k w here h;
}

pub Advances-decide :
    (fuel now : ℕ) (u : String) (qi : QueryInfo) (a : QueryStore) (k : Core)
    (r : Bool × List String × QueryStore)
    → WellFormed a
    → view a u ≡ some k
    → stage (status a u) ≤ 2
    → decide fuel now u qi a ≡ some r
    → Advances a r.2
unfolding decide
Advances-decide fuel now u qi a k r w here low h =
    let (s, m, l) = >>=-eq-some (count_definite fuel now qi.endorsements 0 [] a) _ h in
    let (v, x) = count_definite_lem fuel now qi.endorsements 0 [] a s m in
    let counted = Advances-SameStates w (SameStates-SameView v) in
    elim (if-cases (leb a.threshold s.0) l) [
      | inl (t, p) ↦
          let (b, e, n) = >>=-eq-some (commit fuel u s.2) _ p in
          subst_some (λ (r : Bool × List String × QueryStore). Advances a r.2) n
            (Advances-trans counted (
              Advances-commit fuel u s.2 b k counted.well_formed (v.views u ∙ here)
                (ground (arith, low, v.views u)) e))
      | inr (t, p) ↦ subst_some (λ (r : Bool × List String × QueryStore). Advances a r.2) p counted
    ]

pub view-SameStates :
    {a b : QueryStore} (u : String) (k : Core)
    → SameStates a b
    → view a u ≡ some k
    → (l : Core) × (view b u ≡ some l)
view-SameStates {a} {b} u k s h = elim (Option-cases (view b u)) [
  | inl p ↦ cc (ap state_of p, s.states u, ap state_of h)
  | inr l ↦ l
]

pub Advances-branches :
    (fuel now : ℕ) (u : String) (x : Bool) (qi : QueryInfo) (a b : QueryStore)
    (r : Bool × List String × QueryStore)
    → WellFormed a
    → SameStates a b
    → (x ≡ true → (stage (status a u) ≤ 2) × ((k : Core) × (view a u ≡ some k)))
    → (if not x
        then some (false, [], b)
        else if is_committed qi.state
        then some (false, [], b)
        else decide fuel now u qi b)
      ≡ some r
    → Advances a r.2
Advances-branches fuel now u x qi a b r w same live l =
    let start = Advances-SameStates w same in
    elim (if-cases (not x) l) [
      | inl (t, p) ↦ subst_some (λ (r : Bool × List String × QueryStore). Advances a r.2) p start
      | inr (t, p) ↦ elim (if-cases (is_committed qi.state) p) [
        | inl (t2, p2) ↦
            subst_some (λ (r : Bool × List String × QueryStore). Advances a r.2) p2 start
        | inr (t2, p2) ↦
            let (low, (k, here)) = live (ground (arith, t)) in
            let (l, there) = view-SameStates u k same here in
            Advances-trans start (
              Advances-decide fuel now u qi b l r start.well_formed there
                (ground (arith, low, same.states u)) p2)
      ]
    ]

pub Advances-check_state :
    (fuel now : ℕ) (u : String) (a : QueryStore) (r : Bool × List String × QueryStore)
    → WellFormed a
    → check_state fuel now u a ≡ some r
    → Advances a r.2
unfolding check_state
Advances-check_state fuel now u a r w h =
    let (x, m, l) = >>=-eq-some (is_applicable fuel u a) _ h in
    let b = check_speculative_state u x.0 x.1 in
    let same =
      SameStates-trans (SameStates-SameView (is_applicable-SameView fuel u a x m))
        (speculative-SameStates u x.0 x.1) in
    Advances-branches fuel now u x.0 (info_or_zero (lookup u b.queries)) a b r w same
      (applicable-stage fuel u a x m) l

pub checkpoint_choice-SameStates :
    (fuel : ℕ) (us : List String) (a : QueryStore) (r : Bool × List Proof × QueryStore)
    → checkpoint_choice fuel us a ≡ some r
    → SameStates a r.2
unfolding checkpoint_choice
checkpoint_choice-SameStates fuel [] a r h =
    subst_some (λ (r : Bool × List Proof × QueryStore). SameStates a r.2) h (SameStates-refl a)
checkpoint_choice-SameStates fuel (u ∷ us) a r h =
    let (x, m, l) = >>=-eq-some (is_applicable fuel u a) _ h in
    let same = SameStates-SameView (is_applicable-SameView fuel u a x m) in
    elim (if-cases x.0 l) [
      | inl (t, p) ↦ subst_some (λ (r : Bool × List Proof × QueryStore). SameStates a r.2) p same
      | inr (t, p) ↦ SameStates-trans same (checkpoint_choice-SameStates fuel us x.1 r p)
    ]
