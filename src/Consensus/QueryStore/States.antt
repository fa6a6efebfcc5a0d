-- ===== src/Consensus/QueryStore/States.antt =====
-- The states of the queries, and operations that leave them all alone.
use pnyxdb.Base.{
  String, ◌≡◌, refl, ap, ◌∙◌, Bool, Option, none, some, lookup, eq_iff, arith, inl, inr,
  Option-cases,
}
use pnyxdb.Consensus.QueryStore.State.{
  QueryState, QueryInfo, QueryStore, put, endorse, check_speculative_state,
}
use pnyxdb.Consensus.QueryStore.View.{Core, core_of, view, view-put, SameView}
use pnyxdb.Consensus.QueryStore.Marking.{WellFormed, WellFormed-SameView, WellFormed-put}

abbrev pub state_of : Option Core → Option QueryState
state_of none = none
state_of (some k) = some k.state

-- The state of a query; `none` for one that is not stored.
abbrev pub status : QueryStore → String → Option QueryState
status a u = state_of (view a u)

pub record SameStates (a b : QueryStore) : Type 0 where
  pub states : (u : String) → status b u ≡ status a u
  pub threshold : b.threshold ≡ a.threshold
  pub well_formed : WellFormed a → WellFormed b

pub SameStates-refl : (a : QueryStore) → SameStates a a
SameStates-refl a = record { states = λ u. refl; threshold = refl; well_formed = λ w. w }

pub SameStates-trans : {a b c : QueryStore} → SameStates a b → SameStates b c → SameStates a c
SameStates-trans p q = record {
  states = λ u. q.states u ∙ p.states u;
  threshold = q.threshold ∙ p.threshold;
  well_formed = λ w. q.well_formed (p.well_formed w);
}

pub SameStates-SameView : {a b : QueryStore} → SameView a b → SameStates a b
SameStates-SameView s = record {
  states = λ u. ap state_of (s.views u);
  threshold = s.threshold;
  well_formed = WellFormed-SameView s;
}

-- A write to a stored entry that keeps its query and its state.
pub SameStates-put :
    (u : String) (qi new : QueryInfo) (a : QueryStore)
    → lookup u a.queries ≡ some qi
    → new.query ≡ qi.query
    → new.state ≡ qi.state
    → SameStates a (put u new a)
SameStates-put u qi new a p q s = record {
  states = λ j. ground (arith, view-put u j new a, eq_iff u j, ap core_of p);
  threshold = refl;
  well_formed = λ w.
      let (x, holds, name) = w.named u _ (ap core_of p) in
      WellFormed-put u new x a (q ∙ holds) name w;
}

pub endorse-SameStates : (u : String) (a : QueryStore) → SameStates a (endorse u a)
unfolding endorse
endorse-SameStates u a = elim (Option-cases (lookup u a.queries)) [
  | inl p ↦ rw (p, endorse) (SameStates-refl a)
  | inr (qi, p) ↦ rw (p, endorse) (SameStates-put u qi _ a p refl refl)
]

pub speculative-SameStates :
    (u : String) (x : Bool) (a : QueryStore) → SameStates a (check_speculative_state u x a)
unfolding check_speculative_state
speculative-SameStates u x a = elim (Option-cases (lookup u a.queries)) [
  | inl p ↦ rw (p, check_speculative_state) (SameStates-refl a)
  | inr (qi, p) ↦ rw (p, check_speculative_state) (SameStates-put u qi _ a p refl refl)
]
