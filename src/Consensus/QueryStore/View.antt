-- ===== src/Consensus/QueryStore/View.antt =====
-- What the store says with its caches left out, and that `isApplicable` leaves it alone.
use pnyxdb.Base.{
  ℕ, zero, suc, String, ◌≡◌, refl, sym, ap, ◌∙◌, Bool, Option, none, some, List, [], ◌∷◌, lookup,
  lookup-insert, str_eq, eq_iff, arith, ltb, length, if◌then◌else◌, inl, inr, >>=-eq-some, if-cases,
  Option-cases, subst_some,
}
use pnyxdb.Consensus.Query.{Query, Endorsement}
use pnyxdb.Consensus.QueryStore.State.{
  QueryState, pending, committed, dropped, QueryInfo, EndorsementInfo, QueryStore, put,
}
use pnyxdb.Consensus.QueryStore.Check.{
  none_applicable, refresh, count_valid, compute, by_state, is_applicable,
}

-- An entry of the store without its caches.
pub record Core : Type 0 where
  pub query : Option Query
  pub endorsements : List Endorsement
  pub dependents : List String
  pub state : QueryState
  pub endorsed : Bool
  pub applied : Bool

abbrev pub endorsements_of : List EndorsementInfo → List Endorsement
endorsements_of [] = []
endorsements_of (e ∷ es) = e.endorsement ∷ endorsements_of es

abbrev pub core : QueryInfo → Core
core qi = record {
  query = qi.query;
  endorsements = endorsements_of qi.endorsements;
  dependents = qi.dependents;
  state = qi.state;
  endorsed = qi.endorsed;
  applied = qi.applied;
}

abbrev pub core_of : Option QueryInfo → Option Core
core_of none = none
core_of (some qi) = some (core qi)

abbrev pub View : Type 0
View = String → Option Core

abbrev pub view : QueryStore → View
view qs uuid = core_of (lookup uuid qs.queries)

pub record SameView (a b : QueryStore) : Type 0 where
  pub views : (uuid : String) → view b uuid ≡ view a uuid
  pub threshold : b.threshold ≡ a.threshold
  pub dependencies : b.pending_dependencies ≡ a.pending_dependencies
  pub waiting : b.pending_endorsements ≡ a.pending_endorsements

pub SameView-refl : (a : QueryStore) → SameView a a
SameView-refl a = record {
  views = λ u. refl;
  threshold = refl;
  dependencies = refl;
  waiting = refl;
}

pub SameView-sym : {a b : QueryStore} → SameView a b → SameView b a
SameView-sym p = record {
  views = λ u. sym (p.views u);
  threshold = sym p.threshold;
  dependencies = sym p.dependencies;
  waiting = sym p.waiting;
}

pub SameView-trans : {a b c : QueryStore} → SameView a b → SameView b c → SameView a c
SameView-trans p q = record {
  views = λ u. q.views u ∙ p.views u;
  threshold = q.threshold ∙ p.threshold;
  dependencies = q.dependencies ∙ p.dependencies;
  waiting = q.waiting ∙ p.waiting;
}

pub view-put :
    (u j : String) (q : QueryInfo) (a : QueryStore)
    → view (put u q a) j ≡ (if str_eq u j then some (core q) else view a j)
view-put u j q a = ground (arith, lookup-insert u j q a.queries)

-- A write that changes caches only.
pub SameView-put :
    (u : String) (q : QueryInfo) (a : QueryStore)
    → view a u ≡ some (core q)
    → SameView a (put u q a)
SameView-put u q a h = record {
  views = λ j. ground (arith, lookup-insert u j q a.queries, eq_iff u j);
  threshold = refl;
  dependencies = refl;
  waiting = refl;
}

-- A step function that reads the store by its view, and writes caches only.
abbrev pub Evaluator : Type 0
Evaluator = String → QueryStore → Option (Bool × QueryStore)

abbrev pub KeepsView : Evaluator → Type 0
KeepsView f =
    (c : String) (a : QueryStore) (r : Bool × QueryStore) → f c a ≡ some r → SameView a r.1

module _ (f : Evaluator) (keeps : KeepsView f) where
  pub none_applicable-SameView : (cs : List String) → KeepsView (λ _. none_applicable f cs)
  unfolding none_applicable
  none_applicable-SameView [] u a r h =
      subst_some (λ (s : Bool × QueryStore). SameView a s.1) h (SameView-refl a)
  none_applicable-SameView (c ∷ cs) u a r h =
      let (s, e, k) = >>=-eq-some (f c a) _ h in
      elim (if-cases s.0 k) [
        | inl (t, p) ↦ subst_some (λ (s : Bool × QueryStore). SameView a s.1) p (keeps c a s e)
        | inr (t, p) ↦ SameView-trans (keeps c a s e) (none_applicable-SameView cs u s.1 r p)
      ]

  pub refresh-SameView :
      (e : EndorsementInfo) (a : QueryStore) (r : EndorsementInfo × QueryStore)
      → refresh f e a ≡ some r
      → (SameView a r.1) × (r.0.endorsement ≡ e.endorsement)
  unfolding refresh
  refresh-SameView e a r h = elim (if-cases e.cached.fresh h) [
    | inl (t, p) ↦
        (subst_some (λ (s : EndorsementInfo × QueryStore). SameView a s.1) p (SameView-refl a), cc)
    | inr (t, p) ↦
        let (s, k, l) = >>=-eq-some (none_applicable f e.endorsement.conditions a) _ p in
        (
          subst_some (λ (s : EndorsementInfo × QueryStore). SameView a s.1) l
              (none_applicable-SameView e.endorsement.conditions "" a s k),
          cc,
        )
  ]

  pub count_valid-SameView :
      (es : List EndorsementInfo) (a : QueryStore) (r : ℕ × List EndorsementInfo × QueryStore)
      → count_valid f es a ≡ some r
      → (SameView a r.2) × (endorsements_of r.1 ≡ endorsements_of es)
  unfolding count_valid
  count_valid-SameView [] a r h = (
    subst_some (λ (s : ℕ × List EndorsementInfo × QueryStore). SameView a s.2) h (SameView-refl a),
    cc,
  )
  count_valid-SameView (e ∷ es) a r h =
      let (s, k, l) = >>=-eq-some (refresh f e a) _ h in
      let (t, m, n) = >>=-eq-some (count_valid f es s.1) _ l in
      let (v1, e1) = refresh-SameView e a s k in
      let (v2, e2) = count_valid-SameView es s.1 t m in
      (
        subst_some (λ (s : ℕ × List EndorsementInfo × QueryStore). SameView a s.2) n
            (SameView-trans v1 v2),
        cc,
      )

  pub compute-SameView :
      (u : String) (q : QueryInfo) (a : QueryStore) (r : Bool × QueryStore)
      → view a u ≡ some (core q)
      → compute f u q a ≡ some r
      → SameView a r.1
  unfolding compute
  compute-SameView u q a r here h = elim (if-cases (ltb (length q.endorsements) a.threshold) h) [
    | inl (t, p) ↦
        subst_some (λ (s : Bool × QueryStore). SameView a s.1) p (SameView-put u _ a here)
    | inr (t, p) ↦
        let (s, k, l) = >>=-eq-some (count_valid f q.endorsements a) _ p in
        let (v, e) = count_valid-SameView q.endorsements a s k in
        subst_some (λ (s : Bool × QueryStore). SameView a s.1) l
          (SameView-trans v (SameView-put u _ s.2 (v.views u ∙ here ∙ cc)))
  ]

  pub by_state-SameView :
      (st : QueryState) (u : String) (q : QueryInfo) (a : QueryStore) (r : Bool × QueryStore)
      → view a u ≡ some (core q)
      → by_state f st u q a ≡ some r
      → SameView a r.1
  unfolding by_state
  by_state-SameView dropped u q a r here h =
      subst_some (λ (s : Bool × QueryStore). SameView a s.1) h (SameView-refl a)
  by_state-SameView committed u q a r here h =
      subst_some (λ (s : Bool × QueryStore). SameView a s.1) h (SameView-refl a)
  by_state-SameView pending u q a r here h = elim (if-cases q.cached.fresh h) [
    | inl (t, p) ↦ subst_some (λ (s : Bool × QueryStore). SameView a s.1) p (SameView-refl a)
    | inr (t, p) ↦ compute-SameView u q a r here p
  ]

-- Evaluating a query changes caches only.
pub is_applicable-SameView : (fuel : ℕ) → KeepsView (is_applicable fuel)
unfolding is_applicable
is_applicable-SameView zero u a r h = cc
is_applicable-SameView (suc fuel) u a r h = elim (Option-cases (lookup u a.queries)) [
  | inl p ↦
      subst_some (λ (s : Bool × QueryStore). SameView a s.1) (rw (p, is_applicable) at h)
        (SameView-refl a)
  | inr (q, p) ↦
      by_state-SameView (is_applicable fuel) (is_applicable-SameView fuel) q.state u q a r
        (ap core_of p) (rw (p, is_applicable) at h)
]
