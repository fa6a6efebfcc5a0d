-- ===== src/Consensus/QueryStore/Termination.antt =====
-- The recursion of `isApplicable`: it ends where conditions lead to ever lower ranks, and never
-- where a query is a condition of its own first endorsement.
use pnyxdb.Base.{
  ℕ, zero, suc, ◌<◌, ◌≤◌, String, ◌≡◌, refl, sym, ap, ◌∙◌, false, none, some, List, [], ◌∷◌, lookup,
  arith, ltb, length, All, inl, inr, Option-cases, Returns, Returns-some, Returns->>=, Returns-if,
}
use pnyxdb.Consensus.Query.{Endorsement}
use pnyxdb.Consensus.QueryStore.State.{
  QueryState, pending, committed, dropped, QueryInfo, EndorsementInfo, QueryStore,
}
use pnyxdb.Consensus.QueryStore.Check.{
  none_applicable, refresh, count_valid, compute, by_state, is_applicable,
}
use pnyxdb.Consensus.QueryStore.View.{
  Core, core_of, endorsements_of, View, view, SameView, Evaluator, KeepsView, refresh-SameView,
  is_applicable-SameView,
}

-- Each condition of the endorsements has a rank below `n`.
abbrev pub ConditionsBelow : (String → ℕ) → ℕ → List Endorsement → Type 0
ConditionsBelow rank n es = All (λ e. All (λ c. rank c < n) (Endorsement.conditions e)) es

-- The conditions of a query's endorsements rank below the query.
pub record Ranked (rank : String → ℕ) (v : View) : Type 0 where
  pub below : (u : String) (k : Core) → v u ≡ some k → ConditionsBelow rank (rank u) k.endorsements

pub Ranked-SameView :
    (rank : String → ℕ) {a b : QueryStore}
    → SameView a b
    → Ranked rank (view a)
    → Ranked rank (view b)
Ranked-SameView rank s h = record { below = λ u k p. h.below u k (sym (s.views u) ∙ p) }

abbrev ReturnsBelow : (String → ℕ) → ℕ → Evaluator → Type 0
ReturnsBelow rank n f =
    (c : String) (a : QueryStore) → Ranked rank (view a) → rank c < n → Returns (f c a)

module _ (rank : String → ℕ) (n : ℕ) (f : Evaluator) (keeps : KeepsView f)
    (returns : ReturnsBelow rank n f) where
  none_applicable-Returns :
      (cs : List String) (a : QueryStore)
      → Ranked rank (view a)
      → All (λ c. rank c < n) cs
      → Returns (none_applicable f cs a)
  unfolding none_applicable
  none_applicable-Returns [] a w h = Returns-some _
  none_applicable-Returns (c ∷ cs) a w h = Returns->>= (f c a) _ (returns c a w h.0) (λ s e.
      Returns-if s.0 (Returns-some _)
        (none_applicable-Returns cs s.1 (Ranked-SameView rank (keeps c a s e) w) h.1))

  refresh-Returns :
      (e : EndorsementInfo) (a : QueryStore)
      → Ranked rank (view a)
      → All (λ c. rank c < n) e.endorsement.conditions
      → Returns (refresh f e a)
  unfolding refresh
  refresh-Returns e a w h = Returns-if e.cached.fresh (Returns-some _) (
      Returns->>= _ _ (none_applicable-Returns e.endorsement.conditions a w h)
        (λ s k. Returns-some _))

  count_valid-Returns :
      (es : List EndorsementInfo) (a : QueryStore)
      → Ranked rank (view a)
      → ConditionsBelow rank n (endorsements_of es)
      → Returns (count_valid f es a)
  unfolding count_valid
  count_valid-Returns [] a w h = Returns-some _
  count_valid-Returns (e ∷ es) a w h =
      Returns->>= (refresh f e a) _ (refresh-Returns e a w h.0) (λ s k.
        Returns->>= (count_valid f es s.1) _
          (count_valid-Returns es s.1 (Ranked-SameView rank (refresh-SameView f keeps e a s k).0 w)
            h.1)
          (λ t l. Returns-some _))

  by_state-Returns :
      (st : QueryState) (u : String) (q : QueryInfo) (a : QueryStore)
      → Ranked rank (view a)
      → ConditionsBelow rank n (endorsements_of q.endorsements)
      → Returns (by_state f st u q a)
  unfolding by_state compute
  by_state-Returns dropped u q a w h = Returns-some _
  by_state-Returns committed u q a w h = Returns-some _
  by_state-Returns pending u q a w h = Returns-if q.cached.fresh (Returns-some _) (
      Returns-if (ltb (length q.endorsements) a.threshold) (Returns-some _) (
        Returns->>= (count_valid f q.endorsements a) _ (count_valid-Returns q.endorsements a w h)
          (λ s k. Returns-some _)))

pub ConditionsBelow-le :
    (rank : String → ℕ) (m n : ℕ) (es : List Endorsement)
    → m ≤ n
    → ConditionsBelow rank m es
    → ConditionsBelow rank n es
ConditionsBelow-le rank m n [] l h = h
ConditionsBelow-le rank m n (e ∷ es) l h =
    (widen e.conditions h.0, ConditionsBelow-le rank m n es l h.1)
  where
    widen : (cs : List String) → All (λ c. rank c < m) cs → All (λ c. rank c < n) cs
    widen [] h = h
    widen (c ∷ cs) h = (omega arith, widen cs h.1)

-- Where conditions go down in rank, fuel above the rank of a query lets its evaluation return.
pub is_applicable-Returns :
    (rank : String → ℕ) (fuel : ℕ) (u : String) (a : QueryStore)
    → Ranked rank (view a)
    → rank u < fuel
    → Returns (is_applicable fuel u a)
unfolding is_applicable
is_applicable-Returns rank zero u a w h = absurd (omega arith)
is_applicable-Returns rank (suc fuel) u a w h = elim (Option-cases (lookup u a.queries)) [
  | inl p ↦ rw (p, is_applicable) (Returns-some _)
  | inr (q, p) ↦
      rw (p, is_applicable)
        (by_state-Returns rank fuel (is_applicable fuel) (is_applicable-SameView fuel)
          (λ c b. is_applicable-Returns rank fuel c b) q.state u q a w
          (ConditionsBelow-le rank (rank u) fuel (endorsements_of q.endorsements) (omega arith)
            (w.below u _ (ap core_of p))))
]

-- A pending query whose first endorsement is to be evaluated, and has the query as its first
-- condition. One member of the network can send such an endorsement.
pub record Circular (u : String) (a : QueryStore) : Type 0 where
  pub info : QueryInfo
  pub first : EndorsementInfo
  pub others : List EndorsementInfo
  pub more : List String
  pub stored : lookup u a.queries ≡ some info
  pub is_live : info.state ≡ pending
  pub stale : info.cached.fresh ≡ false
  pub listed : info.endorsements ≡ first ∷ others
  pub enough : ltb (suc (length others)) a.threshold ≡ false
  pub first_stale : first.cached.fresh ≡ false
  pub own_condition : first.endorsement.conditions ≡ u ∷ more

-- No fuel is enough for a pending query whose first endorsement is to be evaluated and has the
-- query itself as its first condition: the recursion of the code does not end.
pub is_applicable-Circular :
    (fuel : ℕ) (u : String) (a : QueryStore) → Circular u a → is_applicable fuel u a ≡ none
unfolding is_applicable by_state compute count_valid refresh none_applicable
is_applicable-Circular zero u a c = refl
is_applicable-Circular (suc fuel) u a c =
    let ih = is_applicable-Circular fuel u a c in
    rw (c.stored, is_applicable)
      (simp (c.is_live, c.stale, c.enough, c.listed, c.first_stale, c.own_condition, ih))
