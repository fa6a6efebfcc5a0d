-- ===== src/Consensus/QueryStore/Sizes.antt =====
-- An evaluation, and what `CheckState` does up to the commit, make no new entry.
use pnyxdb.Base.{
  ℕ, zero, suc, String, ◌≡◌, refl, ap, ◌∙◌, Bool, Option, none, some, List, [], ◌∷◌, lookup, length,
  ltb, if◌then◌else◌, inl, inr, >>=-eq-some, if-cases, Option-cases, Bool-cases, subst_some,
}
use pnyxdb.Consensus.QueryStore.State.{
  QueryState, pending, committed, dropped, QueryInfo, EndorsementInfo, QueryStore, put,
  check_speculative_state,
}
use pnyxdb.Consensus.QueryStore.Check.{
  none_applicable, refresh, count_valid, compute, by_state, is_applicable, is_dropped,
  condition_old, definitely_valid, count_definite,
}
use pnyxdb.Consensus.QueryStore.View.{
  Core, core, core_of, view, Evaluator, KeepsView, count_valid-SameView, is_applicable-SameView,
}
use pnyxdb.Consensus.QueryStore.Cascade.{length-insert}

-- The two stores have as many entries.
abbrev pub SameSize : QueryStore → QueryStore → Type 0
SameSize a b = length b.queries ≡ length a.queries

abbrev KeepsSize : Evaluator → Type 0
KeepsSize f =
    (c : String) (a : QueryStore) (r : Bool × QueryStore) → f c a ≡ some r → SameSize a r.1

-- A write to an entry that is there.
put-SameSize :
    (u : String) (q : QueryInfo) (k : Core) (a : QueryStore)
    → view a u ≡ some k
    → SameSize a (put u q a)
put-SameSize u q k a here = elim (Option-cases (lookup u a.queries)) [
  | inl p ↦ cc (ap core_of p)
  | inr (old, p) ↦ length-insert u old q a.queries p
]

module _ (f : Evaluator) (views : KeepsView f) (keeps : KeepsSize f) where
  none_applicable-SameSize : (cs : List String) → KeepsSize (λ _. none_applicable f cs)
  unfolding none_applicable
  none_applicable-SameSize [] u a r h =
      subst_some (λ (s : Bool × QueryStore). SameSize a s.1) h refl
  none_applicable-SameSize (c ∷ cs) u a r h =
      let (s, e, k) = >>=-eq-some (f c a) _ h in
      elim (if-cases s.0 k) [
        | inl (t, p) ↦ subst_some (λ (s : Bool × QueryStore). SameSize a s.1) p (keeps c a s e)
        | inr (t, p) ↦ none_applicable-SameSize cs u s.1 r p ∙ keeps c a s e
      ]

  refresh-SameSize :
      (e : EndorsementInfo) (a : QueryStore) (r : EndorsementInfo × QueryStore)
      → refresh f e a ≡ some r
      → SameSize a r.1
  unfolding refresh
  refresh-SameSize e a r h = elim (if-cases e.cached.fresh h) [
    | inl (t, p) ↦ subst_some (λ (s : EndorsementInfo × QueryStore). SameSize a s.1) p refl
    | inr (t, p) ↦
        let (s, k, l) = >>=-eq-some (none_applicable f e.endorsement.conditions a) _ p in
        subst_some (λ (s : EndorsementInfo × QueryStore). SameSize a s.1) l
          (none_applicable-SameSize e.endorsement.conditions "" a s k)
  ]

  count_valid-SameSize :
      (es : List EndorsementInfo) (a : QueryStore) (r : ℕ × List EndorsementInfo × QueryStore)
      → count_valid f es a ≡ some r
      → SameSize a r.2
  unfolding count_valid
  count_valid-SameSize [] a r h =
      subst_some (λ (s : ℕ × List EndorsementInfo × QueryStore). SameSize a s.2) h refl
  count_valid-SameSize (e ∷ es) a r h =
      let (s, k, l) = >>=-eq-some (refresh f e a) _ h in
      let (t, m, n) = >>=-eq-some (count_valid f es s.1) _ l in
      subst_some (λ (s : ℕ × List EndorsementInfo × QueryStore). SameSize a s.2) n
        (count_valid-SameSize es s.1 t m ∙ refresh-SameSize e a s k)

  by_state-SameSize :
      (st : QueryState) (u : String) (q : QueryInfo) (a : QueryStore) (r : Bool × QueryStore)
      → view a u ≡ some (core q)
      → by_state f st u q a ≡ some r
      → SameSize a r.1
  unfolding by_state compute
  by_state-SameSize dropped u q a r here h =
      subst_some (λ (s : Bool × QueryStore). SameSize a s.1) h refl
  by_state-SameSize committed u q a r here h =
      subst_some (λ (s : Bool × QueryStore). SameSize a s.1) h refl
  by_state-SameSize pending u q a r here h = elim (if-cases q.cached.fresh h) [
    | inl (t, p) ↦ subst_some (λ (s : Bool × QueryStore). SameSize a s.1) p refl
    | inr (t, p) ↦ elim (if-cases (ltb (length q.endorsements) a.threshold) p) [
      | inl (t2, p2) ↦
          subst_some (λ (s : Bool × QueryStore). SameSize a s.1) p2
            (put-SameSize u _ (core q) a here)
      | inr (t2, p2) ↦
          let (s, k, l) = >>=-eq-some (count_valid f q.endorsements a) _ p2 in
          let (v, e) = count_valid-SameView f views q.endorsements a s k in
          subst_some (λ (s : Bool × QueryStore). SameSize a s.1) l
            (put-SameSize u _ (core q) s.2 (v.views u ∙ here)
              ∙ count_valid-SameSize q.endorsements a s k)
    ]
  ]

pub is_applicable-SameSize : (fuel : ℕ) → KeepsSize (is_applicable fuel)
unfolding is_applicable
is_applicable-SameSize zero u a r h = cc
is_applicable-SameSize (suc fuel) u a r h = elim (Option-cases (lookup u a.queries)) [
  | inl p ↦ subst_some (λ (s : Bool × QueryStore). SameSize a s.1) (rw (p, is_applicable) at h) refl
  | inr (q, p) ↦
      by_state-SameSize (is_applicable fuel) (is_applicable-SameView fuel)
        (is_applicable-SameSize fuel) q.state u q a r (ap core_of p) (rw (p, is_applicable) at h)
]

pub speculative-SameSize :
    (u : String) (x : Bool) (a : QueryStore) → SameSize a (check_speculative_state u x a)
unfolding check_speculative_state
speculative-SameSize u x a = elim (Option-cases (lookup u a.queries)) [
  | inl p ↦ rw (p, check_speculative_state) refl
  | inr (qi, p) ↦ rw (p, check_speculative_state) (length-insert u qi _ a.queries p)
]

condition_old-SameSize :
    (fuel now : ℕ) (c : String) (o : Option QueryInfo) (a : QueryStore) (r : Bool × QueryStore)
    → condition_old fuel now c o a ≡ some r
    → SameSize a r.1
unfolding condition_old
condition_old-SameSize fuel now c none a r h =
    subst_some (λ (s : Bool × QueryStore). SameSize a s.1) h refl
condition_old-SameSize fuel now c (some qi) a r h =
    let (s, e, k) = >>=-eq-some (is_applicable fuel c a) _ h in
    subst_some (λ (s : Bool × QueryStore). SameSize a s.1) k (is_applicable-SameSize fuel c a s e)

definitely_valid-SameSize :
    (fuel now : ℕ) (cs cp : List String) (a : QueryStore) (r : Bool × List String × QueryStore)
    → definitely_valid fuel now cs cp a ≡ some r
    → SameSize a r.2
unfolding definitely_valid
definitely_valid-SameSize fuel now [] cp a r h =
    subst_some (λ (s : Bool × List String × QueryStore). SameSize a s.2) h refl
definitely_valid-SameSize fuel now (c ∷ cs) cp a r h =
    elim (Bool-cases (is_dropped (lookup c a.queries))) [
      | inl t ↦ definitely_valid-SameSize fuel now cs cp a r (rw (t, definitely_valid) at h)
      | inr t ↦
          let (s, e, k) =
            >>=-eq-some (condition_old fuel now c (lookup c a.queries) a) _
              (rw (t, definitely_valid) at h) in
          subst_some (λ (s : Bool × List String × QueryStore). SameSize a s.2) k
            (condition_old-SameSize fuel now c (lookup c a.queries) a s e)
    ]

pub count_definite-SameSize :
    (fuel now : ℕ) (es : List EndorsementInfo) (n : ℕ) (cp : List String) (a : QueryStore)
    (r : ℕ × List String × QueryStore)
    → count_definite fuel now es n cp a ≡ some r
    → SameSize a r.2
unfolding count_definite
count_definite-SameSize fuel now [] n cp a r h =
    subst_some (λ (s : ℕ × List String × QueryStore). SameSize a s.2) h refl
count_definite-SameSize fuel now (e ∷ es) n cp a r h =
    let (s, m, k) = >>=-eq-some (definitely_valid fuel now e.endorsement.conditions cp a) _ h in
    count_definite-SameSize fuel now es (if s.0 then suc n else n) s.1 s.2 r k
    ∙ definitely_valid-SameSize fuel now e.endorsement.conditions cp a s m
