-- ===== src/Consensus/QueryStore/Marking.antt =====
-- What `cascadeMark` writes: the entry that it is given, and marks on caches.
use pnyxdb.Base.{
  ℕ, zero, suc, String, ◌≡◌, refl, sym, ap, ◌∙◌, subst, not, Option, none, some, List, [], ◌∷◌,
  lookup, str_eq, eq_iff, arith, inl, inr, >>=-eq-some, if-cases, Option-cases, subst_some,
}
use pnyxdb.Consensus.Query.{Query}
use pnyxdb.Consensus.QueryStore.State.{QueryInfo, EndorsementInfo, QueryStore, mark, put}
use pnyxdb.Consensus.QueryStore.Insert.{
  mark_endorsements, mark_dependents, cascade_at, cascade_mark,
}
use pnyxdb.Consensus.QueryStore.View.{
  Core, core, core_of, endorsements_of, view, view-put, SameView, SameView-refl, SameView-trans,
  SameView-put,
}

-- Each entry holds a query, under the identifier of that query.
pub record WellFormed (a : QueryStore) : Type 0 where
  pub named :
      (u : String) (k : Core) → view a u ≡ some k → (q : Query) × (k.query ≡ some q) × (q.uuid ≡ u)

pub WellFormed-SameView : {a b : QueryStore} → SameView a b → WellFormed a → WellFormed b
WellFormed-SameView s w = record { named = λ u k p. w.named u k (sym (s.views u) ∙ p) }

pub WellFormed-put :
    (u : String) (qi : QueryInfo) (q : Query) (a : QueryStore)
    → qi.query ≡ some q
    → q.uuid ≡ u
    → WellFormed a
    → WellFormed (put u qi a)
WellFormed-put u qi q a here name w = record {
  named = λ j k p. elim (if-cases (str_eq u j) (rw view-put at p)) [
    | inl (t, e) ↦
        subst_some (λ (k : Core). (q : Query) × (k.query ≡ some q) × (q.uuid ≡ j)) e
          (q, here, name ∙ (eq_iff u j).0 t)
    | inr (t, e) ↦ w.named j k e
  ];
}

-- Entries that differ in their caches only.
SameView-put-put :
    (u : String) (p q : QueryInfo) (a : QueryStore)
    → core p ≡ core q
    → SameView (put u p a) (put u q a)
SameView-put-put u p q a e = record {
  views = λ j. rw (view-put u j q a, view-put u j p a, e);
  threshold = refl;
  dependencies = refl;
  waiting = refl;
}

endorsements_of-mark_endorsements :
    (u : String) (es : List EndorsementInfo)
    → endorsements_of (mark_endorsements u es) ≡ endorsements_of es
unfolding mark_endorsements
endorsements_of-mark_endorsements u [] = refl
endorsements_of-mark_endorsements u (e ∷ es) =
    ground (arith, endorsements_of-mark_endorsements u es)

abbrev WritesEntry : (QueryInfo → QueryStore → Option QueryStore) → Type 0
WritesEntry cascade =
    (qi : QueryInfo) (q : Query) (a b : QueryStore)
    → WellFormed a
    → qi.query ≡ some q
    → cascade qi a ≡ some b
    → SameView (put q.uuid qi a) b

mark_dependents-SameView :
    (cascade : QueryInfo → QueryStore → Option QueryStore)
    → WritesEntry cascade
    → (u : String) (ds : List String) (a b : QueryStore) → WellFormed a
    → mark_dependents cascade u ds a ≡ some b
    → SameView a b
unfolding mark_dependents
mark_dependents-SameView cascade writes u [] a b w h = subst_some (SameView a) h (SameView-refl a)
mark_dependents-SameView cascade writes u (d ∷ ds) a b w h =
    elim (Option-cases (lookup d a.queries)) [
      | inl p ↦ mark_dependents-SameView cascade writes u ds a b w (rw (p, mark_dependents) at h)
      | inr (qid, p) ↦
          let marked : QueryInfo = record qid {
            endorsements = mark_endorsements u qid.endorsements;
          } in
          let (a', e, k) = >>=-eq-some (cascade marked a) _ (rw (p, mark_dependents) at h) in
          let (q, holds, name) = w.named d _ (ap core_of p) in
          let same : view a d ≡ some (core marked) =
            ap core_of p ∙ cc (endorsements_of-mark_endorsements u qid.endorsements) in
          let wrote : SameView a a' = SameView-trans (SameView-put d marked a same) (
            subst (λ (i : String). SameView (put i marked a) a') name
              (writes marked q a a' w holds e)) in
          SameView-trans wrote
            (mark_dependents-SameView cascade writes u ds a' b (WellFormed-SameView wrote w) k)
    ]

-- `cascadeMark` stores its argument, and changes nothing else but caches.
pub cascade_mark-SameView : (fuel : ℕ) → WritesEntry (cascade_mark fuel)
unfolding cascade_mark cascade_at
cascade_mark-SameView zero qi q a b w here h = cc
cascade_mark-SameView (suc fuel) qi q a b w here h =
    let marked : QueryInfo = record qi { cached = mark qi.cached } in
    let wrote : SameView (put q.uuid qi a) (put q.uuid marked a) =
      SameView-put-put q.uuid qi marked a refl in
    elim (if-cases (not qi.cached.fresh) (rw (here, cascade_mark) at h)) [
      | inl (t, p) ↦ subst_some (SameView (put q.uuid qi a)) p wrote
      | inr (t, p) ↦ SameView-trans wrote (
          mark_dependents-SameView (cascade_mark fuel) (cascade_mark-SameView fuel) q.uuid
            qi.dependents (put q.uuid marked a) b (WellFormed-put q.uuid marked q a here refl w) p)
    ]

-- A nil query is reported, and the store is left alone.
pub cascade_mark_nil :
    (fuel : ℕ) (qi : QueryInfo) (a b : QueryStore)
    → qi.query ≡ none
    → cascade_mark fuel qi a ≡ some b
    → SameView a b
unfolding cascade_mark
cascade_mark_nil zero qi a b here h = cc
cascade_mark_nil (suc fuel) qi a b here h =
    subst_some (SameView a) (rw (here, cascade_mark) at h) (SameView-refl a)
