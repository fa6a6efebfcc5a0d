-- ===== src/Consensus/QueryStore/Terminal.antt =====
-- The terminal states: what `drop`, `CheckpointDrop` and `commit` do to the entries.
use pnyxdb.Base.{
  ℕ, String, ◌≡◌, refl, sym, ap, ◌∙◌, subst, false, Option, none, some, List, [], ◌∷◌, lookup,
  contains, str_eq, eq_iff, arith, if◌then◌else◌, inl, inr, >>=-eq-some, Option-cases, subst_some,
  some-injective,
}
use pnyxdb.Consensus.QueryStore.State.{
  committed, dropped, QueryInfo, QueryStore, set, put, zero_info,
}
use pnyxdb.Consensus.QueryStore.Check.{drop, drop_all, commit}
use pnyxdb.Consensus.QueryStore.View.{Core, core, core_of, view, view-put, SameView}
use pnyxdb.Consensus.QueryStore.Marking.{
  WellFormed, WellFormed-SameView, WellFormed-put, cascade_mark-SameView, cascade_mark_nil,
}

-- An entry as `drop` leaves it; a query that is not stored stays away.
abbrev pub as_dropped : Option Core → Option Core
as_dropped none = none
as_dropped (some k) = some (record k { state = dropped })

-- The views of `b` are those of `a`, but that the queries of `ds` are dropped.
pub record Drops (ds : List String) (a b : QueryStore) : Type 0 where
  pub views : (u : String) → view b u ≡ (if contains u ds then as_dropped (view a u) else view a u)
  pub threshold : b.threshold ≡ a.threshold
  pub well_formed : WellFormed b

pub drop-Drops :
    (fuel : ℕ) (u : String) (a b : QueryStore)
    → WellFormed a
    → drop fuel u a ≡ some b
    → Drops (u ∷ []) a b
unfolding drop contains
drop-Drops fuel u a b w h = elim (Option-cases (lookup u a.queries)) [
  | inl p ↦
      let wrote : SameView a b =
        cascade_mark_nil fuel (record zero_info { state = dropped; cached = set false }) a b refl
          (rw p at h) in
      record {
        views = λ j. ground (arith, wrote.views j, eq_iff u j, ap core_of p);
        threshold = wrote.threshold;
        well_formed = WellFormed-SameView wrote w;
      }
  | inr (qi, p) ↦
      let (q, holds, name) = w.named u _ (ap core_of p) in
      let done : QueryInfo = record qi { state = dropped; cached = set false } in
      let wrote : SameView (put u done a) b =
        subst (λ (i : String). SameView (put i done a) b) name
          (cascade_mark-SameView fuel done q a b w holds (rw p at h)) in
      record {
        views = λ j. ground (arith, wrote.views j, view-put u j done a, eq_iff u j, ap core_of p);
        threshold = wrote.threshold;
        well_formed = WellFormed-SameView wrote (WellFormed-put u done q a holds name w);
      }
]

-- From a well-formed store, where it returns, dropping a list of queries drops each of them that
-- is stored, whatever its state was, and changes no other entry but its caches.
pub drop_all-Drops :
    (fuel : ℕ) (ds : List String) (a b : QueryStore)
    → WellFormed a
    → drop_all fuel ds a ≡ some b
    → Drops ds a b
unfolding drop_all contains
drop_all-Drops fuel [] a b w h =
    subst_some (Drops [] a) h (record { views = λ u. refl; threshold = refl; well_formed = w })
drop_all-Drops fuel (d ∷ ds) a b w h =
    let (s, e, k) = >>=-eq-some (drop fuel d a) _ h in
    let first = drop-Drops fuel d a s w e in
    let rest = drop_all-Drops fuel ds s b first.well_formed k in
    record {
      views = λ u. ground (arith, first.views u, rest.views u);
      threshold = rest.threshold ∙ first.threshold;
      well_formed = rest.well_formed;
    }

-- The entry of a query as `commit` writes it first.
abbrev pub as_committed : Option Core → Option Core
as_committed none = none
as_committed (some k) = some (record k { state = committed })

abbrev pub dependents_of : Option Core → List String
dependents_of none = []
dependents_of (some k) = k.dependents

-- The store of a commit: the query's entry is written, and then its dependents are dropped.
commit-Drops :
    (fuel : ℕ) (u : String) (a b : QueryStore) (k : Core)
    → WellFormed a
    → view a u ≡ some k
    → commit fuel u a ≡ some b
    → (c : QueryStore) × Drops k.dependents c b
      × ((j : String) → view c j ≡ (if str_eq u j then as_committed (some k) else view a j))
unfolding commit
commit-Drops fuel u a b k w here h = elim (Option-cases (lookup u a.queries)) [
  | inl p ↦ cc (ap core_of p)
  | inr (qi, p) ↦
      let (q, holds, name) = w.named u _ (ap core_of p) in
      let done : QueryInfo = record qi { state = committed } in
      let same : core qi ≡ k = some-injective (core qi) k (sym (ap core_of p) ∙ here) in
      (
        put u done a,
        subst (λ (k : Core). Drops k.dependents (put u done a) b) same
            (drop_all-Drops fuel qi.dependents (put u done a) b
              (WellFormed-put u done q a holds name w) (rw p at h)),
        λ j. ground (arith, view-put u j done a, same),
      )
]

-- From a well-formed store, where it returns, committing a stored query makes it committed, drops
-- its dependents that are stored, itself included if it is one, and changes no other entry but its
-- caches.
pub commit_lem :
    (fuel : ℕ) (u : String) (a b : QueryStore) (k : Core)
    → WellFormed a
    → view a u ≡ some k
    → commit fuel u a ≡ some b
    → (j : String)
    → view b j ≡ (
        let settled = if str_eq u j then as_committed (some k) else view a j in
        if contains j k.dependents then as_dropped settled else settled)
commit_lem fuel u a b k w here h j =
    let (c, drops, views) = commit-Drops fuel u a b k w here h in
    ground (arith, drops.views j, views j)

pub commit-WellFormed :
    (fuel : ℕ) (u : String) (a b : QueryStore) (k : Core)
    → WellFormed a
    → view a u ≡ some k
    → commit fuel u a ≡ some b
    → WellFormed b
commit-WellFormed fuel u a b k w here h =
    let (c, drops, views) = commit-Drops fuel u a b k w here h in drops.well_formed
