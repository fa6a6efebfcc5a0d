-- ===== src/Examples/Evaluation.antt =====
-- The evaluation of queries, `isApplicable`, at concrete stores.
use pnyxdb.Base.{
  ◌≡◌, refl, String, Bool, false, none, some, List, [], ◌∷◌, str_eq, eq_iff, ◌⊎◌, true, if-cases,
  inl, inr, arith, lookup, insert, subst_some, Bool-cases,
}
use pnyxdb.Consensus.Query.{Query}
use pnyxdb.Consensus.QueryStore.Marking.{WellFormed}
use pnyxdb.Consensus.QueryStore.States.{status}
use pnyxdb.Consensus.QueryStore.Decision.{settled, all_dropped}
use pnyxdb.Consensus.QueryStore.Outdated.{
  Listed, listed, crashed, outdated_queries, Lists, outdated_queries-Lists,
}
use pnyxdb.Consensus.QueryStore.Settling.{settled_commits}
use pnyxdb.Consensus.QueryStore.State.{pending, committed, dropped, QueryStore, QueryInfo, unset}
use pnyxdb.Consensus.QueryStore.Check.{is_applicable, check_state}
use pnyxdb.Consensus.QueryStore.View.{Core, core, view}
use pnyxdb.Consensus.QueryStore.Evaluate.{is_applicable_sound}
use pnyxdb.Consensus.QueryStore.Meaning.{Coherent, InfoCoherent, Evaluates}
use pnyxdb.Consensus.QueryStore.Termination.{
  ConditionsBelow, Ranked, Circular, is_applicable-Circular,
}
use pnyxdb.Examples.Store.{query_named, endorsement_by, or_start, empty_store}

-- A store with one query, which one endorsement backs; no result is marked fresh.
abbrev entry : List String → QueryInfo
entry conditions = record {
  query = some (query_named "a");
  endorsements = record { endorsement = endorsement_by "bob" "a" conditions; cached = unset } ∷ [];
  dependents = [];
  state = pending;
  endorsed = false;
  applied = false;
  cached = unset;
}

abbrev one_query : List String → QueryStore
one_query conditions = record {
  queries = ("a", entry conditions) ∷ [];
  pending_dependencies = [];
  pending_endorsements = [];
  threshold = 1;
}

one_query-Coherent : Coherent (one_query [])
unfolding lookup
one_query-Coherent = record {
  at = λ u q h. elim (if-cases (str_eq "a" u) h) [
    | inl (t, p) ↦
        subst_some (InfoCoherent 1 (view (one_query [])) u) p
          (record { query_result = λ s f. cc; endorsement_results = ((λ f. cc), tt) })
    | inr (t, p) ↦ cc
  ];
}

abbrev one_result : Bool × QueryStore
one_result = or_start (is_applicable 2 "a" (one_query [])) (false, empty_store)

one_evaluation : is_applicable 2 "a" (one_query []) ≡ some one_result
unfolding is_applicable lookup insert
one_evaluation = refl

is_applicable_sound_example :
    Coherent one_result.1 × Evaluates 1 (view (one_query [])) "a" one_result.0
is_applicable_sound_example =
    is_applicable_sound 2 "a" (one_query []) one_result one_query-Coherent one_evaluation

one_query-Ranked : Ranked (λ u. 1) (view (one_query []))
unfolding lookup
one_query-Ranked = record {
  below = λ u k h. elim (Bool-cases (str_eq "a" u)) [
    | inl t ↦
        subst_some (λ (k : Core). ConditionsBelow (λ u. 1) 1 k.endorsements) (rw t at h) (tt, tt)
    | inr t ↦ ground (arith, rw t at h)
  ];
}

one_query-WellFormed : WellFormed (one_query [])
unfolding lookup
one_query-WellFormed = record {
  named = λ u k h. elim (Bool-cases (str_eq "a" u)) [
    | inl t ↦
        subst_some (λ (k : Core). (q : Query) × (k.query ≡ some q) × (q.uuid ≡ u)) (rw t at h)
          (query_named "a", refl, (eq_iff "a" u).0 t)
    | inr t ↦ ground (arith, rw t at h)
  ];
}

settled_commits_example :
    (r : Bool × List String × QueryStore) × (check_state 3 0 "a" (one_query []) ≡ some r)
    × (r.0 ≡ true)
    × ((status r.2 "a" ≡ some committed) ⊎ (status r.2 "a" ≡ some dropped))
unfolding lookup settled all_dropped
settled_commits_example =
    settled_commits (λ u. 1) 3 0 "a" (core (entry [])) (one_query []) one_query-WellFormed
      one_query-Coherent one_query-Ranked (omega arith) (omega arith) refl refl (omega arith)

own_condition-Circular : Circular "a" (one_query ("a" ∷ []))
unfolding lookup
own_condition-Circular = record {
  info = entry ("a" ∷ []);
  first = record { endorsement = endorsement_by "bob" "a" ("a" ∷ []); cached = unset };
  others = [];
  more = [];
  stored = refl;
  is_live = refl;
  stale = refl;
  listed = refl;
  enough = refl;
  first_stale = refl;
  own_condition = refl;
}

is_applicable-Circular_example : is_applicable 1000 "a" (one_query ("a" ∷ [])) ≡ none
is_applicable-Circular_example =
    is_applicable-Circular 1000 "a" (one_query ("a" ∷ [])) own_condition-Circular

-- A query that nobody endorses, and whose deadline is long gone.
abbrev forgotten : QueryStore
forgotten = record (one_query []) {
  queries =
      (
        "a",
        record (entry []) {
          query = some (record (query_named "a") { deadline = some 1 });
          endorsements = [];
        },
      )
      ∷ [];
}

abbrev list_of : Listed → List String × QueryStore
list_of (listed us qs) = (us, qs)
list_of crashed = ([], empty_store)

abbrev listing : List String × QueryStore
listing = list_of (or_start (outdated_queries 2 20000000000 forgotten) crashed)

forgotten_listed : outdated_queries 2 20000000000 forgotten ≡ some (listed listing.0 listing.1)
unfolding outdated_queries is_applicable lookup insert
forgotten_listed = refl

forgotten_names : listing.0 ≡ "a" ∷ []
unfolding outdated_queries is_applicable lookup insert
forgotten_names = refl

forgotten-Coherent : Coherent forgotten
unfolding lookup
forgotten-Coherent = record {
  at = λ u q h. elim (if-cases (str_eq "a" u) h) [
    | inl (t, p) ↦
        subst_some (InfoCoherent 1 (view forgotten) u) p
          (record { query_result = λ s f. cc; endorsement_results = tt })
    | inr (t, p) ↦ cc
  ];
}

outdated_queries-Lists_example : Lists 20000000000 forgotten forgotten.queries listing.0 listing.1
outdated_queries-Lists_example =
    outdated_queries-Lists 2 20000000000 forgotten listing.1 listing.0 forgotten-Coherent
      forgotten_listed
