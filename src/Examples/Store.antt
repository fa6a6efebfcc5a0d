-- ===== src/Examples/Store.antt =====
-- consensus/query_store.go at concrete stores.
use pnyxdb.Base.{
  Returns, arith, ◌≡◌, refl, String, Bool, false, not, ◌&&◌, Option, none, some, List, [], ◌∷◌, leb,
  str_eq, contains, if◌then◌else◌, lookup, insert,
}
use pnyxdb.Consensus.Query.{Query, Endorsement}
use pnyxdb.Consensus.QueryStore.State.{pending, QueryStore, new_query_store}
use pnyxdb.Consensus.QueryStore.Insert.{add_query, add_endorsement}
use pnyxdb.Consensus.QueryStore.Check.{
  is_applicable, check_state, commit, checkpoint_drop, is_committed,
}
use pnyxdb.Consensus.QueryStore.View.{Core, view}
use pnyxdb.Consensus.QueryStore.Marking.{WellFormed}
use pnyxdb.Consensus.QueryStore.Terminal.{
  Drops, drop_all-Drops, commit_lem, as_committed, as_dropped,
}
use pnyxdb.Consensus.QueryStore.States.{status}
use pnyxdb.Consensus.QueryStore.Decision.{check_state_decision, settled}
use pnyxdb.Consensus.QueryStore.Reachable.{
  Reach, here, next, query_arrives, endorsement_arrives, state_checked, Reach-Advances,
  new_query_store-WellFormed,
}
use pnyxdb.Consensus.QueryStore.Forward.{Advances}
use pnyxdb.Consensus.QueryStore.Returning.{arrivals-Returns}

abbrev pub query_named : String → Query
query_named u = record {
  uuid = u;
  policy = "none";
  emitter = "alice";
  deadline = none;
  requirements = [];
  operations = [];
  signature = [];
}

abbrev pub endorsement_by : String → String → List String → Endorsement
endorsement_by node u conditions = record {
  uuid = u;
  emitter = node;
  conditions = conditions;
  signature = [];
}

abbrev pub or_start {ℓ} : {A : Type ℓ} → Option A → A → A
or_start none x = x
or_start (some y) x = y

abbrev pub empty_store : QueryStore
empty_store = record {
  queries = [];
  pending_dependencies = [];
  pending_endorsements = [];
  threshold = 1;
}

-- `a` is submitted, and endorsed by one node without conditions.
abbrev submitted : Bool × QueryStore
submitted = or_start (add_query 5 (query_named "a") empty_store) (false, empty_store)

abbrev backed : Bool × Bool × QueryStore
backed =
    or_start (add_endorsement 5 (endorsement_by "bob" "a" []) submitted.1)
      (false, false, empty_store)

abbrev evaluated : Bool × QueryStore
evaluated = or_start (is_applicable 5 "a" backed.2) (false, empty_store)

abbrev decided : Bool × List String × QueryStore
decided = or_start (check_state 5 0 "a" backed.2) (false, [], empty_store)

-- A query that is dropped.
abbrev pub abandoned : QueryStore
abandoned = or_start (checkpoint_drop 5 ("a" ∷ []) submitted.1) empty_store

submitted_query : add_query 5 (query_named "a") empty_store ≡ some submitted
unfolding add_query lookup
submitted_query = refl

backed_query : add_endorsement 5 (endorsement_by "bob" "a" []) submitted.1 ≡ some backed
unfolding add_endorsement add_query lookup insert
backed_query = refl

evaluated_query : is_applicable 5 "a" backed.2 ≡ some evaluated
unfolding add_endorsement add_query is_applicable lookup insert
evaluated_query = refl

decided_query : check_state 5 0 "a" backed.2 ≡ some decided
unfolding add_endorsement add_query is_applicable check_state lookup insert
decided_query = refl

abandoned_query : checkpoint_drop 5 ("a" ∷ []) submitted.1 ≡ some abandoned
unfolding checkpoint_drop add_query lookup insert
abandoned_query = refl

empty_store-WellFormed : WellFormed empty_store
unfolding new_query_store
empty_store-WellFormed = new_query_store-WellFormed 1

decided-Reach : Reach empty_store decided.2
decided-Reach =
    next
      (next (next here (query_arrives 5 (query_named "a") submitted.0 submitted_query))
        (endorsement_arrives 5 (endorsement_by "bob" "a" []) backed.0 backed.1 backed_query))
      (state_checked 5 0 "a" decided.0 decided.1 decided_query)

Reach-Advances_example : Advances empty_store decided.2
Reach-Advances_example = Reach-Advances empty_store-WellFormed decided-Reach

submitted-WellFormed : WellFormed submitted.1
submitted-WellFormed =
    (Reach-Advances empty_store-WellFormed
      (next here (query_arrives 5 (query_named "a") submitted.0 submitted_query))).well_formed

abbrev core_a : Core
core_a = record {
  query = some (query_named "a");
  endorsements = endorsement_by "bob" "a" [] ∷ [];
  dependents = [];
  state = pending;
  endorsed = false;
  applied = false;
}

backed_view : view backed.2 "a" ≡ some core_a
unfolding add_endorsement add_query lookup insert
backed_view = refl

check_state_decision_example : decided.0 ≡ (
    evaluated.0
    && not (is_committed core_a.state)
    && leb backed.2.threshold (settled (status backed.2) core_a.endorsements))
check_state_decision_example =
    check_state_decision 5 0 "a" backed.2 core_a evaluated decided backed_view evaluated_query
      decided_query

drop_all-Drops_example : Drops ("a" ∷ []) submitted.1 abandoned
unfolding checkpoint_drop
drop_all-Drops_example =
    drop_all-Drops 5 ("a" ∷ []) submitted.1 abandoned submitted-WellFormed abandoned_query

abbrev committed_store : QueryStore
committed_store = or_start (commit 5 "a" backed.2) empty_store

committed_query : commit 5 "a" backed.2 ≡ some committed_store
unfolding add_endorsement add_query commit lookup insert
committed_query = refl

backed-WellFormed : WellFormed backed.2
backed-WellFormed =
    (Reach-Advances submitted-WellFormed (
      next here (
        endorsement_arrives 5 (endorsement_by "bob" "a" []) backed.0 backed.1
          backed_query))).well_formed

commit_example : view committed_store "a" ≡ (
    let settled = if str_eq "a" "a" then as_committed (some core_a) else view backed.2 "a" in
    if contains "a" core_a.dependents then as_dropped settled else settled)
commit_example =
    commit_lem 5 "a" backed.2 committed_store core_a backed-WellFormed backed_view committed_query
      "a"

abbrev backed_store : QueryStore
backed_store = backed.2

arrivals-Returns_example :
    Returns (add_query 3 (query_named "b") backed_store)
    × Returns (add_endorsement 3 (endorsement_by "carol" "a" ("b" ∷ [])) backed_store)
    × Returns (checkpoint_drop 3 ("a" ∷ []) backed_store)
unfolding add_endorsement add_query lookup insert
arrivals-Returns_example =
    arrivals-Returns 3 (query_named "b") (endorsement_by "carol" "a" ("b" ∷ [])) ("a" ∷ [])
      backed_store backed-WellFormed (omega arith)
