-- ===== src/Examples/Once.antt =====
-- A query that waits for another one to be dropped, is committed then, and is verdict once more.
use pnyxdb.Base.{
  ◌≡◌, refl, String, Bool, true, false, Option, none, some, List, [], ◌∷◌, lookup, insert, delete,
}
use pnyxdb.Consensus.QueryStore.State.{QueryStore, add_to_set}
use pnyxdb.Consensus.QueryStore.Insert.{add_query, add_endorsement}
use pnyxdb.Consensus.QueryStore.Check
use pnyxdb.Consensus.Query.{Query}
use pnyxdb.Consensus.Engine.Node.{Engine, new_engine}
use pnyxdb.Consensus.Engine.Handlers.{
  Run, ran, no_fuel, panicked, Vote, query_arrives, handle_endorsement, vote_ends,
}
use pnyxdb.Consensus.Engine.History.{
  History, History-Moves, begin, after, query_handled, endorsement_handled, vote_ended,
}
use pnyxdb.Consensus.QueryStore.Marking.{WellFormed}
use pnyxdb.Consensus.QueryStore.Reachable.{Reach-Advances, new_query_store-WellFormed, here}
use pnyxdb.Consensus.QueryStore.Once.{commits_once}
use pnyxdb.Storage.Bolt.{Bucket}
use pnyxdb.Examples.Store.{endorsement_by, or_start, empty_store}
use pnyxdb.Examples.Cluster.{alice, writes, start, or_stay, arrived, writes_arrive}

abbrev or_still : Run (Engine Bucket) → Engine Bucket
or_still (ran e) = e
or_still no_fuel = start
or_still panicked = start

abbrev present : {A : Type 0} → Option A → Bool
present none = false
present (some x) = true

-- An equation that is decided without computing what it is about.
or_start-some : {A : Type 0} (o : Option A) (x : A) → present o ≡ true → o ≡ some (or_start o x)
or_start-some none x h = cc
or_start-some (some y) x h = refl

abbrev rival : Query
rival = record writes { uuid = "b" }

abbrev rivaled : Bool × Engine Bucket
rivaled = or_stay (query_arrives alice 5 0 rival arrived.1)

rival_arrives : query_arrives alice 5 0 rival arrived.1 ≡ ran rivaled
unfolding query_arrives new_engine lookup insert add_query Check.check_state delete
rival_arrives = refl

abbrev backed : Engine Bucket
backed = or_still (handle_endorsement alice 5 0 (endorsement_by "bob" "a" ("b" ∷ [])) rivaled.1)

endorsement_arrives :
    handle_endorsement alice 5 0 (endorsement_by "bob" "a" ("b" ∷ [])) rivaled.1 ≡ ran backed
unfolding query_arrives handle_endorsement new_engine lookup insert add_query add_endorsement
    Check.check_state delete
endorsement_arrives = refl

abbrev vote : Vote
vote = record { sum = "sum"; queries = "b" ∷ []; choice = true; proofs = [] }

abbrev freed : Engine Bucket
freed = or_still (vote_ends alice 5 0 vote true [] backed)

rival_dropped : vote_ends alice 5 0 vote true [] backed ≡ ran freed
unfolding vote_ends query_arrives handle_endorsement new_engine lookup insert add_query
    add_endorsement Check.check_state Check.checkpoint_drop delete add_to_set
rival_dropped = refl

freed-History : History alice start freed
freed-History =
    after
      (after
        (after (after begin (query_handled 5 0 writes arrived.0 writes_arrive))
          (query_handled 5 0 rival rivaled.0 rival_arrives))
        (endorsement_handled 5 0 (endorsement_by "bob" "a" ("b" ∷ [])) endorsement_arrives))
      (vote_ended 5 0 vote true [] rival_dropped)

abbrev verdict : Bool × List String × QueryStore
verdict = or_start (Check.check_state 5 0 "a" freed.query_store) (false, [], empty_store)

verdict_query : Check.check_state 5 0 "a" freed.query_store ≡ some verdict
unfolding vote_ends query_arrives handle_endorsement new_engine lookup insert add_query
    add_endorsement Check.check_state Check.checkpoint_drop delete add_to_set
verdict_query =
    or_start-some (Check.check_state 5 0 "a" freed.query_store) (false, [], empty_store) refl

verdict_commits : verdict.0 ≡ true
unfolding vote_ends query_arrives handle_endorsement new_engine lookup insert add_query
    add_endorsement Check.check_state Check.checkpoint_drop delete add_to_set
verdict_commits = refl

abbrev second_verdict : Bool × List String × QueryStore
second_verdict = or_start (Check.check_state 5 0 "a" verdict.2) (false, [], empty_store)

second_verdict_query : Check.check_state 5 0 "a" verdict.2 ≡ some second_verdict
unfolding vote_ends query_arrives handle_endorsement new_engine lookup insert add_query
    add_endorsement Check.check_state Check.checkpoint_drop delete add_to_set
second_verdict_query =
    or_start-some (Check.check_state 5 0 "a" verdict.2) (false, [], empty_store) refl

freed-WellFormed : WellFormed freed.query_store
unfolding new_engine
freed-WellFormed =
    (Reach-Advances (new_query_store-WellFormed 1) (History-Moves alice freed-History)).well_formed

commits_once_example : second_verdict.0 ≡ false
commits_once_example =
    commits_once 5 0 5 0 "a" freed.query_store verdict.2 verdict second_verdict freed-WellFormed
      verdict_query verdict_commits here second_verdict_query
