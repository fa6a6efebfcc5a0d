-- ===== src/Examples/Cluster.antt =====
-- A node over the BoltDB driver, at concrete queries.
use pnyxdb.Base.{
  ℕ, ◌≡◌, ◌<◌, ◌⊎◌, refl, String, Bool, true, false, none, some, List, [], ◌∷◌, ◌++◌, Bytes, Dict,
  map, map_values, length, arith, lookup, insert,
}
use pnyxdb.Consensus.Operation
use pnyxdb.Consensus.Operation.{set, concat}
use pnyxdb.Consensus.Query.{Query, check_conflict}
use pnyxdb.Consensus.Version.{new_version}
use pnyxdb.Consensus.Driver.{wrote, write, settled, IsLawful}
use pnyxdb.Consensus.QueryStore.State.{
  QueryStore, get_query, get_conflicting, uuid_of, add_to_set, zero_info,
}
use pnyxdb.Consensus.QueryStore.Insert.{add_query}
use pnyxdb.Consensus.QueryStore.Check
use pnyxdb.Consensus.Engine.Node.{Node, Engine, new_engine}
use pnyxdb.Consensus.Engine.Apply.{Applied, stored, crash, finished, run_all, apply}
use pnyxdb.Consensus.Engine.Sequence.{left_by, apply-left_by}
use pnyxdb.Consensus.Engine.Atomic.{Done, apply_atomic}
use pnyxdb.Consensus.Engine.Signing.{verify_query}
use pnyxdb.Consensus.Engine.Endorse.{round}
use pnyxdb.Consensus.Engine.Handlers.{Run, ran, no_fuel, panicked, query_arrives}
use pnyxdb.Consensus.Engine.Justified.{Endorses, round-Endorses, verify_query-stale}
use pnyxdb.Consensus.Engine.Pool.{
  Sends, pool_receives, pool_receives-bounds, checkpoint_routine_batch,
}
use pnyxdb.Consensus.Engine.Recovery.{recovery_round}
use pnyxdb.Consensus.Engine.Recovery.Erasure.{over_bolt, zero_version, recovery_round-erases}
use pnyxdb.Network.Recovery.{request_recovery}
use pnyxdb.Operations.{Value}
use pnyxdb.Operations
use pnyxdb.Storage.Bolt.{Bucket, get, set_batch}
use pnyxdb.Storage.Bolt.Lawful.{driver, driver-IsLawful}
use pnyxdb.Examples.Values.{numbers}
use pnyxdb.Examples.Messages.{accepting, fill, nothing_stored}

-- A hash function with 64 bytes.
abbrev pub digest : Bytes → Bytes
digest raw = fill 64

driver-IsLawful_example : IsLawful (driver accepting) digest
driver-IsLawful_example = driver-IsLawful accepting digest (λ raw. refl)

abbrev pub alice : Node
alice = record {
  driver = driver accepting;
  floats = numbers;
  sha512 = digest;
  marshal_query = λ q. some [];
  hash_endorsement = λ e. some [];
  checkpoint_sum = λ us. "sum";
  identity = "alice";
  sign = λ h. some h;
  verify = λ emitter h s. true;
  sends = λ m. true;
}

-- Two operations on one key.
abbrev pub writes : Query
writes = record {
  uuid = "a";
  policy = "none";
  emitter = "alice";
  deadline = some 10;
  requirements = [];
  operations =
      record { key = "k"; op = set; payload = 1 ∷ []; metadata = [] }
      ∷ record { key = "k"; op = concat; payload = 2 ∷ []; metadata = [] }
      ∷ [];
  signature = [];
}

abbrev known : QueryStore
known = record {
  queries = ("a", record zero_info { query = some writes }) ∷ [];
  pending_dependencies = [];
  pending_endorsements = [];
  threshold = 1;
}

abbrev values : Dict (Value ℕ)
values = ("k", record { raw = 1 ∷ 2 ∷ []; vfloat = none; vset = none }) ∷ []

known_query : get_query "a" known ≡ some writes
unfolding get_query lookup
known_query = refl

values_run : run_all alice [] writes.operations [] ≡ finished values
unfolding run_all lookup insert get Operations.exec
values_run = refl

values_written : (write (driver accepting) digest [] (map_values Value.raw values)).1 ≡ wrote
unfolding set_batch new_version
values_written = refl

apply-left_by_example :
    (s : Bucket) × (apply alice "a" known [] ≡ stored s)
    × ((k : String) → get s k ≡ settled digest (left_by alice writes [] k) (get [] k))
apply-left_by_example =
    apply-left_by alice "a" known writes [] values driver-IsLawful_example known_query values_run
      values_written

abbrev or_nothing : Applied Bucket → Bucket
or_nothing (stored s) = s
or_nothing crash = []

abbrev committed : Bucket
committed = or_nothing (apply alice "a" known nothing_stored)

committed_query : apply alice "a" known nothing_stored ≡ stored committed
unfolding apply get_query lookup get Operations.exec insert set_batch new_version
committed_query = refl

apply_atomic_example :
    (committed ≡ nothing_stored)
    ⊎ ((q : Query) × (get_query "a" known ≡ some q)
        × ((k : String) → Done alice q nothing_stored committed k))
apply_atomic_example =
    apply_atomic alice "a" known nothing_stored committed driver-IsLawful_example committed_query

abbrev pub start : Engine Bucket
start = new_engine nothing_stored 1

-- A query with the identifier and the signature of another, and other operations.
abbrev forged : Query
forged = record writes { operations = [] }

writes_verified : (verify_query alice writes start).0 ≡ true
unfolding verify_query new_engine lookup
writes_verified = refl

verify_query-stale_example :
    (verify_query alice forged (verify_query alice writes start).1).0 ≡ true
verify_query-stale_example =
    verify_query-stale alice writes forged start refl refl refl writes_verified

abbrev pub or_stay : Run (Bool × Engine Bucket) → Bool × Engine Bucket
or_stay (ran r) = r
or_stay no_fuel = (false, start)
or_stay panicked = (false, start)

abbrev pub arrived : Bool × Engine Bucket
arrived = or_stay (query_arrives alice 5 0 writes start)

pub writes_arrive : query_arrives alice 5 0 writes start ≡ ran arrived
unfolding query_arrives new_engine lookup insert add_query Check.check_state
writes_arrive = refl

pool_receives-bounds_example :
    let pending : List String = "b" ∷ [] in
    let r = pool_receives alice pending "a" start in
    (length r.0 < checkpoint_routine_batch)
    × ((r ≡ (add_to_set pending "a", start)) ⊎ Sends alice (add_to_set pending "a") start r)
pool_receives-bounds_example = pool_receives-bounds alice ("b" ∷ []) "a" start (omega arith)

-- A node that asks for the key `k`, of which it has a value.
abbrev asking : Engine Bucket
asking = record start { store = ("k", fill 64 ++ (9 ∷ [])) ∷ []; pending_recovery = "k" ∷ [] }

recovery_round-erases_example :
    (eng' : Engine Bucket) × (recovery_round
        (over_bolt alice accepting)
        (λ k. request_recovery 0 3 k [])
        asking
      ≡ ran eng')
    × (get eng'.store "k" ≡ record { value = []; version = some zero_version; err = none })
recovery_round-erases_example = recovery_round-erases alice accepting 3 [] asking "k" [] refl refl

-- A query that the node has endorsed, whose deadline is over, and that writes another value under
-- the same key.
abbrev late : Query
late = record writes {
  uuid = "b";
  deadline = some 1;
  operations = record { key = "k"; op = set; payload = 7 ∷ []; metadata = [] } ∷ [];
}

abbrev in_conflict : Engine Bucket
in_conflict = record start {
  query_store = record known {
    queries =
        ("a", record zero_info { query = some writes })
        ∷ ("b", record zero_info { query = some late; endorsed = true })
        ∷ [];
  };
}

conditions_found : map uuid_of (get_conflicting writes in_conflict.query_store) ≡ "b" ∷ []
unfolding get_conflicting check_conflict Operation.check_conflict
conditions_found = refl

-- The endorsement that the round sends.
writes_endorsed : length (round alice 5 writes in_conflict).1.sent ≡ 1
unfolding new_engine round get_conflicting check_conflict Operation.check_conflict
writes_endorsed = refl

round-Endorses_example : Endorses alice 5 writes in_conflict (round alice 5 writes in_conflict)
round-Endorses_example = round-Endorses alice 5 writes in_conflict
