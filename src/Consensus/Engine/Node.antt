-- ===== src/Consensus/Engine/Node.antt =====
-- What an engine is built from, and its state.
use pnyxdb.Base.{ℕ, String, Bool, true, false, Option, List, [], ◌∷◌, ◌++◌, Bytes, Dict}
use pnyxdb.Consensus.Query.{Query, Endorsement}
use pnyxdb.Consensus.Driver.{Driver}
use pnyxdb.Consensus.QueryStore.State.{QueryStore, new_query_store}
use pnyxdb.Operations.{BigFloat}

-- The messages that the engine broadcasts.
pub data Message : Type 0 where
  query_message : Query → Message
  endorsement_message : Endorsement → Message
  start_checkpoint : List String → Message

-- The storage, the hash functions, the key ring's `Sign` and `Verify`, and whether the network
-- takes a message. `marshal_query` is `proto.Marshal` of a query in this node,
-- which writes the entries of the map of requirements in an order of its own: only for a query with
-- one requirement at most do two nodes write the same. The hash of an endorsement is of the message
-- without its signature. `none` is an error of the protobuf library.
pub record Node : Type 1 where
  pub driver : Driver
  pub floats : BigFloat
  pub sha512 : Bytes → Bytes
  pub marshal_query : Query → Option Bytes
  pub hash_endorsement : Endorsement → Option Bytes
  pub checkpoint_sum : List String → String
  pub identity : String
  pub sign : Bytes → Option Bytes
  pub verify : String → Bytes → Bytes → Bool
  pub sends : Message → Bool

-- `Engine`. The two caches are maps whose entries the cache library may evict at any time, which
-- is a step of its own. The channels are lists, a sender's wait for room left out, and `ActivityProbe` has
-- room for one value.
pub record Engine (Store : Type 0) : Type 0 where
  pub store : Store
  pub query_store : QueryStore
  pub checkpoints : List String
  pub hashes : Dict Bytes
  pub pending_checkpoints : List String
  pub pending_recovery : List String
  pub activity_probe : Bool
  pub sent : List Message

-- `NewEngine`
unfoldable pub new_engine : {Store : Type 0} → Store → ℕ → Engine Store
unfolding new_query_store
new_engine store q = record {
  store = store;
  query_store = new_query_store q;
  checkpoints = [];
  hashes = [];
  pending_checkpoints = [];
  pending_recovery = [];
  activity_probe = false;
  sent = [];
}

-- `markActive`
unfoldable pub mark_active : {Store : Type 0} → Engine Store → Engine Store
mark_active eng = record eng { activity_probe = true }

-- `_ = eng.Network.Broadcast(m)`
unfoldable pub broadcast : {Store : Type 0} → Node → Message → Engine Store → Engine Store
broadcast node m eng = record eng { sent = eng.sent ++ (m ∷ []) }
