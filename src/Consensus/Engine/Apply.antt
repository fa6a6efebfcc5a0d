-- ===== src/Consensus/Engine/Apply.antt =====
-- `apply` of consensus/engine.go: the operations of a committed query run on the stored values.
use pnyxdb.Base.{
  String, Bool, true, false, not, ◌&&◌, Option, none, some, List, [], ◌∷◌, Dict, lookup, insert,
  map_values, if◌then◌else◌,
}
use pnyxdb.Consensus.Query.{Version}
use pnyxdb.Consensus.Operation.{Operation}
use pnyxdb.Consensus.Driver.{wrote, fault, failed, write}
use pnyxdb.Consensus.QueryStore.State.{QueryStore, get_query, is_error}
use pnyxdb.Consensus.Engine.Node.{Node}
use pnyxdb.Operations.{BigFloat, Value, Ran, done, panic, new_value, exec}
use pnyxdb.Operations

-- `v != NoVersion`. The code compares pointers; a driver returns that very version for a key that
-- it does not have, and no other with an empty hash.
abbrev pub is_no_version : Option Version → Bool
is_no_version none = false
is_no_version (some v) = elim v.hash [ [] ↦ true | ◌∷◌ b bs ↦ false ]

-- How the loop over the operations ends: `stopped` is an early return.
pub data Loop (A : Type 0) : Type 0 where
  finished : A → Loop A
  stopped crashed : Loop A

-- How `apply` ends; `crash` is a panic, which ends the program.
pub data Applied (S : Type 0) : Type 0 where
  stored : S → Applied S
  crash : Applied S

module _ (node : Node) where
  open node use {driver, floats, sha512}
  open driver use {Store, get}
  open floats use {Float}

  -- The value of a key that no operation touched yet.
  unfoldable pub fetch : Store → String → Option (Value Float)
  fetch s key =
      let got = get s key in
      if is_error got.err && not (is_no_version got.version)
      then none
      else some (new_value got.value)

  unfoldable pub current : Store → String → Option (Value Float) → Option (Value Float)
  unfolding fetch
  current s key (some v) = some v
  current s key none = fetch s key

  -- The loop over the operations.
  unfoldable pub run_all : Store → List Operation → Dict (Value Float) → Loop (Dict (Value Float))
  unfolding current
  run_all s [] values = finished values
  run_all s (op ∷ ops) values = elim (current s op.key (lookup op.key values)) [
    | none ↦ stopped
    | some v ↦ elim (exec floats op v) [
      | done w ↦ run_all s ops (insert op.key w values)
      | Operations.failed e w ↦ stopped
      | panic ↦ crashed
    ]
  ]

  -- The end of `apply`, which drops the error of `SetBatch`.
  unfoldable pub flush : Store → Loop (Dict (Value Float)) → Applied Store
  flush s stopped = stored s
  flush s crashed = crash
  flush s (finished values) =
      let r = write driver sha512 s (map_values Value.raw values) in
      elim r.1 [ wrote ↦ stored r.0 | failed e ↦ stored r.0 | fault ↦ crash ]

  -- `apply`
  unfoldable pub apply : String → QueryStore → Store → Applied Store
  unfolding run_all flush
  apply uuid qs s = elim (get_query uuid qs) [
    | none ↦ stored s
    | some q ↦ flush s (run_all s q.operations [])
  ]
