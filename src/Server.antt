-- ===== src/Server.antt =====
-- server/server.go: what a client asks of a node, and the messages of api/api.proto. gRPC delivers
-- the answer, or the error; the answer that comes with an error is lost.
pub mod Sets
pub mod Submitted
use pnyxdb.Base.{ℕ, String, Bool, true, false, Option, none, some, List, [], ◌∷◌, map, Bytes, Dict}
use pnyxdb.Consensus.Operation.{Operation}
use pnyxdb.Consensus.Query.{Version, Query, new_query}
use pnyxdb.Consensus.Driver.{StoreError, Got}
use pnyxdb.Consensus.Engine.Node.{Node, Engine}
use pnyxdb.Consensus.Engine.Handlers
use pnyxdb.Encoding.Set.{
  Outcome, ok, err_empty_element, err_unexpected_eof, fault, contains, unmarshal_binary,
}
use pnyxdb.Encoding.Set

pub record Value : Type 0 where
  pub version : Option Version
  pub content : Bytes

pub record Values : Type 0 where
  pub version : Option Version
  pub members : List Bytes

pub record Transaction : Type 0 where
  pub policy : String
  pub deadline : Option ℕ
  pub requirements : Dict (Option Version)
  pub operations : List Operation

-- An error of the storage, or of the bytes that should be a set.
pub data Error : Type 0 where
  store_error : StoreError → Error
  empty_element unexpected_eof : Error

-- How a call ends; `panicked` is a slice out of bounds.
pub data Answer (A : Type 0) : Type 0 where
  answer : A → Answer A
  failed : Error → Answer A
  panicked : Answer A

-- `set.UnmarshalBinary(value)` and its early return.
unfoldable pub parsed : {A : Type 0} → Outcome Set.Set → (Set.Set → A) → Answer A
parsed (ok s) f = answer (f s)
parsed err_empty_element f = failed empty_element
parsed err_unexpected_eof f = failed unexpected_eof
parsed fault f = panicked

-- The early return on the error of `Store.Get`.
unfoldable pub reading : {A : Type 0} → (Option Version → Bytes → Answer A) → Got → Answer A
reading f got = elim got.err [ some e ↦ failed (store_error e) | none ↦ f got.version got.value ]

-- The rest of `Members` and of `Contains`. Go ranges over a map in an order of its own: `range` puts
-- the keys of the map into that order.
unfoldable pub list_members : (List Bytes → List Bytes) → Option Version → Bytes → Answer Values
unfolding parsed unmarshal_binary
list_members range version value = parsed (unmarshal_binary value) (λ set. record {
  version = version;
  members = range (map (λ (e : Bytes × ℕ). e.0) (Set.Set.elements set));
})

unfoldable pub test_member : Bytes → Option Version → Bytes → Answer Bool
unfolding parsed unmarshal_binary contains
test_member element version value = parsed (unmarshal_binary value) (contains element)

module _ (node : Node) where
  open node use {driver}
  open driver use {Store}

  -- `Get`
  unfoldable pub get : String → Engine Store → Answer Value
  unfolding reading
  get key eng =
      reading (λ version value. answer (record { version = version; content = value }))
        (driver.get eng.store key)

  -- `Members`
  unfoldable pub members : (List Bytes → List Bytes) → String → Engine Store → Answer Values
  unfolding reading list_members
  members range key eng = reading (list_members range) (driver.get eng.store key)

  -- `Contains`
  unfoldable pub contains_value : String → Bytes → Engine Store → Answer Bool
  unfolding reading test_member
  contains_value key element eng = reading (test_member element) (driver.get eng.store key)

  -- `Submit`: the identifier of the receipt, the query that was broadcast or none on an error, and
  -- the engine. `uuid` is the one that `NewQuery` draws.
  unfoldable pub submit : String → Transaction → Engine Store → String × Option Query × Engine Store
  unfolding new_query Handlers.submit
  submit uuid tx eng =
      let query : Query = record (new_query uuid) {
        policy = tx.policy;
        requirements = tx.requirements;
        operations = tx.operations;
        deadline = tx.deadline;
      } in
      let sent = Handlers.submit node query eng in (query.uuid, sent.0, sent.1)
