-- ===== src/Consensus/Query.antt =====
-- consensus/query.go, and the messages `Version`, `Query`, `Endorsement` and `Proof` of
-- structures.proto. A time is a number of nanoseconds since the epoch, and `time.Now()` is an
-- argument.
use pnyxdb.Base.{
  ℕ, ◌+◌, String, Bool, true, not, Option, none, some, List, [], ◌∷◌, Bytes, Dict, leb, str_eq,
  if◌then◌else◌,
}
use pnyxdb.Consensus.Operation.{Operation, NonParallel}
use pnyxdb.Consensus.Operation

pub record Version : Type 0 where
  pub hash : Bytes

pub record Query : Type 0 where
  pub uuid : String
  pub policy : String
  pub emitter : String
  pub deadline : Option ℕ
  pub requirements : Dict (Option Version)
  pub operations : List Operation
  pub signature : Bytes

pub record Endorsement : Type 0 where
  pub uuid : String
  pub emitter : String
  pub conditions : List String
  pub signature : Bytes

-- The `oneof` of `Proof`; `empty` has no content.
pub data Proof : Type 0 where
  query_proof : Option Query → Proof
  endorsement_proof : Endorsement → Proof
  empty : Proof

-- `NewQuery`: the identifier is the one that the uuid package draws.
unfoldable pub new_query : String → Query
new_query uuid = record {
  uuid = uuid;
  policy = "none";
  emitter = "";
  deadline = none;
  requirements = [];
  operations = [];
  signature = [];
}

-- The inner loop of `CheckConflict`, and the outer one.
unfoldable pub conflict_with : Operation → List Operation → Option NonParallel
unfolding Operation.check_conflict
conflict_with op [] = none
conflict_with op (op2 ∷ rest) = elim (Operation.check_conflict op op2) [
  | some err ↦ some err
  | none ↦ conflict_with op rest
]

unfoldable pub conflict_between : List Operation → List Operation → Option NonParallel
unfolding conflict_with
conflict_between [] ops2 = none
conflict_between (op ∷ rest) ops2 = elim (conflict_with op ops2) [
  | some err ↦ some err
  | none ↦ conflict_between rest ops2
]

-- `CheckConflict`, on pointers that may be nil.
unfoldable pub check_conflict : Option Query → Option Query → Option NonParallel
unfolding conflict_between
check_conflict none q2 = none
check_conflict (some q) none = none
check_conflict (some q) (some q2) =
    if not (str_eq q.policy q2.policy) then none else conflict_between q.operations q2.operations

-- `!q.DeadlineTime().After(time.Now().Add(-d))`
deadline_reached : ℕ → ℕ → Option ℕ → Bool
deadline_reached now d none = true
deadline_reached now d (some deadline) = leb (deadline + d) now

-- `ExpiredSince`
unfoldable pub expired_since : ℕ → ℕ → Option Query → Bool
unfolding deadline_reached
expired_since now d none = true
expired_since now d (some q) = deadline_reached now d q.deadline

-- `Expired`
unfoldable pub expired : ℕ → Option Query → Bool
unfolding expired_since
expired now q = expired_since now 0 q
