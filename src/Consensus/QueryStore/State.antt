-- ===== src/Consensus/QueryStore/State.antt =====
-- query_store.go: the types, and the accesses that change no cached result.
use pnyxdb.Base.{
  ℕ, String, Bool, true, false, not, ◌&&◌, Option, none, some, List, [], ◌∷◌, ◌++◌, Dict, lookup,
  insert, contains, str_eq, if◌then◌else◌,
}
use pnyxdb.Consensus.Query.{Query, Endorsement, Proof, query_proof, endorsement_proof}
use pnyxdb.Consensus.Query

pub data QueryState : Type 0 where
  pending committed dropped : QueryState

-- The value that a query or an endorsement had when it was last computed.
pub record CachedInfo : Type 0 where
  pub result : Bool
  pub fresh : Bool

abbrev pub unset : CachedInfo
unset = record { result = false; fresh = false }

-- `Set` and `Mark`
abbrev pub set : Bool → CachedInfo
set r = record { result = r; fresh = true }

abbrev pub mark : CachedInfo → CachedInfo
mark ci = record ci { fresh = false }

pub record EndorsementInfo : Type 0 where
  pub endorsement : Endorsement
  pub cached : CachedInfo

-- `query` is nil in a zero value only.
pub record QueryInfo : Type 0 where
  pub query : Option Query
  pub endorsements : List EndorsementInfo
  pub dependents : List String
  pub state : QueryState
  pub endorsed : Bool
  pub applied : Bool
  pub cached : CachedInfo

abbrev pub zero_info : QueryInfo
zero_info = record {
  query = none;
  endorsements = [];
  dependents = [];
  state = pending;
  endorsed = false;
  applied = false;
  cached = unset;
}

-- The promoted field `Uuid`. Go would fault on a nil query, whose identifier is never read.
abbrev pub uuid_of : Option Query → String
uuid_of none = ""
uuid_of (some q) = q.uuid

pub record QueryStore : Type 0 where
  pub queries : Dict QueryInfo
  pub pending_dependencies : Dict (List String)
  pub pending_endorsements : List Endorsement
  pub threshold : ℕ

-- `newQueryStore`, with the threshold that `NewEngine` sets.
unfoldable pub new_query_store : ℕ → QueryStore
new_query_store q = record {
  queries = [];
  pending_dependencies = [];
  pending_endorsements = [];
  threshold = q;
}

-- `qs.queries[uuid] = qi`
abbrev pub put : String → QueryInfo → QueryStore → QueryStore
put uuid qi qs = record qs { queries = insert uuid qi qs.queries }

-- `addToSet`
unfoldable pub add_to_set : List String → String → List String
unfolding contains
add_to_set xs value = if contains value xs then xs else xs ++ (value ∷ [])

unfoldable pub query_of : Option QueryInfo → Option Query
query_of none = none
query_of (some qi) = qi.query

-- `GetQuery`
unfoldable pub get_query : String → QueryStore → Option Query
unfolding query_of
get_query uuid qs = query_of (lookup uuid qs.queries)

-- `Endorse`
unfoldable pub endorse : String → QueryStore → QueryStore
endorse uuid qs = elim (lookup uuid qs.queries) [
  | none ↦ qs
  | some qi ↦ put uuid (record qi { endorsed = true }) qs
]

abbrev pub is_pending : QueryState → Bool
is_pending pending = true
is_pending _ = false

-- `PendingQueries`
unfoldable pub pending_from : Dict QueryInfo → List String
pending_from [] = []
pending_from ((k, qi) ∷ rest) =
    let out = pending_from rest in if is_pending qi.state then uuid_of qi.query ∷ out else out

unfoldable pub pending_queries : QueryStore → List String
unfolding pending_from
pending_queries qs = pending_from qs.queries

-- `err != nil`
abbrev pub is_error {ℓ} : {A : Type ℓ} → Option A → Bool
is_error none = false
is_error (some err) = true

-- The tests of `GetConflicting` on one entry of the map.
unfoldable pub is_conflicting : Query → String → QueryInfo → Bool
is_conflicting q uuid q2 =
    not (str_eq uuid q.uuid)
    && is_pending q2.state
    && q2.endorsed
    && is_error (Query.check_conflict (some q) q2.query)

unfoldable pub conflicting_from : Query → Dict QueryInfo → List (Option Query)
unfolding is_conflicting
conflicting_from q [] = []
conflicting_from q ((uuid, q2) ∷ rest) =
    let cq = conflicting_from q rest in if is_conflicting q uuid q2 then q2.query ∷ cq else cq

-- `GetConflicting`
unfoldable pub get_conflicting : Query → QueryStore → List (Option Query)
unfolding conflicting_from
get_conflicting q qs = conflicting_from q qs.queries

-- `checkSpeculativeState`
unfoldable pub check_speculative_state : String → Bool → QueryStore → QueryStore
check_speculative_state uuid applicable qs = elim (lookup uuid qs.queries) [
  | none ↦ qs
  | some qi ↦
      let rolled_back = if not applicable && qi.applied then false else qi.applied in
      let applied = if applicable && not rolled_back then true else rolled_back in
      put uuid (record qi { applied = applied }) qs
]
