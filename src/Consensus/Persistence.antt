-- ===== src/Consensus/Persistence.antt =====
-- consensus/persistence.go: the query store is dumped and loaded again. The gob library is a
-- parameter; it leaves out the fields that are not exported, so the caches of results.
pub mod Reloaded
use pnyxdb.Base.{
  ℕ, ◌≡◌, refl, sym, ap, ◌∙◌, subst, String, Bool, true, false, not, Option, none, some, List, [],
  ◌∷◌, ◌++◌, Bytes, Dict, map, length, take, drop, take-append, drop-append, ltb, bytes_equal,
  bytes_equal_refl, if◌then◌else◌, arith, length-append, map_values, map_some, merge, ◌>>=◌,
  lookup-map_values, Option-cases, inl, inr, lookup,
}
use pnyxdb.Consensus.Query.{Query, Endorsement}
use pnyxdb.Consensus.QueryStore.State.{QueryState, QueryInfo, EndorsementInfo, QueryStore, unset}
use pnyxdb.Consensus.QueryStore.View.{Core, core, core_of, endorsements_of, view, SameView}

-- `queryInfo` as gob sees it.
pub record Dumped : Type 0 where
  pub query : Option Query
  pub endorsements : List Endorsement
  pub dependents : List String
  pub state : QueryState
  pub endorsed : Bool
  pub applied : Bool

abbrev pub dumped : QueryInfo → Dumped
dumped qi = record {
  query = qi.query;
  endorsements = endorsements_of qi.endorsements;
  dependents = qi.dependents;
  state = qi.state;
  endorsed = qi.endorsed;
  applied = qi.applied;
}

-- What decoding into a new value gives: no result is marked fresh.
abbrev pub with_unset : List Endorsement → List EndorsementInfo
with_unset [] = []
with_unset (e ∷ es) = record { endorsement = e; cached = unset } ∷ with_unset es

abbrev pub loaded : Dumped → QueryInfo
loaded d = record {
  query = d.query;
  endorsements = with_unset d.endorsements;
  dependents = d.dependents;
  state = d.state;
  endorsed = d.endorsed;
  applied = d.applied;
  cached = unset;
}

-- A stream of the gob library: three values are written one after the other, and read in order;
-- `none` is an error. A decoder returns what is left of the input.
pub record Gob : Type 0 where
  pub encode_queries : Dict Dumped → Option Bytes
  pub encode_dependencies : Dict (List String) → Option Bytes
  pub encode_endorsements : List Endorsement → Option Bytes
  pub decode_queries : Bytes → Option (Dict Dumped × Bytes)
  pub decode_dependencies : Bytes → Option (Dict (List String) × Bytes)
  pub decode_endorsements : Bytes → Option (List Endorsement × Bytes)

-- What is encoded is decoded, with the rest of the input left over.
pub record Decodes (g : Gob) : Type 0 where
  pub queries :
      (m : Dict Dumped) (bs rest : Bytes)
      → g.encode_queries m ≡ some bs
      → g.decode_queries (bs ++ rest) ≡ some (m, rest)
  pub dependencies :
      (m : Dict (List String)) (bs rest : Bytes)
      → g.encode_dependencies m ≡ some bs
      → g.decode_dependencies (bs ++ rest) ≡ some (m, rest)
  pub endorsements :
      (es : List Endorsement) (bs rest : Bytes)
      → g.encode_endorsements es ≡ some bs
      → g.decode_endorsements (bs ++ rest) ≡ some (es, rest)

-- `dumpHeader`, " PNYXDB_DUMP_V1 "
abbrev pub dump_header : Bytes
dump_header = 32 ∷ 80 ∷ 78 ∷ 89 ∷ 88 ∷ 68 ∷ 66 ∷ 95 ∷ 68 ∷ 85 ∷ 77 ∷ 80 ∷ 95 ∷ 86 ∷ 49 ∷ 32 ∷ []

pub data LoadError : Type 0 where
  invalid_header short_read decode_failed : LoadError

-- How `Load` ends: a failure leaves what was decoded before it in the store.
pub data Load : Type 0 where
  complete : QueryStore → Load
  failed : LoadError → QueryStore → Load

module _ (g : Gob) where
  open g use {
    encode_queries, encode_dependencies, encode_endorsements, decode_queries, decode_dependencies,
    decode_endorsements,
  }

  -- `Dump`, into a writer that takes everything
  unfoldable pub dump : QueryStore → Option Bytes
  dump qs = do
    queries ← encode_queries (map_values dumped qs.queries)
    dependencies ← encode_dependencies qs.pending_dependencies
    endorsements ← encode_endorsements qs.pending_endorsements
    some (dump_header ++ (queries ++ (dependencies ++ endorsements)))

  -- `Load` behind the header: a decoder puts the entries into the map that is there, and replaces a
  -- slice.
  unfoldable pub load_endorsements : QueryStore → Option (List Endorsement × Bytes) → Load
  load_endorsements qs none = failed decode_failed qs
  load_endorsements qs (some (es, rest)) = complete (record qs { pending_endorsements = es })

  unfoldable pub load_dependencies : QueryStore → Option (Dict (List String) × Bytes) → Load
  unfolding load_endorsements
  load_dependencies qs none = failed decode_failed qs
  load_dependencies qs (some (m, rest)) =
      load_endorsements (record qs { pending_dependencies = merge m qs.pending_dependencies })
        (decode_endorsements rest)

  unfoldable pub load_queries : QueryStore → Option (Dict Dumped × Bytes) → Load
  unfolding load_dependencies
  load_queries qs none = failed decode_failed qs
  load_queries qs (some (m, rest)) =
      load_dependencies (record qs { queries = merge (map_values loaded m) qs.queries })
        (decode_dependencies rest)

  -- `Load`
  unfoldable pub load : Bytes → QueryStore → Load
  unfolding load_queries bytes_equal
  load bs qs =
      if ltb (length bs) (length dump_header)
      then failed short_read qs
      else if not (bytes_equal (take (length dump_header) bs) dump_header)
      then failed invalid_header qs
      else load_queries qs (decode_queries (drop (length dump_header) bs))
