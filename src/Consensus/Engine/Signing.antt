-- ===== src/Consensus/Engine/Signing.antt =====
-- consensus/signatures.go.
use pnyxdb.Base.{
  Bool, true, false, Option, none, some, Bytes, Dict, lookup, insert, if◌then◌else◌, ◌>>=◌,
  map_some, [],
}
use pnyxdb.Consensus.Query.{Query, Endorsement}
use pnyxdb.Consensus.Engine.Node.{Node, Engine}

module _ (node : Node) where
  open node use {sha512, marshal_query, hash_endorsement, sign, verify}

  -- `Query.Hash`: the query without its signature is marshalled and hashed.
  unfoldable pub hash_query : Query → Option Bytes
  hash_query q = map_some sha512 (marshal_query (record q { signature = [] }))

  -- The hash that `verifyQuery` uses: a cached one for the identifier, or else that of the query.
  unfoldable pub hash_of : Query → Dict Bytes → Option Bytes
  unfolding hash_query
  hash_of q hashes = elim (lookup q.uuid hashes) [ some h ↦ some h | none ↦ hash_query q ]

  unfoldable pub verified : {S : Type 0} → Query → Option Bytes → Engine S → Bool × Engine S
  verified q none eng = (false, eng)
  verified q (some h) eng =
      if verify q.emitter h q.signature
      then (true, record eng { hashes = insert q.uuid h eng.hashes })
      else (false, eng)

  -- `verifyQuery`: whether there is no error, and the engine with its cache.
  unfoldable pub verify_query : {S : Type 0} → Query → Engine S → Bool × Engine S
  unfolding hash_of verified
  verify_query q eng = verified q (hash_of q eng.hashes) eng

  -- `signQuery`
  unfoldable pub sign_query : Query → Option Query
  unfolding hash_query
  sign_query q = do
    hash ← hash_query q
    signature ← sign hash
    some (record q { signature = signature })

  -- `verifyEndorsement`
  unfoldable pub verify_endorsement : Endorsement → Bool
  verify_endorsement e = elim (hash_endorsement e) [
    | none ↦ false
    | some h ↦ verify e.emitter h e.signature
  ]

  -- `signEndorsement`
  unfoldable pub sign_endorsement : Endorsement → Option Endorsement
  sign_endorsement e = do
    hash ← hash_endorsement e
    signature ← sign hash
    some (record e { signature = signature })
