-- ===== src/Consensus/QueryStore/Check.antt =====
-- query_store.go: `isApplicable`, `CheckState`, the checkpoints, and the terminal states.
use pnyxdb.Base.{
  ℕ, zero, suc, String, Bool, true, false, not, ◌&&◌, Option, none, some, List, [], ◌∷◌, lookup,
  ltb, leb, length, map, if◌then◌else◌, ◌>>=◌,
}
use pnyxdb.Consensus.Query.{Query, Proof, query_proof, endorsement_proof}
use pnyxdb.Consensus.Query
use pnyxdb.Consensus.QueryStore.State.{
  QueryState, pending, committed, dropped, QueryInfo, EndorsementInfo, QueryStore, zero_info, set,
  put, add_to_set, check_speculative_state,
}
use pnyxdb.Consensus.QueryStore.Insert.{cascade_mark}

-- The loop over `e.Conditions`: whether no condition is applicable.
unfoldable pub none_applicable :
    (String → QueryStore → Option (Bool × QueryStore))
    → List String
    → QueryStore
    → Option (Bool × QueryStore)
none_applicable applicable [] qs = some (true, qs)
none_applicable applicable (c ∷ cs) qs = do
  (yes_c, qs') ← applicable c qs
  if yes_c then some (false, qs') else none_applicable applicable cs qs'

-- One round of the loop over `q.Endorsements`.
unfoldable pub refresh :
    (String → QueryStore → Option (Bool × QueryStore))
    → EndorsementInfo
    → QueryStore
    → Option (EndorsementInfo × QueryStore)
unfolding none_applicable
refresh applicable e qs = if e.cached.fresh then some (e, qs) else do
  (valid, qs') ← none_applicable applicable e.endorsement.conditions qs
  some (record e { cached = set valid }, qs')

-- The loop over `q.Endorsements`: how many are valid, the list with its caches, and the store.
unfoldable pub count_valid :
    (String → QueryStore → Option (Bool × QueryStore))
    → List EndorsementInfo
    → QueryStore
    → Option (ℕ × List EndorsementInfo × QueryStore)
unfolding refresh
count_valid applicable [] qs = some (0, [], qs)
count_valid applicable (e ∷ es) qs = do
  (e', qs') ← refresh applicable e qs
  (n, es', qs'') ← count_valid applicable es qs'
  some (if e'.cached.result then suc n else n, e' ∷ es', qs'')

-- The part of `isApplicable` for a pending query with no fresh result.
unfoldable pub compute :
    (String → QueryStore → Option (Bool × QueryStore))
    → String
    → QueryInfo
    → QueryStore
    → Option (Bool × QueryStore)
unfolding count_valid
compute applicable uuid q qs =
    if ltb (length q.endorsements) qs.threshold
    then some (false, put uuid (record q { cached = set false }) qs)
    else do
      (n, es, qs') ← count_valid applicable q.endorsements qs
      let result = leb qs.threshold n
      some (result, put uuid (record q { endorsements = es; cached = set result }) qs')

unfoldable pub by_state :
    (String → QueryStore → Option (Bool × QueryStore))
    → QueryState
    → String
    → QueryInfo
    → QueryStore
    → Option (Bool × QueryStore)
unfolding compute
by_state applicable dropped uuid q qs = some (false, qs)
by_state applicable committed uuid q qs = some (true, qs)
by_state applicable pending uuid q qs =
    if q.cached.fresh then some (q.cached.result, qs) else compute applicable uuid q qs

-- `isApplicable`; `none` is a recursion deeper than the fuel.
unfoldable pub is_applicable : ℕ → String → QueryStore → Option (Bool × QueryStore)
unfolding by_state
is_applicable zero uuid qs = none
is_applicable (suc fuel) uuid qs = elim (lookup uuid qs.queries) [
  | none ↦ some (false, qs)
  | some q ↦ by_state (is_applicable fuel) q.state uuid q qs
]

-- `drop`. A query that is not in the store makes a `queryInfo` with a nil query.
abbrev pub info_or_zero : Option QueryInfo → QueryInfo
info_or_zero none = zero_info
info_or_zero (some qi) = qi

unfoldable pub drop : ℕ → String → QueryStore → Option QueryStore
unfolding cascade_mark
drop fuel uuid qs =
    cascade_mark fuel
      (record (info_or_zero (lookup uuid qs.queries)) { state = dropped; cached = set false }) qs

-- The loop of `commit` over the dependents, and that of `CheckpointDrop`.
unfoldable pub drop_all : ℕ → List String → QueryStore → Option QueryStore
unfolding drop
drop_all fuel [] qs = some qs
drop_all fuel (d ∷ ds) qs = do qs' ← drop fuel d qs; drop_all fuel ds qs'

-- `commit`
unfoldable pub commit : ℕ → String → QueryStore → Option QueryStore
unfolding drop_all
commit fuel uuid qs =
    let qi = info_or_zero (lookup uuid qs.queries) in
    drop_all fuel qi.dependents (put uuid (record qi { state = committed }) qs)

abbrev pub is_dropped : Option QueryInfo → Bool
is_dropped none = false
is_dropped (some qi) = elim qi.state [ dropped ↦ true | _ ↦ false ]

-- `old` of `CheckState`, for a condition that is not dropped.
unfoldable pub condition_old :
    ℕ → ℕ → String → Option QueryInfo → QueryStore → Option (Bool × QueryStore)
condition_old fuel now c none qs = some (true, qs)
condition_old fuel now c (some qi) qs = do
  (applicable, qs') ← is_applicable fuel c qs
  some (not applicable && Query.expired_since now 1_000_000_000 qi.query, qs')

-- The loop over `e.Conditions` of `CheckState`: whether all are dropped, and the checkpoint list.
unfoldable pub definitely_valid :
    ℕ → ℕ → List String → List String → QueryStore → Option (Bool × List String × QueryStore)
unfolding condition_old
definitely_valid fuel now [] cp qs = some (true, cp, qs)
definitely_valid fuel now (c ∷ cs) cp qs = elim (is_dropped (lookup c qs.queries)) [
  | true ↦ definitely_valid fuel now cs cp qs
  | false ↦ do
    (old, qs') ← condition_old fuel now c (lookup c qs.queries) qs
    some (false, if old then add_to_set cp c else cp, qs')
]

-- The loop over the endorsements of `CheckState`, with the counter `n`.
unfoldable pub count_definite :
    ℕ
    → ℕ
    → List EndorsementInfo
    → ℕ
    → List String
    → QueryStore
    → Option (ℕ × List String × QueryStore)
unfolding definitely_valid
count_definite fuel now [] n cp qs = some (n, cp, qs)
count_definite fuel now (e ∷ es) n cp qs = do
  (ok, cp', qs') ← definitely_valid fuel now e.endorsement.conditions cp qs
  count_definite fuel now es (if ok then suc n else n) cp' qs'

-- `CheckState` for an applicable query that is not committed.
unfoldable pub decide :
    ℕ → ℕ → String → QueryInfo → QueryStore → Option (Bool × List String × QueryStore)
unfolding count_definite commit
decide fuel now uuid qi qs = do
  (n, cp, qs') ← count_definite fuel now qi.endorsements 0 [] qs
  if leb qs.threshold n
      then (do qs'' ← commit fuel uuid qs'; some (true, cp, qs''))
      else some (false, cp, qs')

abbrev pub is_committed : QueryState → Bool
is_committed committed = true
is_committed _ = false

-- `CheckState`: whether the query commits now, the checkpoint list, and the store.
unfoldable pub check_state : ℕ → ℕ → String → QueryStore → Option (Bool × List String × QueryStore)
unfolding is_applicable decide check_speculative_state
check_state fuel now uuid qs = do
  (applicable, qs1) ← is_applicable fuel uuid qs
  let qs2 = check_speculative_state uuid applicable qs1
  let qi = info_or_zero (lookup uuid qs2.queries)
  if not applicable
      then some (false, [], qs2)
      else if is_committed qi.state
      then some (false, [], qs2)
      else decide fuel now uuid qi qs2

-- `CheckpointChoice`
unfoldable pub proofs_of : QueryInfo → List Proof
proofs_of qi =
    query_proof qi.query
    ∷ map (λ ei. endorsement_proof (EndorsementInfo.endorsement ei)) qi.endorsements

unfoldable pub checkpoint_choice :
    ℕ → List String → QueryStore → Option (Bool × List Proof × QueryStore)
unfolding is_applicable proofs_of
checkpoint_choice fuel [] qs = some (true, [], qs)
checkpoint_choice fuel (uuid ∷ rest) qs = do
  (applicable, qs') ← is_applicable fuel uuid qs
  if applicable
      then some (false, proofs_of (info_or_zero (lookup uuid qs'.queries)), qs')
      else checkpoint_choice fuel rest qs'

-- `CheckpointDrop`
unfoldable pub checkpoint_drop : ℕ → List String → QueryStore → Option QueryStore
unfolding drop_all
checkpoint_drop fuel queries qs = drop_all fuel queries qs
