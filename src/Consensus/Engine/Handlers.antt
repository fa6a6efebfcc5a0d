-- ===== src/Consensus/Engine/Handlers.antt =====
-- The handlers of consensus/engine.go. A handler runs as one step; `query_round` of `Endorse` is a
-- step of its own, since the loop of `handleQuery` sleeps between two rounds.
use pnyxdb.Base.{
  ℕ, zero, suc, String, Bool, true, false, not, Option, none, some, List, [], ◌∷◌, ◌++◌, contains,
  if◌then◌else◌,
}
use Prim.Native.Nat.{Ordering}
use Prim.Native.String.{compare}
use pnyxdb.Consensus.Query.{Query, Endorsement, Proof, query_proof, endorsement_proof, empty}
use pnyxdb.Consensus.QueryStore.State.{pending_queries}
use pnyxdb.Consensus.QueryStore.Insert.{add_query, add_endorsement}
use pnyxdb.Consensus.QueryStore.Check.{checkpoint_choice, checkpoint_drop}
use pnyxdb.Consensus.QueryStore.Check
use pnyxdb.Consensus.Engine.Node.{Node, Engine, query_message, mark_active, broadcast}
use pnyxdb.Consensus.Engine.Apply.{stored, crash, apply}
use pnyxdb.Consensus.Engine.Signing.{verify_query, verify_endorsement, sign_query}

-- How a handler ends: a recursion deeper than the fuel, or a panic, has no engine.
pub data Run (A : Type 0) : Type 0 where
  ran : A → Run A
  no_fuel panicked : Run A

infixl 5 ◌>>=◌
abbrev pub ◌>>=◌ : {A B : Type 0} → Run A → (A → Run B) → Run B
ran a >>= f = f a
no_fuel >>= f = no_fuel
panicked >>= f = panicked

abbrev pub on_fuel : {A : Type 0} → Option A → Run A
on_fuel none = no_fuel
on_fuel (some a) = ran a

-- The loop over `PendingQueries`.
unfoldable pub check_each : {E : Type 0} → (String → E → Run E) → List String → E → Run E
check_each check [] eng = ran eng
check_each check (u ∷ us) eng = do eng' ← check u eng; check_each check us eng'

-- `sort.Strings`
unfoldable pub sort_into : String → List String → List String
sort_into x [] = x ∷ []
sort_into x (y ∷ ys) = elim (compare x y) [ Ordering.gt ↦ y ∷ sort_into x ys | _ ↦ x ∷ y ∷ ys ]

unfoldable pub sort_strings : List String → List String
unfolding sort_into
sort_strings [] = []
sort_strings (x ∷ xs) = sort_into x (sort_strings xs)

-- The vote that `handleCheckpoint` starts.
pub record Vote : Type 0 where
  pub sum : String
  pub queries : List String
  pub choice : Bool
  pub proofs : List Proof

module _ (node : Node) where
  open node use {driver, identity, sends, checkpoint_sum}
  open driver use {Store}

  -- `checkState` from the result of `CheckState` on; `again` is the recursive call.
  unfoldable pub after_check :
      (String → Engine Store → Run (Engine Store))
      → String
      → Bool
      → Engine Store
      → Run (Engine Store)
  unfolding apply check_each pending_queries mark_active
  after_check again uuid false eng = ran eng
  after_check again uuid true eng = elim (apply node uuid eng.query_store eng.store) [
    | crash ↦ panicked
    | stored s ↦
        check_each again (pending_queries eng.query_store) (mark_active (record eng { store = s }))
  ]

  -- `checkState`
  unfoldable pub check_state : ℕ → ℕ → String → Engine Store → Run (Engine Store)
  unfolding after_check
  check_state zero now uuid eng = no_fuel
  check_state (suc fuel) now uuid eng = do
    (commit, checkpoint, qs) ← on_fuel (Check.check_state fuel now uuid eng.query_store)
    eng' ← after_check (check_state fuel now) uuid commit (record eng { query_store = qs })
    ran (record eng' { pending_checkpoints = eng'.pending_checkpoints ++ checkpoint })

  -- `handleQuery` from `AddQuery` on, up to its loop: whether the loop is entered, and the engine.
  unfoldable pub valid_query : ℕ → ℕ → Query → Engine Store → Run (Bool × Engine Store)
  unfolding check_state
  valid_query fuel now q eng = do
    (inserted, qs) ← on_fuel (add_query fuel q eng.query_store)
    if not inserted then ran (false, record eng { query_store = qs }) else do
      eng' ← check_state fuel now q.uuid (record eng { query_store = qs })
      ran (true, eng')

  -- `handleQuery` up to its loop
  unfoldable pub query_arrives : ℕ → ℕ → Query → Engine Store → Run (Bool × Engine Store)
  unfolding verify_query valid_query
  query_arrives fuel now q eng =
      let (valid, eng') = verify_query node q eng in
      if valid then valid_query fuel now q eng' else ran (false, eng')

  -- `handleEndorsement` from `AddEndorsement` on
  unfoldable pub valid_endorsement : ℕ → ℕ → Endorsement → Engine Store → Run (Engine Store)
  unfolding check_state mark_active
  valid_endorsement fuel now e eng = do
    (waits, inserted, qs) ← on_fuel (add_endorsement fuel e eng.query_store)
    eng' ← check_state fuel now e.uuid (record eng { query_store = qs })
    ran (mark_active eng')

  -- `handleEndorsement`
  unfoldable pub handle_endorsement : ℕ → ℕ → Endorsement → Engine Store → Run (Engine Store)
  unfolding verify_endorsement valid_endorsement
  handle_endorsement fuel now e eng =
      if verify_endorsement node e then valid_endorsement fuel now e eng else ran eng

  -- `handleCheckpoint` for a checkpoint that the cache does not have.
  unfoldable pub start_vote :
      ℕ → String → List String → Engine Store → Run (Option Vote × Engine Store)
  start_vote fuel sum queries eng = do
    (choice, proofs, qs) ← on_fuel (checkpoint_choice fuel queries eng.query_store)
    ran (
      some (record { sum = sum; queries = queries; choice = choice; proofs = proofs }),
      record eng { query_store = qs; checkpoints = sum ∷ eng.checkpoints },
    )

  -- `handleCheckpoint` up to the vote
  unfoldable pub handle_checkpoint :
      ℕ → List String → Engine Store → Run (Option Vote × Engine Store)
  unfolding sort_strings start_vote
  handle_checkpoint fuel [] eng = ran (none, eng)
  handle_checkpoint fuel (q ∷ queries) eng =
      let sorted = sort_strings (q ∷ queries) in
      let sum = checkpoint_sum sorted in
      if contains sum eng.checkpoints then ran (none, eng) else start_vote fuel sum sorted eng

  -- One proof of an unexpected veto. The rounds of a query's loop come after it, and the proofs that
  -- wait for them are handled as steps of their own.
  unfoldable pub handle_proof : ℕ → ℕ → Proof → Engine Store → Run (Engine Store)
  unfolding query_arrives handle_endorsement
  handle_proof fuel now (query_proof none) eng = ran eng
  handle_proof fuel now (query_proof (some q)) eng = do
    (loops, eng') ← query_arrives fuel now q eng
    ran eng'
  handle_proof fuel now (endorsement_proof e) eng = handle_endorsement fuel now e eng
  handle_proof fuel now empty eng = ran eng

  unfoldable pub handle_proofs : ℕ → ℕ → List Proof → Engine Store → Run (Engine Store)
  unfolding handle_proof
  handle_proofs fuel now [] eng = ran eng
  handle_proofs fuel now (p ∷ ps) eng = do
    eng' ← handle_proof fuel now p eng
    handle_proofs fuel now ps eng'

  -- `handleCheckpoint` from the decision on.
  unfoldable pub vote_ends : ℕ → ℕ → Vote → Bool → List Proof → Engine Store → Run (Engine Store)
  unfolding handle_proofs mark_active
  vote_ends fuel now vote true proofs eng = do
    qs ← on_fuel (checkpoint_drop fuel vote.queries eng.query_store)
    ran (mark_active (record eng { query_store = qs }))
  vote_ends fuel now vote false proofs eng =
      if vote.choice then handle_proofs fuel now proofs eng else ran eng

  -- The loop of `Run` that checks every pending query.
  unfoldable pub tick : ℕ → ℕ → Engine Store → Run (Engine Store)
  unfolding check_each check_state pending_queries
  tick fuel now eng = check_each (check_state fuel now) (pending_queries eng.query_store) eng

  -- `Submit`: the query that is broadcast and handled, or none on an error, and the engine.
  unfoldable pub submit : Query → Engine Store → Option Query × Engine Store
  unfolding sign_query broadcast
  submit q eng = elim (sign_query node (record q { emitter = identity })) [
    | none ↦ (none, eng)
    | some signed ↦
        if sends (query_message signed)
        then (some signed, broadcast node (query_message signed) eng)
        else (none, eng)
  ]
