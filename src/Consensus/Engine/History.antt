-- ===== src/Consensus/Engine/History.antt =====
-- Whatever happens to an engine, in whatever order: what that does to its queries.
use pnyxdb.Base.{
  ℕ, ◌≡◌, refl, sym, subst, String, Bool, true, false, Option, List, [], ◌∷◌, Bytes, Dict,
  if◌then◌else◌, Option-cases, Bool-cases, inl, inr, List-cases, length, ltb, ◌==◌,
}
use pnyxdb.Consensus.Query.{Query, Endorsement, Proof}
use pnyxdb.Consensus.Driver.{Wrote, wrote, fault, failed}
use pnyxdb.Consensus.QueryStore.State.{QueryStore, get_conflicting, pending_queries, add_to_set}
use pnyxdb.Consensus.QueryStore.Reachable.{Reach, here, next, Reach-trans, endorsed}
use pnyxdb.Consensus.Engine.Node.{Node, Engine, query_message, mark_active, broadcast}
use pnyxdb.Consensus.Engine.Signing.{sign_endorsement, sign_query}
use pnyxdb.Consensus.Engine.Endorse.{
  round, query_round, endorse_query, endorsement_of, can_endorse, all_expired,
}
use pnyxdb.Consensus.Engine.Handlers.{
  ran, check_state, query_arrives, handle_endorsement, Vote, handle_checkpoint, vote_ends, tick,
  submit,
}
use pnyxdb.Consensus.Engine.Pool.{pool_receives, start, checkpoint_routine_batch}
use pnyxdb.Consensus.Engine.Recovery.{
  recover, recovery_round, recovered, after_set, retry, recovery_capacity,
}
use pnyxdb.Consensus.Engine.Steps.{
  subst_ran, Moves, check_each-Moves, check_state-Moves, query_arrives-Moves,
  handle_endorsement-Moves, handle_checkpoint-Moves, vote_ends-Moves,
}
use pnyxdb.Network.Recovery.{
  Requested, checked, accepted, rejected, skipped, not_enough_peers, invalid_response, cancelled,
  waiting,
}

module _ (node : Node) where
  open node use {driver}
  open driver use {Store}

  endorse_query-Moves :
      (q : Query) (cs : List (Option Query)) (a : Engine Store)
      → Moves node a (endorse_query node q cs a)
  unfolding endorse_query broadcast
  endorse_query-Moves q cs a =
      elim (Option-cases (sign_endorsement node (endorsement_of node q cs))) [
        | inl p ↦ rw (p, endorse_query) here
        | inr (e, p) ↦ rw (p, endorse_query) (next here (endorsed q.uuid refl))
      ]

  round-Moves : (now : ℕ) (q : Query) (a : Engine Store) → Moves node a (round node now q a).1
  unfolding round
  round-Moves now q a = elim (Bool-cases (can_endorse node now q a.store)) [
    | inr t ↦ rw (t, round) here
    | inl t ↦ rw (t, round) (go (get_conflicting q a.query_store))
  ]
    where
      go :
          (cs : List (Option Query))
          → Moves node a
              (elim cs as (λ x. Bool × Engine Store) [
                | [] ↦ (true, endorse_query node q [] a)
                | ◌∷◌ c rest ↦
                    if all_expired now (c ∷ rest)
                    then (true, endorse_query node q (c ∷ rest) a)
                    else (false, a)
              ]).1
      go [] = endorse_query-Moves q [] a
      go (c ∷ cs) = elim (Bool-cases (all_expired now (c ∷ cs))) [
        | inl t ↦ rw t (endorse_query-Moves q (c ∷ cs) a)
        | inr t ↦ rw t here
      ]

  query_round-Moves :
      (now : ℕ) (q : Query) (a : Engine Store) → Moves node a (query_round node now q a).1
  unfolding query_round mark_active
  query_round-Moves now q a = elim (Bool-cases (round node now q a).0) [
    | inl t ↦ rw t (round-Moves now q a)
    | inr t ↦ rw t (round-Moves now q a)
  ]

  -- What may happen: the handlers, a round of a loop, the cache library's evictions, and what
  -- concerns the network and the storage alone.
  pub data Step (a : Engine Store) : Engine Store → Type 0 where
    query_handled :
        {b : Engine Store} (fuel now : ℕ) (q : Query) (loops : Bool)
        → query_arrives node fuel now q a ≡ ran (loops, b)
        → Step a b
    round_passes : (now : ℕ) (q : Query) → Step a (query_round node now q a).1
    endorsement_handled :
        {b : Engine Store} (fuel now : ℕ) (e : Endorsement)
        → handle_endorsement node fuel now e a ≡ ran b
        → Step a b
    checkpoint_handled :
        {b : Engine Store} (fuel : ℕ) (us : List String) (vote : Option Vote)
        → handle_checkpoint node fuel us a ≡ ran (vote, b)
        → Step a b
    vote_ended :
        {b : Engine Store} (fuel now : ℕ) (vote : Vote) (decision : Bool) (ps : List Proof)
        → vote_ends node fuel now vote decision ps a ≡ ran b
        → Step a b
    ticked : {b : Engine Store} (fuel now : ℕ) → tick node fuel now a ≡ ran b → Step a b
    submitted : (q : Query) → Step a (submit node q a).1
    pool_received : (pending : List String) (c : String) → Step a (pool_receives node pending c a).1
    timer_fired : (pending : List String) → Step a (start node pending a).1
    recovery_asked : (key : String) → Step a (recover node key a)
    recovery_passes :
        {b : Engine Store} (request : String → Requested)
        → recovery_round node request a ≡ ran b
        → Step a b
    evicted :
        (hashes : Dict Bytes) (checkpoints : List String)
        → Step a (record a { hashes = hashes; checkpoints = checkpoints })

  pub data History (a : Engine Store) : Engine Store → Type 0 where
    begin : History a a
    after : {b c : Engine Store} → History a b → Step b c → History a c

  -- The parts that leave the query store alone.
  same-Moves : {a b : QueryStore} → b ≡ a → Reach a b
  same-Moves {a} h = subst (Reach a) (sym h) here

  submit-same : (q : Query) (a : Engine Store) → (submit node q a).1.query_store ≡ a.query_store
  unfolding submit broadcast
  submit-same q a = elim (Option-cases (sign_query node (record q { emitter = node.identity }))) [
    | inl p ↦ rw (p, submit) refl
    | inr (s, p) ↦ elim (Bool-cases (node.sends (query_message s))) [
      | inl t ↦ rw (p, t, submit) refl
      | inr t ↦ rw (p, t, submit) refl
    ]
  ]

  start-same :
      (pending : List String) (a : Engine Store)
      → (start node pending a).1.query_store ≡ a.query_store
  unfolding start broadcast
  start-same [] a = refl
  start-same (c ∷ cs) a = refl

  pool_receives-same :
      (pending : List String) (c : String) (a : Engine Store)
      → (pool_receives node pending c a).1.query_store ≡ a.query_store
  unfolding pool_receives
  pool_receives-same pending c a =
      elim (Bool-cases (length (add_to_set pending c) == checkpoint_routine_batch)) [
        | inl t ↦ rw t (start-same (add_to_set pending c) a)
        | inr t ↦ rw t refl
      ]

  retry-same : (key : String) (a : Engine Store) → (retry node key a).query_store ≡ a.query_store
  unfolding retry
  retry-same key a = elim (Bool-cases (ltb (length a.pending_recovery) recovery_capacity)) [
    | inl t ↦ rw t refl
    | inr t ↦ rw t refl
  ]

  after_set-Moves :
      (key : String) (a b : Engine Store) (r : Store × Wrote)
      → after_set node key a r ≡ ran b
      → Moves node a b
  unfolding after_set
  after_set-Moves key a b (s, wrote) h = subst_ran (Moves node a) h here
  after_set-Moves key a b (s, failed e) h =
      subst_ran (Moves node a) h (same-Moves (retry-same key (record a { store = s })))
  after_set-Moves key a b (s, fault) h = cc

  recovered-Moves :
      (key : String) (r : Requested) (a b : Engine Store)
      → recovered node key r a ≡ ran b
      → Moves node a b
  unfolding recovered
  recovered-Moves key (checked (accepted r)) a b h = after_set-Moves key a b _ h
  recovered-Moves key (checked (rejected e)) a b h =
      subst_ran (Moves node a) h (same-Moves (retry-same key a))
  recovered-Moves key skipped a b h = after_set-Moves key a b _ h
  recovered-Moves key not_enough_peers a b h =
      subst_ran (Moves node a) h (same-Moves (retry-same key a))
  recovered-Moves key invalid_response a b h =
      subst_ran (Moves node a) h (same-Moves (retry-same key a))
  recovered-Moves key cancelled a b h = subst_ran (Moves node a) h (same-Moves (retry-same key a))
  recovered-Moves key waiting a b h = subst_ran (Moves node a) h (same-Moves (retry-same key a))

  recovery_round-Moves :
      (request : String → Requested) (a b : Engine Store)
      → recovery_round node request a ≡ ran b
      → Moves node a b
  unfolding recovery_round
  recovery_round-Moves request a b h = elim (List-cases a.pending_recovery) [
    | inl p ↦ subst_ran (Moves node a) (rw (p, recovery_round) at h) here
    | inr (key, keys, p) ↦
        recovered-Moves key (request key) (record a { pending_recovery = keys }) b
          (rw (p, recovery_round) at h)
  ]

  -- Each step of the engine is a sequence of steps of its query store.
  Step-Moves : {a b : Engine Store} → Step a b → Moves node a b
  unfolding tick recover
  Step-Moves {a} (query_handled fuel now q loops h) =
      query_arrives-Moves node fuel now q a (loops, _) h
  Step-Moves {a} (round_passes now q) = query_round-Moves now q a
  Step-Moves {a} (endorsement_handled fuel now e h) = handle_endorsement-Moves node fuel now e a _ h
  Step-Moves {a} (checkpoint_handled fuel us vote h) =
      handle_checkpoint-Moves node fuel us a (vote, _) h
  Step-Moves {a} (vote_ended fuel now vote d ps h) = vote_ends-Moves node fuel now vote d ps a _ h
  Step-Moves {a} (ticked fuel now h) =
      check_each-Moves node (check_state node fuel now) (check_state-Moves node fuel now)
        (pending_queries a.query_store) a _ h
  Step-Moves {a} (submitted q) = same-Moves (submit-same q a)
  Step-Moves {a} (pool_received pending c) = same-Moves (pool_receives-same pending c a)
  Step-Moves {a} (timer_fired pending) = same-Moves (start-same pending a)
  Step-Moves (recovery_asked key) = here
  Step-Moves {a} (recovery_passes request h) = recovery_round-Moves request a _ h
  Step-Moves (evicted hashes checkpoints) = here

  -- The engine refines its query store: whatever happens to it, in whatever order, its queries move
  -- as the operations of the query store alone move them.
  pub History-Moves : {a b : Engine Store} → History a b → Moves node a b
  History-Moves begin = here
  History-Moves (after h s) = Reach-trans (History-Moves h) (Step-Moves s)
