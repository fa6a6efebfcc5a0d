-- ===== src/Consensus/Engine/Endorse.antt =====
-- `canEndorse`, `endorse` and the loop of `handleQuery` of consensus/engine.go.
use pnyxdb.Base.{
  ℕ, Bool, true, false, not, ◌||◌, Option, none, some, List, [], ◌∷◌, Dict, map, if◌then◌else◌,
}
use pnyxdb.Consensus.Query.{Version, Query, Endorsement, expired}
use pnyxdb.Consensus.Version.{matches}
use pnyxdb.Consensus.QueryStore.State.{QueryStore, get_conflicting, endorse, uuid_of, is_error}
use pnyxdb.Consensus.QueryStore.State
use pnyxdb.Consensus.Engine.Node.{Node, Engine, endorsement_message, mark_active, broadcast}
use pnyxdb.Consensus.Engine.Signing.{sign_endorsement}

-- `allExpired`
unfoldable pub all_expired : ℕ → List (Option Query) → Bool
unfolding expired
all_expired now [] = true
all_expired now (c ∷ cs) = if not (expired now c) then false else all_expired now cs

module _ (node : Node) where
  open node use {driver, identity}
  open driver use {Store, get}

  -- The loop over the requirements.
  unfoldable pub requirements_met : Store → Dict (Option Version) → Bool
  unfolding matches
  requirements_met s [] = true
  requirements_met s ((k, v) ∷ rest) =
      if is_error (get s k).err || is_error (matches (get s k).version v)
      then false
      else requirements_met s rest

  -- `canEndorse`
  unfoldable pub can_endorse : ℕ → Query → Store → Bool
  unfolding requirements_met expired
  can_endorse now q s = if expired now (some q) then false else requirements_met s q.requirements

  unfoldable pub endorsement_of : Query → List (Option Query) → Endorsement
  endorsement_of q conditions = record {
    uuid = q.uuid;
    emitter = identity;
    conditions = map uuid_of conditions;
    signature = [];
  }

  -- `endorse`
  unfoldable pub endorse_query : Query → List (Option Query) → Engine Store → Engine Store
  unfolding endorsement_of sign_endorsement broadcast
  endorse_query q conditions eng = elim (sign_endorsement node (endorsement_of q conditions)) [
    | none ↦ eng
    | some e ↦
        broadcast node (endorsement_message e)
          (record eng { query_store = State.endorse q.uuid eng.query_store })
  ]

  -- One round of the loop of `handleQuery`, under the mutex: whether the loop returns, and the engine.
  unfoldable pub round : ℕ → Query → Engine Store → Bool × Engine Store
  unfolding can_endorse endorse_query all_expired
  round now q eng =
      let conflicting = get_conflicting q eng.query_store in
      if can_endorse now q eng.store
      then elim conflicting [
        | [] ↦ (true, endorse_query q [] eng)
        | ◌∷◌ c cs ↦
            if all_expired now (c ∷ cs) then (true, endorse_query q (c ∷ cs) eng) else (false, eng)
      ]
      else (true, eng)

  -- A round, and the deferred call of `markActive` when the loop returns.
  unfoldable pub query_round : ℕ → Query → Engine Store → Bool × Engine Store
  unfolding round mark_active
  query_round now q eng =
      let (returns, eng') = round now q eng in (returns, if returns then mark_active eng' else eng')
