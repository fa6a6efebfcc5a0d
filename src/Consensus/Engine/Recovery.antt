-- ===== src/Consensus/Engine/Recovery.antt =====
-- consensus/recovery.go: a key that a node lost is asked of its peers.
pub mod Erasure
pub mod Agreeing
use pnyxdb.Base.{
  ℕ, zero, suc, ◌+◌, ◌≡◌, refl, ap, ◌∙◌, String, Bool, true, false, Option, none, some, List, [],
  ◌∷◌, ◌++◌, Bytes, length, ltb, if◌then◌else◌,
}
use pnyxdb.Consensus.Query.{Version}
use pnyxdb.Consensus.Driver.{Driver, Got, Wrote, wrote, fault, failed}
use pnyxdb.Consensus.Engine.Node.{Node, Engine}
use pnyxdb.Consensus.Engine.Handlers.{Run, ran, panicked}
use pnyxdb.Network.Recovery.{Response, Requested, checked, accepted, skipped}

-- The capacity of the channel `pendingRecovery`.
abbrev pub recovery_capacity : ℕ
recovery_capacity = 1024

module _ (node : Node) where
  open node use {driver}
  open driver use {Store, get}
  open driver use {set as store_set}

  -- `Recover`
  unfoldable pub recover : String → Engine Store → Engine Store
  recover key eng = record eng { pending_recovery = eng.pending_recovery ++ (key ∷ []) }

  -- `recoveryHandler`: the response, and whether there is an error.
  unfoldable pub recovery_handler : String → Store → Response × Bool
  recovery_handler key s =
      let got = get s key in
      (
        record { key = key; version = got.version; response_data = got.value },
        elim got.err [ none ↦ false | some e ↦ true ],
      )

  -- `retry`
  unfoldable pub retry : String → Engine Store → Engine Store
  retry key eng =
      if ltb (length eng.pending_recovery) recovery_capacity
      then record eng { pending_recovery = eng.pending_recovery ++ (key ∷ []) }
      else eng

  -- What `recoveryWorker` does with the results of `Set`.
  unfoldable pub after_set : String → Engine Store → Store × Wrote → Run (Engine Store)
  unfolding retry
  after_set key eng (s, wrote) = ran (record eng { store = s })
  after_set key eng (s, failed e) = ran (retry key (record eng { store = s }))
  after_set key eng (s, fault) = panicked

  -- The results of `RequestRecovery`: a response, or nil with no error.
  unfoldable pub recovered : String → Requested → Engine Store → Run (Engine Store)
  unfolding after_set
  recovered key (checked (accepted r)) eng =
      after_set key eng (store_set eng.store key r.response_data r.version)
  recovered key skipped eng = after_set key eng (store_set eng.store key [] none)
  recovered key other eng = ran (retry key eng)

  -- One round of `recoveryWorker`, for a network that supports recovery.
  unfoldable pub recovery_round : (String → Requested) → Engine Store → Run (Engine Store)
  unfolding recovered
  recovery_round request eng = elim eng.pending_recovery [
    | [] ↦ ran eng
    | ◌∷◌ key keys ↦ recovered key (request key) (record eng { pending_recovery = keys })
  ]
