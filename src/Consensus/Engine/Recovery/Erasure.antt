-- ===== src/Consensus/Engine/Recovery/Erasure.antt =====
-- The recovery worker over a network that is configured with no recovery quorum.
use pnyxdb.Base.{
  ℕ, ◌≡◌, refl, ap, ◌∙◌, String, Bool, true, none, some, List, [], ◌∷◌, Bytes, eq_refl,
}
use pnyxdb.Consensus.Query.{Version}
use pnyxdb.Consensus.Version.{version_bytes}
use pnyxdb.Consensus.Version
use pnyxdb.Consensus.Driver.{wrote}
use pnyxdb.Consensus.Engine.Node.{Node, Engine}
use pnyxdb.Consensus.Engine.Handlers.{ran}
use pnyxdb.Consensus.Engine.Recovery.{recovery_round, after_set}
use pnyxdb.Network.Recovery.{Event, request_recovery}
use pnyxdb.Storage.Bolt.{Bucket, Updated, set_one, set_batch_from, set_batch, set, get, get-set}
use pnyxdb.Storage.Bolt.Lawful.{driver, wrote_of}

-- The engine over the BoltDB driver.
abbrev pub over_bolt : Node → (String → Bytes → Bool) → Node
over_bolt base accepts = record base { driver = driver accepts }

-- The version of 64 zeros.
abbrev pub zero_version : Version
unfolding Version.marshal_binary
zero_version = record { hash = Version.marshal_binary none }

-- A value with no version is stored as one with the version of zeros.
set-no_version :
    (accepts : String → Bytes → Bool) (b : Bucket) (key : String) (value : Bytes)
    → set accepts b key value none ≡ set accepts b key value (some zero_version)
unfolding set set_batch set_batch_from set_one Version.marshal_binary
set-no_version accepts b key value = refl

-- With a recovery quorum of 0, over the BoltDB driver: a round for a key, if the library takes the
-- entry, stores the empty value under it with a version of 64 zeros, whatever was stored before.
pub recovery_round-erases :
    (base : Node) (accepts : String → Bytes → Bool) (peers : ℕ) (es : List Event)
    (eng : Engine Bucket) (key : String) (keys : List String)
    → eng.pending_recovery ≡ key ∷ keys
    → accepts key (Version.marshal_binary none) ≡ true
    → (eng' : Engine Bucket) × (recovery_round
          (over_bolt base accepts)
          (λ k. request_recovery 0 peers k es)
          eng
        ≡ ran eng')
      × (get eng'.store key ≡ record { value = []; version = some zero_version; err = none })
unfolding recovery_round request_recovery Version.marshal_binary set
recovery_round-erases base accepts peers es eng key keys asked ok =
    let (b', stored, reads) = get-set accepts eng.store key [] zero_version refl ok in
    let result : (let r = set accepts eng.store key [] none in (r.0, wrote_of r.1)) ≡ (b', wrote) =
      ap (λ (r : Bucket × Updated). (r.0, wrote_of r.1))
        (set-no_version accepts eng.store key [] ∙ stored) in
    (
      record eng { pending_recovery = keys; store = b' },
      rw (asked, recovery_round)
          (ap (after_set (over_bolt base accepts) key (record eng { pending_recovery = keys }))
            result),
      reads key ∙ rw eq_refl refl,
    )
