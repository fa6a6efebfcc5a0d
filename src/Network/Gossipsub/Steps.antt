-- ===== src/Network/Gossipsub/Steps.antt =====
-- The goroutines of a node's network, in any order.
use pnyxdb.Base.{ℕ, ◌≡◌, Bool, Option, none, some, List, [], ◌∷◌, Bytes}
use pnyxdb.Network.Protocol.{Protobuf}
use pnyxdb.Network.Gossipsub.{
  Subscriber, Network, release, stop_release, relay, stop_relay, lose, cancel, accept, leave, visit,
  keep, on, receive,
}

-- What the goroutines of a subscriber do, and its context.
pub data IsLocal {M : Type 0} (buffer : ℕ) : (Subscriber M → Option (Subscriber M)) → Type 0 where
  releases : IsLocal buffer (release buffer)
  release_stops : IsLocal buffer stop_release
  relays : IsLocal buffer relay
  relay_stops : IsLocal buffer stop_relay
  loses : IsLocal buffer lose
  is_cancelled : IsLocal buffer cancel

module _ (P : Protobuf) where
  open P use {Message}

  -- One step, and the message that it unpacks, if any.
  pub data Step (n : Network Message) : Option Message → Network Message → Type 0 where
    receives :
        (o : Option Message) (next : Option Bytes) {n' : Network Message}
        → receive P next n ≡ some (o, n')
        → Step n o n'
    visits : {n' : Network Message} → visit n ≡ some n' → Step n none n'
    keeps : {n' : Network Message} → keep n ≡ some n' → Step n none n'
    accepts :
        (acceptor : Message → Bool) {n' : Network Message}
        → accept acceptor n ≡ some n'
        → Step n none n'
    leaves : (i : ℕ) {n' : Network Message} → leave i n ≡ some n' → Step n none n'
    works :
        (i : ℕ) {f : Subscriber Message → Option (Subscriber Message)} {n' : Network Message}
        → IsLocal n.buffer f
        → on i f n ≡ some n'
        → Step n none n'

  abbrev pub extend : Option Message → List Message → List Message
  extend none ms = ms
  extend (some m) ms = m ∷ ms

  -- A run, and the messages that were unpacked in it, the last one first.
  pub data Reach (n : Network Message) : List Message → Network Message → Type 0 where
    begin : Reach n [] n
    after :
        (o : Option Message) (ms : List Message) {n' n'' : Network Message}
        → Reach n ms n'
        → Step n' o n''
        → Reach n (extend o ms) n''
