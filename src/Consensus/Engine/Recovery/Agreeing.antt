-- ===== src/Consensus/Engine/Recovery/Agreeing.antt =====
-- A recovery from peers that hold the same value: the engine's handler, the packets and streams
-- between the nodes, and the client's check, put together.
use pnyxdb.Base.{
  ℕ, ◌≡◌, ◌≢◌, ◌≤◌, refl, sym, ap, ◌∙◌, String, Bool, true, false, Option, none, some, List, map,
  length, All, All-map, subst, Bytes, if◌then◌else◌,
}
use pnyxdb.Consensus.Version.{matches}
use pnyxdb.Consensus.Driver.{Got, StoreError}
use pnyxdb.Consensus.Engine.Node.{Node}
use pnyxdb.Consensus.Engine.Recovery.{recovery_handler}
use pnyxdb.Network.Protocol.{Protobuf, ok, pack}
use pnyxdb.Network.Recovery.{Response, delivered, checked, accepted, request_recovery}
use pnyxdb.Network.Recovery.Stream.{
  Streamed, Messages, IsLawful, Carried, delivers, accept_recovery, recovery_stream,
  recovery_stream-accept_recovery, unpack-Carried,
}
use pnyxdb.Network.Recovery.Peers.{request_recovery-copies}

-- The response to a request for a key that is stored so.
abbrev pub response_of : String → Got → Response
response_of key got = record { key = key; version = got.version; response_data = got.value }

abbrev failing : Option StoreError → Bool
failing none = false
failing (some e) = true

ok-injective : {A : Type 0} {x y : A} → ok x ≡ ok y → x ≡ y
ok-injective h = cc

module _ (node : Node) (P : Protobuf) (messages : Messages P) (lawful : IsLawful P messages) where
  open node use {driver}
  open driver use {Store, get}

  -- What the stream to a peer with this store delivers; `in_time` says whether the response is read
  -- before the peer resets the stream.
  abbrev pub stream_to : Bool → Store → Bytes → String → Streamed
  stream_to in_time s req key =
      recovery_stream P messages in_time
        (some (accept_recovery P messages (λ k. recovery_handler node k s))) req

  handler-response :
      (key : String) (got : Got) (s : Store)
      → get s key ≡ got
      → got.err ≡ none
      → recovery_handler node key s ≡ (response_of key got, false)
  unfolding recovery_handler
  handler-response key got s here fine =
      ap (λ (g : Got). (response_of key g, failing g.err)) here
      ∙ ap (λ (e : Option StoreError). (response_of key got, failing e)) fine

  stream-delivers :
      (key : String) (got : Got) (s : Store) (req : Bytes)
      → pack P (messages.request key) ≡ ok req
      → Carried P (messages.request key)
      → Carried P (messages.response (response_of key got))
      → get s key ≡ got
      → got.err ≡ none
      → stream_to true s req key ≡ delivers (some (response_of key got))
  stream-delivers key got s req packs request response here fine =
      let answer = handler-response key got s here fine in
      let carried =
        subst (λ (a : Response × Bool). Carried P (messages.response a.0)) (sym answer) response in
      let (req', packs', runs) =
        recovery_stream-accept_recovery P messages (λ k. recovery_handler node k s) key lawful
          request carried in
      let same : req' ≡ req = ok-injective (sym packs' ∙ packs) in
      sym (ap (λ (bs : Bytes). stream_to true s bs key) same)
      ∙ runs
      ∙ ap (λ (a : Response × Bool). delivers (if a.1 then none else some a.0)) answer

  -- If as many peers as a quorum that is not 0 have the same value under a key, with no error and
  -- with a version that matches itself, packets carry the request and the response, and each response
  -- is read before its peer resets the stream: then each of their streams delivers that value and
  -- version, and a client that gets these accepts them.
  pub agreeing_peers :
      (quorum peers : ℕ) (key : String) (got : Got) (streams : List (Bool × Store))
      → Carried P (messages.request key)
      → Carried P (messages.response (response_of key got))
      → got.err ≡ none
      → matches got.version got.version ≡ none
      → length streams ≡ quorum
      → quorum ≢ 0
      → quorum ≤ peers
      → All (λ t. (t.0 ≡ true) × (get t.1 key ≡ got)) streams
      → (req : Bytes) × (pack P (messages.request key) ≡ ok req)
        × All (λ t. stream_to t.0 t.1 req key ≡ delivers (some (response_of key got))) streams
        × (request_recovery quorum peers key
              (map (λ (t : Bool × Store). delivered (some (response_of key got))) streams)
            ≡ checked (accepted (response_of key got)))
  agreeing_peers quorum peers key got streams request response fine same size some_peer enough
        held =
      let (req, packs, arrives) = unpack-Carried P messages (messages.request key) request in
      (
        req,
        packs,
        All-map streams
            (λ t h.
              ap (λ (b : Bool). stream_to b t.1 req key) h.0
              ∙ stream-delivers key got t.1 req packs request response h.1 fine)
            held,
        request_recovery-copies quorum key (response_of key got) refl same peers streams size
            some_peer enough,
      )
