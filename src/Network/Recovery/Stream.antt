-- ===== src/Network/Recovery/Stream.antt =====
-- network/gossipsub/recovery.go: both ends of a stream on which a key is recovered, AcceptRecovery
-- and recoveryStream. The
-- handler resets the stream when it ends, also right after it has written a response: whether the
-- client has read the response by then is a parameter, `in_time`.
use pnyxdb.Base.{
  ◌≡◌, sym, ap, ◌∙◌, ◌≢◌, ◌≤◌, ◌^◌, String, Bool, true, Option, none, some, [], Bytes, length,
  append-nil, Bool-cases, inl, inr, if◌then◌else◌,
}
use pnyxdb.Network.Protocol.{Protobuf, Result, ok, err, fault, get_type_from_name, pack, unpack}
use pnyxdb.Network.Protocol.RoundTrip.{unpack-pack}
use pnyxdb.Network.Recovery.{Response}

-- The two messages of a recovery among those of the protobuf library, and the type assertions.
pub record Messages (P : Protobuf) : Type 0 where
  pub request : String → Protobuf.Message P
  pub response : Response → Protobuf.Message P
  pub as_request : Protobuf.Message P → Option String
  pub as_response : Protobuf.Message P → Option Response

-- The library keeps them apart, and reads what it wrote.
pub record IsLawful (P : Protobuf) (messages : Messages P) : Type 0 where
  pub as_request-request : (k : String) → messages.as_request (messages.request k) ≡ some k
  pub as_response-response : (r : Response) → messages.as_response (messages.response r) ≡ some r

-- A message that a packet can carry: its type is known, it is no longer than the limit, and the
-- library decodes what it encoded.
pub record Carried (P : Protobuf) (m : Protobuf.Message P) : Type 0 where
  pub raw : Bytes
  pub known : get_type_from_name (P.message_name m) ≢ 0
  pub registered : P.registered (P.message_name m) ≡ true
  pub encodes : P.marshal m ≡ some raw
  pub decodes : P.unmarshal (P.message_name m) raw ≡ some m
  pub small : length raw ≤ 2 ^ 30

-- What the handler of a stream writes, if anything, before it resets the stream; `crashed` is a panic
-- of `Unpack` or `Pack`.
pub data Served : Type 0 where
  written : Bytes → Served
  nothing_written crashed : Served

-- What a stream delivers: nil is none.
pub data Streamed : Type 0 where
  delivers : Option Response → Streamed
  crashes : Streamed

module _ (P : Protobuf) (messages : Messages P) where
  open P use {Message}

  packed : Result Bytes → Served
  packed (ok raw) = written raw
  packed (err e) = nothing_written
  packed fault = crashed

  handled : Option String → (String → Response × Bool) → Served
  unfolding packed
  handled none handler = nothing_written
  handled (some key) handler =
      let r = handler key in
      if r.1 then nothing_written else packed (pack P (messages.response r.0))

  answered : Result (Message × Bytes) → (String → Response × Bool) → Served
  unfolding handled
  answered (ok (m, rest)) handler = handled (messages.as_request m) handler
  answered (err e) handler = nothing_written
  answered fault handler = crashed

  -- The stream handler of `AcceptRecovery`, on what the peer wrote. The handler of the engine returns
  -- a response, and whether there is an error.
  unfoldable pub accept_recovery : (String → Response × Bool) → Bytes → Served
  unfolding answered
  accept_recovery handler input = answered (unpack P input) handler

  read : Result (Message × Bytes) → Streamed
  read (ok (m, rest)) = delivers (messages.as_response m)
  read (err e) = delivers none
  read fault = crashes

  -- `recoveryStream`: `peer` is what the peer does with the request, none if no stream opens or the
  -- request cannot be written. A reset that comes before all of the response is read makes `Unpack`
  -- fail. A stream on which nothing was written has no bytes to read.
  unfoldable pub recovery_stream : Bool → Option (Bytes → Served) → Bytes → Streamed
  unfolding read
  recovery_stream in_time none req = delivers none
  recovery_stream in_time (some peer) req = elim (peer req) [
    | written raw ↦ if in_time then read (unpack P raw) else delivers none
    | nothing_written ↦ read (unpack P [])
    | crashed ↦ read (unpack P [])
  ]

  pub unpack-Carried :
      (m : Message)
      → Carried P m
      → (bytes : Bytes) × (pack P m ≡ ok bytes) × (unpack P bytes ≡ ok (m, []))
  unpack-Carried m c =
      let (bytes, packs, unpacks) =
        unpack-pack P m c.raw [] c.known c.registered c.encodes c.decodes c.small in
      (bytes, packs, sym (ap (unpack P) (append-nil bytes)) ∙ unpacks)

  -- The request for a key that packets carry reaches the peer's handler, and its response comes
  -- back if packets carry that and it is read before the reset; where the handler reports an error,
  -- nil comes back.
  pub recovery_stream-accept_recovery :
      (handler : String → Response × Bool) (key : String)
      → IsLawful P messages
      → Carried P (messages.request key)
      → Carried P (messages.response (handler key).0)
      → (req : Bytes) × (pack P (messages.request key) ≡ ok req)
        × (recovery_stream true (some (accept_recovery handler)) req
            ≡ delivers (if (handler key).1 then none else some (handler key).0))
  unfolding recovery_stream accept_recovery answered handled packed read unpack
  recovery_stream-accept_recovery handler key lawful request response =
      let (req, sends, arrives) = unpack-Carried (messages.request key) request in
      let (res, replies, returns) = unpack-Carried (messages.response (handler key).0) response in
      let handles : accept_recovery handler req ≡ handled (some key) handler =
        rw (arrives, accept_recovery)
          (ap (λ (k : Option String). handled k handler) (lawful.as_request-request key)) in
      (
        req,
        sends,
        elim (Bool-cases (handler key).1) [
          | inl t ↦ rw (handles, recovery_stream) (rw t)
          | inr t ↦
              rw (handles, recovery_stream)
                (rw (t, replies)
                  (rw returns (ap delivers (lawful.as_response-response (handler key).0))))
        ],
      )
