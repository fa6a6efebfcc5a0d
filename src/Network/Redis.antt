-- ===== src/Network/Redis.antt =====
-- network/redis/redis.go: the loop of `Accept`, which reads a Redis stream. Redis is what the calls
-- of XREAD return.
pub mod Reading
use pnyxdb.Base.{
  ℕ, zero, suc, ◌≡◌, String, Bool, true, false, Option, none, some, List, [], ◌∷◌, ◌++◌, Bytes,
  length, str_eq, if◌then◌else◌,
}
use pnyxdb.Network.Protocol.{Protobuf, Result, ok, err, fault, pack, unpack}

-- An entry of the stream: its identifier, and the packet.
abbrev pub Entry : Type 0
Entry = String × Bytes

pub data Status : Type 0 where
  running returned panicked : Status

-- The goroutine of `Accept`: `lastSeen`, what went to the output, and whether it still runs. The
-- context is done when `left` more messages have gone to the output.
pub record Reader (M : Type 0) : Type 0 where
  pub last_seen : String
  pub output : List M
  pub left : ℕ
  pub status : Status

abbrev pub start : {M : Type 0} → ℕ → Reader M
start left = record { last_seen = "0"; output = []; left = left; status = running }

-- `output <- m`, or the end if the context is done.
unfoldable pub send : {M : Type 0} → M → Reader M → Reader M
send m r = elim r.left [
  | zero ↦ record r { status = returned }
  | suc n ↦ record r { output = r.output ++ (m ∷ []); left = n }
]

-- A reply of XREAD: an error or nothing, or the entries of the stream, 20 at most.
pub data Reply : Type 0 where
  nothing : Reply
  entries : List Entry → Reply

module _ (P : Protobuf) (acceptor : Protobuf.Message P → Bool) where
  open P use {Message}

  -- An event whose packet is unpacked.
  unfoldable pub process : Result (Message × Bytes) → Reader Message → Reader Message
  unfolding send
  process (ok (m, rest)) r = if acceptor m then send m r else r
  process (err e) r = r
  process fault r = record r { status = panicked }

  -- The loop over the events of a reply.
  unfoldable pub consume : List Entry → Reader Message → Reader Message
  unfolding process
  consume [] r = r
  consume (e ∷ es) r =
      let next = process (unpack P e.1) (record r { last_seen = e.0 }) in
      let rest = consume es next in elim next.status [ running ↦ rest | _ ↦ next ]

  -- A round of the outer loop. The context is looked at where there is nothing to read.
  unfoldable pub read_round : Reply → Reader Message → Reader Message
  unfolding consume
  read_round nothing r = elim r.left [ zero ↦ record r { status = returned } | suc n ↦ r ]
  read_round (entries es) r = consume es r

  -- `Broadcast`: what XADD appends, and whether there is no error, which `append` tells.
  unfoldable pub broadcast : (Bytes → Bool) → Message → Result (Bytes × Bool)
  unfolding pack
  broadcast append m = elim (pack P m) [
    | ok raw ↦ ok (raw, append raw)
    | err e ↦ err e
    | fault ↦ fault
  ]
