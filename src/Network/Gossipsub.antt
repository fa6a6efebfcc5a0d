-- ===== src/Network/Gossipsub.antt =====
-- network/gossipsub/gossipsub.go: the messages between the topic's subscription and the channels
-- that `Accept` hands out. The goroutines take turns: each function below is what one of them does
-- between two points at which it may wait, and `none` is a wait. libp2p is what `receive` is given
-- and where `broadcast` publishes. A channel has room for one message at least.
pub mod Steps
pub mod Places
pub mod Entries
pub mod Keeping
pub mod Delivery
pub mod Stuck
use pnyxdb.Base.{
  ℕ, zero, suc, Bool, true, false, not, ◌&&◌, Option, none, some, List, [], ◌∷◌, ◌++◌, Bytes,
  length, ltb, get_elem?, if◌then◌else◌, ◌>>=◌,
}
use pnyxdb.Network.Protocol.{Protobuf, Result, ok, err, fault, pack, unpack}

-- What a call of `Accept` keeps: its acceptor, the channel `input`, the pending messages that the
-- first goroutine still has to send, what came out of `output`, whether the context is done, and
-- whether the loop of the second goroutine runs.
pub record Subscriber (M : Type 0) : Type 0 where
  pub acceptor : M → Bool
  pub input : List M
  pub to_send : List M
  pub output : List M
  pub cancelled : Bool
  pub listening : Bool

-- Where the loop `run` is: before `Next`, at an index of the acceptors with the flag `delivered`,
-- before the lock for `pending`, or at its end.
pub data Runner (M : Type 0) : Type 0 where
  waiting stopped panicked : Runner M
  visiting : M → ℕ → Bool → Runner M
  keeping : M → Runner M

-- `network`. The parallel slices `acceptors` and `receivers` are one list; `gone` are the calls of
-- `Accept` that have left it.
pub record Network (M : Type 0) : Type 0 where
  pub buffer : ℕ
  pub pending : List M
  pub subscribers : List (Subscriber M)
  pub gone : List (Subscriber M)
  pub runner : Runner M

-- Whether `run` holds the lock for reading.
abbrev pub is_reading : {M : Type 0} → Runner M → Bool
is_reading (visiting m i d) = true
is_reading r = false

-- Changes one entry, where there is one and the change does not wait.
unfoldable pub at {ℓ} : {A : Type ℓ} → ℕ → (A → Option A) → List A → Option (List A)
at i f [] = none
at zero f (x ∷ xs) = f x >>= λ y. some (y ∷ xs)
at (suc i) f (x ∷ xs) = at i f xs >>= λ ys. some (x ∷ ys)

-- `input <- m`
unfoldable pub push : {M : Type 0} → ℕ → M → Subscriber M → Option (Subscriber M)
push buffer m s =
    if ltb (length s.input) buffer then some (record s { input = s.input ++ (m ∷ []) }) else none

-- The first goroutine of `Accept`: one round of its loop, and its return.
unfoldable pub release : {M : Type 0} → ℕ → Subscriber M → Option (Subscriber M)
unfolding push
release buffer s = elim s.to_send [
  | [] ↦ none
  | ◌∷◌ m ms ↦ push buffer m (record s { to_send = ms })
]

unfoldable pub stop_release : {M : Type 0} → Subscriber M → Option (Subscriber M)
stop_release s = if s.cancelled then some (record s { to_send = [] }) else none

-- The loop of the second goroutine: a message that goes on to the output, the end of the loop at
-- the outer `select`, and its end at the inner one, which loses the message.
unfoldable pub relay : {M : Type 0} → Subscriber M → Option (Subscriber M)
relay s =
    if s.listening
    then (elim s.input [
      | [] ↦ none
      | ◌∷◌ m ms ↦ some (record s { input = ms; output = s.output ++ (m ∷ []) })
    ])
    else none

unfoldable pub stop_relay : {M : Type 0} → Subscriber M → Option (Subscriber M)
stop_relay s = if s.cancelled then some (record s { listening = false }) else none

unfoldable pub lose : {M : Type 0} → Subscriber M → Option (Subscriber M)
lose s =
    if s.listening && s.cancelled
    then (elim s.input [ [] ↦ none | ◌∷◌ m ms ↦ some (record s { input = ms; listening = false }) ])
    else none

-- The context of a call of `Accept` is done.
unfoldable pub cancel : {M : Type 0} → Subscriber M → Option (Subscriber M)
cancel s = some (record s { cancelled = true })

-- The loop of `Accept` over the pending messages: `toSend` and `newPending`.
unfoldable pub split : {M : Type 0} → (M → Bool) → List M → List M × List M
split acceptor [] = ([], [])
split acceptor (m ∷ ms) =
    let rest = split acceptor ms in
    if acceptor m then (m ∷ rest.0, rest.1) else (rest.0, m ∷ rest.1)

-- `Accept`, which waits for the lock.
unfoldable pub accept : {M : Type 0} → (M → Bool) → Network M → Option (Network M)
unfolding split
accept acceptor n =
    let parts = split acceptor n.pending in
    if is_reading n.runner
    then none
    else some (record n {
      pending = parts.1;
      subscribers =
          n.subscribers
          ++ (record {
            acceptor = acceptor;
            input = [];
            to_send = parts.0;
            output = [];
            cancelled = false;
            listening = true;
          }
              ∷ []);
    })

-- The end of the second goroutine, which takes the entry out of the slices: the entry and the rest.
unfoldable pub remove_at {ℓ} : {A : Type ℓ} → ℕ → List A → Option (A × List A)
remove_at i [] = none
remove_at zero (x ∷ xs) = some (x, xs)
remove_at (suc i) (x ∷ xs) = remove_at i xs >>= λ r. some (r.0, x ∷ r.1)

unfoldable pub leave : {M : Type 0} → ℕ → Network M → Option (Network M)
unfolding remove_at
leave i n =
    if is_reading n.runner
    then none
    else remove_at i n.subscribers >>= λ r.
        if Subscriber.listening r.0
        then none
        else some (record n { subscribers = r.1; gone = r.0 ∷ n.gone })

-- One round of the loop over the acceptors, with `RUnlock` behind the last.
unfoldable pub visit : {M : Type 0} → Network M → Option (Network M)
unfolding at push
visit n = elim n.runner [
  | visiting m i delivered ↦ elim (get_elem? n.subscribers i) [
    | none ↦ some (record n { runner = if delivered then waiting else keeping m })
    | some s ↦
        let pushed = at i (push n.buffer m) n.subscribers in
        if Subscriber.acceptor s m
        then (pushed >>= λ subs.
            some (record n { subscribers = subs; runner = visiting m (suc i) true }))
        else some (record n { runner = visiting m (suc i) delivered })
  ]
  | _ ↦ none
]

-- `n.pending = append(n.pending, m)` under the lock.
unfoldable pub keep : {M : Type 0} → Network M → Option (Network M)
keep n = elim n.runner [
  | keeping m ↦ some (record n { pending = n.pending ++ (m ∷ []); runner = waiting })
  | _ ↦ none
]

-- A step on one subscriber.
unfoldable pub on :
    {M : Type 0} → ℕ → (Subscriber M → Option (Subscriber M)) → Network M → Option (Network M)
unfolding at
on i f n = at i f n.subscribers >>= λ subs. some (record n { subscribers = subs })

module _ (P : Protobuf) where
  open P use {Message}

  -- What `Next` delivers is unpacked: the message of the round, if any, and the network. The error
  -- of `Next`, when the context is done, is none.
  unfoldable pub unpacked :
      Result (Message × Bytes) → Network Message → Option Message × Network Message
  unpacked (ok (m, rest)) n = (some m, record n { runner = visiting m 0 false })
  unpacked (err e) n = (none, n)
  unpacked fault n = (none, record n { runner = panicked })

  unfoldable pub receive :
      Option Bytes → Network Message → Option (Option Message × Network Message)
  unfolding unpacked
  receive next n = elim n.runner [
    | waiting ↦ elim next [
      | none ↦ some (none, record n { runner = stopped })
      | some raw ↦ some (unpacked (unpack P raw) n)
    ]
    | _ ↦ none
  ]

  -- `Broadcast`: what is published, and whether libp2p reports no error.
  unfoldable pub broadcast : (Bytes → Bool) → Message → Result (Bytes × Bool)
  unfolding pack
  broadcast publish m = elim (pack P m) [
    | ok raw ↦ ok (raw, publish raw)
    | err e ↦ err e
    | fault ↦ fault
  ]
