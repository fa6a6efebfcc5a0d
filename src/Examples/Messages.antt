-- ===== src/Examples/Messages.antt =====
-- Messages, the storage, the recovery and the veto at concrete inputs.
use pnyxdb.Base.{
  lookup, Distinct, ℕ, zero, suc, ◌≢◌, ◌⊎◌, ◌≡◌, refl, String, Bool, true, false, none, some, List,
  [], ◌∷◌, ◌++◌, map, Bytes, length, arith, inr, str_eq,
}
use pnyxdb.Consensus.Query.{Version, Proof}
use pnyxdb.Network.Protocol.{Protobuf, ok, fault, get_type_from_name, pack, unpack}
use pnyxdb.Network.Protocol.RoundTrip.{unpack-pack, unpack_faults}
use pnyxdb.Network.Recovery.{
  Response, Event, delivered, checked, accepted, Agreed, check_recovery_responses,
  check_recovery_responses-accepted, request_recovery, request_recovery-quorum,
}
use pnyxdb.Storage.Bolt.{Bucket}
use pnyxdb.Bbc
use pnyxdb.Bbc.{Node, Choice, Executed, Justified, execute, execute-Justified}

-- A library whose messages are bytes, all of one type.
abbrev pub plain : Protobuf
plain = record {
  Message = Bytes;
  message_name = λ m. "consensus.Query";
  registered = λ name. str_eq name "consensus.Query";
  marshal = λ m. some m;
  unmarshal = λ name raw. some raw;
}

unpack-pack_example :
    (bytes : Bytes) × (pack plain (5 ∷ 6 ∷ []) ≡ ok bytes)
    × (unpack plain (bytes ++ (8 ∷ [])) ≡ ok (5 ∷ 6 ∷ [], 8 ∷ []))
unfolding get_type_from_name
unpack-pack_example =
    unpack-pack plain (5 ∷ 6 ∷ []) (5 ∷ 6 ∷ []) (8 ∷ []) (λ e. ground (arith, e)) refl refl refl
      (omega arith)

unpack_faults_example : unpack plain (11 ∷ []) ≡ fault
unpack_faults_example = unpack_faults plain 11 [] refl (inr (inr (inr (inr refl))))

abbrev response : Response
response = record { key = "k"; version = some (record { hash = 1 ∷ [] }); response_data = 2 ∷ [] }

response_checked : check_recovery_responses "k" (response ∷ response ∷ []) ≡ accepted response
unfolding check_recovery_responses
response_checked = refl

check_recovery_responses_example : Agreed "k" response (response ∷ response ∷ [])
check_recovery_responses_example =
    check_recovery_responses-accepted "k" response (response ∷ response ∷ []) response_checked

abbrev arrivals : List Event
arrivals = delivered (some response) ∷ delivered (some response) ∷ delivered none ∷ []

arrivals_checked : request_recovery 2 3 "k" arrivals ≡ checked (accepted response)
unfolding request_recovery
arrivals_checked = refl

abbrev quorum : ℕ
quorum = 2

request_recovery_example :
    (quorum ≢ 0)
    × ((rs : List Response) × (rest : List Event) × (arrivals
          ≡ map (λ (x : Response). delivered (some x)) rs ++ rest)
        × (length rs ≡ quorum)
        × Agreed "k" response rs)
request_recovery_example = request_recovery-quorum quorum 3 "k" arrivals response arrivals_checked

abbrev pub fill : ℕ → Bytes
fill zero = []
fill (suc n) = 7 ∷ fill n

abbrev version : Version
version = record { hash = fill 64 }

abbrev pub accepting : String → Bytes → Bool
accepting key entry = true

abbrev pub nothing_stored : Bucket
nothing_stored = []

abbrev two_keys : Bucket
two_keys = ("k", fill 65) ∷ ("l", 7 ∷ []) ∷ []

two_keys-Distinct : Distinct two_keys
unfolding lookup
two_keys-Distinct = (refl, (refl, tt))

abbrev node : Node
node = record {
  identity = "alice";
  threshold = 2;
  hash = λ c. some [];
  sign = λ h. some h;
  verify = λ emitter h s. true;
  broadcast = λ c. true;
}

abbrev choice_of : String → Bool → Choice
choice_of emitter choice = record {
  identifier = "q";
  emitter = emitter;
  choice = choice;
  proofs = [];
  signature = [];
}

abbrev choices : List Choice
choices = choice_of "bob" true ∷ choice_of "carol" false ∷ []

execute-Justified_example :
    ((e : Bbc.Error) × (execute node "q" true [] choices ≡ Bbc.failed e))
    ⊎ ((b : Bool) × (dp : List Proof) × (out : List Choice) × (execute node "q" true [] choices
          ≡ Bbc.decided b dp out)
        × Justified node "q" choices b dp)
execute-Justified_example = execute-Justified node "q" true [] choices
