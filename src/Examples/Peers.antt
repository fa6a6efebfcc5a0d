-- ===== src/Examples/Peers.antt =====
-- A recovery from two peers that hold the same value.
use pnyxdb.Base.{
  ◌≡◌, ◌⊎◌, inl, inr, refl, String, Bool, true, none, some, [], ◌∷◌, ◌++◌, map, All, Bytes, str_eq,
  arith, lookup, bytes_equal, if◌then◌else◌,
}
use pnyxdb.Consensus.Version.{matches}
use pnyxdb.Consensus.Driver.{Got}
use pnyxdb.Consensus.Engine.Recovery.Agreeing.{stream_to, response_of, agreeing_peers}
use pnyxdb.Storage.Bolt.{Bucket, get}
use pnyxdb.Network.Protocol.{Protobuf, ok, pack, get_type_from_name}
use pnyxdb.Network.Recovery.{Response, delivered, checked, accepted, request_recovery}
use pnyxdb.Network.Recovery.Stream.{Messages, delivers}
use pnyxdb.Network.Recovery.Stream
use pnyxdb.Examples.Messages.{fill}
use pnyxdb.Examples.Cluster.{alice}

-- A library of the two messages of a recovery, of which it knows these.
abbrev held : Got
held = record { value = 9 ∷ []; version = some (record { hash = fill 64 }); err = none }

abbrev recovered : Response
recovered = response_of "k" held

abbrev two_messages : Protobuf
two_messages = record {
  Message = String ⊎ Response;
  message_name =
      λ m. elim m [ inl k ↦ "consensus.RecoveryRequest" | inr r ↦ "consensus.RecoveryResponse" ];
  registered = λ name. true;
  marshal = λ m. some (1 ∷ []);
  unmarshal =
      λ name raw. some (if str_eq name "consensus.RecoveryRequest" then inl "k" else inr recovered);
}

abbrev assertions : Messages two_messages
assertions = record {
  request = λ k. inl k;
  response = λ r. inr r;
  as_request = λ m. elim m [ inl k ↦ some k | inr r ↦ none ];
  as_response = λ m. elim m [ inl k ↦ none | inr r ↦ some r ];
}

stream_lawful : Stream.IsLawful two_messages assertions
stream_lawful = record { as_request-request = λ k. refl; as_response-response = λ r. refl }

abbrev peer : Bucket
peer = ("k", fill 64 ++ (9 ∷ [])) ∷ []

peer_holds : get peer "k" ≡ held
unfolding get lookup
peer_holds = refl

agreeing_peers_example :
    (req : Bytes) × (pack two_messages (inl "k") ≡ ok req)
    × All {A = Bool × Bucket}
        (λ t.
          stream_to alice two_messages assertions stream_lawful t.0 t.1 req "k"
          ≡ delivers (some recovered))
        ((true, peer) ∷ (true, peer) ∷ [])
    × (request_recovery 2 3 "k" (
          map
            (λ (t : Bool × Bucket). delivered (some recovered))
            ((true, peer) ∷ (true, peer) ∷ []))
        ≡ checked (accepted recovered))
unfolding get_type_from_name matches bytes_equal
agreeing_peers_example =
    agreeing_peers alice two_messages assertions stream_lawful 2 3 "k" held
      ((true, peer) ∷ (true, peer) ∷ [])
      (record {
        raw = 1 ∷ [];
        known = λ e. ground (arith, e);
        registered = refl;
        encodes = refl;
        decodes = refl;
        small = omega arith;
      })
      (record {
        raw = 1 ∷ [];
        known = λ e. ground (arith, e);
        registered = refl;
        encodes = refl;
        decodes = refl;
        small = omega arith;
      })
      refl refl refl (λ e. ground (arith, e)) (omega arith)
      ((refl, peer_holds), ((refl, peer_holds), tt))
