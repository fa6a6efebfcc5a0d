-- ===== src/Network/Protocol.antt =====
-- network/protocol/protocol.go: packets of a type byte, a length and a protobuf message. The
-- proofs stand in the children.
pub mod Uvarint
pub mod RoundTrip
use pnyxdb.Base.{
  ℕ, zero, suc, ◌+◌, ◌*◌, ◌/◌, ◌%◌, ◌^◌, String, Bool, true, false, not, ◌&&◌, ◌||◌, Option, none,
  some, List, [], ◌∷◌, ◌++◌, Bytes, length, take, drop, get_elem?, str_eq, ltb, ◌==◌, if◌then◌else◌,
}

-- What the code uses of the protobuf library. `registered` tells whether `MessageType` knows a name.
pub record Protobuf : Type 1 where
  pub Message : Type 0
  pub message_name : Message → String
  pub registered : String → Bool
  pub marshal : Message → Option Bytes
  pub unmarshal : String → Bytes → Option Message

pub data Error : Type 0 where
  marshal_failed bad_wire_type invalid_length eof overflow unmarshal_failed : Error

-- `fault` is a nil pointer or an index out of range.
pub data Result {ℓ} (A : Type ℓ) : Type ℓ where
  ok : A → Result A
  err : Error → Result A
  fault : Result A

abbrev pub type_identifiers : List String
type_identifiers =
    "" ∷ "consensus.Query" ∷ "consensus.Endorsement" ∷ "consensus.StartCheckpoint" ∷ "reserved"
    ∷ "reserved" ∷ "reserved" ∷ "consensus.RecoveryRequest" ∷ "consensus.RecoveryResponse"
    ∷ "reserved" ∷ "bbc.Choice" ∷ []

-- The loop of `getTypeFromName`.
unfoldable pub type_from : ℕ → String → List String → ℕ
type_from i name [] = 0
type_from i name (n ∷ ns) =
    let later = type_from (suc i) name ns in if str_eq n name then i else later

unfoldable pub get_type_from_name : String → ℕ
unfolding type_from
get_type_from_name name = type_from 0 name type_identifiers

-- `binary.PutUvarint`: seven bits a byte, the lowest first, at most ten bytes.
unfoldable pub put_uvarint : ℕ → ℕ → Bytes
put_uvarint zero x = []
put_uvarint (suc groups) x =
    let rest = put_uvarint groups (x / 128) in if ltb x 128 then x ∷ [] else (x % 128 + 128) ∷ rest

-- `binary.ReadUvarint` at its byte number `i`, where `scale` is 2 to the power of the shift. The
-- bits that `|` joins do not overlap, so the model adds.
unfoldable pub read_uvarint : ℕ → ℕ → ℕ → Bytes → Result (ℕ × Bytes)
read_uvarint i scale acc [] = err eof
read_uvarint i scale acc (b ∷ bs) =
    let next = read_uvarint (suc i) (scale * 128) (acc + (b % 128) * scale % 2 ^ 64) bs in
    if ltb b 128
    then (if ltb 9 i || (i == 9 && ltb 1 b)
        then err overflow
        else ok (acc + b * scale % 2 ^ 64, bs))
    else next

module _ (P : Protobuf) where
  open P use {Message, message_name, registered, marshal, unmarshal}

  unfoldable pub packet : String → Option Bytes → Result Bytes
  unfolding get_type_from_name put_uvarint
  packet name none = err marshal_failed
  packet name (some raw) =
      ok (get_type_from_name name ∷ (put_uvarint 10 (length raw % 2 ^ 64) ++ raw))

  -- `Pack`
  unfoldable pub pack : Message → Result Bytes
  unfolding packet
  pack m = packet (message_name m) (marshal m)

  unfoldable pub decoded : Option Message → Bytes → Result (Message × Bytes)
  decoded none rest = err unmarshal_failed
  decoded (some m) rest = ok (m, rest)

  -- `Unpack` from the length on; the result has the input that is left.
  unfoldable pub unpack_body : String → Result (ℕ × Bytes) → Result (Message × Bytes)
  unfolding decoded
  unpack_body name (err e) = err e
  unpack_body name fault = fault
  unpack_body name (ok (l, input)) =
      if ltb (2 ^ 30) l
      then err invalid_length
      else if ltb (length input) l
      then err eof
      else decoded (unmarshal name (take l input)) (drop l input)

  -- The type is looked up by the table and in the library's registry.
  unfoldable pub unpack_named : Option String → Bytes → Result (Message × Bytes)
  unfolding unpack_body read_uvarint
  unpack_named none input = fault
  unpack_named (some name) input =
      if registered name then unpack_body name (read_uvarint 0 1 0 input) else fault

  -- `Unpack`
  unfoldable pub unpack : Bytes → Result (Message × Bytes)
  unfolding unpack_named
  unpack [] = err eof
  unpack (b ∷ input) =
      if b == 0 || ltb (length type_identifiers) b
      then err bad_wire_type
      else unpack_named (get_elem? type_identifiers b) input
