-- ===== src/Network/Protocol/RoundTrip.antt =====
-- Packing and unpacking a message, and the packets at which `Unpack` faults.
use pnyxdb.Base.{
  ℕ, zero, suc, ◌+◌, ◌%◌, ◌^◌, ◌<◌, ◌≤◌, ◌≡◌, ◌≢◌, refl, ap, ◌∙◌, String, true, false, ◌||◌, some,
  List, [], ◌∷◌, ◌++◌, Bytes, length, length-append, take-append, drop-append, get_elem?,
  append_assoc, zero-add, str_eq, eq_iff, ltb, ◌==◌, ◌⊎◌, Bool-cases, inl, inr, arith,
}
use native.Mathlib.Nat.{mod-eq_of_lt}
use pnyxdb.Network.Protocol.{
  Protobuf, ok, fault, type_identifiers, type_from, get_type_from_name, put_uvarint, read_uvarint,
  pack, packet, unpack, unpack_named, unpack_body, decoded,
}
use pnyxdb.Network.Protocol.Uvarint.{read_uvarint-put_uvarint}

-- A place that the search returns holds the name, if it is not 0.
type_from-get_elem? :
    (i : ℕ) (name : String) (ns : List String)
    → type_from i name ns ≢ 0
    → (j : ℕ) × (type_from i name ns ≡ i + j) × (get_elem? ns j ≡ some name)
unfolding type_from
type_from-get_elem? i name [] h = absurd (h refl)
type_from-get_elem? i name (n ∷ ns) h = elim (Bool-cases (str_eq n name)) [
  | inl t ↦ (0, rw t (omega arith), ap some ((eq_iff n name).0 t))
  | inr t ↦
      let (j, e, k) = type_from-get_elem? (suc i) name ns (rw t at h) in
      (suc j, rw t (e ∙ omega arith), k)
]

get_elem?-length {ℓ} :
    {A : Type ℓ} (xs : List A) (i : ℕ) (a : A) → get_elem? xs i ≡ some a → i < length xs
get_elem?-length [] i a h = cc
get_elem?-length (x ∷ xs) zero a h = omega arith
get_elem?-length (x ∷ xs) (suc i) a h = omega (arith, get_elem?-length xs i a h)

get_type_named :
    (name : String)
    → get_type_from_name name ≢ 0
    → (get_elem? type_identifiers (get_type_from_name name) ≡ some name)
      × (get_type_from_name name < length type_identifiers)
unfolding get_type_from_name
get_type_named name h =
    let (j, e, k) = type_from-get_elem? 0 name type_identifiers h in
    let there = e ∙ zero-add j in
    (rw there k, rw there (get_elem?-length type_identifiers j name k))

module _ (P : Protobuf) where
  open P use {Message, message_name, registered, marshal, unmarshal}

  unpack_known :
      (t : ℕ) (name : String) (input : Bytes)
      → t ≢ 0
      → get_elem? type_identifiers t ≡ some name
      → t < length type_identifiers
      → registered name ≡ true
      → unpack P (t ∷ input) ≡ unpack_body P name (read_uvarint 0 1 0 input)
  unfolding unpack
  unpack_known t name input h k below reg =
      let passes : (t == 0 || ltb (length type_identifiers) t) ≡ false = ground (arith, h, below) in
      rw (passes, k, unpack_named) (rw reg)

  unpack_exact :
      (m : Message) (raw rest : Bytes)
      → unmarshal (message_name m) raw ≡ some m
      → length raw ≤ 2 ^ 30
      → unpack_body P (message_name m) (ok (length raw, raw ++ rest)) ≡ ok (m, rest)
  unfolding unpack_body
  unpack_exact m raw rest dec small =
      let fits : ltb (2 ^ 30) (length raw) ≡ false = ground (arith, small) in
      let long : ltb (length (raw ++ rest)) (length raw) ≡ false =
        ground (arith, length-append raw rest) in
      rw (fits, long) (rw (take-append raw rest, drop-append raw rest) (rw (dec, decoded)))

  -- What is packed is unpacked: packing succeeds, and a message of a type that the table and the
  -- registry know comes back, with the input behind it left over, if the library decodes what it
  -- encoded and the message is no longer than the limit.
  pub unpack-pack :
      (m : Message) (raw rest : Bytes)
      → get_type_from_name (message_name m) ≢ 0
      → registered (message_name m) ≡ true
      → marshal m ≡ some raw
      → unmarshal (message_name m) raw ≡ some m
      → length raw ≤ 2 ^ 30
      → (bytes : Bytes) × (pack P m ≡ ok bytes) × (unpack P (bytes ++ rest) ≡ ok (m, rest))
  unfolding pack
  unpack-pack m raw rest known reg enc dec small =
      let t = get_type_from_name (message_name m) in
      let (k, below) = get_type_named (message_name m) known in
      let size : length raw % 2 ^ 64 ≡ length raw = mod-eq_of_lt (omega arith) in
      let number = put_uvarint 10 (length raw) in
      (
        t ∷ (number ++ raw),
        rw (enc, packet) (rw size),
        unpack_known t (message_name m) ((number ++ raw) ++ rest) known k below reg
            ∙ rw
                (
                  append_assoc number raw rest,
                  read_uvarint-put_uvarint (length raw) (raw ++ rest) (omega arith),
                )
                (unpack_exact m raw rest dec small),
      )

  -- If the library knows no type named reserved: whatever follows it, a first byte that names a
  -- reserved type, or that is the length of the table, makes `Unpack` fault. Its test lets the
  -- length of the table through, and nothing tests the type that the registry returns.
  pub unpack_faults :
      (b : ℕ) (input : Bytes)
      → registered "reserved" ≡ false
      → (b ≡ 4) ⊎ (b ≡ 5) ⊎ (b ≡ 6) ⊎ (b ≡ 9) ⊎ (b ≡ 11)
      → unpack P (b ∷ input) ≡ fault
  unfolding unpack unpack_named
  unpack_faults b input reg (inl e) = rw e (rw reg)
  unpack_faults b input reg (inr (inl e)) = rw e (rw reg)
  unpack_faults b input reg (inr (inr (inl e))) = rw e (rw reg)
  unpack_faults b input reg (inr (inr (inr (inl e)))) = rw e (rw reg)
  unpack_faults b input reg (inr (inr (inr (inr e)))) = rw e
