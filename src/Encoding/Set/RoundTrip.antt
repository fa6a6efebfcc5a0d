-- ===== src/Encoding/Set/RoundTrip.antt =====
-- `UnmarshalBinary`: the way back from the binary form, its fuel, and the inputs at which it faults.
use pnyxdb.Base.{
  ℕ, zero, suc, ◌+◌, ◌^◌, ◌<◌, ◌≤◌, ◌≡◌, refl, sym, ap, ◌∙◌, true, false, List, [], ◌∷◌, ◌++◌,
  Bytes, length, take, drop, bytes_equal, bytes_equal_sym, length-append, take-append, drop-append,
  length-drop, append-nil, append_assoc, ltb, leb, if◌then◌else◌, arith,
}
use pnyxdb.Encoding.Uint64.{
  uint64_to_bytes, length-uint64_to_bytes, bytes_to_uint64, bytes_to_uint64-uint64_to_bytes,
}
use pnyxdb.Encoding.Set.{
  Elements, ok, fault, err_unexpected_eof, write, parse, unmarshal_binary, marshal_binary,
}
use pnyxdb.Encoding.Set.Entries.{
  encode, encode_all, offsets, member, distinct, of_list, length-encode, length-encode_all,
  encode_all-cons, encode_all-append, write-offsets,
}

member-middle :
    (p e : Bytes) (ps es : List Bytes) → member p (ps ++ (e ∷ es)) ≡ false → bytes_equal e p ≡ false
unfolding member
member-middle p e [] es h = ground arith
member-middle p e (x ∷ ps) es h = member-middle p e ps es (ground arith)

distinct-member :
    (e : Bytes) (ps es : List Bytes) → distinct (ps ++ (e ∷ es)) ≡ true → member e ps ≡ false
unfolding distinct member
distinct-member e [] es d = refl
distinct-member e (p ∷ ps) es d =
    let ih = distinct-member e ps es (ground (arith, d)) in
    ground (arith, ih, bytes_equal_sym p e, member-middle p e ps es (ground (arith, d)))

-- One round of the loop on input that holds a length.
parse_step :
    (f i : ℕ) (bs : Bytes) (m : Elements)
    → 8 ≤ length bs
    → parse (suc f) i bs m ≡ (
        let n = bytes_to_uint64 bs in
        if leb (2 ^ 63) (i + 8 + n)
        then fault
        else if ltb (length bs) (8 + n)
        then err_unexpected_eof
        else parse f (i + (8 + n)) (drop (8 + n) bs) (write (take n (drop 8 bs)) i m))
unfolding parse
parse_step f i [] m h = absurd (omega arith)
parse_step f i (b ∷ bs) m h = let long : ltb (length (b ∷ bs)) 8 ≡ false = ground arith in rw long

-- Such a round on an element in its binary form.
parse_round :
    (f i : ℕ) (e rest : Bytes) (m : Elements)
    → i + (8 + length e) < 2 ^ 63
    → parse (suc f) i (encode e ++ rest) m ≡ parse f (i + (8 + length e)) rest (write e i m)
parse_round f i e rest m h =
    let u = uint64_to_bytes (length e) in
    let size : length (encode e ++ rest) ≡ (8 + length e) + length rest =
      omega (arith, length-append (encode e) rest, length-encode e) in
    let read : bytes_to_uint64 (encode e ++ rest) ≡ length e =
      rw (append_assoc u e rest)
        (bytes_to_uint64-uint64_to_bytes (length e) (e ++ rest) (omega arith)) in
    let after : drop (8 + length e) (encode e ++ rest) ≡ rest =
      ap (λ (n : ℕ). drop n (encode e ++ rest)) (sym (length-encode e))
      ∙ drop-append (encode e) rest in
    let behind : drop 8 (encode e ++ rest) ≡ e ++ rest =
      ap (drop 8) (append_assoc u e rest)
      ∙ ap (λ (n : ℕ). drop n (u ++ (e ++ rest))) (sym (length-uint64_to_bytes (length e)))
      ∙ drop-append u (e ++ rest) in
    let fits : leb (2 ^ 63) (i + 8 + length e) ≡ false = ground (arith, h) in
    let enough : ltb ((8 + length e) + length rest) (8 + length e) ≡ false = ground arith in
    parse_step f i (encode e ++ rest) m (omega (arith, size))
    ∙ rw (read, fits, size, enough) (rw (after, behind, take-append e rest))

parse-encode_all :
    (f : ℕ) (es ps : List Bytes)
    → length (encode_all es) ≤ f
    → length (encode_all ps) + length (encode_all es) < 2 ^ 63
    → distinct (ps ++ es) ≡ true
    → parse f (length (encode_all ps)) (encode_all es) (offsets 0 ps) ≡ ok (offsets 0 (ps ++ es))
parse-encode_all f [] ps h k d = unfold parse encode_all in rw append-nil
parse-encode_all zero (e ∷ es) ps h k d = absurd (omega (arith, length-encode_all e es))
parse-encode_all (suc f) (e ∷ es) ps h k d =
    let i = length (encode_all ps) in
    let size = length-encode_all e es in
    let longer : length (encode_all (ps ++ (e ∷ []))) ≡ i + (8 + length e) =
      ap length (encode_all-append ps e)
      ∙ omega (arith, length-append (encode_all ps) (encode e), length-encode e) in
    let regroup : (ps ++ (e ∷ [])) ++ es ≡ ps ++ (e ∷ es) = append_assoc ps (e ∷ []) es in
    let ih =
      parse-encode_all f es (ps ++ (e ∷ [])) (omega (arith, size)) (omega (arith, size, longer))
        (ap distinct regroup ∙ d) in
    let wrote = write-offsets e ps 0 i (omega arith) (distinct-member e ps es d) in
    ap (λ (bs : Bytes). parse (suc f) i bs (offsets 0 ps)) (encode_all-cons e es)
    ∙ parse_round f i e (encode_all es) (offsets 0 ps) (omega (arith, size))
    ∙ cc (wrote, longer, ih, regroup)

-- For distinct elements whose binary form is shorter than 2^63 bytes, unmarshalling the binary
-- form of the set of the list gives that set, elements and offsets.
pub unmarshal_binary-marshal_binary :
    (es : List Bytes)
    → distinct es ≡ true
    → length (encode_all es) < 2 ^ 63
    → unmarshal_binary (marshal_binary (of_list es)) ≡ ok (of_list es)
unfolding unmarshal_binary marshal_binary encode_all offsets
unmarshal_binary-marshal_binary es d small =
    let parsed = parse-encode_all (length (encode_all es)) es [] (omega arith) (omega arith) d in
    rw parsed

-- A first length from 2^63 on is a negative number to the code: it faults on such an input, and
-- returns no error.
pub unmarshal_binary_fault :
    (n : ℕ) (rest : Bytes)
    → 2 ^ 63 ≤ n
    → n < 2 ^ 64
    → unmarshal_binary (uint64_to_bytes n ++ rest) ≡ fault
unfolding unmarshal_binary
unmarshal_binary_fault n rest big small =
    let bs = uint64_to_bytes n ++ rest in
    let size : length bs ≡ suc (7 + length rest) =
      omega (arith, length-append (uint64_to_bytes n) rest, length-uint64_to_bytes n) in
    let read = bytes_to_uint64-uint64_to_bytes n rest small in
    let negative : leb (2 ^ 63) (0 + 8 + n) ≡ true = ground (arith, big) in
    let parsed : parse (length bs) 0 bs [] ≡ fault =
      ap (λ (f : ℕ). parse f 0 bs []) size
      ∙ parse_step (7 + length rest) 0 bs [] (omega (arith, size))
      ∙ rw (read, negative) in
    rw parsed

-- Any fuel from the length of the input on gives the same result.
pub parse_fuel :
    (f g i : ℕ) (bs : Bytes) (m : Elements)
    → length bs ≤ f
    → length bs ≤ g
    → parse f i bs m ≡ parse g i bs m
unfolding parse
parse_fuel f g i [] m h k = refl
parse_fuel zero g i (b ∷ bs) m h k = absurd (omega arith)
parse_fuel (suc f) zero i (b ∷ bs) m h k = absurd (omega arith)
parse_fuel (suc f) (suc g) i (b ∷ bs) m h k =
    let n = bytes_to_uint64 (b ∷ bs) in
    let m' = write (take n (drop 8 (b ∷ bs))) i m in
    let shorter = length-drop (8 + n) (b ∷ bs) in
    let ih =
      parse_fuel f g (i + (8 + n)) (drop (8 + n) (b ∷ bs)) m' (omega (arith, shorter))
        (omega (arith, shorter)) in
    rw ih
