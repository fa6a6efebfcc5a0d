-- ===== src/Examples/Values.antt =====
-- The encodings and the operations on values at concrete inputs.
use pnyxdb.Base.{
  ℕ, ◌+◌, ◌^◌, ◌≡◌, refl, true, none, some, List, [], ◌∷◌, ◌++◌, Bytes, length, bytes_equal, arith,
  inl,
}
use pnyxdb.Encoding.Uint64.{uint64_to_bytes}
use pnyxdb.Encoding.Set.{
  ok, fault, new_set, add, find, write, remove_key, remove, marshal_binary, unmarshal_binary,
}
use pnyxdb.Encoding.Set.Entries.{offsets, encode_all, of_list, member, distinct}
use pnyxdb.Encoding.Set.Refinement.{remove_spec, remove-of_list}
use pnyxdb.Encoding.Set.RoundTrip.{unmarshal_binary_fault}
use pnyxdb.Encoding.Set.Made.{Made, created, added, removed, unmarshal_binary-Made}
use pnyxdb.Consensus.Operation.{sadd, srem, Operation, check_conflict}
use pnyxdb.Operations.{BigFloat, Value}
use pnyxdb.Operations.SetValues.{Holds}
use pnyxdb.Operations.Parallel.{is_sadd, is_srem, Runs, parallel_set_operations}

abbrev two_elements : List Bytes
two_elements = (1 ∷ 2 ∷ []) ∷ (3 ∷ []) ∷ []

remove_example : remove (1 ∷ 2 ∷ []) (of_list two_elements) ≡ remove_spec (1 ∷ 2 ∷ []) two_elements
unfolding distinct member bytes_equal
remove_example = remove-of_list (1 ∷ 2 ∷ []) two_elements refl

-- Two elements are added, and the first is removed.
made-Made : Made (of_list ((3 ∷ []) ∷ []))
unfolding new_set add remove find write remove_key bytes_equal uint64_to_bytes offsets encode_all
made-Made =
    removed (1 ∷ 2 ∷ []) true (added (3 ∷ []) true (added (1 ∷ 2 ∷ []) true created refl) refl) refl

unmarshal_binary_example :
    unmarshal_binary (marshal_binary (of_list ((3 ∷ []) ∷ []))) ≡ ok (of_list ((3 ∷ []) ∷ []))
unfolding marshal_binary encode_all uint64_to_bytes
unmarshal_binary_example = unmarshal_binary-Made (of_list ((3 ∷ []) ∷ [])) made-Made (omega arith)

unmarshal_binary_fault_example : unmarshal_binary (uint64_to_bytes (2 ^ 63 + 1) ++ (5 ∷ [])) ≡ fault
unmarshal_binary_fault_example =
    unmarshal_binary_fault (2 ^ 63 + 1) (5 ∷ []) (omega arith) (omega arith)

abbrev stored : Value ℕ
stored = record { raw = encode_all two_elements; vfloat = none; vset = none }

stored-Holds : Holds stored two_elements
unfolding distinct member bytes_equal encode_all uint64_to_bytes
stored-Holds = record { bytes = refl; parsed = inl refl; no_repeats = refl; small = omega arith }

abbrev add_four : Operation
add_four = record { key = "k"; op = sadd; payload = 4 ∷ []; metadata = [] }

abbrev remove_three : Operation
remove_three = record { key = "k"; op = srem; payload = 3 ∷ []; metadata = [] }

-- Numbers in place of the library's floats.
abbrev pub numbers : BigFloat
numbers = record {
  Float = ℕ;
  zero_float = 0;
  unmarshal_text = λ bs. some (length bs);
  marshal_text = λ n. n ∷ [];
  plus = λ m n. some (m + n);
  times = λ m n. some m;
}

parallel_set_operations_example :
    (x : Value ℕ) × (y : Value ℕ) × (xs : List Bytes) × (ys : List Bytes) × Runs numbers add_four
      remove_three stored x
    × Runs numbers remove_three add_four stored y
    × Holds x xs
    × Holds y ys
    × ((e : Bytes) → member e xs ≡ member e ys)
unfolding check_conflict encode_all uint64_to_bytes
parallel_set_operations_example =
    parallel_set_operations numbers add_four remove_three stored two_elements is_sadd is_srem refl
      refl (omega arith) (omega arith) (omega arith) stored-Holds
