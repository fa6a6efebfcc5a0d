-- ===== src/Operations/SetValues.antt =====
-- `SADD` and `SREM` on a stored set.
use pnyxdb.Base.{
  ℕ, ◌^◌, ◌<◌, ◌≤◌, ◌≡◌, refl, true, ◌||◌, none, some, List, [], ◌∷◌, ◌++◌, Bytes, length,
  bytes_equal, bytes_equal_sound, if◌then◌else◌, Bool-cases, ◌⊎◌, inl, inr, arith,
}
use pnyxdb.Encoding.Set.{ok, marshal_binary}
use pnyxdb.Encoding.Set.Entries.{encode_all, length-encode_all, member, without, distinct, of_list}
use pnyxdb.Encoding.Set.Distinct.{member-append, distinct-without, distinct-append}
use pnyxdb.Encoding.Set.Refinement.{add-of_list, remove-of_list, without_lem}
use pnyxdb.Encoding.Set.RoundTrip.{unmarshal_binary-marshal_binary}
use pnyxdb.Operations.{Value, done, value_set, run_on_set, run_sadd, run_srem}

-- The elements once `e` was added.
abbrev pub added : Bytes → List Bytes → List Bytes
added e es = if member e es then es else es ++ (e ∷ [])

pub member-added :
    (x e : Bytes) (es : List Bytes) → member x (added e es) ≡ (bytes_equal e x || member x es)
member-added x e es = elim (Bool-cases (member e es)) [
  | inl t ↦ elim (Bool-cases (bytes_equal e x)) [
    | inl s ↦ rw (t, s) (rw (← bytes_equal_sound e x s) t)
    | inr s ↦ rw (t, s)
  ]
  | inr t ↦ rw (t, member-append x es e) (ground arith)
]

pub without_small :
    (e : Bytes) (es : List Bytes) → length (encode_all (without e es)) ≤ length (encode_all es)
unfolding without
without_small e [] = omega arith
without_small e (x ∷ es) = elim (Bool-cases (bytes_equal x e)) [
  | inl t ↦ rw t (omega (arith, without_small e es, length-encode_all x es))
  | inr t ↦ rw t (
      omega (arith, without_small e es, length-encode_all x es, length-encode_all x (without e es)))
]

-- The value holds the set of these elements: its bytes are the set's binary form, and what was
-- parsed before is that set.
pub record Holds {Float : Type 0} (v : Value Float) (es : List Bytes) : Type 0 where
  pub bytes : v.raw ≡ encode_all es
  pub parsed : (v.vset ≡ none) ⊎ (v.vset ≡ some (of_list es))
  pub no_repeats : distinct es ≡ true
  pub small : length (encode_all es) < 2 ^ 63

value_set-Holds :
    {Float : Type 0} (v : Value Float) (es : List Bytes)
    → Holds v es
    → value_set v ≡ ok (of_list es)
unfolding value_set
value_set-Holds v es h = elim h.parsed [
  | inl p ↦
      rw (p, value_set)
        (rw h.bytes
          (unfold marshal_binary in unmarshal_binary-marshal_binary es h.no_repeats h.small))
  | inr p ↦ rw (p, value_set)
]

-- On a stored set of distinct elements, `SADD` of a non-empty element succeeds and leaves the set
-- with the element, if its bytes stay fewer than 2^63.
pub run_sadd-Holds :
    {Float : Type 0} (b : ℕ) (bs : Bytes) (v : Value Float) (es : List Bytes)
    → Holds v es
    → length (encode_all (added (b ∷ bs) es)) < 2 ^ 63
    → (w : Value Float) × (run_sadd (b ∷ bs) v ≡ done w) × Holds w (added (b ∷ bs) es)
unfolding run_sadd marshal_binary
run_sadd-Holds {Float} b bs v es h fits = elim (Bool-cases (member (b ∷ bs) es)) [
  | inl t ↦ rw t (
    record v { vset = some (of_list es); raw = encode_all es },
    rw (value_set-Holds v es h, run_on_set) (rw (add-of_list (b ∷ bs) es) (rw t)),
    record { bytes = refl; parsed = inr refl; no_repeats = h.no_repeats; small = h.small },
  )
  | inr t ↦
      let more = es ++ ((b ∷ bs) ∷ []) in
      rw t (
        record v { vset = some (of_list more); raw = encode_all more },
        rw (value_set-Holds v es h, run_on_set) (rw (add-of_list (b ∷ bs) es) (rw t)),
        record {
          bytes = refl;
          parsed = inr refl;
          no_repeats = distinct-append (b ∷ bs) es h.no_repeats t;
          small = rw t at fits;
        },
      )
]

-- On a stored set of distinct elements, `SREM` of a non-empty element succeeds and leaves the set
-- without the element.
pub run_srem-Holds :
    {Float : Type 0} (b : ℕ) (bs : Bytes) (v : Value Float) (es : List Bytes)
    → Holds v es
    → (w : Value Float) × (run_srem (b ∷ bs) v ≡ done w) × Holds w (without (b ∷ bs) es)
unfolding run_srem marshal_binary
run_srem-Holds {Float} b bs v es h =
    let less = without (b ∷ bs) es in
    let small : length (encode_all less) < 2 ^ 63 =
      omega (arith, without_small (b ∷ bs) es, h.small) in
    elim (Bool-cases (member (b ∷ bs) es)) [
      | inl t ↦ (
        record v { vset = some (of_list less); raw = encode_all less },
        rw (value_set-Holds v es h, run_on_set)
            (rw (remove-of_list (b ∷ bs) es h.no_repeats) (rw t)),
        record {
          bytes = refl;
          parsed = inr refl;
          small = small;
          no_repeats = distinct-without (b ∷ bs) es h.no_repeats;
        },
      )
      | inr t ↦
          let same : without (b ∷ bs) es ≡ es = without_lem (b ∷ bs) es t in
          rw same (
            record v { vset = some (of_list es); raw = encode_all es },
            rw (value_set-Holds v es h, run_on_set)
                (rw (remove-of_list (b ∷ bs) es h.no_repeats) (rw t)),
            record { bytes = refl; parsed = inr refl; no_repeats = h.no_repeats; small = h.small },
          )
    ]
