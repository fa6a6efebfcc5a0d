-- ===== src/Operations/Parallel.antt =====
-- What it means that two operations do not conflict.
use pnyxdb.Base.{
  ◌+◌, ◌^◌, ◌<◌, ◌≤◌, ◌≡◌, ◌∙◌, Bool, true, false, Option, none, some, List, [], ◌∷◌, Bytes, length,
  length-append, bytes_equal, bytes_equal_sound, bytes_equal_sym, eq_iff, Bool-cases, inl, inr,
  arith,
}
use pnyxdb.Encoding.Set.Entries.{
  encode, encode_all, encode_all-append, length-encode, member, without,
}
use pnyxdb.Encoding.Set.Distinct.{member-without}
use pnyxdb.Consensus.Operation.{
  Operation, Op, set, concat, add, mul, sadd, srem, other, NonParallel, check_flags, check_row,
  parallel_matrix, check_conflict,
}
use pnyxdb.Operations.{BigFloat, Value, done, exec}
use pnyxdb.Operations.SetValues.{
  added, Holds, without_small, member-added, run_sadd-Holds, run_srem-Holds,
}

abbrev pub conflicts : Option NonParallel → Bool
conflicts none = false
conflicts (some err) = true

check_row_sym :
    (a b : Op) (equal : Bool) (x y : NonParallel)
    → conflicts (check_row (parallel_matrix a) b equal x)
      ≡ conflicts (check_row (parallel_matrix b) a equal y)
unfolding check_row parallel_matrix check_flags
check_row_sym set b equal x y = ground arith
check_row_sym concat b equal x y = ground arith
check_row_sym add b equal x y = ground arith
check_row_sym mul b equal x y = ground arith
check_row_sym sadd b equal x y = ground arith
check_row_sym srem b equal x y = ground arith
check_row_sym (other n) b equal x y = ground arith

-- Whether two operations conflict does not depend on their order.
pub check_conflict_sym :
    (o p : Operation) → conflicts (check_conflict o p) ≡ conflicts (check_conflict p o)
unfolding check_conflict
check_conflict_sym o p = ground (
  arith,
  bytes_equal_sym o.payload p.payload,
  eq_iff o.key p.key,
  eq_iff p.key o.key,
  check_row_sym o.op p.op (bytes_equal o.payload p.payload) (record { left = o.op; right = p.op })
      (record { left = p.op; right = o.op }),
)

pub data IsSetOp : Op → Type 0 where
  is_sadd : IsSetOp sadd
  is_srem : IsSetOp srem

-- The elements once a set operation ran.
abbrev pub effect : Op → Bytes → List Bytes → List Bytes
effect sadd e es = added e es
effect srem e es = without e es
effect _ e es = es

-- Equality of bytes is transitive.
apart : (e f x : Bytes) → bytes_equal e x ≡ true → bytes_equal f x ≡ true → bytes_equal e f ≡ true
apart e f x p q = rw (bytes_equal_sound e x p) (bytes_equal_sym x f ∙ q)

-- Two set operations that do not conflict have the same members in either order.
effects_commute :
    (a b : Op) (e f : Bytes) (err : NonParallel)
    → IsSetOp a
    → IsSetOp b
    → check_row (parallel_matrix a) b (bytes_equal e f) err ≡ none
    → (x : Bytes) (es : List Bytes)
    → member x (effect b f (effect a e es)) ≡ member x (effect a e (effect b f es))
unfolding check_row parallel_matrix check_flags
effects_commute a b e f err is_sadd is_sadd h x es = ground (
  arith,
  member-added x f (added e es),
  member-added x e es,
  member-added x e (added f es),
  member-added x f es,
)
effects_commute a b e f err is_srem is_srem h x es = ground (
  arith,
  member-without x f (without e es),
  member-without x e es,
  member-without x e (without f es),
  member-without x f es,
)
effects_commute a b e f err is_sadd is_srem h x es = ground (
  arith,
  member-without x f (added e es),
  member-added x e es,
  member-added x e (without f es),
  member-without x f es,
  apart e f x,
)
effects_commute a b e f err is_srem is_sadd h x es = ground (
  arith,
  member-added x f (without e es),
  member-without x e es,
  member-without x e (added f es),
  member-added x f es,
  apart e f x,
)

effect_small :
    (a : Op) (e : Bytes) (es : List Bytes)
    → length (encode_all (effect a e es)) ≤ length (encode_all es) + (8 + length e)
effect_small sadd e es = elim (Bool-cases (member e es)) [
  | inl t ↦ rw t (omega arith)
  | inr t ↦
      rw (t, encode_all-append es e)
        (omega (arith, length-append (encode_all es) (encode e), length-encode e))
]
effect_small srem e es = omega (arith, without_small e es)
effect_small set e es = omega arith
effect_small concat e es = omega arith
effect_small add e es = omega arith
effect_small mul e es = omega arith
effect_small (other n) e es = omega arith

module _ (B : BigFloat) where
  open B use {Float}

  -- A set operation with a non-empty element succeeds, with its effect.
  exec-Holds :
      (o : Operation) (v : Value Float) (es : List Bytes)
      → IsSetOp o.op
      → 0 < length o.payload
      → length (encode_all es) + (8 + length o.payload) < 2 ^ 63
      → Holds v es
      → (w : Value Float) × (exec B o v ≡ done w) × Holds w (effect o.op o.payload es)
  unfolding exec
  exec-Holds o v es i long fits h = go o.op o.payload i long fits
    where
      go :
          (a : Op) (e : Bytes)
          → IsSetOp a
          → 0 < length e
          → length (encode_all es) + (8 + length e) < 2 ^ 63
          → (w : Value Float) × (exec B (record o { op = a; payload = e }) v ≡ done w)
            × Holds w (effect a e es)
      go a [] i long fits = absurd (omega arith)
      go sadd (b ∷ bs) is_sadd long fits =
          run_sadd-Holds b bs v es h (omega (arith, effect_small sadd (b ∷ bs) es))
      go srem (b ∷ bs) is_srem long fits = run_srem-Holds b bs v es h
      go set (b ∷ bs) i long fits = elim i [ ]
      go concat (b ∷ bs) i long fits = elim i [ ]
      go add (b ∷ bs) i long fits = elim i [ ]
      go mul (b ∷ bs) i long fits = elim i [ ]
      go (other n) (b ∷ bs) i long fits = elim i [ ]

  -- One value, and another operation on its result.
  pub record Runs (o p : Operation) (v w : Value Float) : Type 0 where
    pub between : Value Float
    pub first : exec B o v ≡ done between
    pub second : exec B p between ≡ done w

  -- Two set operations on one key, with non-empty elements, that do not conflict run on a stored
  -- set in either order without an error, if the bytes stay fewer than 2^63, and leave sets with
  -- the same members. (Their bytes may differ.)
  pub parallel_set_operations :
      (o p : Operation) (v : Value Float) (es : List Bytes)
      → IsSetOp o.op
      → IsSetOp p.op
      → o.key ≡ p.key
      → check_conflict o p ≡ none
      → 0 < length o.payload
      → 0 < length p.payload
      → length (encode_all es) + (8 + length o.payload) + (8 + length p.payload) < 2 ^ 63
      → Holds v es
      → (x : Value Float) × (y : Value Float) × (xs : List Bytes) × (ys : List Bytes) × Runs o p v x
        × Runs p o v y
        × Holds x xs
        × Holds y ys
        × ((e : Bytes) → member e xs ≡ member e ys)
  unfolding check_conflict
  parallel_set_operations o p v es io ip same free lo lp fits h =
      let small1 = effect_small o.op o.payload es in
      let small2 = effect_small p.op p.payload es in
      let (a, ea, ha) = exec-Holds o v es io lo (omega arith) h in
      let (x, ex, hx) =
        exec-Holds p a (effect o.op o.payload es) ip lp (omega (arith, small1)) ha in
      let (b, eb, hb) = exec-Holds p v es ip lp (omega arith) h in
      let (y, ey, hy) =
        exec-Holds o b (effect p.op p.payload es) io lo (omega (arith, small2)) hb in
      (
        x,
        y,
        _,
        _,
        record { between = a; first = ea; second = ex },
        record { between = b; first = eb; second = ey },
        hx,
        hy,
        λ e.
            effects_commute o.op p.op o.payload p.payload (record { left = o.op; right = p.op }) io
              ip (ground (arith, free, eq_iff o.key p.key)) e es,
      )
