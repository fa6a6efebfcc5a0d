-- ===== src/Consensus/Operation.antt =====
-- consensus/operation.go, and the messages `Operation` and `Operation_Op` of structures.proto.
use Prim.Native.Nat.{bit_and}
use pnyxdb.Base.{
  ℕ, String, Bool, not, ◌&&◌, Option, none, some, Bytes, bytes_equal, ltb, ◌==◌, str_eq,
  if◌then◌else◌,
}

-- A proto3 enum may hold any number: `other` is a value that has no name.
pub data Op : Type 0 where
  set concat add mul sadd srem : Op
  other : ℕ → Op

pub record Operation : Type 0 where
  pub key : String
  pub op : Op
  pub payload : Bytes  -- `Data`
  pub metadata : Bytes

-- `errors.New("non-parallel operations " + ...)`
pub record NonParallel : Type 0 where
  pub left : Op
  pub right : Op

abbrev pub parallel_type_default : ℕ
parallel_type_default = 1

abbrev pub parallel_type_disallow_different : ℕ
parallel_type_disallow_different = 2

abbrev pub parallel_type_disallow_equal : ℕ
parallel_type_disallow_equal = 4

-- A row of the matrix; a missing entry of Go's map reads as 0.
row_set : Op → ℕ
row_set set = parallel_type_disallow_different
row_set _ = 0

row_add : Op → ℕ
row_add add = parallel_type_default
row_add _ = 0

row_mul : Op → ℕ
row_mul mul = parallel_type_default
row_mul _ = 0

row_sadd : Op → ℕ
row_sadd sadd = parallel_type_default
row_sadd srem = parallel_type_disallow_equal
row_sadd _ = 0

row_srem : Op → ℕ
row_srem srem = parallel_type_default
row_srem sadd = parallel_type_disallow_equal
row_srem _ = 0

-- `ParallelMatrix`; `none` is a nil row.
unfoldable pub parallel_matrix : Op → Option (Op → ℕ)
unfolding row_set row_add row_mul row_sadd row_srem
parallel_matrix set = some row_set
parallel_matrix add = some row_add
parallel_matrix mul = some row_mul
parallel_matrix sadd = some row_sadd
parallel_matrix srem = some row_srem
parallel_matrix _ = none

-- The checks on a flag set `t` that is read from the matrix.
unfoldable pub check_flags : ℕ → Bool → NonParallel → Option NonParallel
check_flags t equal err =
    if t == 0
    then some err
    else if ltb 0 (bit_and parallel_type_default t)
    then none
    else if equal && ltb 0 (bit_and parallel_type_disallow_equal t)
    then some err
    else if not equal && ltb 0 (bit_and parallel_type_disallow_different t)
    then some err
    else none

unfoldable pub check_row : Option (Op → ℕ) → Op → Bool → NonParallel → Option NonParallel
unfolding check_flags
check_row none op2 equal err = some err
check_row (some row) op2 equal err = check_flags (row op2) equal err

-- `CheckConflict`: `some` is an error.
unfoldable pub check_conflict : Operation → Operation → Option NonParallel
unfolding check_row parallel_matrix bytes_equal
check_conflict o o2 =
    let err : NonParallel = record { left = o.op; right = o2.op } in
    if not (str_eq o.key o2.key)
    then none
    else check_row (parallel_matrix o.op) o2.op (bytes_equal o.payload o2.payload) err
