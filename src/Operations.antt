-- ===== src/Operations.antt =====
-- The package `consensus/operations`, consensus/encoding/float.go, and `Exec` of
-- consensus/operation.go. The numbers of math/big are a parameter.
pub mod SetValues
pub mod Parallel
use pnyxdb.Base.{Bool, true, false, Option, none, some, List, [], ◌∷◌, ◌++◌, Bytes, if◌then◌else◌}
use pnyxdb.Encoding.Set.{Set, Outcome, ok, err_empty_element, err_unexpected_eof, fault}
use pnyxdb.Encoding.Set
use pnyxdb.Consensus.Operation.{Operation, Op, set, concat, add, mul, sadd, srem, other}

-- What the code uses of `big.Float`: zero, the text form in both directions, sum and product. These
-- two panic with `ErrNaN` on infinities of opposite signs, and on zero and an infinity: `none`.
pub record BigFloat : Type 1 where
  pub Float : Type 0
  pub zero_float : Float
  pub unmarshal_text : Bytes → Option Float
  pub marshal_text : Float → Bytes
  pub plus : Float → Float → Option Float
  pub times : Float → Float → Option Float

-- `Value`: the raw bytes, and what was parsed from them on demand.
pub record Value (Float : Type 0) : Type 0 where
  pub raw : Bytes
  pub vfloat : Option Float
  pub vset : Option Set

pub data Error : Type 0 where
  not_numeric not_valid_set empty_element not_implemented : Error

-- A runner returns the value that it leaves, with its error; `panic` ends the program.
pub data Ran (Float : Type 0) : Type 0 where
  done : Value Float → Ran Float
  failed : Error → Value Float → Ran Float
  panic : Ran Float

-- `NewValue`
abbrev pub new_value : {Float : Type 0} → Bytes → Value Float
new_value raw = record { raw = raw; vfloat = none; vset = none }

-- `reset`
abbrev pub reset : {Float : Type 0} → Value Float → Value Float
reset v = record v { vfloat = none; vset = none }

-- `Set` and `Append` of raw.go
unfoldable pub run_set : {Float : Type 0} → Bytes → Value Float → Ran Float
run_set input current = done (record (reset current) { raw = input })

unfoldable pub run_append : {Float : Type 0} → Bytes → Value Float → Ran Float
run_append input current = done (record (reset current) { raw = current.raw ++ input })

-- `Value.Set`
unfoldable pub value_set : {Float : Type 0} → Value Float → Outcome Set
unfolding Set.unmarshal_binary
value_set v = elim v.vset [ some s ↦ ok s | none ↦ Set.unmarshal_binary v.raw ]

-- The call of `Add` or `Remove`, whose first result is dropped.
unfoldable pub changed : {Float : Type 0} → Value Float → Set → Outcome (Bool × Set) → Ran Float
unfolding Set.marshal_binary
changed current s (ok (b, s')) =
    done (record current { vset = some s'; raw = Set.marshal_binary s' })
changed current s err_empty_element = failed empty_element (record current { vset = some s })
changed current s err_unexpected_eof = failed not_valid_set (record current { vset = some s })
changed current s fault = panic

-- `setGeneric`
unfoldable pub run_on_set : {Float : Type 0} → Bytes → Bool → Value Float → Outcome Set → Ran Float
unfolding changed Set.add Set.remove
run_on_set input is_add current (ok s) =
    changed current s (if is_add then Set.add input s else Set.remove input s)
run_on_set input is_add current fault = panic
run_on_set input is_add current err_empty_element = failed not_valid_set current
run_on_set input is_add current err_unexpected_eof = failed not_valid_set current

unfoldable pub set_generic : {Float : Type 0} → Bytes → Value Float → Bool → Ran Float
unfolding run_on_set value_set
set_generic input current is_add = run_on_set input is_add current (value_set current)

-- `Sadd` and `Srem`
unfoldable pub run_sadd : {Float : Type 0} → Bytes → Value Float → Ran Float
unfolding set_generic
run_sadd input current = set_generic input current true

unfoldable pub run_srem : {Float : Type 0} → Bytes → Value Float → Ran Float
unfolding set_generic
run_srem input current = set_generic input current false

module _ (B : BigFloat) where
  open B use {Float, zero_float, unmarshal_text, marshal_text, plus, times}

  -- `Float.UnmarshalBinary`
  unfoldable pub unmarshal_float : Bytes → Option Float
  unmarshal_float [] = some zero_float
  unmarshal_float (b ∷ bs) = unmarshal_text (b ∷ bs)

  -- `Value.Float`
  unfoldable pub value_float : Value Float → Option Float
  unfolding unmarshal_float
  value_float v = elim v.vfloat [ some f ↦ some f | none ↦ unmarshal_float v.raw ]

  -- The value once `Value.Float` returned `b`.
  unfoldable pub remember : Value Float → Option Float → Value Float
  remember current none = current
  remember current (some b) = record current { vfloat = some b }

  unfoldable pub combine : Bool → Value Float → Option Float → Option Float → Ran Float
  combine is_add current none a = failed not_numeric current
  combine is_add current (some b) none = failed not_numeric current
  combine is_add current (some b) (some a) = elim (if is_add then plus a b else times a b) [
    | some f ↦ done (record current { vfloat = some f; raw = marshal_text f })
    | none ↦ panic
  ]

  -- `floatGeneric`
  unfoldable pub float_generic : Bytes → Value Float → Bool → Ran Float
  unfolding combine remember value_float unmarshal_float
  float_generic input current is_add =
      let b = value_float current in combine is_add (remember current b) b (unmarshal_float input)

  -- `Exec`, with the table `runners`.
  unfoldable pub exec : Operation → Value Float → Ran Float
  unfolding run_set run_append float_generic run_sadd run_srem
  exec o v = elim o.op [
    | set ↦ run_set o.payload v
    | concat ↦ run_append o.payload v
    | add ↦ float_generic o.payload v true
    | mul ↦ float_generic o.payload v false
    | sadd ↦ run_sadd o.payload v
    | srem ↦ run_srem o.payload v
    | other n ↦ failed not_implemented v
  ]
