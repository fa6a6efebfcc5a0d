-- ===== src/Client.antt =====
-- client/client.go, client/cli.go, client/get.go and client/submit.go: the commands of the client.
-- gRPC is the record `Remote`, over the state `W` of the server: a call returns an answer, or an
-- error and nil. A command prints lines.
pub mod Expressions
pub mod Sorting
pub mod Session
use Prim.Native.Char.{code}
use Prim.Native.String.{◌++◌ as ◌<>◌}
use pnyxdb.Base.{
  ℕ, ◌==◌, String, Bool, true, false, Option, none, some, ◌⊎◌, inl, inr, List, [], ◌∷◌, ◌++◌, map,
  Bytes, length, ltb, if◌then◌else◌, Dict, lookup,
}
use pnyxdb.Consensus.Operation.{Op, Operation, set, concat, add, mul, sadd, srem}
use pnyxdb.Consensus.Query.{Version}
use pnyxdb.Consensus.Version.{matches, no_version}
use pnyxdb.Server.{Value, Values, Transaction}

-- What a call returns; the text is the message of the error's status.
pub data Reply (A : Type 0) : Type 0 where
  reply : A → Reply A
  refused : String → Reply A

-- The client that protoc generates, connected to a server.
pub record Remote (W : Type 0) : Type 0 where
  pub get : String → W → Reply Value
  pub members : String → W → Reply Values
  pub contains : String → Bytes → W → Reply Bool
  pub submit : Transaction → W → Reply String × W

-- Durations and clocks, `strings.ToUpper`, and the bytes of a string. `parse_duration` gives an
-- error's text, or a duration. `deadline now d` is the
-- timestamp of `now` and `d`, none if it is out of range.
pub record Library : Type 1 where
  pub Duration : Type 0
  pub is_zero : Duration → Bool
  pub five_seconds : Duration
  pub parse_duration : String → String ⊎ Duration
  pub deadline : ℕ → Duration → Option ℕ
  pub to_upper : String → String
  pub bytes_of : String → Bytes

-- `strings.SplitN(s, " ", 2)`: what is before the first space, and behind it if there is one.
unfoldable pub split_n : String → String × Option String
split_n String.[] = ("", none)
split_n (String.◌∷◌ c s) =
    let rest = split_n s in if code c == 32 then ("", some s) else (String.◌∷◌ c rest.0, rest.1)

-- `split2args`
unfoldable pub two_args : String × Option String → Option (String × String)
two_args args = elim args.1 [ none ↦ none | some value ↦ some (args.0, value) ]

unfoldable pub split2args : String → Option (String × String)
unfolding split_n two_args
split2args arg = two_args (split_n arg)

-- What is printed: a text, the message of an error behind `Error:`, bytes as such, a hash, an element
-- of a list, the number of elements, an answer.
pub data Line : Type 0 where
  text problem : String → Line
  raw hash item : Bytes → Line
  count : ℕ → Line
  answer : Bool → Line

-- The commands of the table of `getCLIMap`; the operation of a name is that of `Operation_Op_value`.
pub data Command : Type 0 where
  help get version members contains policy timeout : Command
  generic2 : String → Op → Command

abbrev pub cli_map : Dict Command
cli_map =
    ("HELP", help)
    ∷ ("GET", get)
    ∷ ("VERSION", version)
    ∷ ("SET", generic2 "SET" set)
    ∷ ("CONCAT", generic2 "CONCAT" concat)
    ∷ ("ADD", generic2 "ADD" add)
    ∷ ("MUL", generic2 "MUL" mul)
    ∷ ("SADD", generic2 "SADD" sadd)
    ∷ ("SREM", generic2 "SREM" srem)
    ∷ ("SMEMBERS", members)
    ∷ ("SCONTAINS", contains)
    ∷ ("POL", policy)
    ∷ ("TIMEOUT", timeout)
    ∷ []

-- `sort.Strings`, on the bytes.
unfoldable pub bytes_leb : Bytes → Bytes → Bool
bytes_leb [] ys = true
bytes_leb (x ∷ xs) [] = false
bytes_leb (x ∷ xs) (y ∷ ys) =
    let rest = bytes_leb xs ys in if ltb x y then true else if x == y then rest else false

unfoldable pub insert_sorted : Bytes → List Bytes → List Bytes
unfolding bytes_leb
insert_sorted x [] = x ∷ []
insert_sorted x (y ∷ ys) =
    let rest = insert_sorted x ys in if bytes_leb x y then x ∷ y ∷ ys else y ∷ rest

unfoldable pub sort : List Bytes → List Bytes
unfolding insert_sorted
sort [] = []
sort (x ∷ xs) = insert_sorted x (sort xs)

module _ (lib : Library) {W : Type 0} (remote : Remote W) where
  open lib use {Duration, is_zero, five_seconds, parse_duration, deadline, to_upper, bytes_of}

  -- `Client`, less the connection.
  pub record Client : Type 0 where
    pub policy : String
    pub tx_timeout : Duration

  -- How a command ends: whether with an error, what it printed, and the client and the server then;
  -- or with a nil pointer.
  pub data Ended : Type 0 where
    ended : Bool → List Line → Client → W → Ended
    panicked : Ended

  -- `processGET`
  unfoldable pub process_get : String → Client → W → Ended
  process_get arg c w = elim (remote.get arg w) [
    | reply v ↦ ended false (raw (Value.content v) ∷ []) c w
    | refused e ↦ ended true (problem e ∷ []) c w
  ]

  -- `processVERSION`. `Matches` reports an error for a nil version, whose hash is read then.
  unfoldable pub show_version : Option Version → Client → W → Ended
  unfolding matches
  show_version v c w = elim (matches v (some no_version)) [
    | none ↦ ended false (text "0x0" ∷ []) c w
    | some e ↦ elim v [ none ↦ panicked | some x ↦ ended false (hash (Version.hash x) ∷ []) c w ]
  ]

  unfoldable pub process_version : String → Client → W → Ended
  unfolding show_version
  process_version arg c w = elim (remote.get arg w) [
    | reply v ↦ show_version (Value.version v) c w
    | refused e ↦ ended true (text "0x0" ∷ []) c w
  ]

  -- `processMEMBERS`
  unfoldable pub members_args : Client → W → Reply Values → Ended
  unfolding sort
  members_args c w (reply v) =
      ended false (count (length (Values.members v)) ∷ map item (sort (Values.members v))) c w
  members_args c w (refused e) = ended true (problem e ∷ []) c w

  unfoldable pub process_members : String → Client → W → Ended
  unfolding members_args
  process_members arg c w = members_args c w (remote.members arg w)

  -- `processCONTAINS`. `Contains` of get.go reads the answer before the error is looked at, and the
  -- answer is nil where there is an error.
  unfoldable pub shown : Reply Bool → Client → W → Ended
  shown (reply b) c w = ended false (answer b ∷ []) c w
  shown (refused e) c w = panicked

  unfoldable pub contains_args : Client → W → Option (String × String) → Ended
  unfolding shown
  contains_args c w none =
      ended true (text "CONTAINS function expects two arguments: (container, element)" ∷ []) c w
  contains_args c w (some args) = shown (remote.contains args.0 (bytes_of args.1) w) c w

  unfoldable pub process_contains : String → Client → W → Ended
  unfolding split2args contains_args
  process_contains arg c w = contains_args c w (split2args arg)

  -- `processGeneric2`, at the time `now`: the transaction, and what is printed of its receipt.
  unfoldable pub transaction : ℕ → Op → String → String → Client → Transaction
  transaction now op key value c = record {
    policy = c.policy;
    deadline = deadline now (if is_zero c.tx_timeout then five_seconds else c.tx_timeout);
    requirements = [];
    operations = record { key = key; op = op; payload = bytes_of value; metadata = [] } ∷ [];
  }

  unfoldable pub submitted : Reply String × W → Client → Ended
  submitted r c = elim r.0 [
    | reply uuid ↦ ended false (text uuid ∷ []) c r.1
    | refused e ↦ ended true (problem e ∷ []) c r.1
  ]

  unfoldable pub submit_args : ℕ → String → Op → Client → W → Option (String × String) → Ended
  unfolding transaction submitted
  submit_args now name op c w none =
      ended true (text (name <> " function expects two arguments: (key, data)") ∷ []) c w
  submit_args now name op c w (some args) =
      submitted (remote.submit (transaction now op args.0 args.1 c) w) c

  unfoldable pub process_generic2 : ℕ → String → Op → String → Client → W → Ended
  unfolding split2args submit_args
  process_generic2 now name op arg c w = submit_args now name op c w (split2args arg)

  -- `SetPolicy`, `SetTxTimeout` and `help`.
  unfoldable pub set_policy : String → Client → W → Ended
  set_policy pol c w = ended false [] (record c { policy = pol }) w

  unfoldable pub set_tx_timeout : String → Client → W → Ended
  set_tx_timeout d c w = elim (parse_duration d) [
    | inl e ↦ ended true (text e ∷ []) c w
    | inr t ↦ ended false [] (record c { tx_timeout = t }) w
  ]

  unfoldable pub print_help : Client → W → Ended
  print_help c w =
      ended false (text "Available commands:" ∷ map (λ (e : String × Command). text e.0) cli_map) c
        w

  unfoldable pub perform : ℕ → Command → String → Client → W → Ended
  unfolding process_get process_version process_members process_contains process_generic2 set_policy
      set_tx_timeout print_help
  perform now help arg c w = print_help c w
  perform now get arg c w = process_get arg c w
  perform now version arg c w = process_version arg c w
  perform now members arg c w = process_members arg c w
  perform now contains arg c w = process_contains arg c w
  perform now policy arg c w = set_policy arg c w
  perform now timeout arg c w = set_tx_timeout arg c w
  perform now (generic2 name op) arg c w = process_generic2 now name op arg c w

  unfoldable pub or_empty : Option String → String
  or_empty none = ""
  or_empty (some s) = s

  -- `Run`, from the command on, from the two parts on, and in full.
  unfoldable pub run_command : ℕ → Option Command → String → Client → W → Ended
  unfolding perform
  run_command now none arg c w = ended true (text "Invalid command" ∷ []) c w
  run_command now (some command) arg c w = perform now command arg c w

  unfoldable pub run_parts : ℕ → Client → W → String × Option String → Ended
  unfolding run_command or_empty lookup
  run_parts now c w args = run_command now (lookup (to_upper args.0) cli_map) (or_empty args.1) c w

  unfoldable pub run : ℕ → String → Client → W → Ended
  unfolding run_parts split_n
  run now expression c w = run_parts now c w (split_n expression)
