-- ===== src/Examples/Service.antt =====
-- A client, a server and their node at concrete inputs.
use Prim.Native.Char.{code}
use Prim.Native.String.{◌++◌ as ◌<>◌}
use pnyxdb.Base.{
  ℕ, suc, ◌+◌, ◌==◌, ◌≡◌, ◌⊎◌, inl, refl, String, Bool, true, false, none, some, List, [], ◌∷◌,
  ◌++◌, length, length-append, Bytes, Dict, map_values, arith, lookup, insert, bytes_equal,
}
use pnyxdb.Consensus.Operation.{sadd, srem}
use pnyxdb.Consensus.Query.{Query}
use pnyxdb.Consensus.Version.{new_version}
use pnyxdb.Consensus.Driver.{wrote, write, IsLawful}
use pnyxdb.Consensus.QueryStore.State.{QueryStore, get_query, zero_info}
use pnyxdb.Consensus.Engine.Node.{Engine, new_engine, query_message}
use pnyxdb.Consensus.Engine.Apply.{Loop, finished, stopped, crashed, stored, run_all, apply}
use pnyxdb.Consensus.Engine.Signing.{verify_query}
use pnyxdb.Encoding.Set.Distinct.{member-append}
use pnyxdb.Encoding.Set.Entries.{encode_all, distinct, without, member}
use pnyxdb.Operations.{Value}
use pnyxdb.Operations
use pnyxdb.Storage.Bolt.{Bucket, get, set_batch}
use pnyxdb.Storage.Bolt.Lawful.{driver, driver-IsLawful}
use pnyxdb.Server.{Error, Transaction, submit}
use pnyxdb.Server.Sets.{IsRange, adds, removes, set_steps, growth, ReadsSet, Shows, committed_set}
use pnyxdb.Server.Submitted.{Trusts, Asks, submit-Asks}
use pnyxdb.Client.{
  Line, answer, ended, Reply, reply, refused, Remote, Library, Client, panicked, text, problem, run,
}
use pnyxdb.Client.Session.{connected, Prints, session-Shows}
use pnyxdb.Encoding.Set.Refinement.{contains_spec}
use pnyxdb.Client.Expressions.{has_space, run-submits, run-contains}
use pnyxdb.Examples.Messages.{accepting, nothing_stored}
use pnyxdb.Examples.Cluster.{alice, digest, start, writes}

abbrev sets : Query
sets = record writes {
  uuid = "c";
  operations =
      record { key = "s"; op = sadd; payload = 1 ∷ []; metadata = [] }
      ∷ record { key = "s"; op = sadd; payload = 2 ∷ []; metadata = [] }
      ∷ record { key = "s"; op = srem; payload = 1 ∷ []; metadata = [] }
      ∷ [];
}

abbrev knows : QueryStore
knows = record {
  queries = ("c", record zero_info { query = some sets }) ∷ [];
  pending_dependencies = [];
  pending_endorsements = [];
  threshold = 1;
}

abbrev or_none : {A : Type 0} → Loop (Dict A) → Dict A
or_none (finished values) = values
or_none stopped = []
or_none crashed = []

abbrev values : Dict (Value ℕ)
values = or_none (run_all alice nothing_stored sets.operations [])

sets_known : get_query "c" knows ≡ some sets
unfolding get_query lookup
sets_known = refl

sets_run : run_all alice nothing_stored sets.operations [] ≡ finished values
unfolding run_all lookup insert get Operations.exec
sets_run = refl

sets_written :
    (write (driver accepting) digest nothing_stored (map_values Value.raw values)).1 ≡ wrote
unfolding run_all lookup insert get Operations.exec set_batch new_version
sets_written = refl

alice_stores : IsLawful (driver accepting) digest
alice_stores = driver-IsLawful accepting digest (λ raw. refl)

-- A range that goes over the map backwards.
unfoldable backwards : List Bytes → List Bytes
backwards [] = []
backwards (e ∷ es) = backwards es ++ (e ∷ [])

member-backwards : (e : Bytes) (es : List Bytes) → member e (backwards es) ≡ member e es
unfolding backwards member
member-backwards e [] = refl
member-backwards e (x ∷ es) =
    ground (arith, member-append e (backwards es) x, member-backwards e es)

length-backwards : (es : List Bytes) → length (backwards es) ≡ length es
unfolding backwards
length-backwards [] = refl
length-backwards (x ∷ es) =
    omega (arith, length-append (backwards es) (x ∷ []), length-backwards es)

backwards-IsRange : IsRange backwards
backwards-IsRange = record { each = member-backwards; as_many = length-backwards }

no_set : ReadsSet alice nothing_stored "s" []
unfolding get encode_all distinct lookup
no_set = record { readable = refl; bytes = refl; no_repeats = refl; small = omega arith }

committed_set_example :
    (s : Bucket) × (apply alice "c" knows nothing_stored ≡ stored s)
    × Shows alice backwards (record start { store = s }) "s" (set_steps sets.operations [])
unfolding growth encode_all new_engine
committed_set_example =
    committed_set alice backwards "c" knows sets start values "s"
      (record { key = "s"; op = sadd; payload = 1 ∷ []; metadata = [] })
      (record { key = "s"; op = sadd; payload = 2 ∷ []; metadata = [] }
        ∷ record { key = "s"; op = srem; payload = 1 ∷ []; metadata = [] }
        ∷ [])
      [] backwards-IsRange alice_stores sets_known sets_run sets_written refl
      (adds "s" 1 [] [], (adds "s" 2 [] [], (removes "s" 1 [] [], tt))) no_set (omega arith)

committed_sets :
    (s : Bucket) × (apply alice "c" knows nothing_stored ≡ stored s)
    × Shows alice backwards (record start { store = s }) "s" (set_steps sets.operations [])
unfolding growth encode_all new_engine
committed_sets =
    committed_set alice backwards "c" knows sets start values "s"
      (record { key = "s"; op = sadd; payload = 1 ∷ []; metadata = [] })
      (record { key = "s"; op = sadd; payload = 2 ∷ []; metadata = [] }
        ∷ record { key = "s"; op = srem; payload = 1 ∷ []; metadata = [] }
        ∷ [])
      [] backwards-IsRange alice_stores sets_known sets_run sets_written refl
      (adds "s" 1 [] [], (adds "s" 2 [] [], (removes "s" 1 [] [], tt))) no_set (omega arith)

left_elements : set_steps sets.operations [] ≡ (2 ∷ []) ∷ []
unfolding set_steps without member bytes_equal
left_elements = refl

-- A transaction of a client.
abbrev asked : Transaction
asked = record {
  policy = "none";
  deadline = some 10;
  requirements = [];
  operations = sets.operations;
}

alice_trusted : Trusts alice alice
alice_trusted = record {
  signatures = λ h s p. refl;
  same_sha512 = λ raw. refl;
  same_bytes = λ q one. refl;
}

submit-Asks_example :
    let (receipt, sent, eng) = submit alice "u" asked start in
    (receipt ≡ "u")
    × (((sent ≡ none) × (eng ≡ start))
        ⊎ ((q : Query) × (sent ≡ some q)
            × Asks "u" "alice" asked q
            × (eng ≡ record start { sent = start.sent ++ (query_message q ∷ []) })
            × ((verify_query alice q start).0 ≡ true)))
unfolding new_engine lookup
submit-Asks_example = submit-Asks alice alice "u" asked start start alice_trusted (omega arith) refl

-- A client that types an expression.
abbrev codes : String → Bytes
codes String.[] = []
codes (String.◌∷◌ c s) = code c ∷ codes s

abbrev numbered : Library
numbered = record {
  Duration = ℕ;
  is_zero = λ d. d == 0;
  five_seconds = 5;
  parse_duration = λ s. inl "invalid duration";
  deadline = λ now d. some (now + d);
  to_upper = λ s. s;
  bytes_of = codes;
}

-- A server that counts the transactions.
abbrev counting : Remote ℕ
counting = record {
  get = λ k w. refused "not found";
  members = λ k w. refused "not found";
  contains = λ k e w. refused "not found";
  submit = λ tx w. (reply "u", suc w);
}

abbrev user : Client numbered counting
user = record { policy = "none"; tx_timeout = 0 }

run-submits_example :
    ((uuid : String) × (◌≡◌ {A = Reply String} (reply "u") (reply uuid))
      × (run numbered counting 7 ("SADD" <> (" " <> ("k" <> (" " <> "a b")))) user 0
          ≡ ended false (text uuid ∷ []) user 1))
    ⊎ ((e : String) × (◌≡◌ {A = Reply String} (reply "u") (refused e))
        × (run numbered counting 7 ("SADD" <> (" " <> ("k" <> (" " <> "a b")))) user 0
            ≡ ended true (problem e ∷ []) user 1))
unfolding has_space lookup
run-submits_example =
    run-submits numbered counting 7 "SADD" "SADD" "k" "a b" sadd user 0 refl refl refl

run-contains_example :
    ((b : Bool) × (◌≡◌ {A = Reply Bool} (refused "not found") (reply b))
      × (run numbered counting 7 ("SCONTAINS" <> (" " <> ("k" <> (" " <> "a")))) user 0
          ≡ ended false (answer b ∷ []) user 0))
    ⊎ ((e : String) × (◌≡◌ {A = Reply Bool} (refused "not found") (refused e))
        × (run numbered counting 7 ("SCONTAINS" <> (" " <> ("k" <> (" " <> "a")))) user 0
            ≡ panicked))
unfolding has_space lookup
run-contains_example = run-contains numbered counting 7 "SCONTAINS" "k" "a" user 0 refl refl refl

-- The client of that server, once the query on the set is committed.
abbrev describe : Error → String
describe e = "not a set"

abbrev draw : Engine Bucket → String
draw eng = "u"

abbrev operator : Client numbered (connected alice backwards describe "closed" draw)
operator = record { policy = "none"; tx_timeout = 0 }

abbrev after_sets : Engine Bucket
after_sets = record start { store = committed_sets.0 }

session-Shows_example :
    ((lines : List Line) × (run numbered
          (connected alice backwards describe "closed" draw)
          7
          ("SMEMBERS" <> (" " <> "s"))
          operator
          after_sets
        ≡ ended false lines operator after_sets)
      × Prints alice backwards describe "closed" draw (set_steps sets.operations []) lines)
    × ((element : String)
        → run numbered
            (connected alice backwards describe "closed" draw)
            7
            ("SCONTAINS" <> (" " <> ("s" <> (" " <> element))))
            operator
            after_sets
          ≡ ended false
              (answer (contains_spec (codes element) (set_steps sets.operations [])) ∷ [])
              operator
              after_sets)
unfolding has_space lookup
session-Shows_example =
    session-Shows alice backwards describe "closed" draw numbered 7 "SMEMBERS" "SCONTAINS" "s"
      operator after_sets (set_steps sets.operations []) refl refl refl refl refl committed_sets.2
