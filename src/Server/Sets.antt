-- ===== src/Server/Sets.antt =====
-- What `Members` and `Contains` answer for a set on which a query was committed: the operations of
-- consensus/operations/set.go, the engine's `apply` and the server's reads, put together.
use pnyxdb.Base.{
  ℕ, ◌+◌, ◌<◌, ◌≤◌, ◌^◌, ◌≡◌, refl, ap, ◌∙◌, String, true, false, not, ◌&&◌, Option, none, some,
  List, [], ◌∷◌, map, Bytes, Dict, length, length-append, All, map_values, map_some, arith, inl,
  inr, Bool-cases,
}
use pnyxdb.Consensus.Operation.{Operation, sadd, srem}
use pnyxdb.Consensus.Query.{Version, Query}
use pnyxdb.Consensus.Version.{new_version}
use pnyxdb.Consensus.Driver.{wrote, write, settled, stamped, IsLawful, Got}
use pnyxdb.Consensus.QueryStore.State.{QueryStore, get_query, is_error}
use pnyxdb.Consensus.Engine.Node.{Node, Engine}
use pnyxdb.Consensus.Engine.Apply.{stored, finished, is_no_version, run_all, fetch, current, apply}
use pnyxdb.Consensus.Engine.Sequence.{own, run_sequence, outcome, left_by, apply-left_by}
use pnyxdb.Encoding.Set.{marshal_binary}
use pnyxdb.Encoding.Set.Entries.{
  encode, encode_all, offsets, member, distinct, without, encode_all-append, length-encode,
}
use pnyxdb.Encoding.Set.Refinement.{contains_spec, contains-of_list}
use pnyxdb.Encoding.Set.RoundTrip.{unmarshal_binary-marshal_binary}
use pnyxdb.Operations.{Value, done, exec, new_value}
use pnyxdb.Operations.SetValues.{without_small, added, Holds, run_sadd-Holds, run_srem-Holds}
use pnyxdb.Server.{
  Values, answer, parsed, reading, list_members, test_member, members, contains_value,
}

-- An `SADD` or `SREM` of a non-empty element.
pub data IsSetOperation : Operation → Type 0 where
  adds :
      (key : String) (b : ℕ) (bs metadata : Bytes)
      → IsSetOperation (record { key = key; op = sadd; payload = b ∷ bs; metadata = metadata })
  removes :
      (key : String) (b : ℕ) (bs metadata : Bytes)
      → IsSetOperation (record { key = key; op = srem; payload = b ∷ bs; metadata = metadata })

-- The elements after an operation, and after several.
unfoldable pub set_step : Operation → List Bytes → List Bytes
set_step op es = elim op.op [ srem ↦ without op.payload es | _ ↦ added op.payload es ]

unfoldable pub set_steps : List Operation → List Bytes → List Bytes
unfolding set_step
set_steps [] es = es
set_steps (op ∷ ops) es = set_steps ops (set_step op es)

-- A bound on the bytes that the operations make the set grow by.
unfoldable pub growth : List Operation → ℕ
growth [] = 0
growth (op ∷ ops) = 8 + length (Operation.payload op) + growth ops

added_small :
    (e : Bytes) (es : List Bytes)
    → length (encode_all (added e es)) ≤ length (encode_all es) + (8 + length e)
added_small e es = elim (Bool-cases (member e es)) [
  | inl t ↦ rw t (omega arith)
  | inr t ↦
      let longer = ap length (encode_all-append es e) in
      rw t (omega (arith, longer, length-append (encode_all es) (encode e), length-encode e))
]

-- The keys of the map of a set are its elements.
keys-offsets : (o : ℕ) (es : List Bytes) → map (λ (e : Bytes × ℕ). e.0) (offsets o es) ≡ es
unfolding offsets
keys-offsets o [] = refl
keys-offsets o (e ∷ es) = ap (λ (xs : List Bytes). e ∷ xs) (keys-offsets (o + (8 + length e)) es)

-- An order in which a range may go over the keys of a map: each key comes, and none comes twice.
pub record IsRange (range : List Bytes → List Bytes) : Type 0 where
  pub each : (e : Bytes) (es : List Bytes) → member e (range es) ≡ member e es
  pub as_many : (es : List Bytes) → length (range es) ≡ length es

-- What `Members` may answer for a set with these elements.
pub record Lists (version : Version) (es : List Bytes) (values : Values) : Type 0 where
  pub version_given : values.version ≡ some version
  pub as_many : length values.members ≡ length es
  pub all : (e : Bytes) → member e values.members ≡ member e es

module _ (node : Node) where
  open node use {driver, floats, sha512}
  open driver use {Store}
  open floats use {Float}

  -- A value that holds the set after an operation, whose bytes grew as far as the bound says.
  record Stepped (op : Operation) (v : Value Float) (es : List Bytes) : Type 0 where
    value : Value Float
    runs : exec floats op v ≡ done value
    holds : Holds value (set_step op es)
    grows : length (encode_all (set_step op es)) ≤ length (encode_all es) + (8 + length op.payload)

  step-Holds :
      (op : Operation) (v : Value Float) (es : List Bytes)
      → IsSetOperation op
      → Holds v es
      → length (encode_all es) + (8 + length op.payload) < 2 ^ 63
      → Stepped op v es
  unfolding exec set_step
  step-Holds op v es (adds key b bs m) h fits =
      let small : length (encode_all (added (b ∷ bs) es)) < 2 ^ 63 =
        omega (arith, fits, added_small (b ∷ bs) es) in
      let (w, runs, holds) = run_sadd-Holds b bs v es h small in
      record { value = w; runs = runs; holds = holds; grows = added_small (b ∷ bs) es }
  step-Holds op v es (removes key b bs m) h fits =
      let (w, runs, holds) = run_srem-Holds b bs v es h in
      record {
        value = w;
        runs = runs;
        holds = holds;
        grows = omega (arith, without_small (b ∷ bs) es);
      }

  steps-Holds :
      (ops : List Operation) (v : Value Float) (es : List Bytes)
      → All IsSetOperation ops
      → Holds v es
      → length (encode_all es) + growth ops < 2 ^ 63
      → (w : Value Float) × (run_sequence node ops v ≡ some w) × Holds w (set_steps ops es)
  unfolding run_sequence set_steps growth
  steps-Holds [] v es all h fits = (v, refl, h)
  steps-Holds (op ∷ ops) v es all h fits =
      let s = step-Holds op v es all.0 h (omega (arith, fits)) in
      let (w, runs, holds) =
        steps-Holds ops s.value (set_step op es) all.1 s.holds (omega (arith, fits, s.grows)) in
      (w, rw s.runs runs, holds)

  -- The engine reads under a key the binary form of a set with these elements. A key that the
  -- storage does not have is read as the set with no element.
  pub record ReadsSet (s : Store) (k : String) (es : List Bytes) : Type 0 where
    pub readable :
        (is_error (Got.err (driver.get s k)) && not (is_no_version (Got.version (driver.get s k))))
        ≡ false
    pub bytes : Got.value (driver.get s k) ≡ encode_all es
    pub no_repeats : distinct es ≡ true
    pub small : length (encode_all es) < 2 ^ 63

  -- The operations on a key leave the binary form of the set that they are to make.
  left_by-set :
      (q : Query) (s : Store) (k : String) (op : Operation) (ops : List Operation) (es : List Bytes)
      → own k q.operations ≡ op ∷ ops
      → All IsSetOperation (op ∷ ops)
      → ReadsSet s k es
      → length (encode_all es) + growth (op ∷ ops) < 2 ^ 63
      → (left_by node q s k ≡ some (encode_all (set_steps (op ∷ ops) es)))
        × (distinct (set_steps (op ∷ ops) es) ≡ true)
        × (length (encode_all (set_steps (op ∷ ops) es)) < 2 ^ 63)
  unfolding outcome current fetch
  left_by-set q s k op ops es mine all old fits =
      let start : Holds (new_value (Got.value (driver.get s k))) es = record {
        bytes = old.bytes;
        parsed = inl refl;
        no_repeats = old.no_repeats;
        small = old.small;
      } in
      let (w, runs, holds) =
        steps-Holds (op ∷ ops) (new_value (Got.value (driver.get s k))) es all start fits in
      (
        ap (λ (l : List Operation). map_some Value.raw (outcome node s k l none)) mine
            ∙ rw old.readable (rw runs (ap some holds.bytes)),
        holds.no_repeats,
        holds.small,
      )

module _ (node : Node) (range : List Bytes → List Bytes) where
  open node use {driver, floats, sha512}
  open driver use {Store}
  open floats use {Float}

  -- What a client reads: `Members` lists these elements in some order, as many as they are, with the
  -- version of their binary form, and `Contains` says of each element whether it is one of them.
  abbrev pub Shows : Engine Store → String → List Bytes → Type 0
  Shows eng k es =
      ((values : Values) × (members node range k eng ≡ answer values)
        × Lists (new_version sha512 (encode_all es)) es values)
      × ((e : Bytes) → contains_value node k e eng ≡ answer (contains_spec e es))

  reads-set :
      (eng : Engine Store) (k : String) (es : List Bytes)
      → IsRange range
      → driver.get eng.store k ≡ stamped sha512 (encode_all es)
      → distinct es ≡ true
      → length (encode_all es) < 2 ^ 63
      → Shows eng k es
  unfolding members contains_value parsed reading list_members test_member marshal_binary
  reads-set eng k es ordered here d small =
      let whole = unmarshal_binary-marshal_binary es d small in
      (
        (
          record { version = some (new_version sha512 (encode_all es)); members = range es },
          ap (reading (list_members range)) here ∙ rw whole (rw (keys-offsets 0 es)),
          record {
            version_given = refl;
            as_many = ordered.as_many es;
            all = λ e. ordered.each e es;
          },
        ),
        λ e. ap (reading (test_member e)) here ∙ rw whole (ap answer (contains-of_list e es)),
      )

  -- With a storage as the interface asks, for a known query whose operations all run and are
  -- written: if its operations on a key, one at least, are SADD and SREM of non-empty elements, and
  -- the key held a set of distinct elements that stays shorter than 2^63 bytes, then `apply` ends
  -- with a store of which `Members`, in whatever order it goes over the map, lists exactly the
  -- elements that the operations leave, as many as they are, with the version of their binary form,
  -- and `Contains` says of every element whether it is one of them.
  pub committed_set :
      (uuid : String) (qs : QueryStore) (q : Query) (eng : Engine Store)
      (values : Dict (Value Float)) (k : String) (op : Operation) (ops : List Operation)
      (es : List Bytes)
      → IsRange range
      → IsLawful driver sha512
      → get_query uuid qs ≡ some q
      → run_all node eng.store q.operations [] ≡ finished values
      → (write driver sha512 eng.store (map_values Value.raw values)).1 ≡ wrote
      → own k q.operations ≡ op ∷ ops
      → All IsSetOperation (op ∷ ops)
      → ReadsSet node eng.store k es
      → length (encode_all es) + growth (op ∷ ops) < 2 ^ 63
      → (s : Store) × (apply node uuid qs eng.store ≡ stored s)
        × Shows (record eng { store = s }) k (set_steps (op ∷ ops) es)
  committed_set uuid qs q eng values k op ops es ordered lawful known ran written mine all old
        fits =
      let (s, applied, left) =
        apply-left_by node uuid qs q eng.store values lawful known ran written in
      let (leaves, d, small) = left_by-set node q eng.store k op ops es mine all old fits in
      (
        s,
        applied,
        reads-set (record eng { store = s }) k (set_steps (op ∷ ops) es) ordered
            (left k ∙ ap (λ (o : Option Bytes). settled sha512 o (driver.get eng.store k)) leaves) d
            small,
      )
