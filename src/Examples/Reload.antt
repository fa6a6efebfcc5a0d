-- ===== src/Examples/Reload.antt =====
-- A store that is dumped and loaded, with one dropped query.
use pnyxdb.Base.{
  zero, suc, ◌≡◌, refl, sym, ap, ◌∙◌, String, Bool, true, false, Option, none, some, List, [], ◌∷◌,
  ◌++◌, Bytes, Dict, ◌&&◌, str_eq, eq_iff, if◌then◌else◌, Bool-cases, inl, inr, lookup, insert,
  delete, subst_some,
}
use pnyxdb.Consensus.Query.{Query, Endorsement}
use pnyxdb.Consensus.QueryStore.State.{
  QueryState, pending, committed, dropped, QueryStore, new_query_store,
}
use pnyxdb.Consensus.QueryStore.Insert.{add_query}
use pnyxdb.Consensus.QueryStore.Check.{checkpoint_drop}
use pnyxdb.Consensus.Persistence.{Dumped, Gob, Decodes, complete, dump, load}
use pnyxdb.Consensus.Persistence.Reloaded.{Reloaded, load-dump}
use pnyxdb.Examples.Store.{query_named, abandoned, or_start}

-- A library that has an encoding for no entry, and for one dropped query `a` with no endorsement.
abbrev dropped_with : Query → Dumped
dropped_with q = record {
  query = some q;
  endorsements = [];
  dependents = [];
  state = dropped;
  endorsed = false;
  applied = false;
}

abbrev dropped_a : Dict Dumped
dropped_a = ("a", dropped_with (query_named "a")) ∷ []

abbrev is_empty : {A : Type 0} → List A → Bool
is_empty [] = true
is_empty (x ∷ xs) = false

abbrev is_none : {A : Type 0} → Option A → Bool
is_none none = true
is_none (some x) = false

abbrev is_query_a : Query → Bool
is_query_a q =
    str_eq q.uuid "a"
    && (str_eq q.policy "none"
        && (str_eq q.emitter "alice"
            && (is_none q.deadline
                && (is_empty q.requirements && (is_empty q.operations && is_empty q.signature)))))

abbrev encode_fields :
    Option Query → List Endorsement → List String → QueryState → Bool → Bool → Option Bytes
encode_fields (some q) [] [] dropped false false = if is_query_a q then some (1 ∷ []) else none
encode_fields query endorsements dependents state endorsed applied = none

abbrev encode : Dict Dumped → Option Bytes
encode [] = some (0 ∷ [])
encode ((u, d) ∷ []) =
    if str_eq u "a"
    then encode_fields d.query d.endorsements d.dependents d.state d.endorsed d.applied
    else none
encode (e ∷ f ∷ rest) = none

abbrev decode : Bytes → Option (Dict Dumped × Bytes)
decode (zero ∷ rest) = some ([], rest)
decode (suc zero ∷ rest) = some (dropped_a, rest)
decode bs = none

abbrev encode_empty : {A : Type 0} → List A → Option Bytes
encode_empty [] = some []
encode_empty (x ∷ xs) = none

abbrev library : Gob
library = record {
  encode_queries = encode;
  encode_dependencies = encode_empty;
  encode_endorsements = encode_empty;
  decode_queries = decode;
  decode_dependencies = λ bs. some ([], bs);
  decode_endorsements = λ bs. some ([], bs);
}

and-true : (a b : Bool) → (a && b) ≡ true → (a ≡ true) × (b ≡ true)
and-true true b h = (refl, h)
and-true false b h = cc

is_empty-nil : {A : Type 0} (xs : List A) → is_empty xs ≡ true → xs ≡ []
is_empty-nil [] h = refl
is_empty-nil (x ∷ xs) h = cc

is_none-none : {A : Type 0} (o : Option A) → is_none o ≡ true → o ≡ none
is_none-none none h = refl
is_none-none (some x) h = cc

query_a : (q : Query) → is_query_a q ≡ true → q ≡ query_named "a"
query_a q h =
    let (h1, k1) = and-true _ _ h in
    let (h2, k2) = and-true _ _ k1 in
    let (h3, k3) = and-true _ _ k2 in
    let (h4, k4) = and-true _ _ k3 in
    let (h5, k5) = and-true _ _ k4 in
    let (h6, h7) = and-true _ _ k5 in
    let p1 = (eq_iff q.uuid "a").0 h1 in
    let p2 = (eq_iff q.policy "none").0 h2 in
    let p3 = (eq_iff q.emitter "alice").0 h3 in
    let p4 = is_none-none q.deadline h4 in
    let p5 = is_empty-nil q.requirements h5 in
    let p6 = is_empty-nil q.operations h6 in
    let p7 = is_empty-nil q.signature h7 in
    λ i. record {
      uuid = p1 i;
      policy = p2 i;
      emitter = p3 i;
      deadline = p4 i;
      requirements = p5 i;
      operations = p6 i;
      signature = p7 i;
    }

decode-encode_fields :
    (query : Option Query) (endorsements : List Endorsement) (dependents : List String)
    (state : QueryState) (endorsed applied : Bool) (bs rest : Bytes)
    → encode_fields query endorsements dependents state endorsed applied ≡ some bs
    → decode (bs ++ rest)
      ≡ some (
        (
          "a",
          record {
            query = query;
            endorsements = endorsements;
            dependents = dependents;
            state = state;
            endorsed = endorsed;
            applied = applied;
          },
        )
            ∷ [],
        rest,
      )
decode-encode_fields none es ds s e a bs rest h = cc
decode-encode_fields (some q) (x ∷ es) ds s e a bs rest h = cc
decode-encode_fields (some q) [] (d ∷ ds) s e a bs rest h = cc
decode-encode_fields (some q) [] [] pending e a bs rest h = cc
decode-encode_fields (some q) [] [] committed e a bs rest h = cc
decode-encode_fields (some q) [] [] dropped true a bs rest h = cc
decode-encode_fields (some q) [] [] dropped false true bs rest h = cc
decode-encode_fields (some q) [] [] dropped false false bs rest h =
    elim (Bool-cases (is_query_a q)) [
      | inr t ↦ cc (rw t at h)
      | inl t ↦
          subst_some (λ (cs : Bytes). decode (cs ++ rest) ≡ some (("a", dropped_with q) ∷ [], rest))
            (rw t at h)
            (ap (λ (p : Query). some (("a", dropped_with p) ∷ [], rest)) (sym (query_a q t)))
    ]

decode-encode :
    (m : Dict Dumped) (bs rest : Bytes) → encode m ≡ some bs → decode (bs ++ rest) ≡ some (m, rest)
decode-encode [] bs rest h =
    subst_some (λ (cs : Bytes). decode (cs ++ rest) ≡ some ([], rest)) h refl
decode-encode ((u, d) ∷ []) bs rest h = elim (Bool-cases (str_eq u "a")) [
  | inr t ↦ cc (rw t at h)
  | inl t ↦
      decode-encode_fields d.query d.endorsements d.dependents d.state d.endorsed d.applied bs rest
        (rw t at h)
      ∙ ap (λ (v : String). some ((v, d) ∷ [], rest)) (sym ((eq_iff u "a").0 t))
]
decode-encode (e ∷ f ∷ m) bs rest h = cc

empty-encode :
    {A : Type 0} (xs : List A) (bs rest : Bytes)
    → encode_empty xs ≡ some bs
    → ◌≡◌ {A = Option (List A × Bytes)} (some ([], bs ++ rest)) (some (xs, rest))
empty-encode {A} [] bs rest h =
    let nil : List A = [] in
    subst_some
      (λ (cs : Bytes).
        ◌≡◌ {A = Option (List A × Bytes)} (some (nil, cs ++ rest)) (some (nil, rest)))
      h refl
empty-encode (x ∷ xs) bs rest h = cc

library-Decodes : Decodes library
library-Decodes = record {
  queries = decode-encode;
  dependencies = empty-encode;
  endorsements = empty-encode;
}

abbrev written : Bytes
written = or_start (dump library abandoned) []

abandoned_written : dump library abandoned ≡ some written
unfolding dump checkpoint_drop add_query lookup insert delete
abandoned_written = refl

load-dump_example :
    (b : QueryStore) × (load library written (new_query_store abandoned.threshold) ≡ complete b)
    × Reloaded abandoned b
unfolding checkpoint_drop add_query lookup insert delete
load-dump_example =
    load-dump library abandoned written library-Decodes (refl, tt) tt abandoned_written
