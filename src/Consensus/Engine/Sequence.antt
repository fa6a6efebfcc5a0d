-- ===== src/Consensus/Engine/Sequence.antt =====
-- What `apply` is to compute: for each key, its own operations one after the other.
use pnyxdb.Base.{
  ◌≡◌, refl, sym, ap, ◌∙◌, subst, String, Option, none, some, List, [], ◌∷◌, Bytes, Dict, lookup,
  insert, lookup-insert, str_eq, eq_iff, if◌then◌else◌, Bool-cases, Option-cases, inl, inr, ◌⊎◌,
  ◌>>=◌, map_values, map_some, lookup-map_values, Distinct, Distinct-insert, Distinct-map_values,
}
use pnyxdb.Consensus.Query.{Query}
use pnyxdb.Consensus.Operation.{Operation}
use pnyxdb.Consensus.Driver.{wrote, write, settled, IsLawful}
use pnyxdb.Consensus.QueryStore.State.{QueryStore, get_query}
use pnyxdb.Consensus.Engine.Node.{Node}
use pnyxdb.Consensus.Engine.Apply.{finished, stored, current, run_all, flush, apply}
use pnyxdb.Operations.{BigFloat, Value, Ran, done, panic, exec}
use pnyxdb.Operations

-- The operations on a key, in order.
abbrev pub own : String → List Operation → List Operation
own k [] = []
own k (op ∷ ops) = if str_eq op.key k then op ∷ own k ops else own k ops

-- What the runner leaves, if it reports no error.
abbrev pub result : {F : Type 0} → Ran F → Option (Value F)
result (done w) = some w
result (Operations.failed e w) = none
result panic = none

pub Ran-cases :
    {F : Type 0} (r : Ran F)
    → ((w : Value F) × (r ≡ done w))
      ⊎ ((e : Operations.Error) × (w : Value F) × (r ≡ Operations.failed e w))
      ⊎ (r ≡ panic)
Ran-cases (done w) = inl (w, refl)
Ran-cases (Operations.failed e w) = inr (inl (e, w, refl))
Ran-cases panic = inr (inr refl)

pub subst_finished : {A : Type 0} (P : A → Type 0) {x y : A} → finished x ≡ finished y → P x → P y
subst_finished P {x} {y} h p = subst P (cc h) p

module _ (node : Node) where
  open node use {driver, floats, sha512}
  open driver use {Store, get}
  open floats use {Float}

  unfoldable pub run_sequence : List Operation → Value Float → Option (Value Float)
  run_sequence [] v = some v
  run_sequence (op ∷ ops) v = result (exec floats op v) >>= run_sequence ops

  -- The value that the operations on a key leave, from `o` or else from the stored one; `none` if
  -- there are none.
  unfoldable pub outcome :
      Store → String → List Operation → Option (Value Float) → Option (Value Float)
  unfolding run_sequence
  outcome s k [] o = o
  outcome s k (op ∷ ops) o = current node s k o >>= run_sequence (op ∷ ops)

  outcome-some :
      (s : Store) (k : String) (ops : List Operation) (v : Value Float)
      → outcome s k ops (some v) ≡ run_sequence ops v
  unfolding outcome run_sequence current
  outcome-some s k [] v = refl
  outcome-some s k (op ∷ ops) v = refl

  pub run_all-outcome :
      (s : Store) (ops : List Operation) (values out : Dict (Value Float))
      → run_all node s ops values ≡ finished out
      → (k : String) → lookup k out ≡ outcome s k (own k ops) (lookup k values)
  unfolding run_all outcome run_sequence
  run_all-outcome s [] values out h k = cc
  run_all-outcome s (op ∷ ops) values out h k =
      elim (Option-cases (current node s op.key (lookup op.key values))) [
        | inl p ↦ cc (rw (p, run_all) at h)
        | inr (v, p) ↦ elim (Ran-cases (exec floats op v)) [
          | inr (inl (e, w, q)) ↦ cc (rw (p, q, run_all) at h)
          | inr (inr q) ↦ cc (rw (p, q, run_all) at h)
          | inl (w, q) ↦
              let rest =
                run_all-outcome s ops (insert op.key w values) out (rw (p, q, run_all) at h) k in
              elim (Bool-cases (str_eq op.key k)) [
                | inl t ↦
                    let here : current node s k (lookup k values) ≡ some v =
                      subst (λ (i : String). current node s i (lookup i values) ≡ some v)
                        ((eq_iff op.key k).0 t) p in
                    let kept : lookup k (insert op.key w values) ≡ some w =
                      lookup-insert op.key k w values ∙ rw t refl in
                    let mine = own k ops in
                    rw t (
                      rest
                      ∙ ap (outcome s k mine) kept
                      ∙ outcome-some s k mine w
                      ∙ sym (
                          ap (λ (o : Option (Value Float)). o >>= run_sequence (op ∷ mine)) here
                          ∙ ap (λ (r : Ran Float). result r >>= run_sequence mine) q))
                | inr t ↦ rw t (
                    rest
                    ∙ ap (outcome s k (own k ops)) (lookup-insert op.key k w values ∙ rw t refl))
              ]
        ]
      ]

  run_all-Distinct :
      (s : Store) (ops : List Operation) (values out : Dict (Value Float))
      → Distinct values
      → run_all node s ops values ≡ finished out
      → Distinct out
  unfolding run_all
  run_all-Distinct s [] values out d h = subst_finished Distinct h d
  run_all-Distinct s (op ∷ ops) values out d h =
      elim (Option-cases (current node s op.key (lookup op.key values))) [
        | inl p ↦ cc (rw (p, run_all) at h)
        | inr (v, p) ↦ elim (Ran-cases (exec floats op v)) [
          | inr (inl (e, w, q)) ↦ cc (rw (p, q, run_all) at h)
          | inr (inr q) ↦ cc (rw (p, q, run_all) at h)
          | inl (w, q) ↦
              run_all-Distinct s ops (insert op.key w values) out
                (Distinct-insert op.key w values d) (rw (p, q, run_all) at h)
        ]
      ]

  -- The raw bytes that a query's operations leave under a key.
  abbrev pub left_by : Query → Store → String → Option Bytes
  left_by q s k = map_some Value.raw (outcome s k (own k q.operations) none)

  -- With a storage as the interface asks, for a known query whose operations all run: if the batch
  -- is written, then `Get` returns for each key that an operation names the bytes that the key's own
  -- operations leave, run one after the other on the stored value, with the version of those bytes,
  -- and for every other key what it returned before.
  pub apply-left_by :
      (uuid : String) (qs : QueryStore) (q : Query) (s : Store) (values : Dict (Value Float))
      → IsLawful driver sha512
      → get_query uuid qs ≡ some q
      → run_all node s q.operations [] ≡ finished values
      → (write driver sha512 s (map_values Value.raw values)).1 ≡ wrote
      → (s' : Store) × (apply node uuid qs s ≡ stored s')
        × ((k : String) → get s' k ≡ settled sha512 (left_by q s k) (get s k))
  unfolding apply flush lookup
  apply-left_by uuid qs q s values lawful known ran ok =
      let entries = map_values Value.raw values in
      (
        (write driver sha512 s entries).0,
        rw (known, apply) (rw ran (rw (ok, flush) refl)),
        λ k.
            lawful.written s entries
              (Distinct-map_values Value.raw values
                (run_all-Distinct s q.operations [] values tt ran))
              ok k
            ∙ ap (λ (o : Option Bytes). settled sha512 o (get s k))
                (lookup-map_values Value.raw k values
                  ∙ ap (map_some Value.raw) (run_all-outcome s q.operations [] values ran k)),
      )
