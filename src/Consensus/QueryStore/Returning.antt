-- ===== src/Consensus/QueryStore/Returning.antt =====
-- `AddQuery` and `AddEndorsement` return: the fuel that the number of queries asks for.
use pnyxdb.Base.{
  ℕ, zero, suc, ◌<◌, String, ◌≡◌, refl, ap, ◌∙◌, false, some, List, [], ◌∷◌, Option, lookup, delete,
  str_eq, length, arith, inl, inr, Option-cases, Bool-cases, Returns, Returns-some,
}
use pnyxdb.Consensus.Query.{Query, Endorsement}
use pnyxdb.Consensus.QueryStore.State.{dropped, QueryInfo, QueryStore, zero_info, set, uuid_of}
use pnyxdb.Consensus.QueryStore.Insert.{
  cascade_mark, has_emitter, or_empty, register, register_all, add_endorsement_internal, collect,
  add_query, add_endorsement,
}
use pnyxdb.Consensus.QueryStore.View.{core_of}
use pnyxdb.Consensus.QueryStore.Marking.{WellFormed}
use pnyxdb.Consensus.QueryStore.Cascade.{length-insert, cascade_mark-Returns}
use pnyxdb.Consensus.QueryStore.Check.{info_or_zero, drop, drop_all, checkpoint_drop}
use pnyxdb.Consensus.QueryStore.Terminal.{drop-Drops}
use pnyxdb.Consensus.QueryStore.Arrivals.{collect-Prepares, add_endorsement_internal-Prepares}

-- The endorsements that are added make no new entry.
register-length :
    (u c : String) (a : QueryStore) → length (register u c a).queries ≡ length a.queries
unfolding register
register-length u c a = elim (Option-cases (lookup c a.queries)) [
  | inl p ↦ rw (p, register) refl
  | inr (qic, p) ↦ rw (p, register) (length-insert c qic _ a.queries p)
]

register_all-length :
    (u : String) (cs : List String) (a : QueryStore)
    → length (register_all u cs a).queries ≡ length a.queries
unfolding register_all
register_all-length u [] a = refl
register_all-length u (c ∷ cs) a = register_all-length u cs (register u c a) ∙ register-length u c a

add_endorsement_internal-length :
    (e : Endorsement) (qi : QueryInfo) (a : QueryStore)
    → length (add_endorsement_internal e qi a).2.queries ≡ length a.queries
unfolding add_endorsement_internal
add_endorsement_internal-length e qi a = elim (Bool-cases (has_emitter e.emitter qi.endorsements)) [
  | inl t ↦ rw t refl
  | inr t ↦ rw t (register_all-length (uuid_of qi.query) e.conditions a)
]

collect-length :
    (u : String) (es : List Endorsement) (qi : QueryInfo) (a : QueryStore)
    → length (collect u es qi a).2.queries ≡ length a.queries
unfolding collect
collect-length u [] qi a = refl
collect-length u (e ∷ es) qi a =
    let s = add_endorsement_internal e qi a in
    elim (Bool-cases (str_eq e.uuid u)) [
      | inl t ↦ rw t (collect-length u es s.1 s.2 ∙ add_endorsement_internal-length e qi a)
      | inr t ↦ rw t (collect-length u es qi a)
    ]

add_query-Returns :
    (fuel : ℕ) (q : Query) (a : QueryStore)
    → WellFormed a
    → suc (length a.queries) < fuel
    → Returns (add_query fuel q a)
unfolding add_query
add_query-Returns fuel q a w h = elim (Option-cases (lookup q.uuid a.queries)) [
  | inr (old, p) ↦ rw (p, add_query) (Returns-some _)
  | inl p ↦
      let start : QueryInfo = record zero_info { query = some q } in
      let c = collect q.uuid a.pending_endorsements start a in
      let prep = collect-Prepares q.uuid a.pending_endorsements start a in
      let size = collect-length q.uuid a.pending_endorsements start a in
      let clean : QueryStore = record c.2 {
        pending_dependencies = delete q.uuid c.2.pending_dependencies;
      } in
      let entry : QueryInfo = record c.1 {
        dependents = or_empty (lookup q.uuid c.2.pending_dependencies);
        cached = set false;
      } in
      let (b, e, n) =
        cascade_mark-Returns fuel entry q clean
          (record { named = (prep.stores.well_formed w).named }) prep.query (omega (arith, size)) in
      rw (p, add_query) (rw e (Returns-some _))
]

add_endorsement-Returns :
    (fuel : ℕ) (e : Endorsement) (a : QueryStore)
    → WellFormed a
    → suc (length a.queries) < fuel
    → Returns (add_endorsement fuel e a)
unfolding add_endorsement
add_endorsement-Returns fuel e a w h = elim (Option-cases (lookup e.uuid a.queries)) [
  | inl p ↦ rw (p, add_endorsement) (Returns-some _)
  | inr (qi, p) ↦
      let s = add_endorsement_internal e qi a in
      let prep = add_endorsement_internal-Prepares e qi a in
      let (q, holds, name) = w.named e.uuid _ (ap core_of p) in
      let (b, k, n) =
        cascade_mark-Returns fuel s.1 q s.2 (prep.stores.well_formed w) (prep.query ∙ holds)
          (omega (arith, add_endorsement_internal-length e qi a)) in
      rw (p, add_endorsement) (rw k (Returns-some _))
]

drop-Returns :
    (fuel : ℕ) (u : String) (a : QueryStore)
    → WellFormed a
    → suc (length a.queries) < fuel
    → (b : QueryStore) × (drop fuel u a ≡ some b) × (length b.queries ≡ length a.queries)
unfolding drop cascade_mark
drop-Returns zero u a w h = absurd (omega arith)
drop-Returns (suc fuel) u a w h =
    let write : Option QueryInfo → Option QueryStore = λ o.
      cascade_mark (suc fuel) (record (info_or_zero o) { state = dropped; cached = set false }) a in
    elim (Option-cases (lookup u a.queries)) [
      | inl p ↦ (a, ap write p, refl)
      | inr (qi, p) ↦
          let (q, holds, name) = w.named u _ (ap core_of p) in
          let done : QueryInfo = record qi { state = dropped; cached = set false } in
          let stored : lookup q.uuid a.queries ≡ some qi =
            ap (λ (i : String). lookup i a.queries) name ∙ p in
          let (b, e, n) = cascade_mark-Returns (suc fuel) done q a w holds h in
          (b, ap write p ∙ e, n ∙ length-insert q.uuid qi _ a.queries stored)
    ]

pub checkpoint_drop-Returns :
    (fuel : ℕ) (us : List String) (a : QueryStore)
    → WellFormed a
    → suc (length a.queries) < fuel
    → Returns (drop_all fuel us a)
unfolding drop_all
checkpoint_drop-Returns fuel [] a w h = Returns-some _
checkpoint_drop-Returns fuel (u ∷ us) a w h =
    let (b, e, n) = drop-Returns fuel u a w h in
    let (c, f) =
      checkpoint_drop-Returns fuel us b (drop-Drops fuel u a b w e).well_formed
        (omega (arith, n)) in
    (c, rw e f)

-- From a well-formed store, with more fuel than one and the number of its queries: `AddQuery`,
-- `AddEndorsement` and `CheckpointDrop` return, even where queries depend on each other in a circle.
pub arrivals-Returns :
    (fuel : ℕ) (q : Query) (e : Endorsement) (us : List String) (a : QueryStore)
    → WellFormed a
    → suc (length a.queries) < fuel
    → Returns (add_query fuel q a)
      × Returns (add_endorsement fuel e a)
      × Returns (checkpoint_drop fuel us a)
unfolding checkpoint_drop
arrivals-Returns fuel q e us a w h = (
  add_query-Returns fuel q a w h,
  add_endorsement-Returns fuel e a w h,
  checkpoint_drop-Returns fuel us a w h,
)
