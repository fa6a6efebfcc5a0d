-- ===== src/Consensus/QueryStore/Cascade.antt =====
-- The recursion of `cascadeMark` ends: a call goes on only from a query whose result is fresh, and
-- marks it first.
use pnyxdb.Base.{
  ℕ, zero, suc, ◌+◌, ◌<◌, ◌≤◌, String, ◌≡◌, refl, ap, ◌∙◌, true, false, not, Option, none, some,
  List, [], ◌∷◌, Dict, lookup, insert, str_eq, some-injective, length, arith, inl, inr,
  Option-cases, Bool-cases, if◌then◌else◌,
}
use pnyxdb.Consensus.Query.{Query}
use pnyxdb.Consensus.QueryStore.State.{QueryInfo, QueryStore, mark, put}
use pnyxdb.Consensus.QueryStore.Insert.{
  mark_endorsements, mark_dependents, cascade_at, cascade_mark,
}
use pnyxdb.Consensus.QueryStore.View.{core_of}
use pnyxdb.Consensus.QueryStore.Marking.{
  WellFormed, WellFormed-SameView, WellFormed-put, cascade_mark-SameView,
}

-- How many queries have a fresh result.
fresh_one : QueryInfo → ℕ
fresh_one qi = if qi.cached.fresh then 1 else 0

fresh_count : Dict QueryInfo → ℕ
unfolding fresh_one
fresh_count [] = 0
fresh_count ((u, qi) ∷ m) = fresh_one qi + fresh_count m

fresh_count-insert :
    (u : String) (j k : QueryInfo) (m : Dict QueryInfo)
    → lookup u m ≡ some j
    → k.cached.fresh ≡ false
    → fresh_count (insert u k m) + fresh_one j ≡ fresh_count m
unfolding fresh_count lookup insert fresh_one
fresh_count-insert u j k [] h e = cc
fresh_count-insert u j k ((v, l) ∷ m) h e = elim (Bool-cases (str_eq v u)) [
  | inl t ↦
      let same : fresh_one l ≡ fresh_one j =
        ap fresh_one (some-injective _ _ (rw (t, lookup) at h)) in
      rw (t, insert) (ground (arith, e, same))
  | inr t ↦ rw (t, insert) (omega (arith, fresh_count-insert u j k m (rw (t, lookup) at h) e))
]

fresh_count-insert_le :
    (u : String) (k : QueryInfo) (m : Dict QueryInfo)
    → k.cached.fresh ≡ false
    → fresh_count (insert u k m) ≤ fresh_count m
unfolding fresh_count insert fresh_one
fresh_count-insert_le u k [] e = ground (arith, e)
fresh_count-insert_le u k ((v, l) ∷ m) e = elim (Bool-cases (str_eq v u)) [
  | inl t ↦ rw (t, insert) (ground (arith, e))
  | inr t ↦ rw (t, insert) (omega (arith, fresh_count-insert_le u k m e))
]

fresh_count-length : (m : Dict QueryInfo) → fresh_count m ≤ length m
unfolding fresh_count fresh_one
fresh_count-length [] = omega arith
fresh_count-length ((u, qi) ∷ m) = ground (arith, fresh_count-length m)

pub length-insert :
    (u : String) (j k : QueryInfo) (m : Dict QueryInfo)
    → lookup u m ≡ some j
    → length (insert u k m) ≡ length m
unfolding lookup insert
length-insert u j k [] h = cc
length-insert u j k ((v, l) ∷ m) h = elim (Bool-cases (str_eq v u)) [
  | inl t ↦ rw (t, insert) refl
  | inr t ↦ rw (t, insert) (ap suc (length-insert u j k m (rw (t, lookup) at h)))
]

-- A call that returns, leaves no more fresh results, and makes no new entry.
pub Ends : QueryStore → Option QueryStore → Type 0
Ends a o =
    (b : QueryStore) × (o ≡ some b)
    × (fresh_count b.queries ≤ fresh_count a.queries)
    × (length b.queries ≡ length a.queries)

mark_dependents_step :
    (cascade : QueryInfo → QueryStore → Option QueryStore) (u d : String) (ds : List String)
    (qid : QueryInfo) (a b : QueryStore) (o : Option QueryStore)
    → lookup d a.queries ≡ some qid
    → cascade (record qid { endorsements = mark_endorsements u qid.endorsements }) a ≡ some b
    → mark_dependents cascade u ds b ≡ o
    → mark_dependents cascade u (d ∷ ds) a ≡ o
unfolding mark_dependents
mark_dependents_step cascade u d ds qid a b o p e f = rw (p, mark_dependents) (rw e f)

cascade_mark_step :
    (fuel : ℕ) (qi : QueryInfo) (q : Query) (a : QueryStore)
    → qi.query ≡ some q
    → cascade_mark (suc fuel) qi a ≡ (
        let a' = put q.uuid (record qi { cached = mark qi.cached }) a in
        if not qi.cached.fresh
        then some a'
        else mark_dependents (cascade_mark fuel) q.uuid qi.dependents a')
unfolding cascade_mark cascade_at
cascade_mark_step fuel qi q a here =
    ap
      (λ (o : Option Query). elim o [
        | none ↦ some a
        | some p ↦ cascade_at (cascade_mark fuel) p.uuid qi a
      ])
      here

module _ (fuel : ℕ)
    (ends : (qi j : QueryInfo) (q : Query) (a : QueryStore)
      → WellFormed a
      → qi.query ≡ some q
      → lookup q.uuid a.queries ≡ some j
      → j.cached ≡ qi.cached
      → fresh_count a.queries < fuel
      → Ends a (cascade_mark fuel qi a)) where
  mark_dependents-Ends :
      (u : String) (ds : List String) (a : QueryStore)
      → WellFormed a
      → fresh_count a.queries < fuel
      → Ends a (mark_dependents (cascade_mark fuel) u ds a)
  unfolding mark_dependents Ends
  mark_dependents-Ends u [] a w h = (a, refl, omega arith, refl)
  mark_dependents-Ends u (d ∷ ds) a w h = elim (Option-cases (lookup d a.queries)) [
    | inl p ↦ rw (p, mark_dependents) (mark_dependents-Ends u ds a w h)
    | inr (qid, p) ↦
        let marked : QueryInfo = record qid {
          endorsements = mark_endorsements u qid.endorsements;
        } in
        let (q, holds, name) = w.named d _ (ap core_of p) in
        let stored : lookup q.uuid a.queries ≡ some qid =
          ap (λ (i : String). lookup i a.queries) name ∙ p in
        let (b, e, l, n) = ends marked qid q a w holds stored refl h in
        let w' =
          WellFormed-SameView (cascade_mark-SameView fuel marked q a b w holds e)
            (WellFormed-put q.uuid marked q a holds refl w) in
        let (c, f, m, o) = mark_dependents-Ends u ds b w' (omega arith) in
        (
          c,
          mark_dependents_step (cascade_mark fuel) u d ds qid a b (some c) p e f,
          omega arith,
          o ∙ n,
        )
  ]

cascade_mark-Ends :
    (fuel : ℕ) (qi j : QueryInfo) (q : Query) (a : QueryStore)
    → WellFormed a
    → qi.query ≡ some q
    → lookup q.uuid a.queries ≡ some j
    → j.cached ≡ qi.cached
    → fresh_count a.queries < fuel
    → Ends a (cascade_mark fuel qi a)
unfolding cascade_mark cascade_at Ends fresh_one
cascade_mark-Ends zero qi j q a w here stored same h = absurd (omega arith)
cascade_mark-Ends (suc fuel) qi j q a w here stored same h =
    let marked : QueryInfo = record qi { cached = mark qi.cached } in
    let less = fresh_count-insert q.uuid j marked a.queries stored refl in
    let same_length = length-insert q.uuid j marked a.queries stored in
    let step = cascade_mark_step fuel qi q a here in
    elim (Bool-cases qi.cached.fresh) [
      | inr t ↦ (put q.uuid marked a, step ∙ rw t refl, omega (arith, less), same_length)
      | inl t ↦
          let was : j.cached.fresh ≡ true = cc in
          let (b, e, l, n) =
            mark_dependents-Ends fuel (cascade_mark-Ends fuel) q.uuid qi.dependents
              (put q.uuid marked a) (WellFormed-put q.uuid marked q a here refl w)
              (ground (arith, less, was)) in
          (b, step ∙ rw t e, omega (arith, less), n ∙ same_length)
    ]

-- The call on an entry that is about to be stored, which is the one new entry at most.
pub cascade_mark-Returns :
    (fuel : ℕ) (qi : QueryInfo) (q : Query) (a : QueryStore)
    → WellFormed a
    → qi.query ≡ some q
    → suc (length a.queries) < fuel
    → (b : QueryStore) × (cascade_mark fuel qi a ≡ some b)
      × (length b.queries ≡ length (put q.uuid (record qi { cached = mark qi.cached }) a).queries)
unfolding cascade_mark cascade_at Ends
cascade_mark-Returns zero qi q a w here h = absurd (omega arith)
cascade_mark-Returns (suc fuel) qi q a w here h =
    let marked : QueryInfo = record qi { cached = mark qi.cached } in
    let less = fresh_count-insert_le q.uuid marked a.queries refl in
    let (b, e, l, n) =
      mark_dependents-Ends fuel (cascade_mark-Ends fuel) q.uuid qi.dependents (put q.uuid marked a)
        (WellFormed-put q.uuid marked q a here refl w)
        (omega (arith, less, fresh_count-length a.queries)) in
    let step = cascade_mark_step fuel qi q a here in
    elim (Bool-cases qi.cached.fresh) [
      | inr t ↦ (put q.uuid marked a, step ∙ rw t refl, refl)
      | inl t ↦ (b, step ∙ rw t e, n)
    ]
