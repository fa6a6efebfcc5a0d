-- ===== src/Consensus/Engine/Conflicts.antt =====
-- What the queries are on which an endorsement is conditional: `GetConflicting`, as a set.
use pnyxdb.Base.{
  ℕ, ◌≡◌, ◌≢◌, refl, ap, String, true, Option, none, some, List, [], ◌∷◌, Dict, map, str_eq, eq_iff,
  All, Any, Among, at_head, in_tail, Any-cons, Bool-cases, Option-cases, ◌⊎◌, inl, inr, arith,
}
use pnyxdb.Consensus.Query.{Query, expired}
use pnyxdb.Consensus.Query
use pnyxdb.Consensus.QueryStore.State.{
  QueryState, pending, committed, dropped, QueryInfo, is_pending, is_error, uuid_of, is_conflicting,
  conflicting_from,
}

-- Another query that is pending, that this node has endorsed, and that conflicts.
pub record Conflicts (q : Query) (e : String × QueryInfo) : Type 0 where
  pub another : e.0 ≢ q.uuid
  pub is_live : QueryInfo.state e.1 ≡ pending
  pub endorsed : QueryInfo.endorsed e.1 ≡ true
  pub conflict : Query.check_conflict (some q) (QueryInfo.query e.1) ≢ none

-- An entry that conflicts, whose query has this identifier.
abbrev pub Blocks : Query → String → String × QueryInfo → Type 0
Blocks q u e = Conflicts q e × (uuid_of (QueryInfo.query e.1) ≡ u)

-- The identifiers are those of the entries that conflict, all of which have expired.
pub record Waits (now : ℕ) (q : Query) (entries : Dict QueryInfo) (us : List String) : Type 0 where
  pub each : (u : String) → Among u us → Any (Blocks q u) entries
  pub every : (u : String) → Any (Blocks q u) entries → Among u us
  pub over : All (λ e. ¬ Conflicts q e ⊎ (expired now (QueryInfo.query e.1) ≡ true)) entries

is_pending-pending : (s : QueryState) → is_pending s ≡ true → s ≡ pending
is_pending-pending pending h = refl
is_pending-pending committed h = cc h
is_pending-pending dropped h = cc h

is_conflicting-Conflicts :
    (q : Query) (u : String) (i : QueryInfo) → is_conflicting q u i ≡ true → Conflicts q (u, i)
unfolding is_conflicting
is_conflicting-Conflicts q u i h = record {
  another = λ e. let same = (eq_iff u q.uuid).1 e in ground (arith, h, same);
  is_live = is_pending-pending i.state (ground (arith, h));
  endorsed = ground (arith, h);
  conflict = λ e. let missing = ap is_error e in ground (arith, h, missing);
}

Conflicts-is_conflicting :
    (q : Query) (u : String) (i : QueryInfo) → Conflicts q (u, i) → is_conflicting q u i ≡ true
unfolding is_conflicting
Conflicts-is_conflicting q u i c =
    let live = ap is_pending c.is_live in
    let marked = c.endorsed in
    elim (Bool-cases (str_eq u q.uuid)) [
      | inl t ↦ absurd (c.another ((eq_iff u q.uuid).0 t))
      | inr t ↦ elim (Option-cases (Query.check_conflict (some q) i.query)) [
        | inl p ↦ absurd (c.conflict p)
        | inr (err, p) ↦ rw (t, live, marked, p) refl
      ]
    ]

Waits-skip :
    {now : ℕ} {q : Query} {entries : Dict QueryInfo} {us : List String} (e : String × QueryInfo)
    → ¬ Conflicts q e
    → Waits now q entries us
    → Waits now q (e ∷ entries) us
Waits-skip e free w = record {
  each = λ u a. in_tail (w.each u a);
  every = λ u a. elim (Any-cons a) [ inl b ↦ absurd (free b.0) | inr b ↦ w.every u b ];
  over = (inl free, w.over);
}

Waits-take :
    {now : ℕ} {q : Query} {entries : Dict QueryInfo} {us : List String} (e : String × QueryInfo)
    → Conflicts q e
    → expired now (QueryInfo.query e.1) ≡ true
    → Waits now q entries us
    → Waits now q (e ∷ entries) (uuid_of (QueryInfo.query e.1) ∷ us)
Waits-take e c late w = record {
  each = λ u a. elim (Any-cons a) [ inl p ↦ at_head (c, p) | inr b ↦ in_tail (w.each u b) ];
  every = λ u a. elim (Any-cons a) [ inl b ↦ at_head b.1 | inr b ↦ in_tail (w.every u b) ];
  over = (inr late, w.over);
}

-- The identifiers of what `GetConflicting` returns, when all of it has expired.
pub conflicting-Waits :
    (now : ℕ) (q : Query) (entries : Dict QueryInfo)
    → All (λ (c : Option Query). expired now c ≡ true) (conflicting_from q entries)
    → Waits now q entries (map uuid_of (conflicting_from q entries))
unfolding conflicting_from
conflicting-Waits now q [] late = record {
  each = λ u a. elim a [ ];
  every = λ u a. elim a [ ];
  over = tt;
}
conflicting-Waits now q ((u, i) ∷ rest) late = elim (Bool-cases (is_conflicting q u i)) [
  | inl t ↦
      let here = is_conflicting-Conflicts q u i t in
      let both = rw t at late in
      rw t (Waits-take (u, i) here both.0 (conflicting-Waits now q rest both.1))
  | inr t ↦
      let free : ¬ Conflicts q (u, i) =
        λ c. let yes = Conflicts-is_conflicting q u i c in ground (arith, t, yes) in
      rw t (Waits-skip (u, i) free (conflicting-Waits now q rest (rw t at late)))
]
