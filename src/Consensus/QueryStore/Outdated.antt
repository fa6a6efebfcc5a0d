-- ===== src/Consensus/QueryStore/Outdated.antt =====
-- OutdatedQueries of consensus/query_store.go, with GetTimeout of consensus/query.go.
use pnyxdb.Base.{
  ℕ, ◌+◌, ◌≡◌, refl, String, Bool, true, false, Option, none, some, List, [], ◌∷◌, Dict, ltb,
  if◌then◌else◌, ◌>>=◌, >>=-eq-some, subst_some, Bool-cases, inl, inr, subst, Any, Among, at_head,
  in_tail, Any-cons, Option-cases,
}
use pnyxdb.Consensus.Query.{Query}
use pnyxdb.Consensus.QueryStore.State.{QueryInfo, QueryStore, is_pending, uuid_of}
use pnyxdb.Consensus.QueryStore.Check.{is_applicable}
use pnyxdb.Consensus.QueryStore.View.{
  SameView, SameView-refl, SameView-trans, is_applicable-SameView, view,
}
use pnyxdb.Consensus.QueryStore.Meaning.{Coherent, Evaluates, transfer}
use pnyxdb.Consensus.QueryStore.Evaluate.{is_applicable_sound}
use pnyxdb.Consensus.QueryStore.Unique.{Evaluates-unique}

-- Ten seconds, in nanoseconds.
abbrev pub grace : ℕ
grace = 10000000000

-- How the loop ends; `crashed` is a query with no deadline, whose seconds GetTimeout reads.
pub data Listed : Type 0 where
  listed : List String → QueryStore → Listed
  crashed : Listed

-- `qi.GetTimeout() < -10*time.Second`; none is a nil deadline.
unfoldable pub timed_out : ℕ → Option Query → Option Bool
timed_out now none = some false
timed_out now (some q) = elim q.deadline [ none ↦ none | some d ↦ some (ltb (d + grace) now) ]

unfoldable pub put_first : Bool → String → Listed → Listed
put_first b u (listed us qs) = listed (if b then u ∷ us else us) qs
put_first b u crashed = crashed

-- The loop over the entries, of which it reads the state, the identifier and the deadline: these
-- do not change while it runs.
unfoldable pub outdated_from : ℕ → ℕ → Dict QueryInfo → QueryStore → Option Listed
unfolding timed_out put_first
outdated_from fuel now [] qs = some (listed [] qs)
outdated_from fuel now ((k, qi) ∷ rest) qs = elim (is_pending qi.state) [
  | false ↦ outdated_from fuel now rest qs
  | true ↦ is_applicable fuel (uuid_of qi.query) qs >>= λ r. elim r.0 [
    | true ↦ outdated_from fuel now rest r.1
    | false ↦ elim (timed_out now qi.query) [
      | none ↦ some crashed
      | some late ↦
          outdated_from fuel now rest r.1 >>= λ l. some (put_first late (uuid_of qi.query) l)
    ]
  ]
]

-- `OutdatedQueries`
unfoldable pub outdated_queries : ℕ → ℕ → QueryStore → Option Listed
unfolding outdated_from
outdated_queries fuel now qs = outdated_from fuel now qs.queries qs

-- The identifier of an entry that is pending, not applicable, and past its deadline by more than the
-- time of grace.
pub record Outdated (now : ℕ) (a : QueryStore) (u : String) (e : String × QueryInfo) : Type 0 where
  pub is_live : is_pending (QueryInfo.state e.1) ≡ true
  pub name : uuid_of (QueryInfo.query e.1) ≡ u
  pub unfit : Evaluates a.threshold (view a) u false
  pub late : timed_out now (QueryInfo.query e.1) ≡ some true

-- What the loop has listed, for the entries that it went through.
pub record Lists (now : ℕ) (a : QueryStore) (entries : Dict QueryInfo) (us : List String)
    (qs : QueryStore) : Type 0 where
  pub same : SameView a qs
  pub coherent : Coherent qs
  pub sound : (u : String) → Among u us → Any (Outdated now a u) entries
  pub complete : (u : String) → Any (Outdated now a u) entries → Among u us

Lists-skip :
    {now : ℕ} {a qs : QueryStore} {us : List String} {rest : Dict QueryInfo}
    (e : String × QueryInfo)
    → ((u : String) → Outdated now a u e → ⊥)
    → Lists now a rest us qs
    → Lists now a (e ∷ rest) us qs
Lists-skip e never l = record {
  same = l.same;
  coherent = l.coherent;
  sound = λ u m. in_tail (l.sound u m);
  complete = λ u m. elim (Any-cons m) [ inl o ↦ absurd (never u o) | inr n ↦ l.complete u n ];
}

Lists-add :
    {now : ℕ} {a qs : QueryStore} {us : List String} {rest : Dict QueryInfo}
    (e : String × QueryInfo)
    → Outdated now a (uuid_of (QueryInfo.query e.1)) e
    → Lists now a rest us qs
    → Lists now a (e ∷ rest) (uuid_of (QueryInfo.query e.1) ∷ us) qs
Lists-add {now} {a} e o l = record {
  same = l.same;
  coherent = l.coherent;
  sound = λ u m. elim (Any-cons m) [
    | inl p ↦ at_head (subst (λ v. Outdated now a v e) p o)
    | inr n ↦ in_tail (l.sound u n)
  ];
  complete = λ u m. elim (Any-cons m) [ inl p ↦ at_head p.name | inr n ↦ in_tail (l.complete u n) ];
}

-- What holds of the end of the loop; a crash lists nothing.
abbrev pub Fine : ℕ → QueryStore → Dict QueryInfo → Listed → Type 0
Fine now a entries (listed us qs) = Lists now a entries us qs
Fine now a entries crashed = Unit

Fine-skip :
    (now : ℕ) (a : QueryStore) (rest : Dict QueryInfo) (e : String × QueryInfo) (l : Listed)
    → ((u : String) → Outdated now a u e → ⊥)
    → Fine now a rest l
    → Fine now a (e ∷ rest) l
Fine-skip now a rest e (listed us qs) never f = Lists-skip e never f
Fine-skip now a rest e crashed never f = tt

-- The end of a round for a pending query that is not applicable.
Fine-put :
    (now : ℕ) (a : QueryStore) (rest : Dict QueryInfo) (e : String × QueryInfo) (b : Bool)
    (l : Listed)
    → is_pending (QueryInfo.state e.1) ≡ true
    → Evaluates a.threshold (view a) (uuid_of (QueryInfo.query e.1)) false
    → timed_out now (QueryInfo.query e.1) ≡ some b
    → Fine now a rest l
    → Fine now a (e ∷ rest) (put_first b (uuid_of (QueryInfo.query e.1)) l)
unfolding put_first
Fine-put now a rest e b crashed live unfit t f = tt
Fine-put now a rest e false (listed us qs) live unfit t f = Lists-skip e (λ u o. cc (o.late, t)) f
Fine-put now a rest e true (listed us qs) live unfit t f =
    Lists-add e (record { is_live = live; name = refl; unfit = unfit; late = t }) f

outdated_from-Fine :
    (fuel now : ℕ) (entries : Dict QueryInfo) (a qs : QueryStore) (l : Listed)
    → SameView a qs
    → Coherent qs
    → outdated_from fuel now entries qs ≡ some l
    → Fine now a entries l
unfolding outdated_from
outdated_from-Fine fuel now [] a qs l same co h =
    subst_some (Fine now a []) h (record {
      same = same;
      coherent = co;
      sound = λ u m. elim m [ ];
      complete = λ u m. elim m [ ];
    })
outdated_from-Fine fuel now ((k, qi) ∷ rest) a qs l same co h =
    elim (Bool-cases (is_pending qi.state)) [
      | inr t ↦
          Fine-skip now a rest (k, qi) l (λ u o. cc (o.is_live, t))
            (outdated_from-Fine fuel now rest a qs l same co (rw (t, outdated_from) at h))
      | inl t ↦
          let u = uuid_of qi.query in
          let (r, e, m) = >>=-eq-some (is_applicable fuel u qs) _ (rw (t, outdated_from) at h) in
          let (co', meaning) = is_applicable_sound fuel u qs r co e in
          let here : Evaluates a.threshold (view a) u r.0 =
            transfer (λ n v. Evaluates n v u r.0 → Evaluates a.threshold (view a) u r.0) same
              (λ x. x) meaning in
          let same' = SameView-trans same (is_applicable-SameView fuel u qs r e) in
          elim (Bool-cases r.0) [
            | inl fit ↦
                Fine-skip now a rest (k, qi) l
                  (λ v o. cc (
                    fit,
                    Evaluates-unique (subst (λ w. Evaluates a.threshold (view a) w r.0) o.name here)
                        o.unfit,
                  ))
                  (outdated_from-Fine fuel now rest a r.1 l same' co' (rw fit at m))
            | inr unfit ↦ elim (Option-cases (timed_out now qi.query)) [
              | inl p ↦ subst_some (Fine now a ((k, qi) ∷ rest)) (rw p at (rw unfit at m)) tt
              | inr (late, p) ↦
                  let (l', n, q) =
                    >>=-eq-some (outdated_from fuel now rest r.1) _ (rw p at (rw unfit at m)) in
                  subst_some (Fine now a ((k, qi) ∷ rest)) q (
                    Fine-put now a rest (k, qi) late l' t
                      (subst (λ b. Evaluates a.threshold (view a) u b) unfit here) p
                      (outdated_from-Fine fuel now rest a r.1 l' same' co' n))
            ]
          ]
    ]

-- From a store with coherent caches, where `OutdatedQueries` returns a list, it changes caches only
-- and leaves them coherent, and the list has exactly the identifiers of the stored queries that are
-- pending, are not applicable by an evaluation with no cache, and are past their deadline by more
-- than ten seconds.
pub outdated_queries-Lists :
    (fuel now : ℕ) (a qs : QueryStore) (us : List String)
    → Coherent a
    → outdated_queries fuel now a ≡ some (listed us qs)
    → Lists now a a.queries us qs
unfolding outdated_queries
outdated_queries-Lists fuel now a qs us co h =
    outdated_from-Fine fuel now a.queries a a (listed us qs) (SameView-refl a) co h
