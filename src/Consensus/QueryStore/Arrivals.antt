-- ===== src/Consensus/QueryStore/Arrivals.antt =====
-- What the arrival of a query or of an endorsement does to the states of the queries.
use pnyxdb.Base.{
  ℕ, String, ◌≡◌, refl, ap, ◌∙◌, Bool, true, false, Option, none, some, List, [], ◌∷◌, lookup,
  delete, str_eq, eq_iff, arith, if◌then◌else◌, Bool-cases, inl, inr, >>=-eq-some, Option-cases,
  subst_some,
}
use pnyxdb.Consensus.Query.{Query, Endorsement}
use pnyxdb.Consensus.QueryStore.State.{
  QueryState, pending, QueryInfo, QueryStore, zero_info, uuid_of,
}
use pnyxdb.Consensus.QueryStore.Insert.{
  has_emitter, register, register_all, add_endorsement_internal, collect, cascade_mark, add_query,
  add_endorsement,
}
use pnyxdb.Consensus.QueryStore.View.{core_of, view-put}
use pnyxdb.Consensus.QueryStore.Marking.{
  WellFormed, WellFormed-SameView, WellFormed-put, cascade_mark-SameView,
}
use pnyxdb.Consensus.QueryStore.States.{
  status, SameStates, SameStates-refl, SameStates-trans, SameStates-put,
}

register-SameStates : (u c : String) (a : QueryStore) → SameStates a (register u c a)
unfolding register
register-SameStates u c a = elim (Option-cases (lookup c a.queries)) [
  | inl p ↦
      rw (p, register)
        (record {
          states = λ j. refl;
          threshold = refl;
          well_formed = λ w. record { named = w.named };
        })
  | inr (qi, p) ↦ rw (p, register) (SameStates-put c qi _ a p refl refl)
]

register_all-SameStates :
    (u : String) (cs : List String) (a : QueryStore) → SameStates a (register_all u cs a)
unfolding register_all
register_all-SameStates u [] a = SameStates-refl a
register_all-SameStates u (c ∷ cs) a =
    SameStates-trans (register-SameStates u c a) (register_all-SameStates u cs (register u c a))

-- A new entry `qi'` for `qi`, and a store with the states of the old one.
pub record Prepares (qi : QueryInfo) (a : QueryStore) (qi' : QueryInfo) (a' : QueryStore)
    : Type 0 where
  pub query : qi'.query ≡ qi.query
  state : qi'.state ≡ qi.state
  pub stores : SameStates a a'

pub add_endorsement_internal-Prepares :
    (e : Endorsement) (qi : QueryInfo) (a : QueryStore)
    → let r = add_endorsement_internal e qi a in Prepares qi a r.1 r.2
unfolding add_endorsement_internal
add_endorsement_internal-Prepares e qi a =
    elim (Bool-cases (has_emitter e.emitter qi.endorsements)) [
      | inl t ↦ rw t (record { query = refl; state = refl; stores = SameStates-refl a })
      | inr t ↦ rw t (record {
        query = refl;
        state = refl;
        stores = register_all-SameStates (uuid_of qi.query) e.conditions a;
      })
    ]

pub collect-Prepares :
    (u : String) (es : List Endorsement) (qi : QueryInfo) (a : QueryStore)
    → let r = collect u es qi a in Prepares qi a r.1 r.2
unfolding collect
collect-Prepares u [] qi a = record { query = refl; state = refl; stores = SameStates-refl a }
collect-Prepares u (e ∷ es) qi a = elim (Bool-cases (str_eq e.uuid u)) [
  | inl t ↦
      let s = add_endorsement_internal e qi a in
      let p = add_endorsement_internal-Prepares e qi a in
      let q = collect-Prepares u es s.1 s.2 in
      rw t (record {
        query = q.query ∙ p.query;
        state = q.state ∙ p.state;
        stores = SameStates-trans p.stores q.stores;
      })
  | inr t ↦ rw t (collect-Prepares u es qi a)
]

-- What a call of `cascadeMark` does to the states.
record Stores (q : Query) (state : QueryState) (a b : QueryStore) : Type 0 where
  states : (u : String) → status b u ≡ (if str_eq q.uuid u then some state else status a u)
  threshold : b.threshold ≡ a.threshold
  well_formed : WellFormed b

cascade_mark-Stores :
    (fuel : ℕ) (qi : QueryInfo) (q : Query) (a b : QueryStore)
    → WellFormed a
    → qi.query ≡ some q
    → cascade_mark fuel qi a ≡ some b
    → Stores q qi.state a b
cascade_mark-Stores fuel qi q a b w here h =
    let wrote = cascade_mark-SameView fuel qi q a b w here h in
    record {
      states = λ j. ground (arith, wrote.views j, view-put q.uuid j qi a);
      threshold = wrote.threshold;
      well_formed = WellFormed-SameView wrote (WellFormed-put q.uuid qi q a here refl w);
    }

-- The state of a query after the arrival of one, which is the same query or not.
abbrev pub after_arrival : Option QueryState → Bool → Option QueryState
after_arrival none true = some pending
after_arrival none false = none
after_arrival (some s) same = some s

abbrev pub is_unknown : Option QueryState → Bool
is_unknown none = true
is_unknown (some s) = false

pub record Arrives (q : Query) (a : QueryStore) (r : Bool × QueryStore) : Type 0 where
  pub inserted : r.0 ≡ is_unknown (status a q.uuid)
  pub states : (u : String) → status r.1 u ≡ after_arrival (status a u) (str_eq q.uuid u)
  pub threshold : r.1.threshold ≡ a.threshold
  pub well_formed : WellFormed r.1

-- From a well-formed store, where `AddQuery` returns, a query is inserted exactly if its
-- identifier is not known, and is pending then; no other state changes, a known query's neither,
-- and the store stays well-formed.
pub add_query-status :
    (fuel : ℕ) (q : Query) (a : QueryStore) (r : Bool × QueryStore)
    → WellFormed a
    → add_query fuel q a ≡ some r
    → Arrives q a r
unfolding add_query
add_query-status fuel q a r w h = elim (Option-cases (lookup q.uuid a.queries)) [
  | inl p ↦
      let start : QueryInfo = record zero_info { query = some q } in
      let c = collect q.uuid a.pending_endorsements start a in
      let prep = collect-Prepares q.uuid a.pending_endorsements start a in
      let clean : QueryStore = record c.2 {
        pending_dependencies = delete q.uuid c.2.pending_dependencies;
      } in
      let (b, e, k) = >>=-eq-some (cascade_mark fuel _ clean) _ (rw (p, add_query) at h) in
      let done =
        cascade_mark-Stores fuel _ q clean b (record { named = (prep.stores.well_formed w).named })
          prep.query e in
      subst_some (Arrives q a) k (record {
        inserted = ground (arith, ap core_of p);
        states = λ u.
            ground (
              arith,
              done.states u,
              prep.stores.states u,
              prep.state,
              eq_iff q.uuid u,
              ap core_of p,
            );
        threshold = done.threshold ∙ prep.stores.threshold;
        well_formed = record { named = done.well_formed.named };
      })
  | inr (old, p) ↦ subst_some (Arrives q a) (rw (p, add_query) at h) (record {
    inserted = ground (arith, ap core_of p);
    states = λ u. ground (arith, eq_iff q.uuid u, ap core_of p);
    threshold = refl;
    well_formed = w;
  })
]

-- From a well-formed store, where `AddEndorsement` returns, an endorsement changes no state.
pub add_endorsement-SameStates :
    (fuel : ℕ) (e : Endorsement) (a : QueryStore) (r : Bool × Bool × QueryStore)
    → WellFormed a
    → add_endorsement fuel e a ≡ some r
    → SameStates a r.2
unfolding add_endorsement
add_endorsement-SameStates fuel e a r w h = elim (Option-cases (lookup e.uuid a.queries)) [
  | inl p ↦
      subst_some (λ (s : Bool × Bool × QueryStore). SameStates a s.2) (rw (p, add_endorsement) at h)
        (record {
          states = λ u. refl;
          threshold = refl;
          well_formed = λ w. record { named = w.named };
        })
  | inr (qi, p) ↦
      let (q, holds, name) = w.named e.uuid _ (ap core_of p) in
      let s = add_endorsement_internal e qi a in
      let prep = add_endorsement_internal-Prepares e qi a in
      let (b, m, k) = >>=-eq-some (cascade_mark fuel s.1 s.2) _ (rw (p, add_endorsement) at h) in
      let done =
        cascade_mark-Stores fuel s.1 q s.2 b (prep.stores.well_formed w) (prep.query ∙ holds) m in
      subst_some (λ (s : Bool × Bool × QueryStore). SameStates a s.2) k
        (record {
          states = λ u. ground (
            arith,
            done.states u,
            prep.stores.states u,
            prep.state,
            eq_iff q.uuid u,
            name,
            ap core_of p,
          );
          threshold = done.threshold ∙ prep.stores.threshold;
          well_formed = λ w. done.well_formed;
        })
]
