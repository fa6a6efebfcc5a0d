-- ===== src/Consensus/Engine/Steps.antt =====
-- The engine over time: each handler works on the query store through its operations alone.
use pnyxdb.Base.{
  ℕ, zero, suc, ◌≡◌, refl, sym, subst, String, Bool, true, false, not, Option, none, some, List, [],
  ◌∷◌, contains, Bool-cases, Option-cases, inl, inr, if-cases,
}
use pnyxdb.Consensus.Query.{Query, Endorsement, Proof, query_proof, endorsement_proof, empty}
use pnyxdb.Consensus.QueryStore.State.{QueryStore, pending_queries}
use pnyxdb.Consensus.QueryStore.Insert.{add_query, add_endorsement}
use pnyxdb.Consensus.QueryStore.Check.{checkpoint_choice, checkpoint_drop}
use pnyxdb.Consensus.QueryStore.Check
use pnyxdb.Consensus.QueryStore.Reachable.{
  Reach, here, next, Reach-trans, state_checked, query_arrives as query_inserted,
  endorsement_arrives, choice_made, checkpoint_ends,
}
use pnyxdb.Consensus.Engine.Node.{Node, Engine, mark_active}
use pnyxdb.Consensus.Engine.Apply.{Applied, stored, crash, apply}
use pnyxdb.Consensus.Engine.Signing.{verify_query, verified, hash_of, verify_endorsement}
use pnyxdb.Consensus.Engine.Handlers.{
  Run, ran, no_fuel, panicked, ◌>>=◌, on_fuel, check_each, after_check, check_state, valid_query,
  query_arrives, valid_endorsement, handle_endorsement, Vote, start_vote, handle_checkpoint,
  handle_proof, handle_proofs, vote_ends,
}

pub >>=-eq-ran :
    {A B : Type 0} (m : Run A) (f : A → Run B) {b : B}
    → (m >>= f) ≡ ran b
    → (a : A) × (m ≡ ran a) × (f a ≡ ran b)
>>=-eq-ran (ran a) f h = (a, refl, h)
>>=-eq-ran no_fuel f h = cc
>>=-eq-ran panicked f h = cc

on_fuel-eq : {A : Type 0} (o : Option A) {a : A} → on_fuel o ≡ ran a → o ≡ some a
on_fuel-eq none h = cc
on_fuel-eq (some x) h = cc

pub subst_ran : {A : Type 0} (P : A → Type 0) {x y : A} → ran x ≡ ran y → P x → P y
subst_ran P {x} {y} h p = subst P (cc h) p

module _ (node : Node) where
  open node use {driver}
  open driver use {Store}

  -- What a handler may do to the query store.
  abbrev pub Moves : Engine Store → Engine Store → Type 0
  Moves a b = Reach a.query_store b.query_store

  abbrev pub Checks : (String → Engine Store → Run (Engine Store)) → Type 0
  Checks f = (u : String) (a b : Engine Store) → f u a ≡ ran b → Moves a b

  pub check_each-Moves :
      (f : String → Engine Store → Run (Engine Store))
      → Checks f
      → (us : List String) (a b : Engine Store) → check_each f us a ≡ ran b
      → Moves a b
  unfolding check_each
  check_each-Moves f g [] a b h = subst_ran (Moves a) h here
  check_each-Moves f g (u ∷ us) a b h =
      let (c, p, q) = >>=-eq-ran (f u a) (check_each f us) h in
      Reach-trans (g u a c p) (check_each-Moves f g us c b q)

  after_check-Moves :
      (f : String → Engine Store → Run (Engine Store))
      → Checks f
      → (u : String) (commit : Bool) (a b : Engine Store) → after_check node f u commit a ≡ ran b
      → Moves a b
  unfolding after_check mark_active
  after_check-Moves f g u false a b h = subst_ran (Moves a) h here
  after_check-Moves f g u true a b h = go (apply node u a.query_store a.store) h
    where
      go :
          (x : Applied Store)
          → (elim x [
            | crash ↦ panicked
            | stored s ↦
                check_each f (pending_queries a.query_store) (mark_active (record a { store = s }))
          ])
            ≡ ran b
          → Moves a b
      go crash h = cc
      go (stored s) h =
          check_each-Moves f g (pending_queries a.query_store)
            (mark_active (record a { store = s })) b h

  pub check_state-Moves : (fuel now : ℕ) → Checks (check_state node fuel now)
  unfolding check_state
  check_state-Moves zero now u a b h = cc
  check_state-Moves (suc fuel) now u a b h =
      let (r, p, q) = >>=-eq-ran (on_fuel (Check.check_state fuel now u a.query_store)) _ h in
      let (c, m, n) =
        >>=-eq-ran
          (after_check node (check_state node fuel now) u r.0 (record a { query_store = r.2 })) _
          q in
      let first : Reach a.query_store r.2 =
        next here (state_checked fuel now u r.0 r.1 (on_fuel-eq _ p)) in
      subst_ran (Moves a) n (
        Reach-trans first (
          after_check-Moves (check_state node fuel now) (check_state-Moves fuel now) u r.0
            (record a { query_store = r.2 }) c m))

  valid_query-Moves :
      (fuel now : ℕ) (q : Query) (a : Engine Store) (r : Bool × Engine Store)
      → valid_query node fuel now q a ≡ ran r
      → Moves a r.1
  unfolding valid_query
  valid_query-Moves fuel now q a r h =
      let (x, p, k) = >>=-eq-ran (on_fuel (add_query fuel q a.query_store)) _ h in
      let first : Reach a.query_store x.1 =
        next here (query_inserted fuel q x.0 (on_fuel-eq _ p)) in
      elim (if-cases (not x.0) k) [
        | inl (t, e) ↦ subst_ran (λ (s : Bool × Engine Store). Moves a s.1) e first
        | inr (t, e) ↦
            let (b, m, n) =
              >>=-eq-ran (check_state node fuel now q.uuid (record a { query_store = x.1 })) _ e in
            subst_ran (λ (s : Bool × Engine Store). Moves a s.1) n
              (Reach-trans first
                (check_state-Moves fuel now q.uuid (record a { query_store = x.1 }) b m))
      ]

  verify_query-same :
      (q : Query) (a : Engine Store) → (verify_query node q a).1.query_store ≡ a.query_store
  unfolding verify_query verified
  verify_query-same q a = elim (Option-cases (hash_of node q a.hashes)) [
    | inl p ↦ rw (p, verified)
    | inr (h, p) ↦ elim (Bool-cases (Node.verify node q.emitter h q.signature)) [
      | inl t ↦ rw (p, t, verified)
      | inr t ↦ rw (p, t, verified)
    ]
  ]

  pub query_arrives-Moves :
      (fuel now : ℕ) (q : Query) (a : Engine Store) (r : Bool × Engine Store)
      → query_arrives node fuel now q a ≡ ran r
      → Moves a r.1
  unfolding query_arrives
  query_arrives-Moves fuel now q a r h =
      let c = verify_query node q a in
      elim (if-cases c.0 h) [
        | inl (t, e) ↦
            subst (λ (s : QueryStore). Reach s r.1.query_store) (verify_query-same q a)
              (valid_query-Moves fuel now q c.1 r e)
        | inr (t, e) ↦
            subst_ran (λ (s : Bool × Engine Store). Moves a s.1) e
              (subst (Reach a.query_store) (sym (verify_query-same q a)) here)
      ]

  pub handle_endorsement-Moves :
      (fuel now : ℕ) (e : Endorsement) (a b : Engine Store)
      → handle_endorsement node fuel now e a ≡ ran b
      → Moves a b
  unfolding handle_endorsement valid_endorsement mark_active
  handle_endorsement-Moves fuel now e a b h = elim (if-cases (verify_endorsement node e) h) [
    | inr (t, k) ↦ subst_ran (Moves a) k here
    | inl (t, k) ↦
        let (x, p, l) = >>=-eq-ran (on_fuel (add_endorsement fuel e a.query_store)) _ k in
        let (c, m, n) =
          >>=-eq-ran (check_state node fuel now e.uuid (record a { query_store = x.2 })) _ l in
        subst_ran (Moves a) n (
          Reach-trans (next here (endorsement_arrives fuel e x.0 x.1 (on_fuel-eq _ p)))
            (check_state-Moves fuel now e.uuid (record a { query_store = x.2 }) c m))
  ]

  pub handle_checkpoint-Moves :
      (fuel : ℕ) (us : List String) (a : Engine Store) (r : Option Vote × Engine Store)
      → handle_checkpoint node fuel us a ≡ ran r
      → Moves a r.1
  unfolding handle_checkpoint start_vote
  handle_checkpoint-Moves fuel [] a r h =
      subst_ran (λ (s : Option Vote × Engine Store). Moves a s.1) h here
  handle_checkpoint-Moves fuel (u ∷ us) a r h = elim (if-cases (contains _ a.checkpoints) h) [
    | inl (t, e) ↦ subst_ran (λ (s : Option Vote × Engine Store). Moves a s.1) e here
    | inr (t, e) ↦
        let (x, p, k) = >>=-eq-ran (on_fuel (checkpoint_choice fuel _ a.query_store)) _ e in
        subst_ran (λ (s : Option Vote × Engine Store). Moves a s.1) k
          (next here (choice_made fuel _ x.0 x.1 (on_fuel-eq _ p)))
  ]

  handle_proofs-Moves :
      (fuel now : ℕ) (ps : List Proof) (a b : Engine Store)
      → handle_proofs node fuel now ps a ≡ ran b
      → Moves a b
  unfolding handle_proofs handle_proof
  handle_proofs-Moves fuel now [] a b h = subst_ran (Moves a) h here
  handle_proofs-Moves fuel now (query_proof none ∷ ps) a b h = handle_proofs-Moves fuel now ps a b h
  handle_proofs-Moves fuel now (query_proof (some q) ∷ ps) a b h =
      let (c, p, k) = >>=-eq-ran (handle_proof node fuel now (query_proof (some q)) a) _ h in
      let (r, m, n) = >>=-eq-ran (query_arrives node fuel now q a) _ p in
      Reach-trans (subst_ran (Moves a) n (query_arrives-Moves fuel now q a r m))
        (handle_proofs-Moves fuel now ps c b k)
  handle_proofs-Moves fuel now (endorsement_proof e ∷ ps) a b h =
      let (c, p, k) = >>=-eq-ran (handle_endorsement node fuel now e a) _ h in
      Reach-trans (handle_endorsement-Moves fuel now e a c p)
        (handle_proofs-Moves fuel now ps c b k)
  handle_proofs-Moves fuel now (empty ∷ ps) a b h = handle_proofs-Moves fuel now ps a b h

  pub vote_ends-Moves :
      (fuel now : ℕ) (v : Vote) (decision : Bool) (ps : List Proof) (a b : Engine Store)
      → vote_ends node fuel now v decision ps a ≡ ran b
      → Moves a b
  unfolding vote_ends mark_active
  vote_ends-Moves fuel now v true ps a b h =
      let (x, p, k) = >>=-eq-ran (on_fuel (checkpoint_drop fuel v.queries a.query_store)) _ h in
      subst_ran (Moves a) k (next here (checkpoint_ends fuel v.queries (on_fuel-eq _ p)))
  vote_ends-Moves fuel now v false ps a b h = elim (if-cases v.choice h) [
    | inl (t, e) ↦ handle_proofs-Moves fuel now ps a b e
    | inr (t, e) ↦ subst_ran (Moves a) e here
  ]
