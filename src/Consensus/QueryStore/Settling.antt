-- ===== src/Consensus/QueryStore/Settling.antt =====
-- `CheckState` commits a query once enough of its endorsements are settled.
use pnyxdb.Base.{
  ℕ, suc, ◌<◌, ◌≤◌, String, ◌≡◌, refl, sym, ◌∙◌, subst, Bool, true, false, Option, none, some, List,
  [], ◌∷◌, length, ltb, arith, ◌⊎◌, inl, inr, Bool-cases, some-injective,
}
use pnyxdb.Consensus.Query.{Endorsement}
use pnyxdb.Consensus.QueryStore.State.{QueryState, pending, committed, dropped, QueryStore}
use pnyxdb.Consensus.QueryStore.Check.{check_state}
use pnyxdb.Consensus.QueryStore.View.{Core, View, view}
use pnyxdb.Consensus.QueryStore.Marking.{WellFormed}
use pnyxdb.Consensus.QueryStore.States.{status, state_of}
use pnyxdb.Consensus.QueryStore.Termination.{Ranked, is_applicable-Returns}
use pnyxdb.Consensus.QueryStore.Forward.{stage}
use pnyxdb.Consensus.QueryStore.Meaning.{
  Evaluates, absent, was_dropped, was_committed, too_few, counted, NoneApplicable, end, stop, go_on,
  CountsValid, no_more, valid, invalid, Coherent,
}
use pnyxdb.Consensus.QueryStore.Evaluate.{is_applicable_sound}
use pnyxdb.Consensus.QueryStore.Once.{check_state-stage}
use pnyxdb.Consensus.QueryStore.Decision.{
  all_dropped, settled, is_dropped_state, check_state_decision,
}
use pnyxdb.Consensus.QueryStore.Checking.{check_state-Returns}

-- A dropped query is not applicable.
dropped-Evaluates :
    {threshold : ℕ} {v : View} {u : String} {b : Bool}
    → Evaluates threshold v u b
    → is_dropped_state (state_of (v u)) ≡ true
    → b ≡ false
dropped-Evaluates (absent e) h = refl
dropped-Evaluates (was_dropped k e s) h = refl
dropped-Evaluates (was_committed k e s) h = cc (rw (e, s) at h)
dropped-Evaluates (too_few k e s l) h = refl
dropped-Evaluates (counted k e s l n c d) h = cc (rw (e, s) at h)

-- An endorsement whose conditions are all dropped is valid.
all_dropped-NoneApplicable :
    {threshold : ℕ} {v : View} {b : Bool} (cs : List String)
    → NoneApplicable threshold v cs b
    → all_dropped (λ c. state_of (v c)) cs ≡ true
    → b ≡ true
unfolding all_dropped
all_dropped-NoneApplicable [] end h = refl
all_dropped-NoneApplicable (c ∷ cs) (stop e) h = cc (dropped-Evaluates e (ground (arith, h)))
all_dropped-NoneApplicable (c ∷ cs) (go_on e n) h =
    all_dropped-NoneApplicable cs n (ground (arith, h))

settled-CountsValid :
    {threshold n : ℕ} {v : View} (es : List Endorsement)
    → CountsValid threshold v es n
    → settled (λ c. state_of (v c)) es ≤ n
unfolding settled
settled-CountsValid [] no_more = omega arith
settled-CountsValid {v = v} (e ∷ es) (valid h rest) =
    let ih = settled-CountsValid es rest in
    elim (Bool-cases (all_dropped (λ c. state_of (v c)) e.conditions)) [
      | inl t ↦ rw t (omega (arith, ih))
      | inr t ↦ rw t (omega (arith, ih))
    ]
settled-CountsValid {v = v} (e ∷ es) (invalid h rest) =
    let ih = settled-CountsValid es rest in
    elim (Bool-cases (all_dropped (λ c. state_of (v c)) e.conditions)) [
      | inl t ↦ cc (all_dropped-NoneApplicable e.conditions h t)
      | inr t ↦ rw t (omega (arith, ih))
    ]

settled-length :
    (st : String → Option QueryState) (es : List Endorsement) → settled st es ≤ length es
unfolding settled
settled-length st [] = omega arith
settled-length st (e ∷ es) =
    let ih = settled-length st es in
    elim (Bool-cases (all_dropped st e.conditions)) [
      | inl t ↦ rw t (omega (arith, ih))
      | inr t ↦ rw t (omega (arith, ih))
    ]

-- A pending query with enough settled endorsements is applicable.
settled-Evaluates :
    {threshold : ℕ} {v : View} {u : String} {b : Bool} (k : Core)
    → v u ≡ some k
    → k.state ≡ pending
    → threshold ≤ settled (λ c. state_of (v c)) k.endorsements
    → Evaluates threshold v u b
    → b ≡ true
settled-Evaluates {threshold} {v} k here st h (absent e) = cc
settled-Evaluates {threshold} {v} k here st h (was_dropped k' e s) = cc (here, e, st, s)
settled-Evaluates {threshold} {v} k here st h (was_committed k' e s) = refl
settled-Evaluates {threshold} {v} k here st h (too_few k' e s l) =
    let same = some-injective k k' (sym here ∙ e) in
    let few = subst (λ (c : Core). ltb (length c.endorsements) threshold ≡ true) (sym same) l in
    ground (arith, few, settled-length (λ c. state_of (v c)) k.endorsements, h)
settled-Evaluates {threshold} {v} k here st h (counted k' e s l n c d) =
    let same = some-injective k k' (sym here ∙ e) in
    let enough =
      settled-CountsValid k.endorsements
        (subst (λ (c : Core). CountsValid threshold v c.endorsements n) (sym same) c) in
    d ∙ ground (arith, h, enough)

pub stage_final : (o : Option QueryState) → 2 ≤ stage o → (o ≡ some committed) ⊎ (o ≡ some dropped)
stage_final none h = absurd (omega arith)
stage_final (some pending) h = absurd (omega arith)
stage_final (some committed) h = inl refl
stage_final (some dropped) h = inr refl

-- For a stored, pending query of a well-formed store with coherent caches, where conditions go down
-- in rank, the query's rank is below the fuel and the number of queries is more than one below it:
-- if the endorsements whose conditions are all dropped reach the threshold, `CheckState` returns,
-- says that the query commits, and leaves it committed or dropped.
pub settled_commits :
    (rank : String → ℕ) (fuel now : ℕ) (u : String) (k : Core) (a : QueryStore)
    → WellFormed a
    → Coherent a
    → Ranked rank (view a)
    → rank u < fuel
    → suc (length a.queries) < fuel
    → view a u ≡ some k
    → k.state ≡ pending
    → a.threshold ≤ settled (status a) k.endorsements
    → (r : Bool × List String × QueryStore) × (check_state fuel now u a ≡ some r)
      × (r.0 ≡ true)
      × ((status r.2 u ≡ some committed) ⊎ (status r.2 u ≡ some dropped))
settled_commits rank fuel now u k a w co ranked low size here st enough =
    let (x, eval) = is_applicable-Returns rank fuel u a ranked low in
    let (r, checks) = check_state-Returns rank fuel now u k a w here ranked low size in
    let fit = settled-Evaluates k here st enough (is_applicable_sound fuel u a x co eval).1 in
    let says : r.0 ≡ true =
      check_state_decision fuel now u a k x r here eval checks ∙ ground (arith, fit, st, enough) in
    (r, checks, says, stage_final (status r.2 u) (check_state-stage fuel now u a r w checks says))
