-- ===== src/Consensus/QueryStore/Decision.antt =====
-- The decision of `CheckState`, against a description that reads only the states.
use pnyxdb.Base.{
  ℕ, suc, ◌+◌, String, ◌≡◌, refl, sym, ap, ◌∙◌, Bool, true, false, not, ◌&&◌, Option, none, some,
  some-injective, List, [], ◌∷◌, lookup, lookup-insert_self, arith, leb, if◌then◌else◌, Bool-cases,
  inl, inr, >>=-eq-some, if-cases, Option-cases, subst_some, fun_ext,
}
use pnyxdb.Consensus.Query.{Endorsement}
use pnyxdb.Consensus.QueryStore.State.{
  QueryState, dropped, QueryInfo, EndorsementInfo, QueryStore, check_speculative_state,
}
use pnyxdb.Consensus.QueryStore.Check.{
  is_dropped, is_committed, condition_old, definitely_valid, count_definite, decide, commit,
  is_applicable, info_or_zero, check_state,
}
use pnyxdb.Consensus.QueryStore.View.{
  Core, core, core_of, endorsements_of, view, SameView, SameView-refl, SameView-trans,
  is_applicable-SameView,
}
use pnyxdb.Consensus.QueryStore.States.{
  status, state_of, SameStates, speculative-SameStates, SameStates-SameView, SameStates-trans,
}

abbrev pub Statuses : Type 0
Statuses = String → Option QueryState

abbrev pub is_dropped_state : Option QueryState → Bool
is_dropped_state none = false
is_dropped_state (some s) = elim s [ dropped ↦ true | _ ↦ false ]

-- An endorsement is settled once all its conditions are dropped.
unfoldable pub all_dropped : Statuses → List String → Bool
all_dropped st [] = true
all_dropped st (c ∷ cs) = is_dropped_state (st c) && all_dropped st cs

unfoldable pub settled : Statuses → List Endorsement → ℕ
settled st [] = 0
settled st (e ∷ es) = let n = settled st es in if all_dropped st e.conditions then suc n else n

is_dropped_lem : (o : Option QueryInfo) → is_dropped o ≡ is_dropped_state (state_of (core_of o))
is_dropped_lem none = refl
is_dropped_lem (some qi) = refl

pub condition_old-SameView :
    (fuel now : ℕ) (c : String) (o : Option QueryInfo) (a : QueryStore) (r : Bool × QueryStore)
    → condition_old fuel now c o a ≡ some r
    → SameView a r.1
unfolding condition_old
condition_old-SameView fuel now c none a r h =
    subst_some (λ (s : Bool × QueryStore). SameView a s.1) h (SameView-refl a)
condition_old-SameView fuel now c (some qi) a r h =
    let (s, e, k) = >>=-eq-some (is_applicable fuel c a) _ h in
    subst_some (λ (s : Bool × QueryStore). SameView a s.1) k (is_applicable-SameView fuel c a s e)

abbrev pub Verdict : QueryStore → List String → Bool × List String × QueryStore → Type 0
Verdict a cs r = (SameView a r.2) × (r.0 ≡ all_dropped (status a) cs)

pub definitely_valid_lem :
    (fuel now : ℕ) (cs cp : List String) (a : QueryStore) (r : Bool × List String × QueryStore)
    → definitely_valid fuel now cs cp a ≡ some r
    → Verdict a cs r
unfolding definitely_valid all_dropped
definitely_valid_lem fuel now [] cp a r h = subst_some (Verdict a []) h (SameView-refl a, refl)
definitely_valid_lem fuel now (c ∷ cs) cp a r h =
    elim (Bool-cases (is_dropped (lookup c a.queries))) [
      | inl t ↦
          let (v, e) = definitely_valid_lem fuel now cs cp a r (rw (t, definitely_valid) at h) in
          (v, rw (sym (is_dropped_lem (lookup c a.queries)) ∙ t) e)
      | inr t ↦
          let (s, e, k) =
            >>=-eq-some (condition_old fuel now c (lookup c a.queries) a) _
              (rw (t, definitely_valid) at h) in
          subst_some (Verdict a (c ∷ cs)) k (
            condition_old-SameView fuel now c (lookup c a.queries) a s e,
            rw (sym (is_dropped_lem (lookup c a.queries)) ∙ t),
          )
    ]

abbrev pub Tally : QueryStore → ℕ → List Endorsement → ℕ × List String × QueryStore → Type 0
Tally a n es r = (SameView a r.2) × (r.0 ≡ n + settled (status a) es)

pub count_definite_lem :
    (fuel now : ℕ) (es : List EndorsementInfo) (n : ℕ) (cp : List String) (a : QueryStore)
    (r : ℕ × List String × QueryStore)
    → count_definite fuel now es n cp a ≡ some r
    → Tally a n (endorsements_of es) r
unfolding count_definite settled
count_definite_lem fuel now [] n cp a r h =
    subst_some (Tally a n []) h (SameView-refl a, omega arith)
count_definite_lem fuel now (e ∷ es) n cp a r h =
    let (s, m, k) = >>=-eq-some (definitely_valid fuel now e.endorsement.conditions cp a) _ h in
    let (v, x) = definitely_valid_lem fuel now e.endorsement.conditions cp a s m in
    let (w, y) = count_definite_lem fuel now es (if s.0 then suc n else n) s.1 s.2 r k in
    let same =
      ap (λ (st : Statuses). settled st (endorsements_of es))
        (fun_ext (SameStates-SameView v).states) in
    (SameView-trans v w, ground (arith, x, y, same))

decide_lem :
    (fuel now : ℕ) (u : String) (qi : QueryInfo) (a : QueryStore)
    (r : Bool × List String × QueryStore)
    → decide fuel now u qi a ≡ some r
    → r.0 ≡ leb a.threshold (settled (status a) (endorsements_of qi.endorsements))
unfolding decide
decide_lem fuel now u qi a r h =
    let (s, m, k) = >>=-eq-some (count_definite fuel now qi.endorsements 0 [] a) _ h in
    let (v, x) = count_definite_lem fuel now qi.endorsements 0 [] a s m in
    let total = settled (status a) (endorsements_of qi.endorsements) in
    elim (if-cases (leb a.threshold s.0) k) [
      | inl (t, p) ↦
          let (b, e, l) = >>=-eq-some (commit fuel u s.2) _ p in
          subst_some (λ (r : Bool × List String × QueryStore). r.0 ≡ leb a.threshold total) l
            (ground (arith, t, x))
      | inr (t, p) ↦
          subst_some (λ (r : Bool × List String × QueryStore). r.0 ≡ leb a.threshold total) p
            (ground (arith, t, x))
    ]

-- The entry of a query in a store that has been evaluated and marked as applied or not.
pub after_evaluation :
    (fuel : ℕ) (u : String) (a : QueryStore) (k : Core) (s : Bool × QueryStore)
    → view a u ≡ some k
    → is_applicable fuel u a ≡ some s
    → let b = check_speculative_state u s.0 s.1 in
      let qi = info_or_zero (lookup u b.queries) in
      (SameStates a b) × (endorsements_of qi.endorsements ≡ k.endorsements) × (qi.state ≡ k.state)
unfolding check_speculative_state
after_evaluation fuel u a k s here eval =
    let v = is_applicable-SameView fuel u a s eval in
    let same = SameStates-trans (SameStates-SameView v) (speculative-SameStates u s.0 s.1) in
    elim (Option-cases (lookup u s.1.queries)) [
      | inl p ↦ cc (ap core_of p, v.views u, here)
      | inr (qi, p) ↦
          let e : core qi ≡ k =
            some-injective (core qi) k (sym (ap core_of p) ∙ v.views u ∙ here) in
          (
            same,
            rw (p, check_speculative_state) (rw lookup-insert_self (ap Core.endorsements e)),
            rw (p, check_speculative_state) (rw lookup-insert_self (ap Core.state e)),
          )
    ]

-- The branches of `CheckState` behind the evaluation, with the result `x`.
branches :
    (fuel now : ℕ) (u : String) (x : Bool) (qi : QueryInfo) (k : Core) (a b : QueryStore)
    (r : Bool × List String × QueryStore)
    → SameStates a b
    → endorsements_of qi.endorsements ≡ k.endorsements
    → qi.state ≡ k.state
    → (if not x
        then some (false, [], b)
        else if is_committed qi.state
        then some (false, [], b)
        else decide fuel now u qi b)
      ≡ some r
    → r.0 ≡ (x && not (is_committed k.state) && leb a.threshold (settled (status a) k.endorsements))
branches fuel now u x qi k a b r same es st l =
    let states : status b ≡ status a = fun_ext same.states in
    elim (if-cases (not x) l) [
      | inl (t, p) ↦
          subst_some
            (λ (r : Bool × List String × QueryStore). r.0 ≡ (
              x
              && not (is_committed k.state)
              && leb a.threshold (settled (status a) k.endorsements)))
            p (ground (arith, t))
      | inr (t, p) ↦ elim (if-cases (is_committed qi.state) p) [
        | inl (t2, p2) ↦
            subst_some
              (λ (r : Bool × List String × QueryStore). r.0 ≡ (
                x
                && not (is_committed k.state)
                && leb a.threshold (settled (status a) k.endorsements)))
              p2 (ground (arith, t2, st))
        | inr (t2, p2) ↦
            decide_lem fuel now u qi b r p2
            ∙ rw (same.threshold, es, states) (ground (arith, t, t2, st))
      ]
    ]

-- For a stored query on which `isApplicable` and `CheckState` return: `CheckState` commits it
-- exactly if it is applicable, is not committed yet, and the endorsements whose conditions are all
-- dropped reach the threshold.
pub check_state_decision :
    (fuel now : ℕ) (u : String) (a : QueryStore) (k : Core) (s : Bool × QueryStore)
    (r : Bool × List String × QueryStore)
    → view a u ≡ some k
    → is_applicable fuel u a ≡ some s
    → check_state fuel now u a ≡ some r
    → r.0
      ≡ (s.0 && not (is_committed k.state) && leb a.threshold (settled (status a) k.endorsements))
unfolding check_state
check_state_decision fuel now u a k s r here eval h =
    let (x, m, l) = >>=-eq-some (is_applicable fuel u a) _ h in
    let b = check_speculative_state u x.0 x.1 in
    let (same, es, st) = after_evaluation fuel u a k x here m in
    subst_some
      (λ (s : Bool × QueryStore). r.0 ≡ (
        s.0 && not (is_committed k.state) && leb a.threshold (settled (status a) k.endorsements)))
      (sym m ∙ eval)
      (branches fuel now u x.0 (info_or_zero (lookup u b.queries)) k a b r same es st l)
