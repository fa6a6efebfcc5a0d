-- ===== src/Consensus/QueryStore/Meaning.antt =====
-- What it means that a query is applicable, with no cache, and that the caches agree with it.
use pnyxdb.Base.{
  ℕ, suc, String, ◌≡◌, refl, sym, ap, fun_ext, subst, Bool, true, false, none, some, List, [], ◌∷◌,
  lookup, lookup-insert, str_eq, eq_iff, ltb, leb, length, All, if◌then◌else◌, inl, inr, if-cases,
  subst_some,
}
use pnyxdb.Consensus.Query.{Endorsement}
use pnyxdb.Consensus.QueryStore.State.{
  pending, committed, dropped, QueryInfo, EndorsementInfo, QueryStore, put,
}
use pnyxdb.Consensus.QueryStore.View.{
  Core, core, endorsements_of, View, view, SameView, SameView-put,
}

-- A pending query is applicable if enough endorsements are valid, and an endorsement is valid if
-- none of its conditions is applicable. Conditions are read up to the first applicable one.
pub length-endorsements_of : (es : List EndorsementInfo) → length (endorsements_of es) ≡ length es
length-endorsements_of [] = refl
length-endorsements_of (e ∷ es) = ap suc (length-endorsements_of es)

mutual
  pub data Evaluates (threshold : ℕ) (v : View) : String → Bool → Type 0 where
    absent : {u : String} → v u ≡ none → Evaluates threshold v u false
    was_dropped :
        {u : String} (k : Core) → v u ≡ some k → k.state ≡ dropped → Evaluates threshold v u false
    was_committed :
        {u : String} (k : Core) → v u ≡ some k → k.state ≡ committed → Evaluates threshold v u true
    too_few :
        {u : String} (k : Core)
        → v u ≡ some k
        → k.state ≡ pending
        → ltb (length k.endorsements) threshold ≡ true
        → Evaluates threshold v u false
    counted :
        {u : String} {b : Bool} (k : Core)
        → v u ≡ some k
        → k.state ≡ pending
        → ltb (length k.endorsements) threshold ≡ false
        → (n : ℕ) → CountsValid threshold v k.endorsements n
        → b ≡ leb threshold n
        → Evaluates threshold v u b

  pub data NoneApplicable (threshold : ℕ) (v : View) : List String → Bool → Type 0 where
    end : NoneApplicable threshold v [] true
    stop :
        {c : String} {cs : List String}
        → Evaluates threshold v c true
        → NoneApplicable threshold v (c ∷ cs) false
    go_on :
        {c : String} {cs : List String} {b : Bool}
        → Evaluates threshold v c false
        → NoneApplicable threshold v cs b
        → NoneApplicable threshold v (c ∷ cs) b

  pub data CountsValid (threshold : ℕ) (v : View) : List Endorsement → ℕ → Type 0 where
    no_more : CountsValid threshold v [] 0
    valid :
        {e : Endorsement} {es : List Endorsement} {n : ℕ}
        → NoneApplicable threshold v e.conditions true
        → CountsValid threshold v es n
        → CountsValid threshold v (e ∷ es) (suc n)
    invalid :
        {e : Endorsement} {es : List Endorsement} {n : ℕ}
        → NoneApplicable threshold v e.conditions false
        → CountsValid threshold v es n
        → CountsValid threshold v (e ∷ es) n

abbrev pub EndorsementCoherent : ℕ → View → EndorsementInfo → Type 0
EndorsementCoherent threshold v e =
    e.cached.fresh ≡ true → NoneApplicable threshold v e.endorsement.conditions e.cached.result

pub record InfoCoherent (threshold : ℕ) (v : View) (u : String) (q : QueryInfo) : Type 0 where
  pub query_result :
      q.state ≡ pending → q.cached.fresh ≡ true → Evaluates threshold v u q.cached.result
  pub endorsement_results : All (EndorsementCoherent threshold v) q.endorsements

-- Each result that is marked fresh is the one that an evaluation with no cache gives.
pub record Coherent (a : QueryStore) : Type 0 where
  pub at :
      (u : String) (q : QueryInfo)
      → lookup u a.queries ≡ some q
      → InfoCoherent a.threshold (view a) u q

-- Statements about `a` and `b` that depend on their views alone.
pub transfer :
    (P : ℕ → View → Type 0) {a b : QueryStore}
    → SameView a b
    → P a.threshold (view a)
    → P b.threshold (view b)
transfer P {a} {b} s h =
    subst (λ (t : ℕ). P t (view b)) (sym s.threshold)
      (subst (λ (v : View). P a.threshold v) (sym (fun_ext s.views)) h)

pub Coherent-put :
    (u : String) (q : QueryInfo) (a : QueryStore)
    → view a u ≡ some (core q)
    → InfoCoherent a.threshold (view a) u q
    → Coherent a
    → Coherent (put u q a)
Coherent-put u q a here new old = record {
  at = λ j q' h.
      transfer (λ t v. InfoCoherent t v j q') (SameView-put u q a here)
        (elim (if-cases (str_eq u j) (rw lookup-insert at h)) [
          | inl (t, p) ↦
              subst (λ (i : String). InfoCoherent a.threshold (view a) i q') ((eq_iff u j).0 t)
                (subst_some (InfoCoherent a.threshold (view a) u) p new)
          | inr (t, p) ↦ old.at j q' p
        ]);
}

pub counts_cons :
    {threshold : ℕ} {v : View} (e : Endorsement) (es : List Endorsement) (b : Bool) {n : ℕ}
    → NoneApplicable threshold v e.conditions b
    → CountsValid threshold v es n
    → CountsValid threshold v (e ∷ es) (if b then suc n else n)
counts_cons e es true h rest = valid h rest
counts_cons e es false h rest = invalid h rest
