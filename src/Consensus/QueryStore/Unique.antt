-- ===== src/Consensus/QueryStore/Unique.antt =====
-- `isApplicable` has one answer, whatever the caches hold.
use pnyxdb.Base.{ℕ, suc, String, ◌≡◌, refl, sym, ap, ◌∙◌, subst, Bool, List, some-injective}
use pnyxdb.Consensus.Query.{Endorsement}
use pnyxdb.Consensus.QueryStore.View.{Core, View}
use pnyxdb.Consensus.QueryStore.Meaning.{
  Evaluates, NoneApplicable, CountsValid, absent, was_dropped, was_committed, too_few, counted, end,
  stop, go_on, no_more, valid, invalid,
}

-- Two derivations about one view agree.
mutual
  pub Evaluates-unique :
      {t : ℕ} {v : View} {u : String} {b c : Bool} → Evaluates t v u b → Evaluates t v u c → b ≡ c
  Evaluates-unique (absent p) (absent q) = refl
  Evaluates-unique (absent p) (was_dropped k q s) = cc
  Evaluates-unique (absent p) (was_committed k q s) = cc
  Evaluates-unique (absent p) (too_few k q s l) = cc
  Evaluates-unique (absent p) (counted k q s l n m e) = cc
  Evaluates-unique (was_dropped j p r) (absent q) = cc
  Evaluates-unique (was_dropped j p r) (was_dropped k q s) = refl
  Evaluates-unique (was_dropped j p r) (was_committed k q s) = cc
  Evaluates-unique (was_dropped j p r) (too_few k q s l) = cc
  Evaluates-unique (was_dropped j p r) (counted k q s l n m e) = cc
  Evaluates-unique (was_committed j p r) (absent q) = cc
  Evaluates-unique (was_committed j p r) (was_dropped k q s) = cc
  Evaluates-unique (was_committed j p r) (was_committed k q s) = refl
  Evaluates-unique (was_committed j p r) (too_few k q s l) = cc
  Evaluates-unique (was_committed j p r) (counted k q s l n m e) = cc
  Evaluates-unique (too_few j p r i) (absent q) = cc
  Evaluates-unique (too_few j p r i) (was_dropped k q s) = cc
  Evaluates-unique (too_few j p r i) (was_committed k q s) = cc
  Evaluates-unique (too_few j p r i) (too_few k q s l) = refl
  Evaluates-unique (too_few j p r i) (counted k q s l n m e) = cc
  Evaluates-unique (counted j p r i x y d) (absent q) = cc
  Evaluates-unique (counted j p r i x y d) (was_dropped k q s) = cc
  Evaluates-unique (counted j p r i x y d) (was_committed k q s) = cc
  Evaluates-unique (counted j p r i x y d) (too_few k q s l) = cc
  Evaluates-unique {t} {v} (counted j p r i x y d) (counted k q s l n m e) =
      let same = ap Core.endorsements (some-injective k j (sym q ∙ p)) in
      cc (CountsValid-unique y (subst (λ (es : List Endorsement). CountsValid t v es n) same m))

  NoneApplicable-unique :
      {t : ℕ} {v : View} {cs : List String} {b c : Bool}
      → NoneApplicable t v cs b
      → NoneApplicable t v cs c
      → b ≡ c
  NoneApplicable-unique end end = refl
  NoneApplicable-unique (stop x) (stop y) = refl
  NoneApplicable-unique (stop x) (go_on y ys) = cc (Evaluates-unique x y)
  NoneApplicable-unique (go_on x xs) (stop y) = cc (Evaluates-unique x y)
  NoneApplicable-unique (go_on x xs) (go_on y ys) = NoneApplicable-unique xs ys

  CountsValid-unique :
      {t : ℕ} {v : View} {es : List Endorsement} {m n : ℕ}
      → CountsValid t v es m
      → CountsValid t v es n
      → m ≡ n
  CountsValid-unique no_more no_more = refl
  CountsValid-unique (valid x xs) (valid y ys) = ap suc (CountsValid-unique xs ys)
  CountsValid-unique (valid x xs) (invalid y ys) = cc (NoneApplicable-unique x y)
  CountsValid-unique (invalid x xs) (valid y ys) = cc (NoneApplicable-unique x y)
  CountsValid-unique (invalid x xs) (invalid y ys) = CountsValid-unique xs ys
