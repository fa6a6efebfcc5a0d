-- ===== src/Keyring/Ring/Rebuilt.antt =====
-- Building the web of trust a second time changes nothing.
use pnyxdb.Base.{
  ℕ, zero, suc, ◌≡◌, refl, sym, ap, ◌∙◌, String, Option, some, [], ◌∷◌, Dict, lookup, insert,
  map_values, length, str_eq, eq_iff, Bool-cases, Option-cases, List-cases, inl, inr,
  some-injective,
}
use pnyxdb.Keyring.Web.{
  Signature, Key, Web, populate, signatures_of, sign_one, sign_all, visit, build_trust_web,
}
use pnyxdb.Keyring.Ring.{rebuild, rebuilt}

-- A key without what the web computes.
abbrev pub reset : Key → Key
reset key = record key { effective_trust = key.trust; signed_by = [] }

abbrev pub strip : Dict Key → Dict Key
strip keys = map_values reset keys

strip-insert :
    (u : String) (j k : Key) (keys : Dict Key)
    → lookup u keys ≡ some j
    → reset k ≡ reset j
    → strip (insert u k keys) ≡ strip keys
unfolding lookup insert
strip-insert u j k [] h e = cc
strip-insert u j k ((v, l) ∷ keys) h e = elim (Bool-cases (str_eq v u)) [
  | inl t ↦
      let same : l ≡ j = some-injective _ _ (rw (t, lookup) at h) in
      let name : u ≡ v = sym ((eq_iff v u).0 t) in
      let entry : (u, reset k) ≡ (v, reset l) = λ i. (name i, (e ∙ ap reset (sym same)) i) in
      rw (t, insert) (ap (λ (x : String × Key). x ∷ strip keys) entry)
  | inr t ↦
      rw (t, insert)
        (ap (λ (m : Dict Key). (v, reset l) ∷ m) (strip-insert u j k keys (rw (t, lookup) at h) e))
]

strip-sign_one :
    (current signee : String) (s : Signature) (web : Web)
    → strip (sign_one current signee s web).keys ≡ strip web.keys
unfolding sign_one
strip-sign_one current signee s web = elim (Option-cases (lookup signee web.keys)) [
  | inl p ↦ rw (p, sign_one) refl
  | inr (key, p) ↦ rw (p, sign_one) (strip-insert signee key _ web.keys p refl)
]

strip-sign_all :
    (current : String) (ss : Dict Signature) (web : Web)
    → strip (sign_all current ss web).keys ≡ strip web.keys
unfolding sign_all
strip-sign_all current [] web = refl
strip-sign_all current ((signee, s) ∷ ss) web =
    strip-sign_all current ss (sign_one current signee s web) ∙ strip-sign_one current signee s web

strip-visit :
    (fuel : ℕ) (web : Web) (keys : Dict Key)
    → visit fuel web ≡ some keys
    → strip keys ≡ strip web.keys
unfolding visit
strip-visit zero web keys h = cc
strip-visit (suc fuel) web keys h = elim (List-cases web.queue) [
  | inl p ↦ ap strip (sym (some-injective _ _ (rw (p, visit) at h)))
  | inr (current, queue, p) ↦
      strip-visit fuel _ keys (rw (p, visit) at h)
      ∙ strip-sign_all current (signatures_of (lookup current web.keys))
          (record web { queue = queue })
]

strip-populate : (keys : Dict Key) → strip (populate keys).keys ≡ strip keys
unfolding populate
strip-populate [] = refl
strip-populate ((u, k) ∷ keys) = ap (λ (m : Dict Key). (u, reset k) ∷ m) (strip-populate keys)

populate-strip : (keys : Dict Key) → populate (strip keys) ≡ populate keys
unfolding populate
populate-strip [] = refl
populate-strip ((u, k) ∷ keys) = rw (populate-strip keys) refl

length-strip : (keys : Dict Key) → length (strip keys) ≡ length keys
length-strip [] = refl
length-strip (e ∷ keys) = ap suc (length-strip keys)

-- Keys that differ in what the web computes have the same web.
build_trust_web-strip :
    (a b : Dict Key)
    → strip a ≡ strip b
    → build_trust_web (suc (length a)) a ≡ build_trust_web (suc (length b)) b
unfolding build_trust_web
build_trust_web-strip a b e =
    let size : length a ≡ length b = sym (length-strip a) ∙ ap length e ∙ length-strip b in
    let start : populate a ≡ populate b =
      sym (populate-strip a) ∙ ap populate e ∙ populate-strip b in
    ap (λ (n : ℕ). visit (suc n) (populate a)) size ∙ ap (visit (suc (length b))) start

pub rebuild-rebuild : (keys : Dict Key) → rebuild (rebuild keys) ≡ rebuild keys
unfolding rebuild rebuilt build_trust_web
rebuild-rebuild keys = elim (Option-cases (build_trust_web (suc (length keys)) keys)) [
  | inl p ↦
      let same : rebuild keys ≡ keys = ap (λ (o : Option (Dict Key)). rebuilt o keys) p in
      ap rebuild same
  | inr (out, p) ↦
      let same : rebuild keys ≡ out = ap (λ (o : Option (Dict Key)). rebuilt o keys) p in
      let again =
        build_trust_web-strip out keys
          (strip-visit (suc (length keys)) (populate keys) out p ∙ strip-populate keys) in
      ap rebuild same ∙ ap (λ (o : Option (Dict Key)). rebuilt o out) (again ∙ p) ∙ sym same
]
