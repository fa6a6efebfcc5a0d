-- ===== src/Network/Recovery/Peers.antt =====
-- The client's check of responses that agree.
use pnyxdb.Base.{
  ℕ, suc, ◌+◌, ◌≡◌, ◌≢◌, ◌≤◌, refl, sym, ap, ◌∙◌, String, true, false, none, some, List, [], ◌∷◌,
  ◌++◌, map, length, length-append, append_assoc, bytes_equal_refl, str_eq, eq_refl, ltb, ◌==◌,
  arith,
}
use pnyxdb.Consensus.Version.{matches}
use pnyxdb.Network.Recovery.{
  Response, accepted, delivered, checked, check_from, check_recovery_responses, collect,
  request_recovery, differs-none,
}

-- As many copies of a response as the list has elements.
abbrev pub copies {ℓ} : {A : Type ℓ} → Response → List A → List Response
copies r xs = map (λ x. r) xs

check_from-copies :
    {A : Type 0} (key : String) (r : Response) (i : ℕ) (xs : List A)
    → r.key ≡ key
    → matches r.version r.version ≡ none
    → check_from key r i (copies r xs) ≡ accepted r
unfolding check_from
check_from-copies key r i [] named same = refl
check_from-copies key r i (x ∷ xs) named same =
    let ih = check_from-copies key r (i + 1) xs named same in
    let right : str_eq r.key key ≡ true = rw named (eq_refl key) in
    let alike = (differs-none r.version r.version).1 same in
    let equal = bytes_equal_refl r.response_data in ground (arith, ih, right, alike, equal)

copies_snoc :
    {A : Type 0} (r : Response) (xs : List A) (x : A)
    → copies r xs ++ (r ∷ []) ≡ copies r (xs ++ (x ∷ []))
copies_snoc r [] x = refl
copies_snoc r (y ∷ xs) x = ap (λ (rs : List Response). r ∷ rs) (copies_snoc r xs x)

length-copies : {A : Type 0} (r : Response) (xs : List A) → length (copies r xs) ≡ length xs
length-copies r [] = refl
length-copies r (x ∷ xs) = ap suc (length-copies r xs)

check-copies :
    {A : Type 0} (key : String) (r : Response) (xs : List A)
    → length xs ≢ 0
    → r.key ≡ key
    → matches r.version r.version ≡ none
    → check_recovery_responses key (copies r xs) ≡ accepted r
unfolding check_recovery_responses
check-copies key r [] some_peer named same = absurd (some_peer refl)
check-copies key r (x ∷ xs) some_peer named same = check_from-copies key r 0 (x ∷ xs) named same

module _ (quorum : ℕ) (key : String) (r : Response) (named : r.key ≡ key)
    (same : matches r.version r.version ≡ none) where
  collect-copies :
      {A : Type 0} (ys : List A) (x : A) (xs : List A)
      → length (ys ++ (x ∷ xs)) ≡ quorum
      → collect quorum key (copies r ys) (map (λ (x : A). delivered (some r)) (x ∷ xs))
        ≡ checked (accepted r)
  unfolding collect
  collect-copies ys x [] full =
      let all = copies_snoc r ys x in
      let size : length (copies r ys ++ (r ∷ [])) ≡ quorum =
        ap length all ∙ length-copies r (ys ++ (x ∷ [])) ∙ full in
      let some_peer : length (ys ++ (x ∷ [])) ≢ 0 =
        λ e. omega (arith, length-append ys (x ∷ []), e) in
      let reached : (length (copies r ys ++ (r ∷ [])) == quorum) ≡ true = ground (arith, size) in
      rw reached (
        ap checked (
          ap (check_recovery_responses key) all
          ∙ check-copies key r (ys ++ (x ∷ [])) some_peer named same))
  collect-copies ys x (z ∷ zs) full =
      let all = copies_snoc r ys x in
      let size = ap length all ∙ length-copies r (ys ++ (x ∷ [])) in
      let more = append_assoc ys (x ∷ []) (z ∷ zs) in
      let longer : length (ys ++ (x ∷ [])) + suc (length zs) ≡ quorum =
        sym (length-append (ys ++ (x ∷ [])) (z ∷ zs)) ∙ ap length more ∙ full in
      let not_yet : (length (copies r ys ++ (r ∷ [])) == quorum) ≡ false =
        ground (arith, size, longer) in
      let ih = collect-copies (ys ++ (x ∷ [])) z zs (ap length more ∙ full) in
      rw not_yet (
        ap (λ (rs : List Response). collect quorum key rs (map (λ x. delivered (some r)) (z ∷ zs)))
          all
        ∙ ih)

  -- A client that asks as many peers as its quorum, not 0, and gets the same response of each, which
  -- bears the key and a version that matches itself, accepts that response.
  pub request_recovery-copies :
      {A : Type 0} (peers : ℕ) (xs : List A)
      → length xs ≡ quorum
      → quorum ≢ 0
      → quorum ≤ peers
      → request_recovery quorum peers key (map (λ (x : A). delivered (some r)) xs)
        ≡ checked (accepted r)
  unfolding request_recovery
  request_recovery-copies peers [] size some_peer enough = absurd (some_peer (sym size))
  request_recovery-copies peers (x ∷ xs) size some_peer enough =
      let runs = collect-copies [] x xs size in
      let asks : (quorum == 0) ≡ false = ground (arith, some_peer) in
      let many : ltb peers quorum ≡ false = ground (arith, enough) in rw (asks, many) runs
