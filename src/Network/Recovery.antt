-- ===== src/Network/Recovery.antt =====
-- network/gossipsub/recovery.go: the client's side of a recovery. The streams to the peers run at
-- the same time: what they deliver is a sequence of events, in the order of arrival.
pub mod Stream
pub mod Peers
use pnyxdb.Base.{
  ℕ, ◌+◌, ◌≡◌, ◌≢◌, subst, refl, sym, ap, ◌∙◌, String, Bool, true, false, not, ◌&&◌, Option, none,
  some, List, [], ◌∷◌, ◌++◌, map, append_assoc, Bytes, bytes_equal, bytes_equal_sound, str_eq,
  eq_iff, length, ltb, ◌==◌, All, if◌then◌else◌, if-cases, inl, inr, arith, ◌↔◌,
}
use pnyxdb.Consensus.Query.{Version}
use pnyxdb.Consensus.Version.{matches}
use pnyxdb.Consensus.Version

-- `RecoveryResponse`
pub record Response : Type 0 where
  pub key : String
  pub version : Option Version
  pub response_data : Bytes

pub data Error : Type 0 where
  undefined_behavior key_mismatch version_mismatch data_mismatch : Error

pub data Checked : Type 0 where
  accepted : Response → Checked
  rejected : Error → Checked

differs : Option Version → Option Version → Bool
unfolding matches
differs v w = elim (matches v w) [ none ↦ false | some e ↦ true ]

-- The loop of `checkRecoveryResponses` from index `i`.
check_from : String → Response → ℕ → List Response → Checked
unfolding differs bytes_equal
check_from key first i [] = accepted first
check_from key first i (r ∷ rs) =
    let rest = check_from key first (i + 1) rs in
    if not (str_eq first.key key)
    then rejected key_mismatch
    else if ltb 0 i && differs first.version r.version
    then rejected version_mismatch
    else if ltb 0 i && not (bytes_equal first.response_data r.response_data)
    then rejected data_mismatch
    else rest

-- `checkRecoveryResponses`
unfoldable pub check_recovery_responses : String → List Response → Checked
unfolding check_from
check_recovery_responses key [] = rejected undefined_behavior
check_recovery_responses key (r ∷ rs) = check_from key r 0 (r ∷ rs)

pub data Event : Type 0 where
  -- A stream delivers a response, or nil if it failed.
  delivered : Option Response → Event
  done : Event

pub data Requested : Type 0 where
  checked : Checked → Requested
  skipped not_enough_peers invalid_response cancelled waiting : Requested

-- The loop of `RequestRecovery`, over the events that are left.
collect : ℕ → String → List Response → List Event → Requested
unfolding check_recovery_responses
collect quorum key responses [] = waiting
collect quorum key responses (delivered none ∷ es) = invalid_response
collect quorum key responses (delivered (some r) ∷ es) =
    let responses' = responses ++ (r ∷ []) in
    let rest = collect quorum key responses' es in
    if length responses' == quorum then checked (check_recovery_responses key responses') else rest
collect quorum key responses (done ∷ es) = cancelled

-- `RequestRecovery`: the quorum, the number of peers and the key. The request itself always packs.
unfoldable pub request_recovery : ℕ → ℕ → String → List Event → Requested
unfolding collect
request_recovery quorum peers key es =
    if quorum == 0
    then skipped
    else if ltb peers quorum
    then not_enough_peers
    else collect quorum key [] es

-- The first response bears the key, and the others bear its version and its data.
pub Agreed : String → Response → List Response → Type 0
Agreed key r rs =
    (r.key ≡ key)
    × ((rest : List Response) × (rs ≡ r ∷ rest)
        × All
            (λ (s : Response).
              (matches r.version s.version ≡ none) × (s.response_data ≡ r.response_data))
            rest)

differs-none : (v w : Option Version) → (differs v w ≡ false) ↔ (matches v w ≡ none)
unfolding differs
differs-none v w = go (matches v w)
  where
    go :
        (o : Option Version.Error)
        → ((elim o [ none ↦ false | some e ↦ true ]) ≡ false) ↔ (o ≡ none)
    go none = (λ h. refl, λ h. refl)
    go (some e) = (λ h. cc, λ h. cc)

-- The branches of a round of the loop, after the first.
check_from-accepted :
    (key : String) (first r : Response) (i : ℕ) (rs : List Response)
    → check_from key first (i + 1) rs ≡ accepted r
    → (r ≡ first)
      × All
          (λ (s : Response).
            (matches first.version s.version ≡ none) × (s.response_data ≡ first.response_data))
          rs
unfolding check_from
check_from-accepted key first r i [] h = (cc, tt)
check_from-accepted key first r i (s ∷ rs) h =
    let (same, equal, kept) : (matches first.version s.version ≡ none)
        × (s.response_data ≡ first.response_data)
        × (check_from key first (i + 1 + 1) rs ≡ accepted r) =
      ground (
        arith,
        differs-none first.version s.version,
        bytes_equal_sound first.response_data s.response_data,
      ) in
    let (here, others) = check_from-accepted key first r (i + 1) rs kept in
    (here, ((same, equal), others))

checked_of : Requested → Checked
checked_of (checked c) = c
checked_of r = rejected undefined_behavior

checked-injective : {c d : Checked} → checked c ≡ checked d → c ≡ d
unfolding checked_of
checked-injective e = ap checked_of e

-- A check of received responses accepts exactly when there is a first response, which bears the
-- key, and all others bear its version and its data; what it accepts is the first.
pub check_recovery_responses-accepted :
    (key : String) (r : Response) (rs : List Response)
    → check_recovery_responses key rs ≡ accepted r
    → Agreed key r rs
unfolding check_recovery_responses check_from Agreed
check_recovery_responses-accepted key r [] h = cc
check_recovery_responses-accepted key r (s ∷ rs) h =
    let (named, kept) : (s.key ≡ key) × (check_from key s 1 rs ≡ accepted r) =
      ground (arith, eq_iff s.key key) in
    let (here, others) = check_from-accepted key s r 0 rs kept in
    subst (λ (x : Response). Agreed key x (s ∷ rs)) (sym here) (named, (rs, refl, others))

collect-accepted :
    (quorum : ℕ) (key : String) (r : Response) (acc : List Response) (es : List Event)
    → collect quorum key acc es ≡ checked (accepted r)
    → (rs : List Response) × (rest : List Event) × (es
        ≡ map (λ (x : Response). delivered (some x)) rs ++ rest)
      × (length (acc ++ rs) ≡ quorum)
      × Agreed key r (acc ++ rs)
unfolding collect
collect-accepted quorum key r acc [] h = cc
collect-accepted quorum key r acc (done ∷ es) h = cc
collect-accepted quorum key r acc (delivered none ∷ es) h = cc
collect-accepted quorum key r acc (delivered (some s) ∷ es) h =
    elim (if-cases (length (acc ++ (s ∷ [])) == quorum) h) [
      | inl (full, p) ↦ (
        s ∷ [],
        es,
        refl,
        ground arith,
        check_recovery_responses-accepted key r (acc ++ (s ∷ [])) (checked-injective p),
      )
      | inr (more, p) ↦
          let (rs, rest, e, n, a) = collect-accepted quorum key r (acc ++ (s ∷ [])) es p in
          let joined : (acc ++ (s ∷ [])) ++ rs ≡ acc ++ (s ∷ rs) = append_assoc acc (s ∷ []) rs in
          (
            s ∷ rs,
            rest,
            ap (λ (t : List Event). delivered (some s) ∷ t) e,
            ap length (sym joined) ∙ n,
            subst (Agreed key r) joined a,
          )
    ]

-- If the client accepts a response, then the quorum is not 0, and the first events to arrive are
-- responses, as many as the quorum asks for; the one it accepts is the first of them, bears the
-- requested key, and all the others bear its version and its data.
pub request_recovery-quorum :
    (quorum peers : ℕ) (key : String) (es : List Event) (r : Response)
    → request_recovery quorum peers key es ≡ checked (accepted r)
    → (quorum ≢ 0)
      × ((rs : List Response) × (rest : List Event) × (es
            ≡ map (λ (x : Response). delivered (some x)) rs ++ rest)
          × (length rs ≡ quorum)
          × Agreed key r rs)
unfolding request_recovery
request_recovery-quorum quorum peers key es r h =
    let (some_quorum, run) : (quorum ≢ 0) × (collect quorum key [] es ≡ checked (accepted r)) =
      ground arith in
    (some_quorum, collect-accepted quorum key r [] es run)
