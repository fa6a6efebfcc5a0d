-- ===== src/Bbc.antt =====
-- consensus/bbc/veto.go: the broadcast consensus with a veto. The key ring's `Sign` and `Verify`,
-- the hash of a choice and the network's `Broadcast` are parameters; the messages that the network
-- delivers are a sequence, at whose end the context is cancelled and the channel is closed.
use pnyxdb.Base.{
  ℕ, ◌≡◌, subst, refl, String, Bool, true, false, not, ◌&&◌, Option, none, some, List, [], ◌∷◌,
  Bytes, ◌⊎◌, str_eq, contains, length, ◌==◌, All, if◌then◌else◌, inl, inr, arith, Bool-cases,
  Option-cases,
}
use pnyxdb.Consensus.Query.{Proof}

-- `Choice`
pub record Choice : Type 0 where
  pub identifier : String
  pub emitter : String
  pub choice : Bool
  pub proofs : List Proof
  pub signature : Bytes

pub data Error : Type 0 where
  hash_error sign_error broadcast_error : Error

-- What `Execute` returns, with the messages it sent.
pub data Executed : Type 0 where
  decided : Bool → List Proof → List Choice → Executed
  failed : Error → Executed

-- A set of strings, `map[string]bool`.
insert_name : String → List String → List String
unfolding contains
insert_name s xs = if contains s xs then xs else s ∷ xs

pub record Node : Type 1 where
  pub identity : String
  pub threshold : ℕ
  pub hash : Choice → Option Bytes
  pub sign : Bytes → Option Bytes
  pub verify : String → Bytes → Bytes → Bool
  pub broadcast : Choice → Bool

module _ (node : Node) where
  -- The acceptor and the two checks that skip a message.
  pub valid : String → Choice → Bool
  valid id c =
      str_eq c.identifier id
      && (elim (node.hash c) [ none ↦ false | some h ↦ node.verify c.emitter h c.signature ])

  -- The loop of `Execute`.
  receive : String → List Choice → Bool → List String → List Choice → Executed
  unfolding valid insert_name
  receive id sent sent_f received [] = decided true [] sent
  receive id sent sent_f received (c ∷ cs) =
      let received' = insert_name c.emitter received in
      let skipped = receive id sent sent_f received cs in
      let counted = receive id sent sent_f received' cs in
      if not (valid id c)
      then skipped
      else if not c.choice
      then decided false c.proofs (if not sent_f && node.broadcast c then c ∷ sent else sent)
      else if length received' == node.threshold
      then decided true [] sent
      else counted

  abbrev own_choice : String → Bool → List Proof → Bytes → Choice
  own_choice id choice proofs signature = record {
    identifier = id;
    emitter = node.identity;
    choice = choice;
    proofs = proofs;
    signature = signature;
  }

  -- `Execute`
  unfoldable pub execute : String → Bool → List Proof → List Choice → Executed
  unfolding receive
  execute id choice proofs messages = elim (node.hash (own_choice id choice proofs [])) [
    | none ↦ failed hash_error
    | some h ↦ elim (node.sign h) [
      | none ↦ failed sign_error
      | some s ↦
          let signed = own_choice id choice proofs s in
          if not (node.broadcast signed)
          then failed broadcast_error
          else receive id (signed ∷ []) (not choice) [] messages
    ]
  ]

  Refuses : String → Choice → Type 0
  Refuses id c = (valid id c ≡ true) × (c.choice ≡ false)

  -- Membership of a choice in the messages.
  abbrev pub Mem : Choice → List Choice → Type 0
  Mem c [] = ⊥
  Mem c (d ∷ cs) = (d ≡ c) ⊎ Mem c cs

  -- Some valid message of the sequence approves, and comes from the emitter.
  pub Approved : String → List Choice → String → Type 0
  Approved id cs e =
      (c : Choice) × Mem c cs × (valid id c ≡ true) × (c.choice ≡ true) × (c.emitter ≡ e)

  -- No emitter twice.
  pub data Distinct : List String → Type 0 where
    no_emitters : Distinct []
    emitter_first :
        {e : String} {es : List String} → contains e es ≡ false → Distinct es → Distinct (e ∷ es)

  insert_name-Distinct : (e : String) {es : List String} → Distinct es → Distinct (insert_name e es)
  unfolding insert_name
  insert_name-Distinct e {es} d = elim (Bool-cases (contains e es)) [
    | inl t ↦ rw t d
    | inr t ↦ rw t (emitter_first t d)
  ]

  insert_name-All :
      (P : String → Type 0) (e : String) (es : List String)
      → P e
      → All P es
      → All P (insert_name e es)
  unfolding insert_name
  insert_name-All P e es p ps = elim (Bool-cases (contains e es)) [
    | inl t ↦ rw t ps
    | inr t ↦ rw t (p, ps)
  ]

  -- What a decision shows of the messages.
  pub Justified : String → List Choice → Bool → List Proof → Type 0
  Justified id cs true proofs =
      ((c : Choice) → Mem c cs → valid id c ≡ true → c.choice ≡ true)
      ⊎ ((es : List String) × (length es ≡ node.threshold) × Distinct es × All (Approved id cs) es)
  Justified id cs false proofs = (c : Choice) × Mem c cs × Refuses id c × (proofs ≡ c.proofs)

  -- Skipping an invalid message, or an approval, leaves the others to be received.
  quiet-step :
      (id : String) (whole cs : List Choice) (c : Choice)
      → (valid id c ≡ true → c.choice ≡ true)
      → ((x : Choice) → Mem x whole → Mem x (c ∷ cs) ⊎ (valid id x ≡ true → x.choice ≡ true))
      → (x : Choice) → Mem x whole
      → Mem x cs ⊎ (valid id x ≡ true → x.choice ≡ true)
  quiet-step id whole cs c ok quiet x m = elim (quiet x m) [
    | inl (inl e) ↦ inr (subst (λ (y : Choice). valid id y ≡ true → y.choice ≡ true) e ok)
    | inl (inr n) ↦ inl n
    | inr q ↦ inr q
  ]

  receive-Justified :
      (id : String) (sent : List Choice) (sent_f : Bool) (es : List String) (whole cs : List Choice)
      → ((c : Choice) → Mem c cs → Mem c whole)
      → ((c : Choice) → Mem c whole → Mem c cs ⊎ (valid id c ≡ true → c.choice ≡ true))
      → Distinct es
      → All (Approved id whole) es
      → (b : Bool) × (proofs : List Proof) × (out : List Choice) × (receive id sent sent_f es cs
          ≡ decided b proofs out)
        × Justified id whole b proofs
  unfolding receive Justified Approved Refuses
  receive-Justified id sent sent_f es whole [] lift quiet d ok =
      (true, [], sent, refl, inl (λ c m v. elim (quiet c m) [ inl n ↦ elim n [ ] | inr q ↦ q v ]))
  receive-Justified id sent sent_f es whole (c ∷ cs) lift quiet d ok =
      let later : (x : Choice) → Mem x cs → Mem x whole = λ x m. lift x (inr m) in
      let approved : valid id c ≡ true
          → c.choice ≡ true
          → All (Approved id whole) (insert_name c.emitter es) =
        λ t u.
          insert_name-All (Approved id whole) c.emitter es (c, lift c (inl refl), t, u, refl) ok in
      let distinct : Distinct (insert_name c.emitter es) = insert_name-Distinct c.emitter d in
      elim (Bool-cases (valid id c)) [
        | inr t ↦
            let (b, p, o, e, j) =
              receive-Justified id sent sent_f es whole cs later
                (quiet-step id whole cs c (λ v. cc) quiet) d ok in
            (b, p, o, ground arith, j)
        | inl t ↦ elim (Bool-cases c.choice) [
          | inr u ↦ (
            false,
            c.proofs,
            (if not sent_f && node.broadcast c then c ∷ sent else sent),
            ground arith,
            (c, lift c (inl refl), (t, u), refl),
          )
          | inl u ↦ elim (Bool-cases (length (insert_name c.emitter es) == node.threshold)) [
            | inl w ↦ (
              true,
              [],
              sent,
              ground arith,
              inr (insert_name c.emitter es, ground arith, distinct, approved t u),
            )
            | inr w ↦
                let (b, p, o, e, j) =
                  receive-Justified id sent sent_f (insert_name c.emitter es) whole cs later
                    (quiet-step id whole cs c (λ v. u) quiet) distinct (approved t u) in
                (b, p, o, ground arith, j)
          ]
        ]
      ]

  -- `Execute` fails before it receives anything, or it decides, and the messages justify what it
  -- decides. It decides against only on a valid refusal, and returns that refusal's proofs; it
  -- decides for only if no valid message refuses and the messages end, or if valid approvals come
  -- from as many emitters as the threshold says.
  pub execute-Justified :
      (id : String) (choice : Bool) (proofs : List Proof) (messages : List Choice)
      → ((e : Error) × (execute id choice proofs messages ≡ failed e))
        ⊎ ((b : Bool) × (dp : List Proof) × (out : List Choice) × (execute id choice proofs messages
              ≡ decided b dp out)
            × Justified id messages b dp)
  unfolding execute
  execute-Justified id choice proofs messages =
      elim (Option-cases (node.hash (own_choice id choice proofs []))) [
        | inl p ↦ inl (hash_error, rw (p, execute) refl)
        | inr (h, p) ↦ elim (Option-cases (node.sign h)) [
          | inl q ↦ inl (sign_error, rw (p, q, execute) refl)
          | inr (s, q) ↦ elim (Bool-cases (node.broadcast (own_choice id choice proofs s))) [
            | inr r ↦ inl (broadcast_error, rw (p, q, r, execute) refl)
            | inl r ↦
                let signed = own_choice id choice proofs s in
                let (b, dp, out, e, j) =
                  receive-Justified id (signed ∷ []) (not choice) [] messages messages (λ c m. m)
                    (λ c m. inl m) no_emitters tt in
                inr (b, dp, out, rw (p, q, r, execute) e, j)
          ]
        ]
      ]
