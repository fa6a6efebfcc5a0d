-- ===== src/Network/Redis/Reading.antt =====
-- What a reader of the stream has delivered.
use pnyxdb.Base.{
  ℕ, zero, suc, ◌≡◌, ◌≢◌, refl, sym, ap, ◌∙◌, subst, String, Bool, false, none, List, [], ◌∷◌, ◌++◌,
  Bytes, lookup, Distinct, str_eq, eq_iff, eq_refl, append_assoc, append-nil, if◌then◌else◌, arith,
  Bool-cases, inl, inr, ◌⊎◌,
}
use pnyxdb.Network.Protocol.{Protobuf, Result, ok, err, fault, unpack}
use pnyxdb.Network.Redis.{
  Entry, Status, running, returned, panicked, Reader, send, Reply, nothing, entries, process,
  consume, read_round, start,
}

-- The entries behind the one with an identifier.
unfoldable pub after_id : String → List Entry → List Entry
after_id i [] = []
after_id i (e ∷ es) = let rest = after_id i es in if str_eq e.0 i then es else rest

-- The stream, behind an entry that stands for the identifier "0".
abbrev pub with_zero : List Entry → List Entry
with_zero stream = ("0", []) ∷ stream

absent_cons :
    (i : String) (xs : List Entry) (e : Entry) (ys : List Entry)
    → lookup i (xs ++ (e ∷ ys)) ≡ none
    → str_eq e.0 i ≡ false
unfolding lookup
absent_cons i [] e ys h = ground (arith, h)
absent_cons i (x ∷ xs) e ys h = absent_cons i xs e ys (ground (arith, h))

after_id-Distinct :
    (xs : List Entry) (e : Entry) (ys : List Entry)
    → Distinct (xs ++ (e ∷ ys))
    → after_id e.0 (xs ++ (e ∷ ys)) ≡ ys
unfolding after_id
after_id-Distinct [] e ys d = rw (eq_refl e.0)
after_id-Distinct (x ∷ xs) e ys d =
    let other = absent_cons x.0 xs e ys d.0 in
    let apart : str_eq x.0 e.0 ≡ false = ground (arith, other, eq_iff x.0 e.0, eq_iff e.0 x.0) in
    rw apart (after_id-Distinct xs e ys d.1)

module _ (P : Protobuf) (acceptor : Protobuf.Message P → Bool) where
  open P use {Message}

  -- The messages of the entries that are to be delivered.
  abbrev message_of : Result (Message × Bytes) → List Message
  message_of (ok (m, rest)) = if acceptor m then m ∷ [] else []
  message_of (err e) = []
  message_of fault = []

  abbrev pub messages : List Entry → List Message
  messages [] = []
  messages (e ∷ es) = message_of (unpack P e.1) ++ messages es

  messages_snoc :
      (es : List Entry) (e : Entry)
      → messages (es ++ (e ∷ [])) ≡ messages es ++ message_of (unpack P e.1)
  messages_snoc [] e = append-nil (message_of (unpack P e.1))
  messages_snoc (x ∷ es) e =
      ap (λ (ms : List Message). message_of (unpack P x.1) ++ ms) (messages_snoc es e)
      ∙ sym (append_assoc (message_of (unpack P x.1)) (messages es) (message_of (unpack P e.1)))

  -- What the reader has delivered of a stream: the messages of the entries `seen`, in order; and
  -- while it runs it asks for those behind.
  pub record Delivered (stream : List Entry) (r : Reader Message) : Type 0 where
    pub seen : List Entry
    pub rest : List Entry
    pub parts : stream ≡ seen ++ rest
    pub output : r.output ≡ messages seen
    pub next : r.status ≡ running → after_id r.last_seen (with_zero stream) ≡ rest

  -- An event: its message goes to the output, or the reader ends.
  process-output :
      (u : Result (Message × Bytes)) (r : Reader Message)
      → r.status ≡ running
      → ((process P acceptor u r).status ≡ running
          → (process P acceptor u r).output ≡ r.output ++ message_of u)
        × ((process P acceptor u r).status ≢ running → (process P acceptor u r).output ≡ r.output)
        × ((process P acceptor u r).last_seen ≡ r.last_seen)
  unfolding process send
  process-output (err e) r h = (λ s. sym (append-nil r.output), λ s. refl, refl)
  process-output fault r h = (λ s. cc, λ s. refl, refl)
  process-output (ok (m, rest)) r h = elim (Bool-cases (acceptor m)) [
    | inr t ↦ rw t (λ s. sym (append-nil r.output), λ s. refl, refl)
    | inl t ↦ rw t (sent r.left refl)
  ]
    where
      sent :
          (n : ℕ)
          → r.left ≡ n
          → ((send m r).status ≡ running → (send m r).output ≡ r.output ++ (m ∷ []))
            × ((send m r).status ≢ running → (send m r).output ≡ r.output)
            × ((send m r).last_seen ≡ r.last_seen)
      sent zero p = rw (p, send) (λ s. cc, λ s. refl, refl)
      sent (suc n) p = rw (p, send) (λ s. refl, λ s. absurd (s h), refl)

  Status-cases : (s : Status) → (s ≡ running) ⊎ (s ≢ running)
  Status-cases running = inl refl
  Status-cases returned = inr (λ e. cc)
  Status-cases panicked = inr (λ e. cc)

  stops : {A : Type 0} (s : Status) (x y : A) → s ≢ running → (elim s [ running ↦ x | _ ↦ y ]) ≡ y
  stops running x y h = absurd (h refl)
  stops returned x y h = refl
  stops panicked x y h = refl

  consume-Delivered :
      (stream seen es rest : List Entry) (r : Reader Message)
      → Distinct (with_zero stream)
      → stream ≡ seen ++ (es ++ rest)
      → r.status ≡ running
      → r.output ≡ messages seen
      → after_id r.last_seen (with_zero stream) ≡ es ++ rest
      → Delivered stream (consume P acceptor es r)
  unfolding consume
  consume-Delivered stream seen [] rest r d parts runs out behind = record {
    seen = seen;
    rest = rest;
    parts = parts;
    output = out;
    next = λ s. behind;
  }
  consume-Delivered stream seen (e ∷ es) rest r d parts runs out behind =
      let saw : Reader Message = record r { last_seen = e.0 } in
      let next = process P acceptor (unpack P e.1) saw in
      let (goes, ends, same) = process-output (unpack P e.1) saw runs in
      elim (Status-cases next.status) [
        | inl s ↦
            let split : stream ≡ (seen ++ (e ∷ [])) ++ (es ++ rest) =
              parts ∙ sym (append_assoc seen (e ∷ []) (es ++ rest)) in
            let place : after_id next.last_seen (with_zero stream) ≡ es ++ rest =
              ap (λ (i : String). after_id i (with_zero stream)) same
              ∙ ap (λ (xs : List Entry). after_id e.0 (with_zero xs)) parts
              ∙ after_id-Distinct (with_zero seen) e (es ++ rest)
                  (subst (λ (xs : List Entry). Distinct (with_zero xs)) parts d) in
            rw (s, consume)
              (consume-Delivered stream (seen ++ (e ∷ [])) es rest next d split s
                (goes s
                  ∙ ap (λ (ms : List Message). ms ++ message_of (unpack P e.1)) out
                  ∙ sym (messages_snoc seen e))
                place)
        | inr s ↦
            subst (Delivered stream) (sym (stops next.status (consume P acceptor es next) next s))
              (record {
                seen = seen;
                rest = e ∷ (es ++ rest);
                parts = parts;
                output = ends s ∙ out;
                next = λ t. absurd (s t);
              })
      ]

  -- What XREAD documents, where no entry is trimmed before it is read: nothing, or the next entries
  -- behind the identifier.
  unfoldable pub Answers : List Entry → String → Reply → Type 0
  Answers stream last nothing = Unit
  Answers stream last (entries es) =
      (rest : List Entry) × (after_id last (with_zero stream) ≡ es ++ rest)

  -- The rounds of the loop while it runs.
  pub data Rounds (stream : List Entry) (r : Reader Message) : Reader Message → Type 0 where
    begin : Rounds stream r r
    after :
        (reply : Reply) {r' : Reader Message}
        → Rounds stream r r'
        → r'.status ≡ running
        → Answers stream r'.last_seen reply
        → Rounds stream r (read_round P acceptor reply r')

  round-Delivered :
      (stream : List Entry) (r : Reader Message) (reply : Reply)
      → Distinct (with_zero stream)
      → Delivered stream r
      → r.status ≡ running
      → Answers stream r.last_seen reply
      → Delivered stream (read_round P acceptor reply r)
  unfolding read_round Answers
  round-Delivered stream r nothing d old runs answer = waits r.left refl
    where
      waits : (n : ℕ) → r.left ≡ n → Delivered stream (read_round P acceptor nothing r)
      waits zero p =
          rw (p, read_round)
            (record {
              seen = old.seen;
              rest = old.rest;
              parts = old.parts;
              output = old.output;
              next = λ s. cc;
            })
      waits (suc n) p = rw (p, read_round) old
  round-Delivered stream r (entries es) d old runs (rest, behind) =
      consume-Delivered stream old.seen es rest r d
        (old.parts ∙ ap (λ (xs : List Entry). old.seen ++ xs) (sym (old.next runs) ∙ behind)) runs
        old.output behind

  -- Where the identifiers of the stream are distinct and are not "0", and XREAD answers as it
  -- documents, however many entries it returns at a time: in every run of the loop from its start,
  -- the output has the messages of some first part of the stream that are unpacked and accepted,
  -- each once and in order; and while the loop runs, it reads on right behind that part.
  pub Rounds-Delivered :
      (stream : List Entry) (left : ℕ) (r : Reader Message)
      → Distinct (with_zero stream)
      → Rounds stream (start left) r
      → Delivered stream r
  unfolding after_id
  Rounds-Delivered stream left r d begin = record {
    seen = [];
    rest = stream;
    parts = refl;
    output = refl;
    next = λ s. refl;
  }
  Rounds-Delivered stream left r d (after reply {r'} run runs answer) =
      round-Delivered stream r' reply d (Rounds-Delivered stream left r' d run) runs answer
