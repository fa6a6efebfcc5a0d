-- ===== src/Server/Submitted.antt =====
-- A transaction that a client submits: the query that other nodes get to see.
use pnyxdb.Base.{
  String, ◌≡◌, ◌≤◌, length, Option, map_some, refl, sym, ap, ◌∙◌, true, none, some, [], ◌∷◌, ◌++◌,
  Bytes, lookup, inl, inr, ◌⊎◌, some-injective, subst_some, subst, Bool-cases, Option-cases,
  >>=-eq-some,
}
use pnyxdb.Consensus.Query.{Query, new_query}
use pnyxdb.Consensus.Driver.{Driver}
use pnyxdb.Consensus.Engine.Node.{Node, Engine, query_message, broadcast}
use pnyxdb.Consensus.Engine.Signing.{hash_query, sign_query, verify_query, hash_of, verified}
use pnyxdb.Consensus.Engine.Handlers
use pnyxdb.Server.{Transaction, submit}

pair_parts : {A B : Type 0} {p q : A × B} → p ≡ q → (p.0 ≡ q.0) × (p.1 ≡ q.1)
pair_parts h = (ap (λ p. p.0) h, ap (λ p. p.1) h)

-- What the nodes of a network rely on: a node verifies what `other` signs, both use one hash
-- function, and both marshal a query with one requirement at most to the same bytes.
pub record Trusts (node other : Node) : Type 1 where
  pub signatures :
      (h s : Bytes) → Node.sign other h ≡ some s → Node.verify node (Node.identity other) h s ≡ true
  pub same_sha512 : (raw : Bytes) → Node.sha512 node raw ≡ Node.sha512 other raw
  pub same_bytes :
      (q : Query)
      → length q.requirements ≤ 1
      → Node.marshal_query node q ≡ Node.marshal_query other q

-- Such nodes hash a query with one requirement at most to the same, whatever its signature is.
hash_query-Trusts :
    (node other : Node) (q : Query) (s : Bytes)
    → Trusts node other
    → length q.requirements ≤ 1
    → hash_query node (record q { signature = s }) ≡ hash_query other q
unfolding hash_query
hash_query-Trusts node other q s trusts one =
    let bare : Query = record q { signature = [] } in
    ap (map_some node.sha512) (trusts.same_bytes bare one)
    ∙ map_some-same node.sha512 other.sha512 trusts.same_sha512 (other.marshal_query bare)
  where
    map_some-same :
        (f g : Bytes → Bytes)
        → ((raw : Bytes) → f raw ≡ g raw)
        → (o : Option Bytes) → map_some f o ≡ map_some g o
    map_some-same f g h none = refl
    map_some-same f g h (some raw) = ap some (h raw)

-- The query that a transaction asks for.
abbrev pub Asks : String → String → Transaction → Query → Type 0
Asks uuid identity tx q =
    (q.uuid ≡ uuid)
    × (q.emitter ≡ identity)
    × (q.policy ≡ tx.policy)
    × (q.deadline ≡ tx.deadline)
    × (q.requirements ≡ tx.requirements)
    × (q.operations ≡ tx.operations)

verify_query-fresh :
    (node : Node) {S : Type 0} (q : Query) (hash : Bytes) (peer : Engine S)
    → lookup q.uuid peer.hashes ≡ none
    → hash_query node q ≡ some hash
    → Node.verify node q.emitter hash q.signature ≡ true
    → (verify_query node q peer).0 ≡ true
unfolding verify_query
verify_query-fresh node q hash peer unknown hashed valid =
    let found : hash_of node q peer.hashes ≡ some hash = rw (unknown, hash_of) hashed in
    rw found (rw (valid, verified))

-- What `signQuery` returns is verified by a node that trusts the signer.
sign_query-verified :
    (node other : Node) {S : Type 0} (q signed : Query) (peer : Engine S)
    → Trusts node other
    → length q.requirements ≤ 1
    → q.emitter ≡ other.identity
    → lookup q.uuid peer.hashes ≡ none
    → sign_query other q ≡ some signed
    → (s : Bytes) × (signed ≡ record q { signature = s })
      × ((verify_query node signed peer).0 ≡ true)
unfolding sign_query
sign_query-verified node other q signed peer trusts one name unknown h =
    let (hash, hashed, k) = >>=-eq-some (hash_query other q) _ h in
    let (s, signs, l) = >>=-eq-some (other.sign hash) _ k in
    let valid = ap (λ (e : String). node.verify e hash s) name ∙ trusts.signatures hash s signs in
    let full : Query = record q { signature = s } in
    let same : hash_query node full ≡ some hash =
      hash_query-Trusts node other q s trusts one ∙ hashed in
    (
      s,
      sym (some-injective full signed l),
      subst_some (λ (x : Query). (verify_query node x peer).0 ≡ true) l
          (verify_query-fresh node full hash peer unknown same valid),
    )

-- The cases of `Submit` of the engine.
submit-cases :
    (node : Node) (q : Query) (eng : Engine (Driver.Store (Node.driver node)))
    → let named : Query = record q { emitter = node.identity } in
      (Handlers.submit node q eng ≡ (none, eng))
      ⊎ ((signed : Query) × (sign_query node named ≡ some signed)
          × (Handlers.submit node q eng ≡ (some signed, broadcast node (query_message signed) eng)))
unfolding Handlers.submit
submit-cases node q eng =
    elim (Option-cases (sign_query node (record q { emitter = node.identity }))) [
      | inl p ↦ inl (rw (p, Handlers.submit))
      | inr (signed, p) ↦ elim (Bool-cases (node.sends (query_message signed))) [
        | inl t ↦ inr (signed, p, rw (p, Handlers.submit) (rw t))
        | inr t ↦ inl (rw (p, Handlers.submit) (rw t))
      ]
    ]

-- For a transaction with one requirement at most: if `Submit` reports no error, then the message that it sent, and all that it changed, is the query
-- of the receipt's identifier that the transaction asks for, in the node's name; and a node
-- that trusts this one, and has no hash of that identifier in its cache, verifies that query. If `Submit` reports an error, nothing changed.
pub submit-Asks :
    (node other : Node) {S : Type 0} (uuid : String) (tx : Transaction)
    (eng : Engine (Driver.Store (Node.driver other))) (peer : Engine S)
    → Trusts node other
    → length tx.requirements ≤ 1
    → lookup uuid peer.hashes ≡ none
    → let (receipt, sent, eng') = submit other uuid tx eng in
      (receipt ≡ uuid)
      × (((sent ≡ none) × (eng' ≡ eng))
          ⊎ ((q : Query) × (sent ≡ some q)
              × Asks uuid (Node.identity other) tx q
              × (eng' ≡ record eng { sent = eng.sent ++ (query_message q ∷ []) })
              × ((verify_query node q peer).0 ≡ true)))
unfolding submit broadcast new_query
submit-Asks node other uuid tx eng peer trusts one unknown =
    let query : Query = record (new_query uuid) {
      policy = tx.policy;
      requirements = tx.requirements;
      operations = tx.operations;
      deadline = tx.deadline;
    } in
    elim (submit-cases other query eng) [
      | inl p ↦ (refl, inl (pair_parts p))
      | inr (signed, p, r) ↦
          let named : Query = record query { emitter = other.identity } in
          let (s, e, valid) =
            sign_query-verified node other named signed peer trusts one refl unknown p in
          let (sent, changed) = pair_parts r in
          let asks =
            subst (Asks uuid other.identity tx) (sym e) (refl, refl, refl, refl, refl, refl) in
          (refl, inr (signed, sent, asks, changed, valid))
    ]
