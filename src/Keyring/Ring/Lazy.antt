-- ===== src/Keyring/Ring/Lazy.antt =====
-- `stale` of keyring/keyring.go: the web of trust is computed only when it is asked for.
use pnyxdb.Base.{
  ℕ, ◌≡◌, refl, sym, ap, String, true, false, not, ◌&&◌, ◌||◌, ◌++◌, Option, none, some, List, [],
  ◌∷◌, Bytes, Dict, lookup, insert, lookup-insert_self, str_eq, Bool-cases, Option-cases, inl, inr,
}
use pnyxdb.Keyring.Trust.{trust_ultimate}
use pnyxdb.Keyring.Web.{
  Signature, Key, Web, populate, signatures_of, sign_all, visit, build_trust_web, trusted, verify,
}
use pnyxdb.Keyring.Ring.{
  Ring, fresh_key, new_ring, lock_private, unlock_private, locked, remove_public, rebuild, rebuilt,
  refresh, ask_trusted, get_signatures,
}
use pnyxdb.Keyring.Ring.Members.{
  CryptoEngine, Block, private_block, public_block, other_block, add_public, ask_verify,
  add_signature, sign_locally, sign_message, verify_signature, put_signature, put_key, import,
  import_unsafe, Coding, read_blocks, unmarshal_binary,
}
use pnyxdb.Keyring.Ring.Rebuilt.{rebuild-rebuild}

-- The ring is stale, or its web is that of its keys.
Built : Ring → Type 0
Built r = r.stale ≡ false → rebuild r.keys ≡ r.keys

Built-stale : (r : Ring) → r.stale ≡ true → Built r
unfolding Built
Built-stale r h f = cc

refresh-Built : (r : Ring) → Built r → Built (refresh r)
unfolding Built refresh
refresh-Built r b f = elim (Bool-cases r.stale) [
  | inl t ↦ rw (t, refresh) (rebuild-rebuild r.keys)
  | inr t ↦ rw (t, refresh) (b t)
]

refresh-keys : (r : Ring) → Built r → (refresh r).keys ≡ rebuild r.keys
unfolding Built refresh
refresh-keys r b = elim (Bool-cases r.stale) [
  | inl t ↦ rw (t, refresh) refl
  | inr t ↦ rw (t, refresh) (sym (b t))
]

new_ring-Built : (self : String) → Built (new_ring self)
unfolding Built new_ring rebuild rebuilt build_trust_web visit sign_all signatures_of populate
    lookup insert
new_ring-Built self f =
    let keys = (new_ring self).keys in
    let web : Web = record { keys = keys; queue = []; visited = self ∷ [] } in
    let unsigned : signatures_of (lookup self keys) ≡ [] =
      ap signatures_of (lookup-insert_self self (fresh_key trust_ultimate) []) in
    ap (λ (ss : Dict Signature). rebuilt (visit 1 (sign_all self ss web)) keys) unsigned

module _ (engine : CryptoEngine) where
  -- The calls of a ring.
  pub data Call (r : Ring) : Ring → Type 0 where
    added :
        (identity : String) (level : ℕ) (raw : Bytes)
        → Call r (add_public engine identity level raw r).1
    removed : (identity : String) → Call r (remove_public identity r)
    signed :
        (identity from : String) (s : Signature) → Call r (add_signature engine identity from s r).1
    imported :
        (to_lower : String → String) (block : Block) (identity : String) (level : ℕ)
        → Call r (import to_lower block identity level r).1
    unmarshaled :
        (coding : Coding Bytes) (to_lower : String → String) (text : Bytes)
        → Call r (unmarshal_binary coding to_lower text r)
    asked : (identity : String) → Call r (ask_trusted identity r).1
    verified :
        (from : String) (cleartext s : Bytes) → Call r (ask_verify engine from cleartext s r).1
    listed : (identity : String) → Call r (get_signatures identity r).1
    locks : Call r (lock_private r)
    unlocks : (decrypted : Option Bytes) → Call r (unlock_private decrypted r).1

  pub data Calls (r : Ring) : Ring → Type 0 where
    begin : Calls r r
    after : {s t : Ring} → Calls r s → Call s t → Calls r t

  add_public-Built :
      (identity : String) (level : ℕ) (raw : Bytes) (r : Ring)
      → Built r
      → Built (add_public engine identity level raw r).1
  unfolding add_public
  add_public-Built identity level raw r b = elim (Bool-cases (str_eq identity r.self_identity)) [
    | inl t ↦ rw (t, add_public) b
    | inr t ↦ elim (Bool-cases (CryptoEngine.validate engine raw)) [
      | inl v ↦ rw (t, v, add_public) (Built-stale _ refl)
      | inr v ↦ rw (t, v, add_public) b
    ]
  ]

  remove_public-Built : (identity : String) (r : Ring) → Built r → Built (remove_public identity r)
  unfolding remove_public
  remove_public-Built identity r b = elim (Bool-cases (str_eq identity r.self_identity)) [
    | inl t ↦ rw (t, remove_public) b
    | inr t ↦ rw (t, remove_public) (Built-stale _ refl)
  ]

  sign_locally-Built :
      (identity from : String) (key signer : Key) (r : Ring)
      → Built r
      → Built (sign_locally engine identity from key signer r).1
  unfolding sign_locally put_signature
  sign_locally-Built identity from key signer r b =
      elim (Option-cases (sign_message engine (key.public ++ (key.trust ∷ [])) r)) [
        | inl m ↦ rw (m, sign_locally) b
        | inr (bytes, m) ↦ rw (m, sign_locally) (Built-stale _ refl)
      ]

  add_signature-Built :
      (identity from : String) (s : Signature) (r : Ring)
      → Built r
      → Built (add_signature engine identity from s r).1
  unfolding add_signature sign_locally put_signature
  add_signature-Built identity from s r b = elim (Option-cases (lookup identity r.keys)) [
    | inl p ↦ rw (p, add_signature) b
    | inr (key, p) ↦ elim (Option-cases (lookup from r.keys)) [
      | inl q ↦ rw (p, q, add_signature) b
      | inr (signer, q) ↦ elim (Bool-cases (str_eq from r.self_identity)) [
        | inl t ↦ rw (p, q, t, add_signature) (sign_locally-Built identity from key signer r b)
        | inr t ↦ elim (Bool-cases (verify_signature engine signer key s)) [
          | inl v ↦ rw (p, q, t, v, add_signature) (Built-stale _ refl)
          | inr v ↦ rw (p, q, t, v, add_signature) b
        ]
      ]
    ]
  ]

import_unsafe-Built :
    (to_lower : String → String) (block : Block) (identity : String) (level : ℕ) (r : Ring)
    → Built r
    → Built (import_unsafe to_lower block identity level r).1
unfolding import_unsafe put_key
import_unsafe-Built to_lower (private_block raw) identity level r b =
    elim (Bool-cases (not (str_eq identity "") && not (str_eq identity r.self_identity))) [
      | inl t ↦ rw (t, import_unsafe) b
      | inr t ↦ rw (t, import_unsafe) (Built-stale _ refl)
    ]
import_unsafe-Built to_lower other_block identity level r b = Built-stale _ refl
import_unsafe-Built to_lower (public_block id header none) identity level r b = b
import_unsafe-Built to_lower (public_block id header (some key)) identity level r b =
    elim (Bool-cases (str_eq identity "")) [
      | inr t ↦ elim (Bool-cases (not (str_eq id "") && not (str_eq id identity))) [
        | inl c ↦ rw (t, c, import_unsafe) b
        | inr c ↦ rw (t, c, import_unsafe) (Built-stale _ refl)
      ]
      | inl t ↦ elim (Bool-cases (str_eq id "")) [
        | inl c ↦ rw (t, c, import_unsafe) (Built-stale _ refl)
        | inr c ↦ rw (t, c, import_unsafe) (Built-stale _ refl)
      ]
    ]

import-Built :
    (to_lower : String → String) (block : Block) (identity : String) (level : ℕ) (r : Ring)
    → Built r
    → Built (import to_lower block identity level r).1
unfolding import
import-Built to_lower block identity level r b =
    elim (Bool-cases (str_eq identity r.self_identity || str_eq identity "")) [
      | inl t ↦ rw (t, import) b
      | inr t ↦ rw (t, import) (import_unsafe-Built to_lower block identity level r b)
    ]

read_blocks-Built :
    (to_lower : String → String) (blocks : List Block) (r : Ring)
    → Built r
    → Built (read_blocks to_lower blocks r)
unfolding read_blocks
read_blocks-Built to_lower [] r b = b
read_blocks-Built to_lower (x ∷ xs) r b =
    read_blocks-Built to_lower xs (import_unsafe to_lower x "" 0 r).1
      (import_unsafe-Built to_lower x "" 0 r b)

unlock_private-Built :
    (decrypted : Option Bytes) (r : Ring) → Built r → Built (unlock_private decrypted r).1
unfolding unlock_private Built
unlock_private-Built decrypted r b = elim (Bool-cases (locked r)) [
  | inr t ↦ rw (t, unlock_private) b
  | inl t ↦ elim (Option-cases decrypted) [
    | inl p ↦ rw (t, p, unlock_private) b
    | inr (s, p) ↦ rw (t, p, unlock_private) b
  ]
]

module _ (engine : CryptoEngine) where
  Call-Built : {r s : Ring} → Call engine r s → Built r → Built s
  unfolding ask_trusted ask_verify get_signatures lock_private unmarshal_binary Built
  Call-Built {r} (added identity level raw) b = add_public-Built engine identity level raw r b
  Call-Built {r} (removed identity) b = remove_public-Built engine identity r b
  Call-Built {r} (signed identity from s) b = add_signature-Built engine identity from s r b
  Call-Built {r} (imported to_lower block identity level) b =
      import-Built to_lower block identity level r b
  Call-Built {r} (unmarshaled coding to_lower text) b =
      read_blocks-Built to_lower (coding.decode text) r b
  Call-Built {r} (asked identity) b = refresh-Built r b
  Call-Built {r} (verified from cleartext s) b = refresh-Built r b
  Call-Built {r} (listed identity) b = refresh-Built r b
  Call-Built locks b = b
  Call-Built {r} (unlocks decrypted) b = unlock_private-Built decrypted r b

  Calls-Built : {r s : Ring} → Calls engine r s → Built r → Built s
  Calls-Built begin b = b
  Calls-Built (after calls call) b = Call-Built call (Calls-Built calls b)

  -- From a new ring, after any calls: `Trusted` and `Verify` answer as if the web of trust were built
  -- from the ring's keys at that moment, so no call leaves an outdated web in use.
  pub answers_lazily :
      (self : String) (r : Ring)
      → Calls engine (new_ring self) r
      → ((identity : String) → (ask_trusted identity r).0 ≡ trusted identity (rebuild r.keys))
        × ((from : String) (cleartext s : Bytes)
            → (ask_verify engine from cleartext s r).0
              ≡ verify (CryptoEngine.verify_bytes engine) from cleartext s (rebuild r.keys))
  unfolding ask_trusted ask_verify
  answers_lazily self r calls =
      let same = refresh-keys r (Calls-Built calls (new_ring-Built self)) in
      (
        (λ identity. ap (trusted identity) same),
        λ from cleartext s. ap (verify (CryptoEngine.verify_bytes engine) from cleartext s) same,
      )
