-- ===== src/Keyring/Ring/Saved.antt =====
-- A ring that is written and read again.
use pnyxdb.Base.{
  ℕ, ◌≡◌, refl, sym, ap, ◌∙◌, String, true, false, Option, none, some, List, [], ◌∷◌, Dict, lookup,
  insert, str_eq, eq_iff, ◌⊎◌, inl, inr, Bool-cases, Option-cases, All, Distinct,
  Distinct-map_values, merge, first_of, lookup-merge, map_values, map_some, lookup-map_values,
  some-injective,
}
use pnyxdb.Keyring.Trust.{trust_none, trust_low, trust_high, trust_ultimate}
use pnyxdb.Keyring.Web.{Key}
use pnyxdb.Keyring.Ring.{Ring, new_ring}
use pnyxdb.Keyring.Ring.Members.{
  Coding, Block, private_block, public_block, other_block, put_key, level_named, parse_trust,
  import_unsafe, read_blocks, unmarshal_binary,
}
use pnyxdb.Keyring.Ring.Export.{trust_string, export_unsafe, export_all, marshal_binary}

-- The levels that have a name.
unfoldable pub Named : ℕ → Type 0
Named t = (t ≡ trust_none) ⊎ (t ≡ trust_low) ⊎ (t ≡ trust_high) ⊎ (t ≡ trust_ultimate)

-- The ring's own key has the highest level; another one has an identity that is not empty and that a
-- header keeps, and a level with a name.
unfoldable pub Savable : {Text : Type 0} → Coding Text → String → String × Key → Type 0
Savable coding self (u, key) =
    ((str_eq u self ≡ true) × (key.trust ≡ trust_ultimate))
    ⊎ ((str_eq u self ≡ false) × (str_eq u "" ≡ false) × (coding.keeps u ≡ true) × Named key.trust)

-- A block whose headers are read as they were written.
abbrev pub Kept : {Text : Type 0} → Coding Text → Block → Type 0
Kept coding (public_block identity level key) =
    (coding.keeps identity ≡ true) × (coding.keeps level ≡ true)
Kept coding (private_block secret) = Unit
Kept coding other_block = Unit

-- A key as it is read: the web of trust is not written.
abbrev pub as_read : Key → Key
as_read key = record key { signed_by = []; effective_trust = 0 }

-- What the libraries do: blocks whose headers are kept are found in their text, the names of the
-- levels and the missing headers are kept, and the names are in lower case.
pub record IsLawful {Text : Type 0} (coding : Coding Text) (itoa : ℕ → String)
    (to_lower : String → String) : Type 0 where
  pub reads_back :
      (blocks : List Block)
      → All (Kept coding) blocks
      → coding.decode (coding.encode blocks) ≡ blocks
  pub keeps_nothing : coding.keeps "" ≡ true
  pub keeps_level : (t : ℕ) → Named t → coding.keeps (trust_string coding itoa t) ≡ true
  pub lower : (t : ℕ) → Named t → to_lower (trust_string coding itoa t) ≡ trust_string coding itoa t

module _ {Text : Type 0} (coding : Coding Text) (itoa : ℕ → String) (to_lower : String → String)
    (lawful : IsLawful coding itoa to_lower) where
  level_named-trust_string : (t : ℕ) → Named t → level_named (trust_string coding itoa t) ≡ t
  unfolding level_named trust_string Named
  level_named-trust_string t (inl h) = rw h refl
  level_named-trust_string t (inr (inl h)) = rw h refl
  level_named-trust_string t (inr (inr (inl h))) = rw h refl
  level_named-trust_string t (inr (inr (inr h))) = rw h refl

  parse_trust-trust_string :
      (t : ℕ) → Named t → parse_trust to_lower (trust_string coding itoa t) ≡ t
  unfolding parse_trust
  parse_trust-trust_string t h = ap level_named (lawful.lower t h) ∙ level_named-trust_string t h

  -- The blocks of the keys keep their headers.
  export_all-Kept :
      (self : String) (keys : Dict Key)
      → All (Savable coding self) keys
      → All (Kept coding) (export_all coding itoa self keys)
  unfolding export_all export_unsafe Savable
  export_all-Kept self [] ok = tt
  export_all-Kept self ((u, key) ∷ keys) (inl (own, h), ok) =
      (rw own (lawful.keeps_nothing, lawful.keeps_nothing), export_all-Kept self keys ok)
  export_all-Kept self ((u, key) ∷ keys) (inr (other, name, kept, h), ok) =
      (rw other (kept, lawful.keeps_level key.trust h), export_all-Kept self keys ok)

  import_unsafe-export_unsafe :
      (u : String) (key : Key) (s : Ring)
      → Savable coding s.self_identity (u, key)
      → (import_unsafe to_lower
          (export_unsafe coding itoa s.self_identity (u, key))
          ""
          trust_none
          s).1
        ≡ record s { keys = insert u (as_read key) s.keys; stale = true }
  unfolding import_unsafe export_unsafe put_key Savable
  import_unsafe-export_unsafe u key s (inl (own, h)) =
      let same : u ≡ s.self_identity = (eq_iff u s.self_identity).0 own in
      let block : export_unsafe coding itoa s.self_identity (u, key)
          ≡ public_block "" "" (some (key.public, key.signatures)) =
        rw (own, export_unsafe) refl in
      ap (λ (b : Block). (import_unsafe to_lower b "" trust_none s).1) block
      ∙ (λ i. put_key (sym same i) (sym h i) (key.public, key.signatures) s)
  import_unsafe-export_unsafe u key s (inr (other, name, kept, h)) =
      let header = trust_string coding itoa key.trust in
      let block : export_unsafe coding itoa s.self_identity (u, key)
          ≡ public_block u header (some (key.public, key.signatures)) =
        rw (other, export_unsafe) refl in
      let read : (import_unsafe to_lower (public_block u header (some (key.public, key.signatures)))
            "" trust_none s).1
          ≡ put_key u (parse_trust to_lower header) (key.public, key.signatures) s =
        rw (name, import_unsafe) refl in
      ap (λ (b : Block). (import_unsafe to_lower b "" trust_none s).1) block
      ∙ read
      ∙ ap (λ (t : ℕ). put_key u t (key.public, key.signatures) s)
          (parse_trust-trust_string key.trust h)

  -- Reading the public blocks puts the keys into the ring.
  read_blocks-export_all :
      (keys : Dict Key) (s : Ring)
      → All (Savable coding s.self_identity) keys
      → read_blocks to_lower
          (export_all coding itoa s.self_identity keys)
          (record s { stale = true })
        ≡ record s { keys = merge (map_values as_read keys) s.keys; stale = true }
  unfolding read_blocks export_all
  read_blocks-export_all [] s ok = refl
  read_blocks-export_all ((u, key) ∷ keys) s (first, ok) =
      ap (λ (t : Ring). read_blocks to_lower (export_all coding itoa s.self_identity keys) t)
        (import_unsafe-export_unsafe u key (record s { stale = true }) first)
      ∙ read_blocks-export_all keys (record s { keys = insert u (as_read key) s.keys }) ok

  -- Every key of a new ring is one of the ring that is read.
  over_new_ring :
      (r : Ring) (own : Key) (u : String)
      → lookup r.self_identity r.keys ≡ some own
      → first_of (map_some as_read (lookup u r.keys)) (lookup u (new_ring r.self_identity).keys)
        ≡ map_some as_read (lookup u r.keys)
  unfolding lookup new_ring
  over_new_ring r own u here = elim (Option-cases (lookup u r.keys)) [
    | inr (key, p) ↦ rw p refl
    | inl p ↦ elim (Bool-cases (str_eq r.self_identity u)) [
      | inl t ↦ cc (
          sym p
          ∙ ap (λ (i : String). lookup i r.keys) (sym ((eq_iff r.self_identity u).0 t))
          ∙ here)
      | inr t ↦ rw (p, t) refl
    ]
  ]

  -- With PEM, JSON and `ToLower` as documented, for a ring with a private key, no identity twice, a
  -- key of its own of the highest level, and for every other key an identity that is not empty and
  -- that a PEM header keeps, and a level that has a name: the text that `MarshalBinary` writes, read
  -- into a new ring of the same identity, gives a locked ring with the same private block and for each
  -- identity the same public key, level and signatures, whose web of trust is still to be built.
  pub ring_reads_back :
      (r : Ring) (own : Key) (text : Text)
      → Distinct r.keys
      → lookup r.self_identity r.keys ≡ some own
      → All (Savable coding r.self_identity) r.keys
      → marshal_binary coding itoa r ≡ some text
      → let r' = unmarshal_binary coding to_lower text (new_ring r.self_identity) in
        ((u : String) → lookup u r'.keys ≡ map_some as_read (lookup u r.keys))
        × (r'.armored_secret ≡ r.armored_secret)
        × (r'.secret ≡ none)
        × (r'.stale ≡ true)
  unfolding marshal_binary unmarshal_binary read_blocks import_unsafe new_ring
  ring_reads_back r own text d here ok h = elim (Option-cases r.armored_secret) [
    | inl p ↦ cc (rw (p, marshal_binary) at h)
    | inr (secret, p) ↦
        let fresh = new_ring r.self_identity in
        let start : Ring = record fresh { armored_secret = some secret } in
        let blocks = private_block secret ∷ export_all coding itoa r.self_identity r.keys in
        let written : coding.encode blocks ≡ text =
          some-injective _ _ (rw (p, marshal_binary) at h) in
        let found : coding.decode text ≡ blocks =
          ap coding.decode (sym written)
          ∙ lawful.reads_back blocks (tt, export_all-Kept r.self_identity r.keys ok) in
        let read : unmarshal_binary coding to_lower text fresh
            ≡ record start { keys = merge (map_values as_read r.keys) start.keys; stale = true } =
          ap (λ (bs : List Block). read_blocks to_lower bs fresh) found
          ∙ read_blocks-export_all r.keys start ok in
        (
          λ u.
              ap (λ (t : Ring). lookup u t.keys) read
              ∙ lookup-merge u (map_values as_read r.keys) start.keys
                  (Distinct-map_values as_read r.keys d)
              ∙ ap (λ (o : Option Key). first_of o (lookup u start.keys))
                  (lookup-map_values as_read u r.keys)
              ∙ over_new_ring r own u here,
          ap Ring.armored_secret read ∙ sym p,
          ap Ring.secret read,
          ap Ring.stale read,
        )
  ]
