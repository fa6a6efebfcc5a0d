-- ===== src/Keyring/Ring/Members.antt =====
-- keyring/keyring.go and keyring/keyring_trust.go: the operations that change the members' keys, and
-- those that sign. The cipher engine is a parameter, and so are the PEM and JSON libraries:
-- they read blocks from a text, and a public block comes with the key that its JSON text holds. A
-- map of signatures that is nil is an empty one.
use pnyxdb.Base.{
  ℕ, String, Bool, true, not, ◌&&◌, ◌||◌, Option, none, some, List, [], ◌∷◌, ◌++◌, Bytes,
  bytes_equal, Dict, lookup, insert, str_eq, if◌then◌else◌,
}
use pnyxdb.Keyring.Trust.{trust_none, trust_low, trust_high, trust_ultimate}
use pnyxdb.Keyring.Web.{Signature, Key, Refusal, verify}
use pnyxdb.Keyring.Ring.{Ring, fresh_key, refresh}

-- `cryptoEngine`, less `Generate`
pub record CryptoEngine : Type 0 where
  pub validate : Bytes → Bool
  pub sign : Bytes → Bytes → Bytes
  pub verify_bytes : Bytes → Bytes → Bytes → Bool

pub data RingError : Type 0 where
  keyring_locked invalid_identity invalid_public_key bad_signature : RingError
  unknown : String → RingError

-- The key that `AddPublic` changes.
unfoldable pub key_or_new : Option Key → Key
key_or_new none = fresh_key trust_none
key_or_new (some key) = key

unfoldable pub with_public : Bytes → Key → Key
with_public raw key =
    if not (bytes_equal key.public raw) then record key { public = raw; signatures = [] } else key

-- `trustName`, and `ParseTrust` with the level that an error leaves; `strings.ToLower` is a
-- parameter.
unfoldable pub level_named : String → ℕ
level_named text =
    if str_eq text "low"
    then trust_low
    else if str_eq text "high"
    then trust_high
    else if str_eq text "ultimate"
    then trust_ultimate
    else trust_none

unfoldable pub parse_trust : (String → String) → String → ℕ
unfolding level_named
parse_trust to_lower text = level_named (to_lower text)

-- A PEM block: a private key, a public one with its headers and what its JSON text holds, if it is
-- well-formed, or another block.
pub data Block : Type 0 where
  private_block : Bytes → Block
  public_block : String → String → Option (Bytes × Dict Signature) → Block
  other_block : Block

module _ (engine : CryptoEngine) where
  open engine use {validate, sign, verify_bytes}

  -- `AddPublic`; `some` is an error.
  unfoldable pub add_public : String → ℕ → Bytes → Ring → Option RingError × Ring
  unfolding key_or_new with_public
  add_public identity level raw r =
      if str_eq identity r.self_identity
      then (some invalid_identity, r)
      else if not (validate raw)
      then (some invalid_public_key, r)
      else (
        none,
        record r {
          keys =
              insert identity
                (record (with_public raw (key_or_new (lookup identity r.keys))) { trust = level })
                r.keys;
          stale = true;
        },
      )

  -- `Sign`
  unfoldable pub sign_message : Bytes → Ring → Option Bytes
  sign_message cleartext r = elim r.secret [ none ↦ none | some s ↦ some (sign s cleartext) ]

  -- `Verify`
  unfoldable pub ask_verify : String → Bytes → Bytes → Ring → Option Refusal × Ring
  unfolding refresh verify
  ask_verify from cleartext signature r =
      let r' = refresh r in (verify verify_bytes from cleartext signature r'.keys, r')

  -- `verifySignature`; the message is the signee's public key and the level.
  unfoldable pub verify_signature : Key → Key → Signature → Bool
  verify_signature signer signee s =
      verify_bytes signer.public (signee.public ++ (s.level ∷ [])) s.sign_data

  -- The end of `AddSignature`
  unfoldable pub put_signature : String → String → Signature → Key → Ring → Ring
  put_signature identity from s signer r = record r {
    keys = insert from (record signer { signatures = insert identity s signer.signatures }) r.keys;
    stale = true;
  }

  unfoldable pub sign_locally : String → String → Key → Key → Ring → Option RingError × Ring
  unfolding sign_message put_signature
  sign_locally identity from key signer r = elim (sign_message (key.public ++ (key.trust ∷ [])) r) [
    | none ↦ (some keyring_locked, r)
    | some bytes ↦ (
      none,
      put_signature identity from (record { sign_data = bytes; level = key.trust }) signer r,
    )
  ]

  -- `AddSignature`
  unfoldable pub add_signature : String → String → Signature → Ring → Option RingError × Ring
  unfolding sign_locally verify_signature put_signature
  add_signature identity from s r = elim (lookup identity r.keys) [
    | none ↦ (some (unknown identity), r)
    | some key ↦ elim (lookup from r.keys) [
      | none ↦ (some (unknown from), r)
      | some signer ↦
          if str_eq from r.self_identity
          then sign_locally identity from key signer r
          else if not (verify_signature signer key s)
          then (some bad_signature, r)
          else (none, put_signature identity from s signer r)
    ]
  ]

-- The end of `importUnsafe`, for a public block
unfoldable pub put_key : String → ℕ → Bytes × Dict Signature → Ring → Ring
put_key identity level key r = record r {
  keys =
      insert identity
        (record {
          public = key.0;
          signatures = key.1;
          signed_by = [];
          trust = level;
          effective_trust = 0;
        })
        r.keys;
  stale = true;
}

-- `importUnsafe` on one block, as `pem.Decode` and `json.Unmarshal` read it
unfoldable pub import_unsafe :
    (String → String) → Block → String → ℕ → Ring → Option RingError × Ring
unfolding put_key parse_trust
import_unsafe to_lower (private_block b) identity level r =
    if not (str_eq identity "") && not (str_eq identity r.self_identity)
    then (some invalid_identity, r)
    else (none, record r { armored_secret = some b; stale = true })
import_unsafe to_lower other_block identity level r = (none, record r { stale = true })
import_unsafe to_lower (public_block id header none) identity level r = (some bad_signature, r)
import_unsafe to_lower (public_block id header (some key)) identity level r =
    if not (str_eq identity "")
    then (if not (str_eq id "") && not (str_eq id identity)
        then (some invalid_identity, r)
        else (none, put_key identity level key r))
    else if str_eq id ""
    then (none, put_key r.self_identity trust_ultimate key r)
    else (none, put_key id (parse_trust to_lower header) key r)

-- `Import`, of a file whose first block is given
unfoldable pub import : (String → String) → Block → String → ℕ → Ring → Option RingError × Ring
unfolding import_unsafe
import to_lower block identity level r =
    if str_eq identity r.self_identity || str_eq identity ""
    then (some invalid_identity, r)
    else import_unsafe to_lower block identity level r

-- The PEM and JSON libraries, for the bytes that a file holds: the text of blocks one behind the
-- other, the blocks that are found in a text, up to the first that is not well-formed, and whether a
-- header value is read as it was written, which spaces around it and line breaks prevent.
pub record Coding (Text : Type 0) : Type 0 where
  pub encode : List Block → Text
  pub decode : Text → List Block
  pub keeps : String → Bool

-- The loop of `UnmarshalBinary`: an error skips its block.
unfoldable pub read_blocks : (String → String) → List Block → Ring → Ring
unfolding import_unsafe
read_blocks to_lower [] r = r
read_blocks to_lower (b ∷ bs) r =
    read_blocks to_lower bs (import_unsafe to_lower b "" trust_none r).1

-- `UnmarshalBinary`
unfoldable pub unmarshal_binary :
    {Text : Type 0} → Coding Text → (String → String) → Text → Ring → Ring
unfolding read_blocks
unmarshal_binary coding to_lower text r = read_blocks to_lower (coding.decode text) r
