-- ===== src/Keyring/Ring/Export.antt =====
-- keyring/keyring.go: a ring is written as PEM blocks, one for the encrypted private key and one for
-- each public key. `strconv.Itoa` and the text of a block are parameters.
use pnyxdb.Base.{
  ℕ, String, Option, none, some, List, [], ◌∷◌, Dict, lookup, str_eq, ◌==◌, if◌then◌else◌,
}
use pnyxdb.Keyring.Trust.{trust_none, trust_low, trust_high, trust_ultimate}
use pnyxdb.Keyring.Web.{Key}
use pnyxdb.Keyring.Ring.{Ring}
use pnyxdb.Keyring.Ring.Members.{Coding, Block, private_block, public_block}

module _ {Text : Type 0} (coding : Coding Text) (itoa : ℕ → String) where
  -- `TrustLevel.String`
  unfoldable pub trust_string : ℕ → String
  trust_string t =
      if t == trust_none
      then "none"
      else if t == trust_low
      then "low"
      else if t == trust_high
      then "high"
      else if t == trust_ultimate
      then "ultimate"
      else itoa t

  -- `exportUnsafe`: the block of the ring's own key has no headers.
  unfoldable pub export_unsafe : String → String × Key → Block
  unfolding trust_string
  export_unsafe self (identity, key) =
      if str_eq identity self
      then public_block "" "" (some (key.public, key.signatures))
      else public_block identity (trust_string key.trust) (some (key.public, key.signatures))

  -- `Export`
  unfoldable pub export : String → Ring → Option Text
  unfolding export_unsafe
  export identity r = elim (lookup identity r.keys) [
    | none ↦ none
    | some key ↦ some (coding.encode (export_unsafe r.self_identity (identity, key) ∷ []))
  ]

  -- The blocks that the loop of `MarshalBinary` writes.
  unfoldable pub export_all : String → Dict Key → List Block
  unfolding export_unsafe
  export_all self [] = []
  export_all self (e ∷ keys) = export_unsafe self e ∷ export_all self keys

  -- `MarshalBinary`, which panics on a ring with no private key, `none`
  unfoldable pub marshal_binary : Ring → Option Text
  unfolding export_all
  marshal_binary r = elim r.armored_secret [
    | none ↦ none
    | some secret ↦ some (coding.encode (private_block secret ∷ export_all r.self_identity r.keys))
  ]
