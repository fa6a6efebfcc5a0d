-- ===== src/Keyring/Ring.antt =====
-- keyring/keyring.go and keyring/keyring_trust.go: the key ring. The mutex makes each
-- operation one step.
pub mod Members
pub mod Export
pub mod Saved
pub mod Rebuilt
pub mod Lazy
use pnyxdb.Base.{
  ℕ, zero, suc, String, Bool, true, false, not, ◌&&◌, ◌||◌, Option, none, some, List, [], ◌∷◌, ◌++◌,
  Bytes, bytes_equal, Dict, lookup, insert, delete, length, str_eq, if◌then◌else◌, map,
}
use Prim.Native.Nat.{Ordering}
use Prim.Native.String.{compare}
use pnyxdb.Keyring.Trust.{trust_none, trust_low, trust_high, trust_ultimate}
use pnyxdb.Keyring.Web.{Signature, Key, build_trust_web, Refusal, unknown_identity, trusted, verify}

-- `KeyRing`. `secret` is the private key in clear while the ring is unlocked, and `armored_secret`
-- the block that holds it encrypted.
pub record Ring : Type 0 where
  pub self_identity : String
  pub keys : Dict Key
  pub secret : Option Bytes
  pub armored_secret : Option Bytes
  pub stale : Bool

abbrev pub fresh_key : ℕ → Key
fresh_key level = record {
  public = [];
  signatures = [];
  signed_by = [];
  trust = level;
  effective_trust = level;
}

-- `NewKeyRing`, with a cipher engine that is known
unfoldable pub new_ring : String → Ring
new_ring self = record {
  self_identity = self;
  keys = (self, fresh_key trust_ultimate) ∷ [];
  secret = none;
  armored_secret = none;
  stale = false;
}

-- `Locked`
unfoldable pub locked : Ring → Bool
locked r = elim r.secret [ none ↦ true | some s ↦ false ]

-- `LockPrivate`
unfoldable pub lock_private : Ring → Ring
lock_private r = record r { secret = none }

-- `UnlockPrivate`: `decrypted` is the block under the given password, or an error.
unfoldable pub unlock_private : Option Bytes → Ring → Bool × Ring
unfolding locked
unlock_private decrypted r =
    if not (locked r)
    then (true, r)
    else elim decrypted [ none ↦ (false, r) | some s ↦ (true, record r { secret = some s }) ]

-- `GetPublic`: the key's bytes and its level.
unfoldable pub get_public : String → Ring → Option (Bytes × ℕ)
get_public identity r = elim (lookup identity r.keys) [
  | none ↦ none
  | some key ↦ some (key.public, key.trust)
]

-- `sort.Sort(ByIdentity(keys))`
unfoldable pub sort_key : String × Key → List (String × Key) → List (String × Key)
sort_key e [] = e ∷ []
sort_key e (f ∷ rest) = elim (compare e.0 f.0) [
  | Ordering.gt ↦ f ∷ sort_key e rest
  | _ ↦ e ∷ f ∷ rest
]

unfoldable pub sort_keys : List (String × Key) → List (String × Key)
unfolding sort_key
sort_keys [] = []
sort_keys (e ∷ rest) = sort_key e (sort_keys rest)

-- `ListPublic`
unfoldable pub list_public : Ring → List (String × Key)
unfolding sort_keys
list_public r = sort_keys r.keys

-- `RemovePublic`
unfoldable pub remove_public : String → Ring → Ring
remove_public identity r =
    if str_eq identity r.self_identity
    then r
    else record r { keys = delete identity r.keys; stale = true }

-- `waitForStaleCleared`, with one round of fuel more than there are keys
unfoldable pub rebuilt : Option (Dict Key) → Dict Key → Dict Key
rebuilt none keys = keys
rebuilt (some keys') keys = keys'

unfoldable pub rebuild : Dict Key → Dict Key
unfolding rebuilt build_trust_web
rebuild keys = rebuilt (build_trust_web (suc (length keys)) keys) keys

unfoldable pub refresh : Ring → Ring
unfolding rebuild
refresh r = if r.stale then record r { keys = rebuild r.keys; stale = false } else r

-- `Trusted`
unfoldable pub ask_trusted : String → Ring → Option Refusal × Ring
unfolding refresh trusted
ask_trusted identity r = let r' = refresh r in (trusted identity r'.keys, r')

-- The loop of `GetSignatures`
unfoldable pub signatures_by : String → List String → Dict Key → Dict (Option Signature)
signatures_by identity [] keys = []
signatures_by identity (s ∷ rest) keys = elim (lookup s keys) [
  | none ↦ signatures_by identity rest keys
  | some signer ↦ insert s (lookup identity signer.signatures) (signatures_by identity rest keys)
]

-- `GetSignatures`; `none` is a nil map.
unfoldable pub get_signatures : String → Ring → Option (Dict (Option Signature)) × Ring
unfolding refresh signatures_by
get_signatures identity r =
    let r' = refresh r in
    (
      elim (lookup identity r'.keys) [
        | none ↦ none
        | some key ↦ some (signatures_by identity key.signed_by r'.keys)
      ],
      r',
    )
