-- ===== src/Keyring/Web.antt =====
-- keyring/keyring_trust.go: `buildTrustWeb`, and the tests on what it computes. A key stands in the
-- map under its identity, so a pointer to a key is modelled by its identity.
use pnyxdb.Base.{
  ℕ, zero, suc, String, Bool, not, ◌&&◌, Option, none, some, List, [], ◌∷◌, ◌++◌, Bytes, Dict,
  lookup, insert, contains, ltb, leb, if◌then◌else◌,
}
use pnyxdb.Keyring.Trust.{trust_min, trust_add, trust_threshold}

-- `Signature`
pub record Signature : Type 0 where
  pub sign_data : Bytes
  pub level : ℕ

-- `Key`
pub record Key : Type 0 where
  pub public : Bytes
  pub signatures : Dict Signature
  pub signed_by : List String
  pub trust : ℕ
  pub effective_trust : ℕ

-- The keys, and the local variables of `buildTrustWeb`.
pub record Web : Type 0 where
  pub keys : Dict Key
  pub queue : List String
  pub visited : List String

-- The first loop.
unfoldable pub populate : Dict Key → Web
populate [] = record { keys = []; queue = []; visited = [] }
populate ((identity, key) ∷ rest) =
    let web = populate rest in
    let key' : Key = record key { effective_trust = key.trust; signed_by = [] } in
    let seen : Bool = leb trust_threshold key.trust in
    record {
      keys = (identity, key') ∷ web.keys;
      queue = if seen then identity ∷ web.queue else web.queue;
      visited = if seen then identity ∷ web.visited else web.visited;
    }

unfoldable pub effective_of : Option Key → ℕ
effective_of none = 0
effective_of (some key) = key.effective_trust

unfoldable pub signatures_of : Option Key → Dict Signature
signatures_of none = []
signatures_of (some key) = key.signatures

-- The signee's key with one more signature.
abbrev pub credited : String → ℕ → ℕ → Key → Key
credited current from level key = record key {
  effective_trust = trust_add key.effective_trust (trust_min level from);
  signed_by = key.signed_by ++ (current ∷ []);
}

-- One round of the inner loop. The trust of `current` is read anew, since it may sign itself.
unfoldable pub sign_one : String → String → Signature → Web → Web
unfolding effective_of
sign_one current signee signature web = elim (lookup signee web.keys) [
  | none ↦ web
  | some key ↦
      let key' = credited current (effective_of (lookup current web.keys)) signature.level key in
      let joins = leb trust_threshold key'.effective_trust && not (contains signee web.visited) in
      record {
        keys = insert signee key' web.keys;
        queue = if joins then web.queue ++ (signee ∷ []) else web.queue;
        visited = if joins then signee ∷ web.visited else web.visited;
      }
]

unfoldable pub sign_all : String → Dict Signature → Web → Web
unfolding sign_one
sign_all current [] web = web
sign_all current ((signee, signature) ∷ rest) web =
    sign_all current rest (sign_one current signee signature web)

-- The second loop; `none` is more rounds than the fuel.
unfoldable pub visit : ℕ → Web → Option (Dict Key)
unfolding sign_all signatures_of
visit zero web = none
visit (suc fuel) web = elim web.queue [
  | [] ↦ some web.keys
  | current ∷ queue ↦
      visit fuel
        (sign_all current (signatures_of (lookup current web.keys)) (record web { queue = queue }))
]

-- `buildTrustWeb`
unfoldable pub build_trust_web : ℕ → Dict Key → Option (Dict Key)
unfolding populate visit
build_trust_web fuel keys = visit fuel (populate keys)

pub data Refusal : Type 0 where
  unknown_identity : String → Refusal
  insufficient_trust : String → ℕ → Refusal
  invalid_signature : Refusal

-- `trustedUnsafe`
unfoldable pub trusted_unsafe : String → Key → Option Refusal
trusted_unsafe identity key =
    if ltb key.effective_trust trust_threshold
    then some (insufficient_trust identity key.effective_trust)
    else none

-- `Trusted`, on keys whose web is built.
unfoldable pub trusted : String → Dict Key → Option Refusal
unfolding trusted_unsafe
trusted identity keys = elim (lookup identity keys) [
  | none ↦ some (unknown_identity identity)
  | some key ↦ trusted_unsafe identity key
]

-- `Verify`, on keys whose web is built, with the test of the cipher engine.
unfoldable pub verify :
    (Bytes → Bytes → Bytes → Bool) → String → Bytes → Bytes → Dict Key → Option Refusal
unfolding trusted_unsafe
verify engine from cleartext signature keys = elim (lookup from keys) [
  | none ↦ some (unknown_identity from)
  | some key ↦
      if not (engine key.public cleartext signature)
      then some invalid_signature
      else trusted_unsafe from key
]
