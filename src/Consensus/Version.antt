-- ===== src/Consensus/Version.antt =====
-- consensus/version.go. A `*Version` is an optional record; the hash function is a parameter.
use pnyxdb.Base.{
  ℕ, zero, suc, ◌≡◌, refl, not, Option, none, some, [], ◌∷◌, Bytes, bytes_equal, bytes_equal_sound,
  bytes_equal_refl, if◌then◌else◌, arith, ◌↔◌,
}
use pnyxdb.Consensus.Query.{Version}

pub data Error : Type 0 where
  nil_version version_mismatch : Error

-- `NoVersion`
abbrev pub no_version : Version
no_version = record { hash = [] }

-- `VersionBytes`, the size of a SHA-512 hash.
abbrev pub version_bytes : ℕ
version_bytes = 64

-- `NewVersion`
unfoldable pub new_version : (Bytes → Bytes) → Bytes → Version
new_version sha512 raw = record { hash = sha512 raw }

-- `Matches`: `some` is an error.
unfoldable pub matches : Option Version → Option Version → Option Error
unfolding bytes_equal
matches none v2 = some nil_version
matches (some v) none = some nil_version
matches (some v) (some v2) =
    if not (bytes_equal v.hash v2.hash) then some version_mismatch else none

abbrev zeros : ℕ → Bytes
zeros zero = []
zeros (suc n) = 0 ∷ zeros n

-- `MarshalBinary`
unfoldable pub marshal_binary : Option Version → Bytes
marshal_binary none = zeros version_bytes
marshal_binary (some v) = v.hash

-- `UnmarshalBinary`, into a version that is not nil.
unfoldable pub unmarshal_binary : Bytes → Version
unmarshal_binary bytes = record { hash = bytes }

-- Two versions match exactly if both are there and have the same hash.
pub matches_iff :
    (v w : Option Version) → (matches v w ≡ none) ↔ ((x : Version) × (v ≡ some x) × (w ≡ some x))
unfolding matches
matches_iff none w = (λ h. cc, λ (x, p, q). cc)
matches_iff (some v) none = (λ h. cc, λ (x, p, q). cc)
matches_iff (some v) (some w) = (
  λ h. (v, refl, ground (arith, bytes_equal_sound v.hash w.hash)),
  λ (x, p, q). ground (arith, bytes_equal_refl v.hash),
)
