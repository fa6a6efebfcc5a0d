-- ===== src/Encoding/Uint64.antt =====
-- consensus/encoding/uint64.go: 64-bit numbers in 8 bytes, the lowest first.
use pnyxdb.Base.{
  false, ℕ, zero, suc, ◌+◌, ◌*◌, ◌/◌, ◌%◌, ◌^◌, ◌<◌, ◌≡◌, refl, [], ◌∷◌, ◌++◌, Bytes, length, ltb,
  if◌then◌else◌, arith, length-append, ◌∙◌,
}
use native.Mathlib.Nat.{pow-suc}

-- `binary.LittleEndian.PutUint64` and `Uint64`, over the bytes that are left.
put_bytes : ℕ → ℕ → Bytes
put_bytes zero u = []
put_bytes (suc n) u = (u % 256) ∷ put_bytes n (u / 256)

get_bytes : ℕ → Bytes → ℕ
get_bytes zero bs = 0
get_bytes (suc n) [] = 0
get_bytes (suc n) (b ∷ bs) = b + 256 * get_bytes n bs

-- `uint64ToBytes`
unfoldable pub uint64_to_bytes : ℕ → Bytes
unfolding put_bytes
uint64_to_bytes u = put_bytes 8 (u % 2 ^ 64)

-- `bytesToUint64`
unfoldable pub bytes_to_uint64 : Bytes → ℕ
unfolding get_bytes
bytes_to_uint64 b = if ltb (length b) 8 then 0 else get_bytes 8 b

pub length-uint64_to_bytes : (u : ℕ) → length (uint64_to_bytes u) ≡ 8
unfolding uint64_to_bytes
length-uint64_to_bytes u = refl

get_bytes-put_bytes :
    (n u : ℕ) (rest : Bytes) → u < 256 ^ n → get_bytes n (put_bytes n u ++ rest) ≡ u
unfolding put_bytes get_bytes
get_bytes-put_bytes zero u rest h = omega arith
get_bytes-put_bytes (suc n) u rest h =
    omega (arith, get_bytes-put_bytes n (u / 256) rest (omega (arith, pow-suc 256 n)))

-- The bytes of a 64-bit number, with any bytes behind them, are read as that number.
pub bytes_to_uint64-uint64_to_bytes :
    (u : ℕ) (rest : Bytes) → u < 2 ^ 64 → bytes_to_uint64 (uint64_to_bytes u ++ rest) ≡ u
unfolding bytes_to_uint64
bytes_to_uint64-uint64_to_bytes u rest h =
    let long : ltb (length (uint64_to_bytes u ++ rest)) 8 ≡ false =
      ground (arith, length-append (uint64_to_bytes u) rest, length-uint64_to_bytes u) in
    rw long (
      unfold uint64_to_bytes in get_bytes-put_bytes 8 (u % 2 ^ 64) rest (omega arith) ∙ omega arith)
