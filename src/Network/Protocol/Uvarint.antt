-- ===== src/Network/Protocol/Uvarint.antt =====
-- The variable-length numbers of a packet: reading what was written.
use pnyxdb.Base.{
  ℕ, zero, suc, ◌+◌, ◌*◌, ◌/◌, ◌%◌, ◌^◌, ◌<◌, ◌≤◌, ◌≡◌, refl, ap, ◌∙◌, subst, ◌⊎◌, false, ◌||◌,
  ◌&&◌, ◌++◌, Bytes, ltb, ◌==◌, Bool-cases, inl, inr, arith,
}
use native.Mathlib.Nat.{pow-suc, mod-eq_of_lt}
use pnyxdb.Network.Protocol.{ok, put_uvarint, read_uvarint}

-- The lowest group of a number, and the others, at the place that `scale` gives them.
groups : (x scale : ℕ) → (x % 128) * scale + (x / 128) * (scale * 128) ≡ x * scale
groups x scale =
    let whole : x ≡ (x / 128) * 128 + x % 128 = omega arith in
    omega (arith, ap (λ (t : ℕ). t * scale) whole)

group_le : (x scale : ℕ) → (x % 128) * scale ≤ x * scale
group_le x scale = omega (arith, groups x scale)

no_overflow :
    (k i scale x : ℕ)
    → i + suc k ≡ 10
    → scale * 128 ^ suc k ≡ 128 ^ 10
    → x * scale < 2 ^ 64
    → (ltb 9 i || (i == 9 && ltb 1 x)) ≡ false
no_overflow zero i scale x pos full fits =
    let nine : scale ≡ 2 ^ 63 = omega arith in
    let fits' = subst (λ (s : ℕ). x * s < 2 ^ 64) nine fits in ground arith
no_overflow (suc k) i scale x pos full fits = ground arith

-- Reading at byte `i` what was written there of a number that the rest of the 64 bits holds.
read-put :
    (k i scale acc x : ℕ) (rest : Bytes)
    → i + k ≡ 10
    → scale * 128 ^ k ≡ 128 ^ 10
    → acc + x * scale < 2 ^ 64
    → (i ≡ 0) ⊎ (0 < x)
    → read_uvarint i scale acc (put_uvarint k x ++ rest) ≡ ok (acc + x * scale, rest)
unfolding read_uvarint put_uvarint
read-put zero i scale acc x rest pos full fits some_left =
    let ten : scale ≡ 128 ^ 10 = omega arith in
    let fits' = subst (λ (s : ℕ). acc + x * s < 2 ^ 64) ten fits in absurd (omega arith)
read-put (suc k) i scale acc x rest pos full fits some_left = elim (Bool-cases (ltb x 128)) [
  | inl t ↦
      let exact : x * scale % 2 ^ 64 ≡ x * scale = mod-eq_of_lt (omega arith) in
      rw (t) (rw (t, no_overflow k i scale x pos full (omega arith), exact))
  | inr t ↦
      let low : (x % 128 + 128) % 128 ≡ x % 128 = omega arith in
      let high : ltb (x % 128 + 128) 128 ≡ false = ground arith in
      let exact : (x % 128) * scale % 2 ^ 64 ≡ (x % 128) * scale =
        mod-eq_of_lt (omega (arith, group_le x scale)) in
      let total : acc + (x % 128) * scale + (x / 128) * (scale * 128) ≡ acc + x * scale =
        omega (arith, groups x scale) in
      let ih =
        read-put k (suc i) (scale * 128) (acc + (x % 128) * scale) (x / 128) rest (omega arith)
          (omega (arith, ap (λ (t : ℕ). scale * t) (pow-suc 128 k))) (omega (arith, total))
          (inr (ground arith)) in
      rw t (rw (high, low, exact) (ih ∙ ap (λ (n : ℕ). ok (n, rest)) total))
]

-- A 64-bit number that is written as a uvarint is read back, with the input behind it left over.
pub read_uvarint-put_uvarint :
    (x : ℕ) (rest : Bytes)
    → x < 2 ^ 64
    → read_uvarint 0 1 0 (put_uvarint 10 x ++ rest) ≡ ok (x, rest)
read_uvarint-put_uvarint x rest h =
    read-put 10 0 1 0 x rest refl refl (omega arith) (inl refl)
    ∙ ap (λ (n : ℕ). ok (n, rest)) (omega arith)
