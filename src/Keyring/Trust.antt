-- ===== src/Keyring/Trust.antt =====
-- keyring/trust.go: trust levels, which are bytes.
use pnyxdb.Base.{ℕ, ◌+◌, ◌||◌, ltb, leb, ◌==◌, if◌then◌else◌}

abbrev pub trust_none : ℕ
trust_none = 0

abbrev pub trust_low : ℕ
trust_low = 1

abbrev pub trust_high : ℕ
trust_high = 3

abbrev pub trust_ultimate : ℕ
trust_ultimate = 255

abbrev pub trust_threshold : ℕ
trust_threshold = trust_high

-- `Min`
abbrev pub trust_min : ℕ → ℕ → ℕ
trust_min t t2 = if ltb t t2 then t else t2

-- `Add`; the sum of two levels under the threshold fits a byte.
abbrev pub trust_add : ℕ → ℕ → ℕ
trust_add t t2 =
    if t == trust_ultimate || t2 == trust_ultimate
    then trust_ultimate
    else if leb trust_threshold t || leb trust_threshold t2
    then trust_threshold
    else t + t2
