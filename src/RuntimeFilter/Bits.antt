-- ===== src/RuntimeFilter/Bits.antt =====
-- The bytes of a `bytearray` as numbers, and the operators `|` and `<<` on them.
use distributed_sql.Prelude.{
  ℕ, zero, suc, ◌+◌, ◌*◌, ◌/◌, ◌%◌, ◌<◌, ◌≡◌, refl, Bool, true, ◌||◌, ◌==◌, if◌then◌else◌, arith,
}

-- `byte & (1 << k)` is not zero.
abbrev pub bit : ℕ → ℕ → Bool
bit zero byte = (byte % 2) == 1
bit (suc k) byte = bit k (byte / 2)

-- `1 << k`
abbrev pub one_shifted : ℕ → ℕ
one_shifted zero = 1
one_shifted (suc k) = 2 * one_shifted k

-- `a | b` on so many bits.
abbrev pub bit_or : ℕ → ℕ → ℕ → ℕ
bit_or zero a b = 0
bit_or (suc width) a b =
    (if (a % 2) == 1 || ((b % 2) == 1) then 1 else 0) + 2 * bit_or width (a / 2) (b / 2)

half : (low x : ℕ) → low < 2 → (low + 2 * x) / 2 ≡ x
half low x h = omega arith

parity : (low x : ℕ) → low < 2 → (low + 2 * x) % 2 ≡ low
parity low x h = omega arith

pub bit-bit_or : (width k a b : ℕ) → k < width → bit k (bit_or width a b) ≡ (bit k a || bit k b)
bit-bit_or zero k a b h = ground arith
bit-bit_or (suc width) zero a b h = ground arith
bit-bit_or (suc width) (suc k) a b h = ground (arith, bit-bit_or width k (a / 2) (b / 2))

pub bit-one_shifted : (k : ℕ) → bit k (one_shifted k) ≡ true
bit-one_shifted zero = refl
bit-one_shifted (suc k) = ground (arith, bit-one_shifted k)
