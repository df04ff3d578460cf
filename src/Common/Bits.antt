-- ===== src/Common/Bits.antt =====
-- `&`, `|`, `^` and the shifts of the source, as arithmetic, at every width.
use Prim.Native.Nat.{
  ℕ, zero, suc, ◌+◌, ◌-◌, ◌*◌, ◌/◌, ◌%◌, ◌^◌, ◌≤◌, ◌<◌, min, max, bit_and, bit_or, bit_xor, digits,
  bitwise, differ, bit_and-bitwise, bit_or-bitwise, bit_xor-bitwise,
}
use mathlib.Core.Path.{◌≡◌, refl, ap}
use native.Mathlib.Nat.{pow-suc, one-le-pow, le_refl}
use native.Mathlib.Omega.{arith}

-- One round of a digit-wise operation does not depend on how much fuel is left.
module _ (rest : ℕ → ℕ) (op : ℕ → ℕ → ℕ) where
  digits_enough : (m n x y : ℕ) → x ≤ m → x ≤ n → digits rest op m x y ≡ digits rest op n x y
  digits_enough zero zero x y h k = refl
  digits_enough zero (suc n) zero y h k = refl
  digits_enough zero (suc n) (suc x) y h k = absurd (omega arith)
  digits_enough (suc m) zero zero y h k = refl
  digits_enough (suc m) zero (suc x) y h k = absurd (omega arith)
  digits_enough (suc m) (suc n) zero y h k = refl
  digits_enough (suc m) (suc n) (suc x) y h k =
      ap (λ (t : ℕ). t * 2 + op (suc x % 2) (y % 2))
        (digits_enough m n (suc x / 2) (y / 2) (omega arith) (omega arith))

  lowest_digit :
      (x y : ℕ)
      → bitwise rest op (suc x) y ≡ bitwise rest op (suc x / 2) (y / 2) * 2 + op (suc x % 2) (y % 2)
  lowest_digit x y =
      ap (λ (t : ℕ). t * 2 + op (suc x % 2) (y % 2))
        (digits_enough x (suc x / 2) (suc x / 2) (y / 2) (omega arith) (le_refl _))

bit_and-lowest : (x y : ℕ) → bit_and x y ≡ bit_and (x / 2) (y / 2) * 2 + min (x % 2) (y % 2)
bit_and-lowest zero y = simp bit_and-bitwise (omega arith)
bit_and-lowest (suc x) y = simp bit_and-bitwise (lowest_digit (λ b. 0) min x y)

bit_or-lowest : (x y : ℕ) → bit_or x y ≡ bit_or (x / 2) (y / 2) * 2 + max (x % 2) (y % 2)
bit_or-lowest zero y = simp bit_or-bitwise (omega arith)
bit_or-lowest (suc x) y = simp bit_or-bitwise (lowest_digit (λ b. b) max x y)

differ-zero : (y : ℕ) → y < 2 → differ 0 y ≡ y
differ-zero zero h = refl
differ-zero (suc zero) h = refl
differ-zero (suc (suc y)) h = absurd (omega arith)

differ-lt : (x y : ℕ) → x < 2 → y < 2 → differ x y < 2
differ-lt zero y h k = k
differ-lt (suc zero) zero h k = omega arith
differ-lt (suc zero) (suc zero) h k = omega arith
differ-lt (suc zero) (suc (suc y)) h k = absurd (omega arith)
differ-lt (suc (suc x)) y h k = absurd (omega arith)

bit_xor-lowest : (x y : ℕ) → bit_xor x y ≡ bit_xor (x / 2) (y / 2) * 2 + differ (x % 2) (y % 2)
bit_xor-lowest zero y = simp bit_xor-bitwise (omega (arith, differ-zero (y % 2) (omega arith)))
bit_xor-lowest (suc x) y = simp bit_xor-bitwise (lowest_digit (λ b. b) differ x y)

-- With nothing on the other side the digits stay, or vanish; `n` bounds the number of digits.
bit_or-zero_le : (n x : ℕ) → x ≤ n → bit_or x 0 ≡ x
bit_or-zero_le n zero h = refl
bit_or-zero_le zero (suc x) h = absurd (omega arith)
bit_or-zero_le (suc n) (suc x) h =
    omega (arith, bit_or-lowest (suc x) 0, bit_or-zero_le n (suc x / 2) (omega arith))

bit_and-zero_le : (n x : ℕ) → x ≤ n → bit_and x 0 ≡ 0
bit_and-zero_le n zero h = refl
bit_and-zero_le zero (suc x) h = absurd (omega arith)
bit_and-zero_le (suc n) (suc x) h =
    omega (arith, bit_and-lowest (suc x) 0, bit_and-zero_le n (suc x / 2) (omega arith))

shift-suc : (q k : ℕ) → q * 2 ^ suc k ≡ 2 * (q * 2 ^ k)
shift-suc q k = omega (arith, ap (λ (t : ℕ). q * t) (pow-suc 2 k))

-- `lo | (hi << k)` is a sum where `lo` has `k` bits.
pub bit_or_shifted : (k lo hi : ℕ) → lo < 2 ^ k → bit_or lo (hi * 2 ^ k) ≡ lo + hi * 2 ^ k
bit_or_shifted zero zero hi h = simp bit_or-bitwise (omega arith)
bit_or_shifted zero (suc lo) hi h = absurd (omega arith)
bit_or_shifted (suc k) lo hi h = ground (
  arith,
  bit_or-lowest lo (hi * 2 ^ suc k),
  shift-suc hi k,
  pow-suc 2 k,
  bit_or_shifted k (lo / 2) hi (omega (arith, pow-suc 2 k)),
)

mask_fields : (k q r : ℕ) → r < 2 ^ k → bit_and (q * 2 ^ k + r) (2 ^ k - 1) ≡ r
mask_fields zero q r h =
    rw (bit_and-zero_le (q * 2 ^ 0 + r) (q * 2 ^ 0 + r) (le_refl _)) (omega arith)
mask_fields (suc k) q r h = ground (
  arith,
  bit_and-lowest (q * 2 ^ suc k + r) (2 ^ suc k - 1),
  shift-suc q k,
  pow-suc 2 k,
  one-le-pow k 2,
  mask_fields k q (r / 2) (omega (arith, pow-suc 2 k)),
)

-- `x & (2^k - 1)` is the remainder by `2 ^ k`.
pub bit_and_mask : (k x : ℕ) → bit_and x (2 ^ k - 1) ≡ x % 2 ^ k
bit_and_mask k x = ground (arith, one-le-pow k 2, mask_fields k (x / 2 ^ k) (x % 2 ^ k))

-- `^` of two `k`-bit words has `k` bits.
pub bit_xor-lt : (k x y : ℕ) → x < 2 ^ k → y < 2 ^ k → bit_xor x y < 2 ^ k
bit_xor-lt zero zero zero h l = omega arith
bit_xor-lt zero (suc x) y h l = absurd (omega arith)
bit_xor-lt zero zero (suc y) h l = absurd (omega arith)
bit_xor-lt (suc k) x y h l = omega (
  arith,
  bit_xor-lowest x y,
  pow-suc 2 k,
  differ-lt (x % 2) (y % 2) (omega arith) (omega arith),
  bit_xor-lt k (x / 2) (y / 2) (omega (arith, pow-suc 2 k)) (omega (arith, pow-suc 2 k)),
)
