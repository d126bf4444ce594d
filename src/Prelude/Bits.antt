-- ===== src/Prelude/Bits.antt =====
-- `&` and `|` at variables: both work digit by digit, so a number may be cut at any bit.
use Prim.Native.Nat.{
  ℕ, zero, suc, ◌+◌, ◌-◌, ◌*◌, ◌/◌, ◌%◌, ◌^◌, ◌≤◌, ◌<◌, min, max, digits, bit_and, bit_or,
  bit_and-bitwise, bit_or-bitwise,
}
use mathlib.Core.Path.{◌≡◌, refl, ap}
use native.Mathlib.Nat.{pow-suc, add-zero, mul-one, one-le-pow, div-add-mod'}
use native.Mathlib.Omega.{arith}

-- The digit recursion does not depend on its fuel, once there is enough of it.
module _ (rest : ℕ → ℕ) (digit : ℕ → ℕ → ℕ) where
  pub digits-fuel :
      (n m a b : ℕ) → a ≤ n → a ≤ m → digits rest digit n a b ≡ digits rest digit m a b
  digits-fuel zero zero a b p q = refl
  digits-fuel zero (suc m) zero b p q = refl
  digits-fuel zero (suc m) (suc a) b p q = absurd (omega arith)
  digits-fuel (suc n) zero zero b p q = refl
  digits-fuel (suc n) zero (suc a) b p q = absurd (omega arith)
  digits-fuel (suc n) (suc m) zero b p q = refl
  digits-fuel (suc n) (suc m) (suc a) b p q =
      omega (arith, digits-fuel n m (suc a / 2) (b / 2) (omega arith) (omega arith))

pub bit_and-low : (a b : ℕ) → bit_and a b ≡ bit_and (a / 2) (b / 2) * 2 + min (a % 2) (b % 2)
bit_and-low zero b = omega (arith, bit_and-bitwise 0 b, bit_and-bitwise 0 (b / 2))
bit_and-low (suc a) b = omega (
  arith,
  bit_and-bitwise (suc a) b,
  bit_and-bitwise (suc a / 2) (b / 2),
  digits-fuel (λ b. zero) min a (suc a / 2) (suc a / 2) (b / 2) (omega arith) (omega arith),
)

pub bit_or-low : (a b : ℕ) → bit_or a b ≡ bit_or (a / 2) (b / 2) * 2 + max (a % 2) (b % 2)
bit_or-low zero b = omega (arith, bit_or-bitwise 0 b, bit_or-bitwise 0 (b / 2))
bit_or-low (suc a) b = omega (
  arith,
  bit_or-bitwise (suc a) b,
  bit_or-bitwise (suc a / 2) (b / 2),
  digits-fuel (λ b. b) max a (suc a / 2) (suc a / 2) (b / 2) (omega arith) (omega arith),
)

pub zero-bit_and : (b : ℕ) → bit_and 0 b ≡ 0
zero-bit_and b = bit_and-bitwise 0 b

pub zero-bit_or : (b : ℕ) → bit_or 0 b ≡ b
zero-bit_or b = bit_or-bitwise 0 b

bit_and-zero_below : (n a : ℕ) → a ≤ n → bit_and a 0 ≡ 0
bit_and-zero_below n zero h = refl
bit_and-zero_below zero (suc a) h = absurd (omega arith)
bit_and-zero_below (suc n) (suc a) h =
    omega (arith, bit_and-low (suc a) 0, bit_and-zero_below n (suc a / 2) (omega arith))

bit_or-zero_below : (n a : ℕ) → a ≤ n → bit_or a 0 ≡ a
bit_or-zero_below n zero h = refl
bit_or-zero_below zero (suc a) h = absurd (omega arith)
bit_or-zero_below (suc n) (suc a) h =
    omega (arith, bit_or-low (suc a) 0, bit_or-zero_below n (suc a / 2) (omega arith))

pub bit_and-zero : (a : ℕ) → bit_and a 0 ≡ 0
bit_and-zero a = bit_and-zero_below a a (omega arith)

pub bit_or-zero : (a : ℕ) → bit_or a 0 ≡ a
bit_or-zero a = bit_or-zero_below a a (omega arith)

pub bit_and-one : (a : ℕ) → bit_and a 1 ≡ a % 2
bit_and-one a = omega (arith, bit_and-low a 1, bit_and-zero (a / 2))

pub mul-pow-suc : (q k : ℕ) → q * 2 ^ suc k ≡ 2 * (q * 2 ^ k)
mul-pow-suc q k = omega (arith, ap (λ (t : ℕ). q * t) (pow-suc 2 k))

-- Halving a number that is cut at bit `k + 1` cuts its half at bit `k`.
pub half-split : (k p r : ℕ) → (p * 2 ^ suc k + r) / 2 ≡ p * 2 ^ k + r / 2
half-split k p r = omega (arith, mul-pow-suc p k)

pub half-lt : (k r : ℕ) → r < 2 ^ suc k → r / 2 < 2 ^ k
half-lt k r h = omega (arith, pow-suc 2 k)

pub parity-split : (k p r : ℕ) → (p * 2 ^ suc k + r) % 2 ≡ r % 2
parity-split k p r = omega (arith, mul-pow-suc p k)

-- Both operations may be done above and below bit `k` apart.
pub bit_or_split :
    (k p q r s : ℕ)
    → r < 2 ^ k
    → s < 2 ^ k
    → bit_or (p * 2 ^ k + r) (q * 2 ^ k + s) ≡ bit_or p q * 2 ^ k + bit_or r s
bit_or_split zero p q zero zero hr hs = simp (mul-one, add-zero)
bit_or_split zero p q (suc r) s hr hs = absurd (omega arith)
bit_or_split zero p q zero (suc s) hr hs = absurd (omega arith)
bit_or_split (suc k) p q r s hr hs =
    rw
      (
        bit_or-low (p * 2 ^ suc k + r) (q * 2 ^ suc k + s),
        half-split k p r,
        half-split k q s,
        parity-split k p r,
        parity-split k q s,
        bit_or_split k p q (r / 2) (s / 2) (half-lt k r hr) (half-lt k s hs),
      )
      (omega (arith, bit_or-low r s, mul-pow-suc (bit_or p q) k))

pub bit_and_split :
    (k p q r s : ℕ)
    → r < 2 ^ k
    → s < 2 ^ k
    → bit_and (p * 2 ^ k + r) (q * 2 ^ k + s) ≡ bit_and p q * 2 ^ k + bit_and r s
bit_and_split zero p q zero zero hr hs = simp (mul-one, add-zero)
bit_and_split zero p q (suc r) s hr hs = absurd (omega arith)
bit_and_split zero p q zero (suc s) hr hs = absurd (omega arith)
bit_and_split (suc k) p q r s hr hs =
    rw
      (
        bit_and-low (p * 2 ^ suc k + r) (q * 2 ^ suc k + s),
        half-split k p r,
        half-split k q s,
        parity-split k p r,
        parity-split k q s,
        bit_and_split k p q (r / 2) (s / 2) (half-lt k r hr) (half-lt k s hs),
      )
      (omega (arith, bit_and-low r s, mul-pow-suc (bit_and p q) k))

-- A number is cut at bit `k` by division.
pub div-mod-pow : (k x : ℕ) → x / 2 ^ k * 2 ^ k + x % 2 ^ k ≡ x
div-mod-pow k x = div-add-mod' x (2 ^ k)

mod-pow-lt : (k x : ℕ) → x % 2 ^ k < 2 ^ k
mod-pow-lt k x = omega (arith, one-le-pow k 2)

pow-pos : (k : ℕ) → 0 < 2 ^ k
pow-pos k = omega (arith, one-le-pow k 2)

zero-cut : (k r : ℕ) → 0 * 2 ^ k + r ≡ r
zero-cut k r = omega arith

-- `x & (m << k)` keeps the field `m` of the bits from `k` on.
pub bit_and-shifted : (k x m : ℕ) → bit_and x (m * 2 ^ k) ≡ bit_and (x / 2 ^ k) m * 2 ^ k
bit_and-shifted k x m = omega (
  arith,
  ap (λ (t : ℕ). bit_and t (m * 2 ^ k)) (div-mod-pow k x),
  ap (λ (t : ℕ). bit_and (x / 2 ^ k * 2 ^ k + x % 2 ^ k) t) (add-zero (m * 2 ^ k)),
  bit_and_split k (x / 2 ^ k) m (x % 2 ^ k) 0 (mod-pow-lt k x) (pow-pos k),
  bit_and-zero (x % 2 ^ k),
)

bit_and-mask_below : (k r : ℕ) → r < 2 ^ k → bit_and r (2 ^ k - 1) ≡ r
bit_and-mask_below zero zero h = refl
bit_and-mask_below zero (suc r) h = absurd (omega arith)
bit_and-mask_below (suc k) r h = ground (
  arith,
  bit_and-low r (2 ^ suc k - 1),
  pow-suc 2 k,
  one-le-pow k 2,
  bit_and-mask_below k (r / 2) (half-lt k r h),
)

-- `x & (2^k - 1)` is the remainder.
pub bit_and-mask : (k x : ℕ) → bit_and x (2 ^ k - 1) ≡ x % 2 ^ k
bit_and-mask k x = omega (
  arith,
  one-le-pow k 2,
  ap (λ (t : ℕ). bit_and t (2 ^ k - 1)) (div-mod-pow k x),
  ap (λ (t : ℕ). bit_and (x / 2 ^ k * 2 ^ k + x % 2 ^ k) t) (zero-cut k (2 ^ k - 1)),
  bit_and_split k (x / 2 ^ k) 0 (x % 2 ^ k) (2 ^ k - 1) (mod-pow-lt k x)
      (omega (arith, one-le-pow k 2)),
  ap (λ (t : ℕ). t * 2 ^ k) (bit_and-zero (x / 2 ^ k)),
  bit_and-mask_below k (x % 2 ^ k) (mod-pow-lt k x),
)

-- `(hi << k) | lo` is a sum when `lo` fits below bit `k`.
pub bit_or-fields : (k hi lo : ℕ) → lo < 2 ^ k → bit_or (hi * 2 ^ k) lo ≡ hi * 2 ^ k + lo
bit_or-fields k hi lo h = omega (
  arith,
  ap (λ (t : ℕ). bit_or t lo) (add-zero (hi * 2 ^ k)),
  bit_or_split k hi 0 0 lo (pow-pos k) h,
  ap (λ (t : ℕ). bit_or (hi * 2 ^ k + 0) t) (zero-cut k lo),
  ap (λ (t : ℕ). t * 2 ^ k) (bit_or-zero hi),
  zero-bit_or lo,
)
