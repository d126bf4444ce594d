-- ===== src/Prelude/Xor.antt =====
-- `^` at variables, digit by digit.
use Prim.Native.Nat.{
  ℕ, zero, suc, ◌+◌, ◌*◌, ◌/◌, ◌%◌, ◌^◌, ◌≤◌, ◌<◌, differ, max, bit_or, bit_xor, bit_xor-bitwise,
}
use kernova_tee.Prelude.Bits.{
  digits-fuel, bit_or-low, zero-bit_or, mul-pow-suc, half-split, half-lt, parity-split,
}
use mathlib.Core.Path.{◌≡◌, refl, ap, sym, ◌∙◌}
use mathlib.Core.Logic.{◌↔◌}
use native.Mathlib.Nat.{pow-suc, add-zero, mul-one}
use native.Mathlib.Omega.{arith}

pub bit_xor-low : (a b : ℕ) → bit_xor a b ≡ bit_xor (a / 2) (b / 2) * 2 + differ (a % 2) (b % 2)
bit_xor-low zero b = omega (arith, bit_xor-bitwise 0 b, bit_xor-bitwise 0 (b / 2))
bit_xor-low (suc a) b = omega (
  arith,
  bit_xor-bitwise (suc a) b,
  bit_xor-bitwise (suc a / 2) (b / 2),
  digits-fuel (λ b. b) differ a (suc a / 2) (suc a / 2) (b / 2) (omega arith) (omega arith),
)

differ-zero : (a b : ℕ) → differ a b ≡ 0 → a ≡ b
differ-zero zero b e = sym e
differ-zero (suc a) zero e = e
differ-zero (suc a) (suc b) e = ap suc (differ-zero a b e)

differ-same : (a : ℕ) → differ a a ≡ 0
differ-same zero = refl
differ-same (suc a) = differ-same a

bit_xor-zero_below : (n a b : ℕ) → a ≤ n → bit_xor a b ≡ 0 → a ≡ b
bit_xor-zero_below n zero b p e = sym e ∙ bit_xor-bitwise 0 b
bit_xor-zero_below zero (suc a) b p e = absurd (omega arith)
bit_xor-zero_below (suc n) (suc a) b p e =
    let low = bit_xor-low (suc a) b in
    let high = bit_xor-zero_below n (suc a / 2) (b / 2) (omega arith) (omega arith) in
    let digit = differ-zero (suc a % 2) (b % 2) (omega arith) in omega arith

bit_xor-same_below : (n a : ℕ) → a ≤ n → bit_xor a a ≡ 0
bit_xor-same_below n zero p = refl
bit_xor-same_below zero (suc a) p = absurd (omega arith)
bit_xor-same_below (suc n) (suc a) p = omega (
  arith,
  bit_xor-low (suc a) (suc a),
  bit_xor-same_below n (suc a / 2) (omega arith),
  differ-same (suc a % 2),
)

pub bit_xor-zero_iff : (a b : ℕ) → (bit_xor a b ≡ 0) ↔ (a ≡ b)
bit_xor-zero_iff a b = (
  bit_xor-zero_below a a b (omega arith),
  λ e. ap (λ (c : ℕ). bit_xor a c) (sym e) ∙ bit_xor-same_below a a (omega arith),
)

max-zero : (a b : ℕ) → max a b ≡ 0 → (a ≡ 0) × (b ≡ 0)
max-zero a b e = (omega arith, omega arith)

bit_or-zero_below : (n a b : ℕ) → a ≤ n → bit_or a b ≡ 0 → (a ≡ 0) × (b ≡ 0)
bit_or-zero_below n zero b p e = (refl, sym (zero-bit_or b) ∙ e)
bit_or-zero_below zero (suc a) b p e = absurd (omega arith)
bit_or-zero_below (suc n) (suc a) b p e =
    let low = bit_or-low (suc a) b in
    let high = bit_or-zero_below n (suc a / 2) (b / 2) (omega arith) (omega arith) in
    let digit = max-zero (suc a % 2) (b % 2) (omega arith) in (omega arith, omega arith)

pub bit_or-zero_iff : (a b : ℕ) → (bit_or a b ≡ 0) ↔ ((a ≡ 0) × (b ≡ 0))
bit_or-zero_iff a b = (bit_or-zero_below a a b (omega arith), λ (p, q). rw (p, q) refl)

-- An operand may be taken away from both sides.
differ-cancel : (a b c : ℕ) → a ≤ 1 → b ≤ 1 → c ≤ 1 → differ c a ≡ differ c b → a ≡ b
differ-cancel a b zero p q r e = e
differ-cancel zero zero (suc c) p q r e = refl
differ-cancel zero (suc zero) (suc zero) p q r e = absurd (omega (arith, e))
differ-cancel (suc zero) zero (suc zero) p q r e = absurd (omega (arith, e))
differ-cancel (suc zero) (suc zero) (suc c) p q r e = refl
differ-cancel a b (suc (suc c)) p q r e = absurd (omega arith)
differ-cancel (suc (suc a)) b c p q r e = absurd (omega arith)
differ-cancel a (suc (suc b)) c p q r e = absurd (omega arith)

differ_comm : (a b : ℕ) → differ a b ≡ differ b a
differ_comm zero zero = refl
differ_comm zero (suc b) = refl
differ_comm (suc a) zero = refl
differ_comm (suc a) (suc b) = differ_comm a b

differ_le : (a b : ℕ) → a ≤ 1 → b ≤ 1 → differ a b ≤ 1
differ_le zero b p q = q
differ_le (suc a) zero p q = p
differ_le (suc a) (suc b) p q = differ_le a b (omega arith) (omega arith)

bit_xor-cancel_below : (n a b c : ℕ) → a ≤ n → b ≤ n → bit_xor c a ≡ bit_xor c b → a ≡ b
bit_xor-cancel_below zero a b c p q e = omega arith
bit_xor-cancel_below (suc n) a b c p q e =
    let e' = sym (bit_xor-low c a) ∙ e ∙ bit_xor-low c b in
    let da = differ_le (c % 2) (a % 2) (omega arith) (omega arith) in
    let db = differ_le (c % 2) (b % 2) (omega arith) (omega arith) in
    let high =
      bit_xor-cancel_below n (a / 2) (b / 2) (c / 2) (omega arith) (omega arith) (omega arith) in
    let digit =
      differ-cancel (a % 2) (b % 2) (c % 2) (omega arith) (omega arith) (omega arith)
        (omega arith) in
    omega arith

pub bit_xor-cancel : (a b c : ℕ) → bit_xor c a ≡ bit_xor c b → a ≡ b
bit_xor-cancel a b c e = bit_xor-cancel_below (a + b) a b c (omega arith) (omega arith) e

bit_xor_comm_below : (n a b : ℕ) → a ≤ n → b ≤ n → bit_xor a b ≡ bit_xor b a
bit_xor_comm_below zero zero zero p q = refl
bit_xor_comm_below zero (suc a) b p q = absurd (omega arith)
bit_xor_comm_below zero zero (suc b) p q = absurd (omega arith)
bit_xor_comm_below (suc n) a b p q = omega (
  arith,
  bit_xor-low a b,
  bit_xor-low b a,
  bit_xor_comm_below n (a / 2) (b / 2) (omega arith) (omega arith),
  differ_comm (a % 2) (b % 2),
)

pub bit_xor_comm : (a b : ℕ) → bit_xor a b ≡ bit_xor b a
bit_xor_comm a b = bit_xor_comm_below (a + b) a b (omega arith) (omega arith)

pub bit_xor_lt : (k a b : ℕ) → a < 2 ^ k → b < 2 ^ k → bit_xor a b < 2 ^ k
bit_xor_lt zero zero zero p q = omega arith
bit_xor_lt zero (suc a) b p q = absurd (omega arith)
bit_xor_lt zero zero (suc b) p q = absurd (omega arith)
bit_xor_lt (suc k) a b p q =
    let high = bit_xor_lt k (a / 2) (b / 2) (half-lt k a p) (half-lt k b q) in
    let digit = differ_le (a % 2) (b % 2) (omega arith) (omega arith) in
    omega (arith, bit_xor-low a b, pow-suc 2 k)

pub bit_xor_split :
    (k p q r s : ℕ)
    → r < 2 ^ k
    → s < 2 ^ k
    → bit_xor (p * 2 ^ k + r) (q * 2 ^ k + s) ≡ bit_xor p q * 2 ^ k + bit_xor r s
bit_xor_split zero p q zero zero hr hs = simp (mul-one, add-zero)
bit_xor_split zero p q (suc r) s hr hs = absurd (omega arith)
bit_xor_split zero p q zero (suc s) hr hs = absurd (omega arith)
bit_xor_split (suc k) p q r s hr hs =
    rw
      (
        bit_xor-low (p * 2 ^ suc k + r) (q * 2 ^ suc k + s),
        half-split k p r,
        half-split k q s,
        parity-split k p r,
        parity-split k q s,
        bit_xor_split k p q (r / 2) (s / 2) (half-lt k r hr) (half-lt k s hs),
      )
      (omega (arith, bit_xor-low r s, mul-pow-suc (bit_xor p q) k))

pub zero-bit_xor : (b : ℕ) → bit_xor 0 b ≡ b
zero-bit_xor b = bit_xor-bitwise 0 b
