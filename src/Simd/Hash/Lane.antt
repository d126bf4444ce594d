-- ===== src/Simd/Hash/Lane.antt =====
-- Each step on a lane of `simd_hash_blocks` can be undone.
use kernova_tee.Prelude.{ℕ, ◌+◌, ◌*◌, ◌/◌, ◌%◌, ◌^◌, ◌<◌, ◌≡◌, ap, sym, ◌∙◌, u64, bit_xor, arith}
use kernova_tee.Prelude.Bits.{div-mod-pow}
use kernova_tee.Prelude.Xor.{bit_xor-cancel, bit_xor_comm, bit_xor_lt, bit_xor_split, zero-bit_xor}
use kernova_tee.Simd.Hash.{mul_prime, rol, xor_shift, fmix64}

-- A product with an odd constant, by its inverse modulo 2^64.
mul_prime-undo : (x : ℕ) → x < 2 ^ 64 → u64 (mul_prime x * 0xce96_5057_aff6_957b) ≡ x
mul_prime-undo x h = omega arith

pub mul_prime-cancel : (x y : ℕ) → x < 2 ^ 64 → y < 2 ^ 64 → mul_prime x ≡ mul_prime y → x ≡ y
mul_prime-cancel x y p q e =
    sym (mul_prime-undo x p)
    ∙ ap (λ (t : ℕ). u64 (t * 0xce96_5057_aff6_957b)) e
    ∙ mul_prime-undo y q

first_product-undo :
    (x : ℕ) → x < 2 ^ 64 → u64 (u64 (x * 0xff51_afd7_ed55_8ccd) * 0x4f74_430c_22a5_4005) ≡ x
first_product-undo x h = omega arith

second_product-undo :
    (x : ℕ) → x < 2 ^ 64 → u64 (u64 (x * 0xc4ce_b9fe_1a85_ec53) * 0x9cb4_b2f8_1293_37db) ≡ x
second_product-undo x h = omega arith

-- A rotation by 13 bits.
rol-undo : (x : ℕ) → x < 2 ^ 64 → u64 (rol x 13 * 2 ^ 51) + rol x 13 / 2 ^ 13 ≡ x
rol-undo x h = omega arith

pub rol-cancel : (x y : ℕ) → x < 2 ^ 64 → y < 2 ^ 64 → rol x 13 ≡ rol y 13 → x ≡ y
rol-cancel x y p q e =
    sym (rol-undo x p) ∙ ap (λ (t : ℕ). u64 (t * 2 ^ 51) + t / 2 ^ 13) e ∙ rol-undo y q

pub rol_lt : (x : ℕ) → x < 2 ^ 64 → rol x 13 < 2 ^ 64
rol_lt x h = omega arith

-- A shift that is mixed in leaves the high bits as they are.
mixed_low : ℕ → ℕ
mixed_low x = bit_xor (x % 2 ^ 33) (x / 2 ^ 33)

mixed_low_lt : (x : ℕ) → x < 2 ^ 64 → mixed_low x < 2 ^ 33
unfolding mixed_low
mixed_low_lt x h = bit_xor_lt 33 (x % 2 ^ 33) (x / 2 ^ 33) (omega arith) (omega arith)

xor_shift-split : (x : ℕ) → x < 2 ^ 64 → xor_shift x ≡ x / 2 ^ 33 * 2 ^ 33 + mixed_low x
unfolding mixed_low
xor_shift-split x h =
    let high = x / 2 ^ 33 in
    ap (λ (t : ℕ). bit_xor t high) (sym (div-mod-pow 33 x))
    ∙ ap (λ (t : ℕ). bit_xor (high * 2 ^ 33 + x % 2 ^ 33) t) (omega arith)
    ∙ bit_xor_split 33 high 0 (x % 2 ^ 33) high (omega arith) (omega arith)
    ∙ ap (λ (t : ℕ). t * 2 ^ 33 + bit_xor (x % 2 ^ 33) high)
        (bit_xor_comm high 0 ∙ zero-bit_xor high)

same_high :
    (x y : ℕ) → x < 2 ^ 64 → y < 2 ^ 64 → xor_shift x ≡ xor_shift y → x / 2 ^ 33 ≡ y / 2 ^ 33
same_high x y p q e =
    let a = xor_shift-split x p in
    let b = xor_shift-split y q in
    let c = mixed_low_lt x p in let d = mixed_low_lt y q in omega arith

pub xor_shift-cancel : (x y : ℕ) → x < 2 ^ 64 → y < 2 ^ 64 → xor_shift x ≡ xor_shift y → x ≡ y
unfolding mixed_low
xor_shift-cancel x y p q e =
    let high = same_high x y p q e in
    let a = xor_shift-split x p in
    let b = xor_shift-split y q in
    let mixed : mixed_low x ≡ mixed_low y = omega arith in
    let low = bit_xor-cancel (x % 2 ^ 33) (y % 2 ^ 33) (x / 2 ^ 33) (
      bit_xor_comm (x / 2 ^ 33) (x % 2 ^ 33)
      ∙ mixed
      ∙ bit_xor_comm (y % 2 ^ 33) (y / 2 ^ 33)
      ∙ ap (λ (t : ℕ). bit_xor t (y % 2 ^ 33)) (sym high)) in
    omega arith

pub xor_shift_lt : (x : ℕ) → x < 2 ^ 64 → xor_shift x < 2 ^ 64
xor_shift_lt x h = bit_xor_lt 64 x (x / 2 ^ 33) h (omega arith)

-- The whole finalizer.
pub fmix64-cancel : (x y : ℕ) → x < 2 ^ 64 → y < 2 ^ 64 → fmix64 x ≡ fmix64 y → x ≡ y
unfolding fmix64
fmix64-cancel x y p q e =
    let a : ℕ → ℕ = λ (t : ℕ). u64 (xor_shift t * 0xff51_afd7_ed55_8ccd) in
    let b : ℕ → ℕ = λ (t : ℕ). u64 (xor_shift (a t) * 0xc4ce_b9fe_1a85_ec53) in
    let below_a : (t : ℕ) → a t < 2 ^ 64 = λ t. omega arith in
    let below_b : (t : ℕ) → b t < 2 ^ 64 = λ t. omega arith in
    let same_b : b x ≡ b y = xor_shift-cancel (b x) (b y) (below_b x) (below_b y) e in
    let sa =
      sym (second_product-undo (xor_shift (a x)) (xor_shift_lt (a x) (below_a x)))
      ∙ ap (λ (t : ℕ). u64 (t * 0x9cb4_b2f8_1293_37db)) same_b
      ∙ second_product-undo (xor_shift (a y)) (xor_shift_lt (a y) (below_a y)) in
    let same_a : a x ≡ a y = xor_shift-cancel (a x) (a y) (below_a x) (below_a y) sa in
    let sx =
      sym (first_product-undo (xor_shift x) (xor_shift_lt x p))
      ∙ ap (λ (t : ℕ). u64 (t * 0x4f74_430c_22a5_4005)) same_a
      ∙ first_product-undo (xor_shift y) (xor_shift_lt y q) in
    xor_shift-cancel x y p q sx

pub fmix64_lt : (x : ℕ) → x < 2 ^ 64 → fmix64 x < 2 ^ 64
unfolding fmix64
fmix64_lt x h =
    let a = u64 (xor_shift x * 0xff51_afd7_ed55_8ccd) in
    xor_shift_lt (u64 (xor_shift a * 0xc4ce_b9fe_1a85_ec53)) (omega arith)
