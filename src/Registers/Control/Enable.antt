-- ===== src/Registers/Control/Enable.antt =====
-- `CR4::enable_vmx` sets one bit.
use kernova_tee.Prelude.{
  ℕ, ◌+◌, ◌*◌, ◌/◌, ◌%◌, ◌^◌, ◌<◌, ◌≡◌, ◌⊎◌, inl, inr, refl, ap, sym, ◌∙◌, Bool, Bool-cases, true,
  false, not, ◌==◌, bit_and, bit_or, arith,
}
use kernova_tee.Prelude.Bits.{
  bit_and-one, bit_and-shifted, bit_or_split, bit_or-zero, bit_or-fields,
}
use kernova_tee.Registers.Control.{Processor, cr4, enable_vmx}
use kernova_tee.Registers.Control.Restore.{RegisterLaws}

-- Bit 13 of a number.
abbrev pub is_set : ℕ → Bool
is_set v = v / 2 ^ 13 % 2 == 1

test_bit : (v : ℕ) → bit_and v (2 ^ 13) ≡ v / 2 ^ 13 % 2 * 2 ^ 13
test_bit v = bit_and-shifted 13 v 1 ∙ ap (λ (t : ℕ). t * 2 ^ 13) (bit_and-one (v / 2 ^ 13))

tested_set : (v : ℕ) → is_set v ≡ true → not (bit_and v (2 ^ 13) == 0) ≡ true
tested_set v e = rw (test_bit v) (ground arith)

tested_clear : (v : ℕ) → is_set v ≡ false → not (bit_and v (2 ^ 13) == 0) ≡ false
tested_clear v e = rw (test_bit v) (ground arith)

-- The bit is added where it is clear.
set_at :
    (top low : ℕ)
    → low < 2 ^ 13
    → bit_or (top * 2 ^ 1 * 2 ^ 13 + low) (1 * 2 ^ 13 + 0) ≡ (top * 2 ^ 1 + 1) * 2 ^ 13 + low
set_at top low h =
    rw
      (
        bit_or_split 13 (top * 2 ^ 1) 1 low 0 h (omega arith),
        bit_or-fields 1 top 1 (omega arith),
        bit_or-zero low,
      )
      refl

set_bit : (v : ℕ) → is_set v ≡ false → bit_or v (2 ^ 13) ≡ v + 2 ^ 13
set_bit v e =
    let cut : v / 2 ^ 13 / 2 * 2 ^ 1 * 2 ^ 13 + v % 2 ^ 13 ≡ v = ground arith in
    ap (λ (t : ℕ). bit_or t (2 ^ 13)) (sym cut)
    ∙ set_at (v / 2 ^ 13 / 2) (v % 2 ^ 13) (omega arith)
    ∙ omega (arith, cut)

now_set : (v : ℕ) → is_set v ≡ false → is_set (v + 2 ^ 13) ≡ true
now_set v e = ground arith

-- On a processor that keeps its `RegisterLaws`, enabling VMX returns true, the bit VMXE of CR4 is set
-- afterwards, and no other bit of CR4 is changed: where it was set before, the processor is left as it is, and
-- else its value is added.
pub enable_vmx_lem :
    {M : Type 0} (processor : Processor M) (laws : RegisterLaws processor) (m : M)
    → let (done, m') = enable_vmx processor m in
      let before = processor.read_cr cr4 m in
      let after = processor.read_cr cr4 m' in
      (done ≡ true)
      × (is_set after ≡ true)
      × (((is_set before ≡ true) × (m' ≡ m))
          ⊎ ((is_set before ≡ false) × (after ≡ before + 2 ^ 13)))
unfolding enable_vmx
enable_vmx_lem processor laws m =
    let v = processor.read_cr cr4 m in
    elim (Bool-cases (is_set v)) [
      | inl set ↦ rw (tested_set v set) (refl, set, inl (set, refl))
      | inr clear ↦
          rw
            (
              tested_clear v clear,
              laws.written cr4 (bit_or v (2 ^ 13)) m,
              set_bit v clear,
              tested_set (v + 2 ^ 13) (now_set v clear),
            )
            (refl, now_set v clear, inr (clear, refl))
    ]
