-- ===== src/Vmx/Boot/Support.antt =====
-- What `check_vmx_support` leaves in IA32_FEATURE_CONTROL.
use kernova_tee.Prelude.{
  ℕ, ◌/◌, ◌%◌, ◌^◌, ◌≡◌, ◌≢◌, refl, ◌==◌, bit_and, bit_or, u32, Bool-cases, inl, inr, arith,
}
use kernova_tee.Prelude.Bits.{bit_and-one, bit_and-shifted, bit_or-low, bit_or-zero}
use kernova_tee.Vmx.Boot.{BootInstructions, check_vmx_support}

-- WRMSR to the MSR while it is not locked: it holds what was written.
abbrev pub KeepsFeatures : {M : Type 0} → BootInstructions M → Type 0
KeepsFeatures {M} cpu =
    (a d : ℕ) (m : M)
    → bit_and (cpu.rdmsr 0x3a m).0 1 ≡ 0
    → cpu.rdmsr 0x3a (cpu.wrmsr 0x3a (a, d) m) ≡ (u32 a, u32 d)

-- The number that is written.
abbrev enabled : ℕ → ℕ
enabled a = bit_or (bit_or a (2 ^ 2)) 1

enabled_lock : (a : ℕ) → bit_and (u32 (enabled a)) 1 ≡ 1
enabled_lock a = rw (bit_and-one (u32 (enabled a))) (omega (arith, bit_or-low (bit_or a (2 ^ 2)) 1))

or_odd : (a : ℕ) → bit_or a 1 % 2 ≡ 1
or_odd a = omega (arith, bit_or-low a 1)

or_half : (a b : ℕ) → bit_or a b / 2 ≡ bit_or (a / 2) (b / 2)
or_half a b = omega (arith, bit_or-low a b)

enabled_quarter : (a : ℕ) → enabled a / 2 / 2 % 2 ≡ 1
enabled_quarter a =
    rw (or_half (bit_or a 4) 1, bit_or-zero (bit_or a 4 / 2), or_half a 4, or_half (a / 2) 2)
      (or_odd (a / 2 / 2))

enabled_vmx : (a : ℕ) → bit_and (u32 (enabled a)) (2 ^ 2) ≡ 4
enabled_vmx a =
    rw (bit_and-shifted 2 (u32 (enabled a)) 1, bit_and-one (u32 (enabled a) / 2 ^ 2))
      (omega (arith, enabled_quarter a))

-- A WRMSR to the feature control that is not locked keeps what is written. Where `check_vmx_support`
-- returns a number that is not 0, the lock bit and the VMX bit of the feature control are set afterwards; and
-- a second call returns the same and leaves the machine as the first has left it.
pub check_vmx_support_twice :
    {M : Type 0} (cpu : BootInstructions M) (m : M)
    → KeepsFeatures cpu
    → let (supported, m') = check_vmx_support cpu m in
      let control = (cpu.rdmsr 0x3a m').0 in
      (supported ≢ 0 → (bit_and control 1 ≢ 0) × (bit_and control (2 ^ 2) ≢ 0))
      × (check_vmx_support cpu m' ≡ (supported, m'))
unfolding check_vmx_support
check_vmx_support_twice cpu m keeps =
    let eax = (cpu.rdmsr 0x3a m).0 in
    elim (Bool-cases (bit_and (cpu.cpuid 1 0).ecx (2 ^ 5) == 0)) [
      | inl without ↦ rw (without) (λ some'. absurd (some' refl), refl)
      | inr vmx ↦ elim (Bool-cases (bit_and eax 1 == 0)) [
        | inl unlocked ↦
            let held = keeps (enabled eax) (cpu.rdmsr 0x3a m).1 m (ground (arith, unlocked)) in
            rw (vmx, unlocked, held, enabled_lock eax, enabled_vmx eax)
              (λ some'. (λ e. omega (arith, e), λ e. omega (arith, e)), refl)
        | inr locked ↦ elim (Bool-cases (bit_and eax (2 ^ 2) == 0)) [
          | inl off ↦ rw (vmx, locked, off) (λ some'. absurd (some' refl), rw (locked, off) refl)
          | inr on ↦
              rw (vmx, locked, on)
                (λ some'. (ground (arith, locked), ground (arith, on)), rw (locked, on) refl)
        ]
      ]
    ]
