-- ===== src/Vmx/Start.antt =====
-- When `vmx_init` can return 0, and what it does where VMXON leaves its region alone.
use kernova_tee.Prelude.{
  ℕ, ◌*◌, ◌/◌, ◌%◌, ◌^◌, ◌≡◌, ◌≢◌, ◌⊎◌, inl, inr, refl, ap, ◌∙◌, Bool, true, false, not, ◌==◌,
  bit_and, u32, Bytes, Bool-cases, arith,
}
use kernova_tee.Prelude.Bits.{bit_and-mask, bit_and-shifted, zero-bit_and}
use kernova_tee.Vmx.{
  Instructions, VmxState, ia32_vmx_basic, init_failed, vmxon_failed, enable_cr4_vmx,
  init_vmx_region, do_vmxon, set_up, switch_on, with_region, vmx_init,
}

-- Bit 31 of a double word, as the code tests it.
abbrev pub is_confirmed : ℕ → Bool
is_confirmed x = not (bit_and x (2 ^ 31) == 0)

-- The revision is written without it.
unconfirmed : (x : ℕ) → bit_and (bit_and x 0x7fff_ffff) (2 ^ 31) ≡ 0
unconfirmed x =
    let high : x % 2 ^ 31 / 2 ^ 31 ≡ 0 = omega arith in
    rw (bit_and-mask 31 x)
      (bit_and-shifted 31 (x % 2 ^ 31) 1 ∙ rw (high) (ap (λ (t : ℕ). t * 2 ^ 31) (zero-bit_and 1)))

module _ {M : Type 0} (cpu : Instructions M) (address : ℕ) (s : VmxState M) where
  -- The state in which VMXON is executed, what it leaves, and the answer of `vmcs_setup`.
  abbrev pub before_vmxon : VmxState M
  before_vmxon =
      (init_vmx_region cpu address (record s {
        machine = (enable_cr4_vmx cpu address s.machine).1;
        vmxon_region_ptr = address;
      })).1

  abbrev pub after_vmxon : Bool × Bytes × M
  after_vmxon = cpu.vmxon before_vmxon.vmxon_region before_vmxon.machine

  abbrev pub setup_answer : ℕ
  setup_answer = let (zf, region, m) = after_vmxon in (cpu.vmcs_setup m).0

  -- A region that is left as it is fails the test.
  left_alone : after_vmxon.1 ≡ before_vmxon.vmxon_region → is_confirmed (after_vmxon.1 0) ≡ true → ⊥
  unfolding init_vmx_region
  left_alone same confirmed =
      let revision = u32 (cpu.rdmsr ia32_vmx_basic (enable_cr4_vmx cpu address s.machine).1).0 in
      let clear : bit_and (after_vmxon.1 0) (2 ^ 31) ≡ 0 =
        ap (λ (a : Bytes). bit_and (a 0) (2 ^ 31)) same ∙ unconfirmed revision in
      ground (arith, clear)

  -- The static region of `vmx_init` stands at an address that is not 0 and is aligned to a page. If
  -- `vmx_init` returns 0, then VMXON has set bit 31 of its region, and `vmcs_setup` has returned a number
  -- that is not 0, which is its code for a failure. And if VMXON leaves its region as it is, the result
  -- is -1, or it is -3 and the machine is as VMXON has left it, without a VMXOFF.
  pub vmx_init_outcome :
      address ≢ 0
      → bit_and address 0xfff ≡ 0
      → let (rax, s') = vmx_init cpu address s in
        let (zf, region, m) = after_vmxon in
        (rax ≡ 0 → (is_confirmed (region 0) ≡ true) × (setup_answer ≢ 0))
        × (region ≡ before_vmxon.vmxon_region
            → (rax ≡ init_failed) ⊎ ((rax ≡ vmxon_failed) × (s'.machine ≡ m)))
  unfolding vmx_init with_region switch_on set_up do_vmxon
  vmx_init_outcome placed aligned =
      let near : (address == 0) ≡ false = ground arith in
      let whole : not (bit_and address 0xfff == 0) ≡ false = rw (aligned) refl in
      let (zf, region, m) = after_vmxon in
      elim (Bool-cases ((enable_cr4_vmx cpu address s.machine).0 == 0)) [
        | inl refused ↦ rw (refused) (λ z. absurd (omega (arith, z)), λ same. inl refl)
        | inr enabled ↦ elim (Bool-cases zf) [
          | inl failed ↦
              rw (enabled, near, whole, failed)
                (λ z. absurd (omega (arith, z)), λ same. inr (refl, refl))
          | inr entered ↦ elim (Bool-cases (is_confirmed (region 0))) [
            | inr plain ↦
                let test : (bit_and (region 0) (2 ^ 31) == 0) ≡ true = ground arith in
                rw (enabled, near, whole, entered, test)
                  (λ z. absurd (omega (arith, z)), λ same. inr (refl, refl))
            | inl confirmed ↦
                let test : (bit_and (region 0) (2 ^ 31) == 0) ≡ false = ground arith in
                elim (Bool-cases (setup_answer == 0)) [
                  | inl done ↦
                      rw (enabled, near, whole, entered, test, done)
                        (λ z. absurd (omega (arith, z)), λ same. absurd (left_alone same confirmed))
                  | inr bad ↦
                      let answer : setup_answer ≢ 0 = λ (e : setup_answer ≡ 0). ground arith in
                      rw (enabled, near, whole, entered, test, bad)
                        (λ z. (refl, answer), λ same. absurd (left_alone same confirmed))
                ]
          ]
        ]
      ]
