-- ===== src/Vmx/Whole.antt =====
-- `vmx_init` over the `vmcs_setup` of vmcs_config.asm, which it calls.
use kernova_tee.Prelude.{
  ℕ, ◌≡◌, ◌≢◌, ◌⊎◌, inl, inr, refl, Bool, true, false, not, ◌&&◌, ◌^◌, ◌==◌, bit_and, Bool-cases,
  arith,
}
use kernova_tee.Vmx.{
  Instructions, VmxState, init_failed, vmxon_failed, vmcs_setup_failed, enable_cr4_vmx, do_vmxon,
  do_vmxoff, set_up, switch_on, with_region, vmx_init,
}
use kernova_tee.Vmx.Start.{after_vmxon, setup_answer, vmx_init_outcome}
use kernova_tee.Vmx.Vmcs
use kernova_tee.Vmx.Vmcs.{VmcsInstructions, VmcsState, EntryPoints}
use kernova_tee.Vmx.Vmcs.Setup.{cleared, loaded, vmcs_setup_cases}

-- The instructions of vmx_init.asm over the variables of both files, with `vmcs_setup` as it stands in
-- vmcs_config.asm.
abbrev pub with_vmcs :
    {M : Type 0}
    → Instructions M
    → VmcsInstructions M
    → EntryPoints
    → ℕ
    → Instructions (VmcsState M)
with_vmcs cpu vmcs entry bss = record {
  read_cr4 = λ s. cpu.read_cr4 s.machine;
  write_cr4 = λ v s. record s { machine = cpu.write_cr4 v s.machine };
  rdmsr = λ a s. cpu.rdmsr a s.machine;
  vmxon = λ region s.
      let (zf, left, m) = cpu.vmxon region s.machine in (zf, left, record s { machine = m });
  vmxoff = λ s. record s { machine = cpu.vmxoff s.machine };
  vmlaunch = λ s. record s { machine = cpu.vmlaunch s.machine };
  vmresume = λ s. record s { machine = cpu.vmresume s.machine };
  invept = λ kind address s. record s { machine = cpu.invept kind address s.machine };
  vmread = λ f s. let (value, m) = cpu.vmread f s.machine in (value, record s { machine = m });
  vmcs_setup = λ s. Vmcs.vmcs_setup vmcs entry bss s;
}

-- What a configured VMCS does to `vmx_init`.
configured_lem :
    {M : Type 0} (cpu : Instructions M) (address : ℕ) (s : VmxState M)
    → address ≢ 0
    → bit_and address 0xfff ≡ 0
    → setup_answer cpu address s ≡ 0
    → let (rax, s') = vmx_init cpu address s in
      let (zf, region, m) = after_vmxon cpu address s in
      (rax ≡ init_failed)
      ⊎ ((rax ≡ vmxon_failed)
          ⊎ ((rax ≡ vmcs_setup_failed) × (s'.machine ≡ cpu.vmxoff (cpu.vmcs_setup m).1)))
unfolding vmx_init with_region switch_on set_up do_vmxon do_vmxoff
configured_lem cpu address s placed aligned answered =
    let near : (address == 0) ≡ false = ground arith in
    let whole : not (bit_and address 0xfff == 0) ≡ false = rw (aligned) refl in
    let done : (setup_answer cpu address s == 0) ≡ true = rw (answered) refl in
    let (zf, region, m) = after_vmxon cpu address s in
    elim (Bool-cases ((enable_cr4_vmx cpu address s.machine).0 == 0)) [
      | inl refused ↦ rw (refused) (inl refl)
      | inr enabled ↦ elim (Bool-cases zf) [
        | inl failed ↦ rw (enabled, near, whole, failed) (inr (inl refl))
        | inr entered ↦ elim (Bool-cases (bit_and (region 0) (2 ^ 31) == 0)) [
          | inl plain ↦ rw (enabled, near, whole, entered, plain) (inr (inl refl))
          | inr confirmed ↦
              rw (enabled, near, whole, entered, confirmed, done) (inr (inr (refl, refl)))
        ]
      ]
    ]

module _ {M : Type 0} (cpu : Instructions M) (vmcs : VmcsInstructions M) (entry : EntryPoints) where
  module _ (bss address : ℕ) (s : VmxState (VmcsState M)) where
    abbrev pub whole : Instructions (VmcsState M)
    whole = with_vmcs cpu vmcs entry bss

    -- The state that VMXON has left, and whether the processor then takes the region of the VMCS.
    abbrev pub in_vmx : VmcsState M
    in_vmx = (after_vmxon whole address s).2

    abbrev pub is_taken : Bool
    is_taken = not (cleared vmcs entry bss in_vmx).0 && not (loaded vmcs entry bss in_vmx).0

    -- The regions of both files are aligned to a page and do not stand at 0. If `vmx_init` returns 0, then
    -- VMCLEAR or VMPTRLD has failed. If both succeed, then it returns -1, -3, or, after a VMXOFF of the
    -- machine with the configured VMCS, -4.
    pub vmx_init_whole :
        address ≢ 0
        → bit_and address 0xfff ≡ 0
        → bss ≢ 0
        → bit_and bss 0xfff ≡ 0
        → let (rax, s') = vmx_init whole address s in
          (rax ≡ 0 → is_taken ≡ false)
          × (is_taken ≡ true
              → (rax ≡ init_failed)
                ⊎ ((rax ≡ vmxon_failed)
                    ⊎ ((rax ≡ vmcs_setup_failed)
                        × (s'.machine ≡ whole.vmxoff (Vmcs.vmcs_setup vmcs entry bss in_vmx).1))))
    vmx_init_whole placed aligned there page =
        let answer = (vmcs_setup_cases vmcs entry bss in_vmx there).0 in
        let outcome = (vmx_init_outcome whole address s placed aligned).0 in
        let taken : is_taken ≡ true → (Vmcs.vmcs_setup vmcs entry bss in_vmx).0 ≡ 0 =
          λ good. ground (arith, answer, page, good) in
        (
          λ z. elim (Bool-cases is_taken) [
            | inl good ↦ absurd ((outcome z).1 (taken good))
            | inr bad ↦ bad
          ],
          λ good. configured_lem whole address s placed aligned (taken good),
        )
