-- ===== src/Vmx/Exit/Identity.antt =====
-- Where the answer of CPUID goes.
use kernova_tee.Prelude.{
  ℕ, ◌%◌, ◌^◌, ◌≡◌, refl, fun_ext, ◌∙◌, false, List, [], ◌∷◌, ◌==◌, u32, Bool-cases, inl, inr,
}
use kernova_tee.Vmx.Vmcs.{put_fields}
use kernova_tee.Vmx.Vmcs.Writes.{
  VmcsLaws, AllHold, has_row, AllHold-after, after_unlisted, put_fields-field,
}
use kernova_tee.Vmx.Exit.{
  ExitInstructions, ExitState, vmcs_read64, vmcs_write64, store_cpuid, intercept_cpuid,
}

-- The fields 0x6818, 0x681a, 0x681c and 0x681e are the base of the guest's IDTR, its DR7, its RSP and
-- its RIP.
abbrev pub identity_rows : {M : Type 0} → ExitInstructions M → ℕ → List (ℕ × ℕ)
identity_rows cpu rax =
    let regs = cpu.cpuid (u32 rax) (u32 rax) in
    (0x6818, regs.ebx % 2 ^ 64)
    ∷ (0x681a, regs.eax % 2 ^ 64)
    ∷ (0x681c, regs.ecx % 2 ^ 64)
    ∷ (0x681e, regs.edx % 2 ^ 64)
    ∷ []

module _ {M : Type 0} (cpu : ExitInstructions M) (field : M → ℕ → ℕ)
    (laws : VmcsLaws cpu.vmcs field) where
  open laws use {supported, vmread_fields, vmread_supported}

  module _ (rax : ℕ) (s : ExitState M) where
    abbrev writes : List (ℕ × ℕ)
    writes =
        let regs = cpu.cpuid (u32 rax) (u32 rax) in
        (0x681a, regs.eax) ∷ (0x6818, regs.ebx) ∷ (0x681c, regs.ecx) ∷ (0x681e, regs.edx) ∷ []

    stored : (intercept_cpuid cpu rax s).1 ≡ record s {
      machine =
          put_fields cpu.vmcs writes (cpu.vmcs.vmread rax (cpu.vmcs.vmread rax s.machine).1).1;
    }
    unfolding intercept_cpuid store_cpuid vmcs_read64 vmcs_write64
    stored = elim (Bool-cases (rax == 1)) [ inl e ↦ rw (e) refl | inr e ↦ rw (e) refl ]

    -- The processor keeps the laws of VMREAD and VMWRITE. `intercept_cpuid` runs CPUID with the number in
    -- `rax` as leaf and as subleaf, and leaves `ebx` of its answer in the base of the guest's IDTR,
    -- `eax` in DR7, `ecx` in RSP and `edx` in RIP, as far as there is a current VMCS and the processor has these fields. Every other
    -- field and the trace engine stay as they were.
    pub intercept_cpuid-fields :
        let s' = (intercept_cpuid cpu rax s).1 in
        let now = field s'.machine in
        AllHold (supported s.machine) now (identity_rows cpu rax)
        × ((g : ℕ) → has_row (identity_rows cpu rax) g ≡ false → now g ≡ field s.machine g)
        × (s'.engine ≡ s.engine)
    intercept_cpuid-fields =
        let m = (cpu.vmcs.vmread rax (cpu.vmcs.vmread rax s.machine).1).1 in
        let before : (g : ℕ) → field m g ≡ field s.machine g =
          λ g. vmread_fields rax _ g ∙ vmread_fields rax s.machine g in
        let has : supported m ≡ supported s.machine =
          fun_ext (λ g. vmread_supported rax _ g ∙ vmread_supported rax s.machine g) in
        rw (stored, fun_ext (λ g. put_fields-field cpu.vmcs field laws writes m g refl), has)
          (
            AllHold-after (supported s.machine) writes (identity_rows cpu rax) (field m) refl,
            λ g other.
                after_unlisted (supported s.machine) (identity_rows cpu rax) writes g (field m g)
                  refl other
                ∙ before g,
            refl,
          )
