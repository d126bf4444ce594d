-- ===== src/Vmx/Exit/Frame.antt =====
-- Where the pushes of the handler go, from the stack pointer that `vmcs_setup` gives it.
use kernova_tee.Prelude.{ℕ, ◌+◌, ◌-◌, ◌*◌, ◌/◌, ◌^◌, ◌<◌, ◌≤◌, ◌≡◌, ◌∙◌, true, length, arith}
use kernova_tee.Vmx.Vmcs.{
  VmcsInstructions, VmcsState, EntryPoints, vmcs_region, host_stack_for_exit, vmcs_setup,
}
use kernova_tee.Vmx.Vmcs.Writes.{VmcsLaws}
use kernova_tee.Vmx.Vmcs.Setup.{loaded}
use kernova_tee.Vmx.Vmcs.Fields.{vmcs_setup-fields}
use kernova_tee.Vmx.Exit.{GuestRegisters, saved}

-- The label `vmcs_region_ptr`, behind the 4096 bytes of the region.
abbrev pub vmcs_region_ptr_at : ℕ → ℕ
vmcs_region_ptr_at bss = vmcs_region bss + 4096

-- The first byte of the push with the number `k`.
abbrev pub slot : ℕ → ℕ → ℕ
slot rsp k = rsp - 8 * (k + 1)

module _ {M : Type 0} (cpu : VmcsInstructions M) (field : M → ℕ → ℕ)
    (laws : VmcsLaws cpu field) where
  -- The processor keeps the laws of VMWRITE and, once the VMCS is loaded, supports the field 0x6c1c, the host's RSP, and the .bss section
  -- lies below 2^64. After a `vmcs_setup` that returns 0, each slot `k` that `vmexit_handler` pushes a
  -- register to lies between the start of the VMCS region and `host_stack_for_exit`, and each byte `a` of
  -- `vmcs_region_ptr` and of `vmcs_launch_state_value` lies in such a slot.
  pub saved-slot :
      (entry : EntryPoints) (bss : ℕ) (s : VmcsState M) (r : GuestRegisters) (k a : ℕ)
      → (vmcs_setup cpu entry bss s).0 ≡ 0
      → laws.supported (loaded cpu entry bss s).1 0x6c1c ≡ true
      → host_stack_for_exit bss < 2 ^ 64
      → k < length (saved r)
      → vmcs_region_ptr_at bss ≤ a
      → a < host_stack_for_exit bss
      → let rsp = field (vmcs_setup cpu entry bss s).1.machine 0x6c1c in
        (vmcs_region bss ≤ slot rsp k)
        × (slot rsp k + 8 ≤ host_stack_for_exit bss)
        × ((j : ℕ) × (j < length (saved r)) × (slot rsp j ≤ a) × (a < slot rsp j + 8))
  saved-slot entry bss s r k a done has small pushed from below =
      let (control, guest, host, rest) = vmcs_setup-fields cpu field laws entry bss s done in
      let held : field (vmcs_setup cpu entry bss s).1.machine 0x6c1c ≡ bss + 4108 =
        host.1.1.1.1.1.1.1.1.1.0 has ∙ omega (arith, small) in
      rw (held) (
        omega (arith, pushed),
        omega (arith, pushed),
        (
          (bss + 4107 - a) / 8,
          omega (arith, from, below),
          omega (arith, from, below),
          omega (arith, from, below),
        ),
      )
