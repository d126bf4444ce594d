-- ===== src/Vmx/Vmcs/Setup.antt =====
-- The result of `vmcs_setup`.
use kernova_tee.Prelude.{ℕ, ◌≡◌, ◌≢◌, Bool, false, not, ◌==◌, if◌then◌else◌, bit_and, arith}
use kernova_tee.Vmx.Vmcs.{
  VmcsInstructions, VmcsState, EntryPoints, clear_failed, load_failed, do_vmclear, do_vmptrld,
  configure_vmcs_control, configure_vmcs_guest, configure_vmcs_host, configure, load_and_configure,
  vmcs_setup,
}

module _ {M : Type 0} (cpu : VmcsInstructions M) (entry : EntryPoints) (bss : ℕ)
    (s : VmcsState M) where
  -- The region is cleared, and then loaded; each time the zero flag and the machine.
  abbrev pub cleared : Bool × M
  cleared = cpu.vmclear bss s.machine

  abbrev pub loaded : Bool × M
  loaded = cpu.vmptrld bss cleared.1

  -- The .bss section does not start at 0. Then `vmcs_setup` returns 0 if the region is aligned to a page
  -- and VMCLEAR and VMPTRLD leave the zero flag clear, whatever VMWRITE does; it returns -2 if the region
  -- is not aligned, with the machine as it was, or if VMCLEAR sets the flag, and -3 if VMPTRLD sets it. It
  -- never returns -1 or -4.
  pub vmcs_setup_cases :
      bss ≢ 0
      → let (rax, s') = vmcs_setup cpu entry bss s in
        let aligned = bit_and bss 0xfff == 0 in
        (rax ≡ (
          if not aligned
          then clear_failed
          else if cleared.0
          then clear_failed
          else if loaded.0
          then load_failed
          else 0))
        × (aligned ≡ false → s'.machine ≡ s.machine)
  unfolding vmcs_setup do_vmclear do_vmptrld load_and_configure configure configure_vmcs_control
      configure_vmcs_guest configure_vmcs_host
  vmcs_setup_cases placed = (ground arith, λ odd. ground (arith, odd))
