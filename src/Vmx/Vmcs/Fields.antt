-- ===== src/Vmx/Vmcs/Fields.antt =====
-- What the fields of the VMCS hold after `vmcs_setup`.
use kernova_tee.Prelude.{
  ℕ, ◌%◌, ◌^◌, ◌≡◌, refl, ap, fun_ext, ◌∙◌, false, List, [], ◌∷◌, ◌++◌, bit_or, u32, arith,
}
use kernova_tee.Prelude.Bits.{bit_and-zero}
use kernova_tee.Vmx.Vmcs.{
  VmcsInstructions, VmcsState, EntryPoints, guest_fields, guest_start, host_selectors, host_entry,
  put_fields, guest_stack_top, host_stack_for_exit, do_vmclear, do_vmptrld, configure_vmcs_control,
  configure_vmcs_guest, configure_vmcs_host, configure, load_and_configure, vmcs_setup,
}
use kernova_tee.Vmx.Vmcs.Writes.{
  VmcsLaws, AllHold, has_row, AllHold-after, after_unlisted, put_fields-field, put_fields-cr0,
  put_fields-cr3, put_fields-cr4,
}
use kernova_tee.Vmx.Vmcs.Setup.{loaded}

-- The fields that `vmcs_setup` should leave on a machine `m` with the VMCS loaded, by their encodings.
-- 0 is the VPID; the pin-based controls, 0x4000, are not among them.
module _ {M : Type 0} (cpu : VmcsInstructions M) (entry : EntryPoints) (bss : ℕ) (m : M) where
  abbrev pub control_table : List (ℕ × ℕ)
  control_table =
      (0, 0)
      ∷ (0x4002, u32 (bit_or (u32 (cpu.rdmsr 0x482 m).0) 0x8000_0083))
      ∷ (0x400c, u32 (bit_or (u32 (cpu.rdmsr 0x483 m).0) 0x200))
      ∷ (0x4012, u32 (bit_or (u32 (cpu.rdmsr 0x484 m).0) 0x200))
      ∷ []

  abbrev pub guest_table : List (ℕ × ℕ)
  guest_table =
      (0x0800, 0x10)
      ∷ (0x0802, 0x08)
      ∷ (0x0804, 0x10)
      ∷ (0x0806, 0x10)
      ∷ (0x0808, 0x10)
      ∷ (0x080a, 0x10)
      ∷ (0x2800, 0xffff_ffff_ffff_ffff)
      ∷ (0x4800, 0xffff_ffff)
      ∷ (0x4802, 0xffff_ffff)
      ∷ (0x4804, 0xffff_ffff)
      ∷ (0x4806, 0xffff_ffff)
      ∷ (0x6800, 1)
      ∷ (0x6802, 0)
      ∷ (0x6804, 0x20)
      ∷ (0x681c, guest_stack_top bss % 2 ^ 64)
      ∷ (0x681e, entry.guest_entry_point % 2 ^ 64)
      ∷ (0x6820, 2)
      ∷ []

  abbrev pub host_table : List (ℕ × ℕ)
  host_table =
      (0x0c00, 0x10)
      ∷ (0x0c02, 0x08)
      ∷ (0x0c04, 0x10)
      ∷ (0x0c06, 0x10)
      ∷ (0x0c08, 0)
      ∷ (0x0c0a, 0)
      ∷ (0x6c00, cpu.read_cr0 m % 2 ^ 64)
      ∷ (0x6c02, cpu.read_cr3 m % 2 ^ 64)
      ∷ (0x6c04, cpu.read_cr4 m % 2 ^ 64)
      ∷ (0x6c1c, host_stack_for_exit bss % 2 ^ 64)
      ∷ (0x6c1e, entry.vmexit_handler % 2 ^ 64)
      ∷ []

  abbrev pub all_rows : List (ℕ × ℕ)
  all_rows = control_table ++ guest_table ++ host_table

module _ {M : Type 0} (cpu : VmcsInstructions M) (field : M → ℕ → ℕ)
    (laws : VmcsLaws cpu field) where
  open laws use {supported, vmwrite_fields, vmwrite_rdmsr, vmwrite_cr0, vmwrite_cr3, vmwrite_cr4}

  -- The writes of the three parts, with the values that the registers have before.
  abbrev control_writes : M → List (ℕ × ℕ)
  control_writes m =
      (0, 0)
      ∷ (0x4002, bit_or (u32 (cpu.rdmsr 0x482 m).0) 0x8000_0083)
      ∷ (0x400c, bit_or (u32 (cpu.rdmsr 0x483 m).0) 0x200)
      ∷ (0x4012, bit_or (u32 (cpu.rdmsr 0x484 m).0) 0x200)
      ∷ []

  abbrev host_registers : M → List (ℕ × ℕ)
  host_registers m =
      (0x6c00, cpu.read_cr0 m) ∷ (0x6c02, cpu.read_cr3 m) ∷ (0x6c04, cpu.read_cr4 m) ∷ []

  control_lem : (m : M) → configure_vmcs_control cpu m ≡ (1, put_fields cpu (control_writes m) m)
  unfolding configure_vmcs_control
  control_lem m = simp (vmwrite_rdmsr, bit_and-zero)

  host_lem :
      (entry : EntryPoints) (bss : ℕ) (m : M)
      → configure_vmcs_host cpu entry bss m ≡ (
        1,
        put_fields cpu
            (host_entry entry bss)
            (put_fields cpu (host_registers m) (put_fields cpu host_selectors m)),
      )
  unfolding configure_vmcs_host
  host_lem entry bss m = simp (vmwrite_cr4, vmwrite_cr3, vmwrite_cr0)

  module _ (entry : EntryPoints) (bss : ℕ) where
    abbrev all_writes : M → List (ℕ × ℕ)
    all_writes m =
        control_writes m
        ++ guest_fields
        ++ guest_start entry bss
        ++ host_selectors
        ++ host_registers m
        ++ host_entry entry bss

    -- The registers keep their values through the writes before they are read.
    host_registers_lem :
        (writes : List (ℕ × ℕ)) (m : M)
        → host_registers (put_fields cpu writes m) ≡ host_registers m
    host_registers_lem writes m = simp (
      put_fields-cr0 cpu field laws writes m,
      put_fields-cr3 cpu field laws writes m,
      put_fields-cr4 cpu field laws writes m,
    )

    host_after :
        (writes : List (ℕ × ℕ)) (m : M)
        → configure_vmcs_host cpu entry bss (put_fields cpu writes m) ≡ (
          1,
          put_fields cpu
              (host_selectors ++ host_registers m ++ host_entry entry bss)
              (put_fields cpu writes m),
        )
    host_after writes m =
        let m' = put_fields cpu host_selectors (put_fields cpu writes m) in
        host_lem entry bss (put_fields cpu writes m)
        ∙ ap
            (λ (w : List (ℕ × ℕ)). (1, put_fields cpu (host_entry entry bss) (put_fields cpu w m')))
            (host_registers_lem writes m)

    configure-fields :
        (s : VmcsState M)
        → (configure cpu entry bss s).1.machine ≡ put_fields cpu (all_writes s.machine) s.machine
    unfolding configure configure_vmcs_guest configure_vmcs_host
    configure-fields s = rw (control_lem s.machine) (
        ap (λ (r : ℕ × M). r.1)
          (host_after (control_writes s.machine ++ guest_fields ++ guest_start entry bss)
            s.machine))

    setup_machine :
        (s : VmcsState M)
        → let (rax, s') = vmcs_setup cpu entry bss s in
          let m = (loaded cpu entry bss s).1 in
          rax ≡ 0 → s'.machine ≡ put_fields cpu (all_writes m) m
    unfolding vmcs_setup load_and_configure do_vmclear do_vmptrld
    setup_machine s done =
        let m = (loaded cpu entry bss s).1 in
        let end = configure-fields (record s { machine = m; vmcs_region_ptr = bss }) in
        ground (arith, done, end)

    -- The processor keeps the laws of VMWRITE. If `vmcs_setup` returns 0, then each field of the three
    -- tables that the processor supports when VMPTRLD has loaded the VMCS holds the value of its row, and every
    -- other field holds what it held then, the VM-instruction error aside. So the pin-based controls are as they
    -- were, the VPID is 0, and the host's stack pointer is the address of `host_stack_for_exit`.
    pub vmcs_setup-fields :
        (s : VmcsState M)
        → (vmcs_setup cpu entry bss s).0 ≡ 0
        → let m = (loaded cpu entry bss s).1 in
          let now = field (vmcs_setup cpu entry bss s).1.machine in
          AllHold (supported m) now (control_table cpu entry bss m)
          × AllHold (supported m) now (guest_table cpu entry bss m)
          × AllHold (supported m) now (host_table cpu entry bss m)
          × ((g : ℕ) → has_row (all_rows cpu entry bss m) g ≡ false → now g ≡ field m g)
    vmcs_setup-fields s done =
        let m = (loaded cpu entry bss s).1 in
        rw
          (
            setup_machine s done,
            fun_ext (λ g. put_fields-field cpu field laws (all_writes m) m g refl),
          )
          (
            AllHold-after (supported m) (all_writes m) (control_table cpu entry bss m) (field m)
                refl,
            AllHold-after (supported m) (all_writes m) (guest_table cpu entry bss m) (field m) refl,
            AllHold-after (supported m) (all_writes m) (host_table cpu entry bss m) (field m) refl,
            λ g other.
                after_unlisted (supported m) (all_rows cpu entry bss m) (all_writes m) g (field m g)
                  refl other,
          )
