-- ===== src/Vmx/Vmcs.antt =====
-- The VMCS of the guest: service-api/service-cpp/src/virtualization/intel_vmx/core/vmcs_config.asm, with the
-- numbers of include/vmx_defs.inc. The VMX instructions and the reads of the MSRs and of the control
-- registers are parameters, over a type `M` of machines. The .bss section of the file starts at
-- `bss`.
pub mod Setup
pub mod Writes
pub mod Fields
use kernova_tee.Prelude.{
  ℕ, ◌+◌, ◌%◌, ◌^◌, Bool, true, false, not, List, [], ◌∷◌, Option, ◌==◌, if◌then◌else◌, bit_and,
  bit_or, u32,
}

pub record VmcsInstructions (M : Type 0) : Type 0 where
  -- the zero flag, for the operand in memory at an address
  pub vmclear : ℕ → M → Bool × M
  pub vmptrld : ℕ → M → Bool × M
  -- the zero flag, for the encoding of a field and a value
  pub vmwrite : ℕ → ℕ → M → Bool × M
  -- what a field holds, if the instruction succeeds
  pub vmread : ℕ → M → Option ℕ × M
  -- `eax` and `edx`
  pub rdmsr : ℕ → M → ℕ × ℕ
  pub read_cr0 : M → ℕ
  pub read_cr3 : M → ℕ
  pub read_cr4 : M → ℕ

-- The variables of the file that the code uses, and the machine.
pub record VmcsState (M : Type 0) : Type 0 where
  pub machine : M
  pub vmcs_region_ptr : ℕ
  pub vmcs_launch_state_value : ℕ

-- The code that the guest and an exit start with.
pub record EntryPoints : Type 0 where
  pub guest_entry_point : ℕ
  pub vmexit_handler : ℕ

-- The codes -2 to -4, as `mov eax` leaves them in `rax`.
abbrev pub clear_failed : ℕ
clear_failed = 0xffff_fffe

abbrev pub load_failed : ℕ
load_failed = 0xffff_fffd

abbrev pub config_failed : ℕ
config_failed = 0xffff_fffc

abbrev pub region_alloc_failed : ℕ
region_alloc_failed = 0xffff_ffff

-- The addresses of the sections' labels: the region is followed by a pointer, a double word, the
-- slot `host_stack_for_exit`, and, at the next multiple of 16, the guest's stack.
abbrev pub vmcs_region : ℕ → ℕ
vmcs_region bss = bss

abbrev pub alloc_vmcs_region : ℕ → ℕ
alloc_vmcs_region bss = vmcs_region bss

abbrev pub host_stack_for_exit : ℕ → ℕ
host_stack_for_exit bss = bss + 4108

abbrev pub guest_stack_top : ℕ → ℕ
guest_stack_top bss = bss + 20512

-- The selectors, limits and control registers of lines 240-282: field and value.
abbrev pub guest_fields : List (ℕ × ℕ)
guest_fields =
    (0x0802, 0x08)
    ∷ (0x0806, 0x10)
    ∷ (0x0800, 0x10)
    ∷ (0x0804, 0x10)
    ∷ (0x0808, 0x10)
    ∷ (0x080a, 0x10)
    ∷ (0x4802, 0xffff_ffff)
    ∷ (0x4806, 0xffff_ffff)
    ∷ (0x4800, 0xffff_ffff)
    ∷ (0x4804, 0xffff_ffff)
    ∷ (0x6800, 1)
    ∷ (0x6802, 0)
    ∷ (0x6804, 0x20)
    ∷ []

-- Lines 286-302.
abbrev pub guest_start : EntryPoints → ℕ → List (ℕ × ℕ)
guest_start entry bss =
    (0x681e, entry.guest_entry_point)
    ∷ (0x681c, guest_stack_top bss)
    ∷ (0x6820, 2)
    ∷ (0x2800, 0xffff_ffff_ffff_ffff)
    ∷ []

-- The selectors of lines 321-337.
abbrev pub host_selectors : List (ℕ × ℕ)
host_selectors =
    (0x0c02, 0x08)
    ∷ (0x0c06, 0x10)
    ∷ (0x0c00, 0x10)
    ∷ (0x0c04, 0x10)
    ∷ (0x0c08, 0)
    ∷ (0x0c0a, 0)
    ∷ []

-- Lines 353-360.
abbrev pub host_entry : EntryPoints → ℕ → List (ℕ × ℕ)
host_entry entry bss = (0x6c1e, entry.vmexit_handler) ∷ (0x6c1c, host_stack_for_exit bss) ∷ []

module _ {M : Type 0} (cpu : VmcsInstructions M) where
  open cpu use {vmclear, vmptrld, vmwrite, vmread, rdmsr, read_cr0, read_cr3, read_cr4}

  -- A VMWRITE whose flags are not tested, and a sequence of them.
  abbrev pub put_field : ℕ → ℕ → M → M
  put_field field value m = (vmwrite field value m).1

  abbrev pub put_fields : List (ℕ × ℕ) → M → M
  put_fields [] m = m
  put_fields ((field, value) ∷ fields) m = put_fields fields (put_field field value m)

  unfoldable pub do_vmclear : ℕ → M → ℕ × M
  do_vmclear rdi m =
      let (zf, m') = vmclear rdi m in
      if not (bit_and rdi 0xfff == 0) then (0, m) else if zf then (0, m') else (1, m')

  unfoldable pub do_vmptrld : ℕ → M → ℕ × M
  do_vmptrld rdi m =
      let (zf, m') = vmptrld rdi m in
      if not (bit_and rdi 0xfff == 0) then (0, m) else if zf then (0, m') else (1, m')

  -- The mask in `edx` is `VMCS_CTRL_16BIT | 0x0000`, and so is the field that is written first.
  unfoldable pub configure_vmcs_control : M → ℕ × M
  configure_vmcs_control m =
      let (pin, pin_high) = rdmsr 0x481 m in
      let m1 = put_field 0 (bit_and (bit_or (u32 pin) 0x9) 0) m in
      let (proc, proc_high) = rdmsr 0x482 m1 in
      let m2 = put_field 0x4002 (bit_or (u32 proc) 0x8000_0083) m1 in
      let (exit, exit_high) = rdmsr 0x483 m2 in
      let m3 = put_field 0x400c (bit_or (u32 exit) 0x200) m2 in
      let (entry, entry_high) = rdmsr 0x484 m3 in
      (1, put_field 0x4012 (bit_or (u32 entry) 0x200) m3)

  unfoldable pub configure_vmcs_guest : EntryPoints → ℕ → M → ℕ × M
  configure_vmcs_guest entry bss m =
      (1, put_fields (guest_start entry bss) (put_fields guest_fields m))

  unfoldable pub configure_vmcs_host : EntryPoints → ℕ → M → ℕ × M
  configure_vmcs_host entry bss m =
      let m1 = put_fields host_selectors m in
      let m2 = put_field 0x6c00 (read_cr0 m1) m1 in
      let m3 = put_field 0x6c02 (read_cr3 m2) m2 in
      let m4 = put_field 0x6c04 (read_cr4 m3) m3 in (1, put_fields (host_entry entry bss) m4)

  -- Steps 4 and 3 to 4 of `vmcs_setup`.
  configure : EntryPoints → ℕ → VmcsState M → ℕ × VmcsState M
  configure entry bss s =
      let (control, m1) = configure_vmcs_control s.machine in
      let (guest, m2) = configure_vmcs_guest entry bss m1 in
      let (host, m3) = configure_vmcs_host entry bss m2 in
      if control == 0
      then (config_failed, record s { machine = m1 })
      else if guest == 0
      then (config_failed, record s { machine = m2 })
      else if host == 0
      then (config_failed, record s { machine = m3 })
      else (0, record s { machine = m3 })

  load_and_configure : EntryPoints → ℕ → VmcsState M → ℕ × VmcsState M
  load_and_configure entry bss s =
      let (loaded, m) = do_vmptrld s.vmcs_region_ptr s.machine in
      let s' : VmcsState M = record s { machine = m } in
      if loaded == 0 then (load_failed, s') else configure entry bss s'

  unfoldable pub vmcs_setup : EntryPoints → ℕ → VmcsState M → ℕ × VmcsState M
  unfolding load_and_configure configure
  vmcs_setup entry bss s =
      let rax = alloc_vmcs_region bss in
      let (cleared, m) = do_vmclear rax s.machine in
      let s' : VmcsState M = record s { machine = m; vmcs_region_ptr = rax } in
      if rax == 0
      then (region_alloc_failed, s)
      else if cleared == 0
      then (clear_failed, s')
      else load_and_configure entry bss s'

  -- `vmwrite rdi, rsi`, with its zero flag.
  unfoldable pub vmcs_write : ℕ → ℕ → M → ℕ × M
  vmcs_write rdi rsi m = let (zf, m') = vmwrite rdi rsi m in if not zf then (1, m') else (0, m')

  -- `vmread rdi, rax`: the field whose encoding is in `rax` goes to `rdi`. The result is `rax`.
  unfoldable pub vmcs_read : ℕ → ℕ → M → ℕ × M
  vmcs_read rdi rax m = let (value, m') = vmread rax m in (rax, m')

  unfoldable pub vmcs_clear : ℕ → M → ℕ × M
  unfolding do_vmclear
  vmcs_clear rdi m = do_vmclear rdi m

  unfoldable pub vmcs_load : ℕ → M → ℕ × M
  unfolding do_vmptrld
  vmcs_load rdi m = do_vmptrld rdi m

unfoldable pub vmcs_launch_state : {M : Type 0} → VmcsState M → ℕ
vmcs_launch_state s = s.vmcs_launch_state_value
