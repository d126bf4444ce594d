-- ===== src/Vmx/Boot.antt =====
-- The entry point of the bare-metal build: service-api/service-cpp/src/virtualization/intel_vmx/boot/entry.asm.
-- The privileged instructions and CPUID are parameters. `hypervisor_init` and `hypervisor_main`, which it
-- calls, are those of Hypervisor. print_error, which is empty, is left out.
pub mod Flow
pub mod Support
use kernova_tee.Prelude.{
  ℕ, ◌+◌, ◌*◌, ◌-◌, ◌%◌, ◌^◌, Bool, true, false, not, ◌==◌, if◌then◌else◌, bit_and, bit_or, is_zero,
  u32,
}
use kernova_tee.Cpu.{Cpuid}
use kernova_tee.Host.{Host}
use kernova_tee.Hypervisor.{World, Finish, returned, halted, hypervisor_init, hypervisor_main}

pub record BootInstructions (M : Type 0) : Type 0 where
  pub cli : M → M
  -- DS, ES, FS, GS and SS
  pub load_segments : ℕ → M → M
  -- `eax` and `edx`
  pub rdmsr : ℕ → M → ℕ × ℕ
  pub wrmsr : ℕ → ℕ × ℕ → M → M
  pub cpuid : Cpuid
  pub vzeroupper : M → M
  pub ldmxcsr : ℕ → M → M
  pub read_cr4 : M → ℕ
  pub write_cr4 : ℕ → M → M

-- The variables of the file and of the program, with the machine in `world`.
pub record BootState (M : Type 0) : Type 0 where
  pub world : World M
  pub boot_stack_ptr : ℕ
  pub simd_mxcsr_init : ℕ

-- Where the processor halts for ever: in `.hypervisor_halt`, after one of the messages or after the
-- return of `hypervisor_main`, or in `hypervisor_main`.
pub data BootEnd (M : Type 0) : Type 0 where
  vmx_not_supported init_failed hypervisor_panic main_halt : BootState M → BootEnd M

-- The descriptors of `gdt64`.
abbrev pub gdt64_code : ℕ
gdt64_code = 2 ^ 43 + 2 ^ 44 + 2 ^ 47 + 2 ^ 53

abbrev pub gdt64_data : ℕ
gdt64_data = 2 ^ 41 + 2 ^ 43 + 2 ^ 44 + 2 ^ 47 + 2 ^ 53

-- `gdt64_ptr` stands behind three descriptors of 8 bytes, and `gdt64_end` behind its 10 bytes.
abbrev pub get_gdt_ptr : ℕ → ℕ
get_gdt_ptr gdt64 = gdt64 + 24

abbrev pub gdt64_limit : ℕ
gdt64_limit = 24 + 10 - 1

-- The words of the multiboot header: magic, architecture, length and checksum.
abbrev pub multiboot_magic : ℕ
multiboot_magic = 0xe852_50d6

abbrev pub multiboot_length : ℕ
multiboot_length = 24

abbrev pub multiboot_checksum : ℕ
multiboot_checksum = 2 ^ 32 - (multiboot_magic + 0 + multiboot_length)

abbrev pub with_machine : {M : Type 0} → BootState M → M → BootState M
with_machine s m = record s {
  world = record s.world { backends = record s.world.backends { machine = m } };
}

module _ {M : Type 0} (cpu : BootInstructions M) where
  open cpu use {cli, load_segments, rdmsr, wrmsr, cpuid, vzeroupper, ldmxcsr, read_cr4, write_cr4}

  unfoldable pub check_long_mode : M → ℕ
  check_long_mode m =
      let (eax, edx) = rdmsr 0xc000_0080 m in if bit_and eax (2 ^ 10) == 0 then 0 else 1

  unfoldable pub enable_long_mode : M → M
  enable_long_mode m = m

  -- CPUID takes what is in `ecx` as its subleaf, which leaf 1 does not read.
  unfoldable pub check_vmx_support : M → ℕ × M
  check_vmx_support m =
      let (eax, edx) = rdmsr 0x3a m in
      if bit_and (cpuid 1 0).ecx (2 ^ 5) == 0
      then (0, m)
      else if bit_and eax 1 == 0
      then (1, wrmsr 0x3a (bit_or (bit_or eax (2 ^ 2)) 1, edx) m)
      else if bit_and eax (2 ^ 2) == 0
      then (0, m)
      else (1, m)

  unfoldable pub setup_page_tables : M → M
  setup_page_tables m = m

  unfoldable pub init_simd_state : ℕ → M → M
  init_simd_state mxcsr m =
      let m' = ldmxcsr mxcsr (vzeroupper m) in
      write_cr4 (bit_or (bit_or (read_cr4 m') (2 ^ 9)) (2 ^ 10)) m'

  -- It saves the registers and halts for ever.
  unfoldable pub exception_handler : M → M
  exception_handler m = cli m

  module _ (host : Host M) where
    -- Line 81 and what follows.
    run_main : BootState M → Finish (World M) (World M) → BootEnd M
    run_main s (halted w) = main_halt (record s { world = w })
    run_main s (returned w) =
        let s' : BootState M = record s { world = w } in
        hypervisor_panic (with_machine s' (cli w.backends.machine))

    -- From line 70 on.
    start_hypervisor : BootState M → BootEnd M
    start_hypervisor s =
        let m = init_simd_state s.simd_mxcsr_init (setup_page_tables s.world.backends.machine) in
        let (r, w) = hypervisor_init host (with_machine s m).world in
        if not (is_zero r)
        then init_failed (record s { world = w })
        else run_main s (hypervisor_main host w)

    -- `_start`, with `rsp` in hand.
    unfoldable pub start : ℕ → BootState M → BootEnd M
    unfolding run_main start_hypervisor
    start rsp s =
        let m1 = load_segments 0 (cli s.world.backends.machine) in
        let m2 = if check_long_mode m1 == 0 then enable_long_mode m1 else m1 in
        let (supported, m3) = check_vmx_support m2 in
        let s' = with_machine (record s { boot_stack_ptr = rsp }) m3 in
        if supported == 0 then vmx_not_supported s' else start_hypervisor s'
