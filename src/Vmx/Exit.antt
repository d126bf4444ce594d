-- ===== src/Vmx/Exit.antt =====
-- The handler of a VM exit: service-api/service-cpp/src/virtualization/intel_vmx/monitor/intercept.asm. The
-- VMX instructions, CPUID and RDTSC are parameters, the trace engine is the one of Trace. The strings
-- of the .rodata section start at `rodata`.
pub mod Handler
pub mod Record
pub mod Identity
pub mod Frame
use kernova_tee.Prelude.{
  ℕ, ◌+◌, ◌*◌, ◌/◌, ◌%◌, ◌^◌, Bool, true, false, not, List, [], ◌∷◌, get_or, ◌==◌, if◌then◌else◌,
  bit_and, ◌>>>◌, u16, u32, u64, Bytes,
}
use kernova_tee.Cpu
use kernova_tee.Cpu.{Cpuid}
use kernova_tee.Trace.{TraceEngine, trace_log_event, trace_check_integrity}
use kernova_tee.Vmx.Vmcs.{VmcsInstructions, put_field}

pub record ExitInstructions (M : Type 0) : Type 0 where
  pub vmcs : VmcsInstructions M
  pub cpuid : Cpuid
  -- the time stamp of an event that is logged on a machine
  pub rdtsc : M → ℕ
  -- whether it fails; if it does not, the guest runs from that machine
  pub vmresume : M → Bool × M

-- What a routine changes beside the registers.
pub record ExitState (M : Type 0) : Type 0 where
  pub machine : M
  pub engine : TraceEngine

pub record GuestRegisters : Type 0 where
  pub rax : ℕ
  pub rbx : ℕ
  pub rcx : ℕ
  pub rdx : ℕ
  pub rsi : ℕ
  pub rdi : ℕ
  pub rbp : ℕ
  pub r8 : ℕ
  pub r9 : ℕ
  pub r10 : ℕ
  pub r11 : ℕ
  pub r12 : ℕ
  pub r13 : ℕ
  pub r14 : ℕ
  pub r15 : ℕ
  pub ds : ℕ
  pub es : ℕ
  pub fs : ℕ
  pub gs : ℕ

-- How the handler ends.
pub data ExitEnd (M : Type 0) : Type 0 where
  guest_runs : GuestRegisters → ExitState M → ExitEnd M
  error_halt : ExitState M → ExitEnd M

-- The labels of the strings.
abbrev pub event_cr0_write : ℕ → ℕ
event_cr0_write rodata = rodata

abbrev pub event_cr4_write : ℕ → ℕ
event_cr4_write rodata = rodata + 19

abbrev pub event_lstar_write : ℕ → ℕ
event_lstar_write rodata = rodata + 38

abbrev pub event_star_write : ℕ → ℕ
event_star_write rodata = rodata + 78

abbrev pub event_sfmask_write : ℕ → ℕ
event_sfmask_write rodata = rodata + 94

-- `mov ax, w`
abbrev pub with_ax : ℕ → ℕ → ℕ
with_ax rax w = rax / 2 ^ 16 * 2 ^ 16 + w

-- The stack of the handler, the last push first: `mov ax, ds` changes what is pushed next.
abbrev pub saved : GuestRegisters → List ℕ
saved r =
    with_ax r.rax r.gs
    ∷ with_ax r.rax r.fs
    ∷ with_ax r.rax r.es
    ∷ with_ax r.rax r.ds
    ∷ r.r15
    ∷ r.r14
    ∷ r.r13
    ∷ r.r12
    ∷ r.r11
    ∷ r.r10
    ∷ r.r9
    ∷ r.r8
    ∷ r.rbp
    ∷ r.rdi
    ∷ r.rsi
    ∷ r.rdx
    ∷ r.rcx
    ∷ r.rbx
    ∷ r.rax
    ∷ []

-- The pops, in their order.
abbrev pub restored : List ℕ → GuestRegisters
restored stack = record {
  gs = u16 (get_or stack 0 0);
  fs = u16 (get_or stack 1 0);
  es = u16 (get_or stack 2 0);
  ds = u16 (get_or stack 3 0);
  r15 = get_or stack 4 0;
  r14 = get_or stack 5 0;
  r13 = get_or stack 6 0;
  r12 = get_or stack 7 0;
  r11 = get_or stack 8 0;
  r10 = get_or stack 9 0;
  r9 = get_or stack 10 0;
  r8 = get_or stack 11 0;
  rbp = get_or stack 12 0;
  rdi = get_or stack 13 0;
  rsi = get_or stack 14 0;
  rdx = get_or stack 15 0;
  rcx = get_or stack 16 0;
  rbx = get_or stack 17 0;
  rax = get_or stack 18 0;
}

-- Each routine gives `rax` beside the state.
module _ {M : Type 0} (cpu : ExitInstructions M) where
  open cpu use {vmcs, cpuid, rdtsc, vmresume}

  -- `vmread rdi, rax`: the field whose encoding is in `rax` goes to `rdi`, which every caller sets anew
  -- before it is used, and `rax` stays.
  unfoldable pub vmcs_read64 : ℕ → ExitState M → ℕ × ExitState M
  vmcs_read64 rax s = let (value, m) = vmcs.vmread rax s.machine in (rax, record s { machine = m })

  unfoldable pub vmcs_read32 : ℕ → ExitState M → ℕ × ExitState M
  vmcs_read32 rax s = let (value, m) = vmcs.vmread rax s.machine in (rax, record s { machine = m })

  unfoldable pub vmcs_write64 : ℕ → ℕ → ExitState M → ExitState M
  vmcs_write64 rdi rsi s = record s { machine = put_field vmcs rdi rsi s.machine }

  -- A call of the trace engine's `trace_log_event`.
  abbrev pub log_event : ℕ → ℕ → ExitState M → ExitState M
  log_event rdi rsi s =
      let (rax, engine) = trace_log_event (rdtsc s.machine) rdi rsi s.engine in
      record s { engine = engine }

  -- The exit qualification is in `r14`.
  unfoldable pub intercept_cr_access : ℕ → ℕ → ExitState M → ℕ × ExitState M
  intercept_cr_access rodata r14 s =
      let (rbx, read) = vmcs_read64 r14 s in
      if bit_and r14 0xf == 0
      then (if not (bit_and rbx 0x30 >>> 4 == 0)
          then (0, read)
          else (0, log_event (event_cr0_write rodata) rbx read))
      else if bit_and r14 0xf == 4
      then (0, log_event (event_cr4_write rodata) r14 s)
      else (0, s)

  -- Over the regions of the integrity check, with `rax` and `rsi` as the caller leaves them.
  unfoldable pub intercept_msr_write : (ℕ → Bytes) → ℕ → ℕ → ℕ → ExitState M → ℕ × ExitState M
  intercept_msr_write memory rodata rax rsi s =
      let (msr, read) = vmcs_read64 rax s in
      let logged = log_event (event_lstar_write rodata) 0xc000_0082 read in
      let (intact, engine) = trace_check_integrity memory (rdtsc logged.machine) logged.engine in
      let checked : ExitState M = record logged { engine = engine } in
      if msr == 0xc000_0082
      then (0, checked)
      else if msr == 0xc000_0081
      then (0, log_event (event_star_write rodata) rsi read)
      else if msr == 0xc000_0084
      then (0, log_event (event_sfmask_write rodata) rsi read)
      else (0, read)

  -- The four VMWRITEs behind CPUID.
  unfoldable pub store_cpuid : Cpu.Registers → ExitState M → ExitState M
  store_cpuid regs s =
      vmcs_write64 0x681e regs.edx (
        vmcs_write64 0x681c regs.ecx
          (vmcs_write64 0x6818 regs.ebx (vmcs_write64 0x681a regs.eax s)))

  -- Both branches of the test of the leaf do the same.
  unfoldable pub intercept_cpuid : ℕ → ExitState M → ℕ × ExitState M
  intercept_cpuid rax s =
      let (rbx, s1) = vmcs_read64 rax s in
      let (rcx, s2) = vmcs_read64 rbx s1 in
      let regs = cpuid (u32 rcx) (u32 rcx) in
      if rbx == 1 then (regs.eax, store_cpuid regs s2) else (regs.eax, store_cpuid regs s2)

  unfoldable pub intercept_io_instruction : ExitState M → ℕ × ExitState M
  intercept_io_instruction s = (0, s)

  -- The exit reason is in `rdi`.
  unfoldable pub vmexit_dispatch : (ℕ → Bytes) → ℕ → ℕ → ℕ → ℕ → ℕ → ExitState M → ℕ × ExitState M
  vmexit_dispatch memory rodata rdi rax rsi r14 s =
      if rdi == 28
      then intercept_cr_access rodata r14 s
      else if rdi == 32
      then intercept_msr_write memory rodata rax rsi s
      else if rdi == 10
      then intercept_cpuid rax s
      else if rdi == 30
      then intercept_io_instruction s
      else if rdi == 18
      then (0, s)
      else if rdi == 12
      then (0, s)
      else (rax, s)

  -- From VMRESUME on.
  unfoldable pub resume : GuestRegisters → ExitState M → ExitEnd M
  resume r s =
      let (failed, m) = vmresume s.machine in
      let s' : ExitState M = record s { machine = m } in
      if failed then error_halt s' else guest_runs r s'

  -- The guest's registers are those at the exit. `mov ax, 0x10` is what is left in `rax` for the first
  -- read.
  unfoldable pub vmexit_handler : (ℕ → Bytes) → ℕ → GuestRegisters → ExitState M → ExitEnd M
  vmexit_handler memory rodata r s =
      let stack = saved r in
      let (r15, s1) = vmcs_read64 (with_ax r.rax 0x10) s in
      let (r14, s2) = vmcs_read64 r15 s1 in
      let (r13, s3) = vmcs_read64 r14 s2 in
      let (eax, s4) = vmcs_read32 r13 s3 in
      let r12 = u32 eax in
      let (rax, s5) = vmexit_dispatch memory rodata r15 eax r.rsi r14 s4 in
      resume (restored stack) (vmcs_write64 0x681e (u64 (r13 + r12)) s5)
