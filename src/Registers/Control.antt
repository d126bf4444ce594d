-- ===== src/Registers/Control.antt =====
-- The control registers, the MSRs and RFLAGS of include/registers.hpp. A privileged instruction is a field of
-- `Processor`, over a type `M` of processor states.
pub mod Enable
pub mod Restore
use kernova_tee.Prelude.{
  ℕ, ◌+◌, ◌/◌, ◌%◌, ◌^◌, Bool, true, not, ◌==◌, if◌then◌else◌, bit_and, bit_or, u32, u64, ◌<<<◌,
  ◌>>>◌,
}

-- The constants of `CR0`, `CR4` and `RFLAGS`, each by its name there.
pub data Cr0Bit : Type 0 where
  pe mp em ts et ne wp am nw cd pg : Cr0Bit

pub data Cr4Bit : Type 0 where
  vme pvi tsd de pse pae mce pge pce osfxsr osxmmex vmxe smxe fsgsbase pcide osxsave smep smap pke :
      Cr4Bit

pub data RflagsBit : Type 0 where
  cf pf af zf sf tf interrupt df of' nt rf vm ac vif vip id : RflagsBit

unfoldable pub cr0_bit : Cr0Bit → ℕ
cr0_bit pe = 0
cr0_bit mp = 1
cr0_bit em = 2
cr0_bit ts = 3
cr0_bit et = 4
cr0_bit ne = 5
cr0_bit wp = 16
cr0_bit am = 18
cr0_bit nw = 29
cr0_bit cd = 30
cr0_bit pg = 31

unfoldable pub cr4_bit : Cr4Bit → ℕ
cr4_bit vme = 0
cr4_bit pvi = 1
cr4_bit tsd = 2
cr4_bit de = 3
cr4_bit pse = 4
cr4_bit pae = 5
cr4_bit mce = 6
cr4_bit pge = 7
cr4_bit pce = 8
cr4_bit osfxsr = 9
cr4_bit osxmmex = 10
cr4_bit vmxe = 13
cr4_bit smxe = 14
cr4_bit fsgsbase = 16
cr4_bit pcide = 17
cr4_bit osxsave = 18
cr4_bit smep = 20
cr4_bit smap = 21
cr4_bit pke = 22

unfoldable pub rflags_bit : RflagsBit → ℕ
rflags_bit cf = 0
rflags_bit pf = 2
rflags_bit af = 4
rflags_bit zf = 6
rflags_bit sf = 7
rflags_bit tf = 8
rflags_bit interrupt = 9
rflags_bit df = 10
rflags_bit of' = 11
rflags_bit nt = 14
rflags_bit rf = 16
rflags_bit vm = 17
rflags_bit ac = 18
rflags_bit vif = 19
rflags_bit vip = 20
rflags_bit id = 21

-- `1ULL << k`
abbrev pub mask_of : ℕ → ℕ
mask_of k = 1 <<< k

pub data ControlRegister : Type 0 where
  cr0 cr2 cr3 cr4 cr8 : ControlRegister

-- The instructions: a move from and to a control register, RDMSR and WRMSR on the halves of a value, and the
-- flags through the stack.
pub record Processor (M : Type 0) : Type 0 where
  pub read_cr : ControlRegister → M → ℕ
  pub write_cr : ControlRegister → ℕ → M → M
  pub rdmsr : ℕ → M → ℕ × ℕ
  pub wrmsr : ℕ → ℕ → ℕ → M → M
  pub pushfq : M → ℕ
  pub popfq : ℕ → M → M

-- `ControlRegisters`
pub record ControlRegisters : Type 0 where
  pub cr0 : ℕ
  pub cr2 : ℕ
  pub cr3 : ℕ
  pub cr4 : ℕ
  pub cr8 : ℕ

-- The MSRs with a name of their own.
pub data CommonMsr : Type 0 where
  vmx_basic vmx_pinbased_ctls vmx_procbased_ctls vmx_exit_ctls vmx_entry_ctls feature_control
        debugctl lstar cstar sf_mask kernel_gs_base :
      CommonMsr

unfoldable pub msr_address : CommonMsr → ℕ
msr_address vmx_basic = 0x480
msr_address vmx_pinbased_ctls = 0x481
msr_address vmx_procbased_ctls = 0x482
msr_address vmx_exit_ctls = 0x483
msr_address vmx_entry_ctls = 0x484
msr_address feature_control = 0x3a
msr_address debugctl = 0x1d9
msr_address lstar = 0xc000_0082
msr_address cstar = 0xc000_0083
msr_address sf_mask = 0xc000_0084
msr_address kernel_gs_base = 0xc000_0102

module _ {M : Type 0} (processor : Processor M) where
  open processor use {read_cr, write_cr, rdmsr, wrmsr, pushfq, popfq}

  -- `CR0::read` and `CR0::write`, and those of `CR4`
  unfoldable pub cr0_read : M → ℕ
  cr0_read m = read_cr cr0 m

  unfoldable pub cr0_write : ℕ → M → M
  cr0_write value m = write_cr cr0 value m

  unfoldable pub cr4_read : M → ℕ
  cr4_read m = read_cr cr4 m

  unfoldable pub cr4_write : ℕ → M → M
  cr4_write value m = write_cr cr4 value m

  -- `CR4::enable_vmx`
  unfoldable pub enable_vmx : M → Bool × M
  unfolding cr4_bit
  enable_vmx m =
      let value = read_cr cr4 m in
      let m' = write_cr cr4 (bit_or value (mask_of (cr4_bit vmxe))) m in
      if not (bit_and value (mask_of (cr4_bit vmxe)) == 0)
      then (true, m)
      else (not (bit_and (read_cr cr4 m') (mask_of (cr4_bit vmxe)) == 0), m')

  -- `MSR<MsrAddr>::read`, whose instruction gives `low` and `high`, and `write`
  unfoldable pub msr_read : ℕ → M → ℕ
  msr_read address m = let (low, high) = rdmsr address m in bit_or (u64 (high <<< 32)) low

  unfoldable pub msr_write : ℕ → ℕ → M → M
  msr_write address value m = wrmsr address (u32 (bit_and value 0xffff_ffff)) (u32 (value >>> 32)) m

  -- `RFLAGS::read` and `RFLAGS::write`
  unfoldable pub rflags_read : M → ℕ
  rflags_read m = pushfq m

  unfoldable pub rflags_write : ℕ → M → M
  rflags_write flags m = popfq flags m

  -- `ControlRegisters::capture`, and `restore`, which writes them in this order
  unfoldable pub capture : M → ControlRegisters
  capture m = record {
    cr0 = read_cr cr0 m;
    cr2 = read_cr cr2 m;
    cr3 = read_cr cr3 m;
    cr4 = read_cr cr4 m;
    cr8 = read_cr cr8 m;
  }

  unfoldable pub restore : ControlRegisters → M → M
  restore regs m = write_cr cr8 regs.cr8 (
      write_cr cr4 regs.cr4
        (write_cr cr3 regs.cr3 (write_cr cr2 regs.cr2 (write_cr cr0 regs.cr0 m))))
