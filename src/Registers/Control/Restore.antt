-- ===== src/Registers/Control/Restore.antt =====
-- What is written to the registers is read back.
use kernova_tee.Prelude.{
  ℕ, ◌*◌, ◌/◌, ◌%◌, ◌^◌, ◌<◌, ◌≡◌, ◌==◌, false, refl, ◌∙◌, bit_and, bit_or, u32, u64, arith,
}
use kernova_tee.Prelude.Bits.{bit_and-mask, bit_or-fields}
use kernova_tee.Registers.Control.{
  ControlRegister, cr0, cr2, cr3, cr4, cr8, Processor, ControlRegisters, msr_read, msr_write,
  capture, restore,
}

-- The number in a control register's name.
abbrev pub number : ControlRegister → ℕ
number cr0 = 0
number cr2 = 2
number cr3 = 3
number cr4 = 4
number cr8 = 8

-- What the processor's manual says of the instructions: a write is read back, and a write to one control
-- register leaves the others.
pub record RegisterLaws {M : Type 0} (processor : Processor M) : Type 0 where
  pub written :
      (r : ControlRegister) (v : ℕ) (m : M) → processor.read_cr r (processor.write_cr r v m) ≡ v
  pub apart :
      (r s : ControlRegister) (v : ℕ) (m : M)
      → (number r == number s) ≡ false
      → processor.read_cr r (processor.write_cr s v m) ≡ processor.read_cr r m
  pub msr_written :
      (a low high : ℕ) (m : M) → processor.rdmsr a (processor.wrmsr a low high m) ≡ (low, high)

-- A value is put together from its halves.
halves :
    (value : ℕ)
    → value < 2 ^ 64
    → bit_or (u64 (u32 (value / 2 ^ 32) * 2 ^ 32)) (u32 (bit_and value 0xffff_ffff)) ≡ value
halves value h =
    let high : u64 (u32 (value / 2 ^ 32) * 2 ^ 32) ≡ value / 2 ^ 32 * 2 ^ 32 = omega arith in
    let low : u32 (value % 2 ^ 32) ≡ value % 2 ^ 32 = omega arith in
    rw
      (
        bit_and-mask 32 value,
        high,
        low,
        bit_or-fields 32 (value / 2 ^ 32) (value % 2 ^ 32) (omega arith),
      )
      (omega arith)

module _ {M : Type 0} (processor : Processor M) (laws : RegisterLaws processor) where
  -- A 64-bit value that is written to an MSR in two halves is the value that is read back from two halves.
  pub msr_read-msr_write :
      (address value : ℕ) (m : M)
      → value < 2 ^ 64
      → msr_read processor address (msr_write processor address value m) ≡ value
  unfolding msr_read msr_write
  msr_read-msr_write address value m h =
      rw (laws.msr_written address (u32 (bit_and value 0xffff_ffff)) (u32 (value / 2 ^ 32)) m)
        (halves value h)

  -- Writes to two other registers are not seen.
  past :
      (r s t : ControlRegister) (v w : ℕ) (m : M)
      → (number r == number s) ≡ false
      → (number r == number t) ≡ false
      → processor.read_cr r (processor.write_cr s v (processor.write_cr t w m))
        ≡ processor.read_cr r m
  past r s t v w m p q = laws.apart r s v (processor.write_cr t w m) p ∙ laws.apart r t w m q

  -- The control registers that are restored are those that a later capture finds.
  pub capture-restore :
      (regs : ControlRegisters) (m : M) → capture processor (restore processor regs m) ≡ regs
  unfolding capture restore
  capture-restore regs m =
      let m0 = processor.write_cr cr0 regs.cr0 m in
      let m2 = processor.write_cr cr2 regs.cr2 m0 in
      let m3 = processor.write_cr cr3 regs.cr3 m2 in
      let m4 = processor.write_cr cr4 regs.cr4 m3 in
      rw
        (
          past cr0 cr8 cr4 regs.cr8 regs.cr4 m3 refl refl,
          past cr0 cr3 cr2 regs.cr3 regs.cr2 m0 refl refl,
          laws.written cr0 regs.cr0 m,
          past cr2 cr8 cr4 regs.cr8 regs.cr4 m3 refl refl,
          laws.apart cr2 cr3 regs.cr3 m2 refl,
          laws.written cr2 regs.cr2 m0,
          past cr3 cr8 cr4 regs.cr8 regs.cr4 m3 refl refl,
          laws.written cr3 regs.cr3 m2,
          laws.apart cr4 cr8 regs.cr8 m4 refl,
          laws.written cr4 regs.cr4 m3,
          laws.written cr8 regs.cr8 m4,
        )
        refl
