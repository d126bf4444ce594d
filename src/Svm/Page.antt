-- ===== src/Svm/Page.antt =====
-- The bytes of the prepared VMCB page.
use kernova_tee.Prelude.{
  ℕ, ◌+◌, ◌-◌, ◌*◌, ◌/◌, ◌%◌, ◌^◌, ◌<◌, ◌≡◌, Bool, ◌&&◌, arith, Bytes, bit_and, ltb, leb, ◌||◌,
  ◌==◌, if◌then◌else◌,
}
use kernova_tee.Prelude.Bits.{bit_and-mask}
use kernova_tee.Svm.{SvmCapabilities, Vmcb, write32, prepare_minimal_vmcb}

-- The control area that the hardware path is to find, byte by byte: CR reads and writes intercepted
-- at offsets 0 to 3, INTR at 0x0C, nested paging at 0x90 if the processor has it, and zero elsewhere.
abbrev pub minimal_control_area : Bool → Bytes
minimal_control_area nested i =
    if ltb i 4 then 0xff else if i == 0x00c then 1 else if i == 0x090 && nested then 1 else 0

byte_mask : (x : ℕ) → bit_and x 0xff ≡ x % 2 ^ 8
byte_mask x = bit_and-mask 8 x

-- Whatever the page held, its control area is the minimal one, and the rest is zero; the VMCB
-- clean-bits capability makes no difference.
pub prepare_minimal_vmcb_layout :
    (v : Vmcb) (c : SvmCapabilities) (i : ℕ)
    → ((prepare_minimal_vmcb v c).control_area i ≡ minimal_control_area c.nested_paging i)
      × ((prepare_minimal_vmcb v c).save_state_area i ≡ 0)
      × ((prepare_minimal_vmcb v c).reserved i ≡ 0)
unfolding prepare_minimal_vmcb
prepare_minimal_vmcb_layout v c i = (ground arith, ground arith, ground arith)

-- The little-endian numbers that the hardware reads.
abbrev pub read16 : Bytes → ℕ → ℕ
read16 a offset = a offset + a (offset + 1) * 2 ^ 8

abbrev pub read32 : Bytes → ℕ → ℕ
read32 a offset =
    a offset + a (offset + 1) * 2 ^ 8 + a (offset + 2) * 2 ^ 16 + a (offset + 3) * 2 ^ 24

-- A 32-bit value that is written is read back; byte `k` of it stands at the offset plus `k`, and no
-- byte outside the four changes.
pub write32-read32 :
    (v : Vmcb) (offset value i : ℕ)
    → value < 2 ^ 32
    → (read32 (write32 v offset value).control_area offset ≡ value)
      × ((write32 v offset value).control_area i ≡ (
          if ltb i offset || leb (offset + 4) i
          then v.control_area i
          else value / 2 ^ (8 * (i - offset)) % 2 ^ 8))
unfolding write32
write32-read32 v offset value i h = ground (
  arith,
  byte_mask value,
  byte_mask (value / 2 ^ 8),
  byte_mask (value / 2 ^ 16),
  byte_mask (value / 2 ^ 24),
)
