-- ===== src/Driver/Vmcb.antt =====
-- The fields of the VMCB that the driver prepares, as the processor reads them.
use kernova_tee.Prelude.{
  ℕ, zero, suc, ◌+◌, ◌-◌, ◌/◌, ◌%◌, ◌^◌, ◌<◌, ◌≤◌, ◌≡◌, refl, ◌∙◌, ◌⊎◌, arith, Bytes, store, u8,
  ◌>>>◌,
}
use native.Mathlib.Nat.{pow-suc}
use kernova_tee.Driver.Pages.{vmcb_write, vmcb_read, prepare_entry, prepare_vmcb}

vmcb_read-outside :
    (width : ℕ) (page : Bytes) (offset at v : ℕ)
    → (at < offset) ⊎ (offset + width ≤ at)
    → vmcb_read width (store page at v) offset ≡ vmcb_read width page offset
unfolding vmcb_read
vmcb_read-outside zero page offset at v h = refl
vmcb_read-outside (suc width) page offset at v h =
    let ih = vmcb_read-outside width page (offset + 1) at v (omega arith) in ground (arith, ih)

vmcb_read-apart :
    (n width : ℕ) (page : Bytes) (offset at v : ℕ)
    → (at + n ≤ offset) ⊎ (offset + width ≤ at)
    → vmcb_read width (vmcb_write n page at v) offset ≡ vmcb_read width page offset
unfolding vmcb_write
vmcb_read-apart zero width page offset at v h = refl
vmcb_read-apart (suc n) width page offset at v h =
    vmcb_read-apart n width (store page at (u8 v)) (offset) (at + 1) (v >>> 8) (omega arith)
    ∙ vmcb_read-outside width page offset at (u8 v) (omega arith)

vmcb_write-before :
    (n : ℕ) (page : Bytes) (offset v i : ℕ) → i < offset → vmcb_write n page offset v i ≡ page i
unfolding vmcb_write
vmcb_write-before zero page offset v i h = refl
vmcb_write-before (suc n) page offset v i h =
    vmcb_write-before n (store page offset (u8 v)) (offset + 1) (v >>> 8) i (omega arith)
    ∙ ground arith

byte-shift : (n v : ℕ) → v < 256 ^ suc n → v / 2 ^ 8 < 256 ^ n
byte-shift n v h = omega (arith, pow-suc 256 n)

-- What is written is read back.
vmcb_read-same :
    (n : ℕ) (page : Bytes) (offset v : ℕ)
    → v < 256 ^ n
    → vmcb_read n (vmcb_write n page offset v) offset ≡ v
unfolding vmcb_read vmcb_write
vmcb_read-same zero page offset v h = omega arith
vmcb_read-same (suc n) page offset v h =
    rw
      (
        vmcb_write-before n (store page offset (u8 v)) (offset + 1) (v >>> 8) offset (omega arith),
        vmcb_read-same n (store page offset (u8 v)) (offset + 1) (v >>> 8) (byte-shift n v h),
      )
      (ground arith)

-- Where a prepared VMCB lets the guest start: RIP at its page, RSP 16 bytes below the page's end, the next
-- RIP behind the first three bytes of code, and RFLAGS with its fixed bit only.
abbrev pub IsPrepared : Bytes → ℕ → Type 0
IsPrepared page guest_pa =
    (vmcb_read 8 page 0x578 ≡ guest_pa)
    × (vmcb_read 8 page 0x5d8 ≡ guest_pa + 4080)
    × (vmcb_read 8 page 0x0c8 ≡ guest_pa + 3)
    × (vmcb_read 8 page 0x570 ≡ 2)

module _ (page : Bytes) (pa : ℕ) (h : pa + 4096 < 2 ^ 64) where
  abbrev at_rip : Bytes
  at_rip = vmcb_write 8 page 0x578 pa

  abbrev at_rsp : Bytes
  at_rsp = vmcb_write 8 at_rip 0x5d8 ((pa + 4096 - 16) % 2 ^ 64)

  abbrev at_rax : Bytes
  at_rax = vmcb_write 8 at_rsp 0x5f8 0

  entry_rip : vmcb_read 8 (prepare_entry page pa) 0x578 ≡ pa
  unfolding prepare_entry
  entry_rip =
      vmcb_read-apart 8 8 at_rax 0x578 0x0c8 ((pa + 3) % 2 ^ 64) (omega arith)
      ∙ vmcb_read-apart 8 8 at_rsp 0x578 0x5f8 0 (omega arith)
      ∙ vmcb_read-apart 8 8 at_rip 0x578 0x5d8 ((pa + 4096 - 16) % 2 ^ 64) (omega arith)
      ∙ vmcb_read-same 8 page 0x578 pa (omega arith)

  entry_rsp : vmcb_read 8 (prepare_entry page pa) 0x5d8 ≡ pa + 4080
  unfolding prepare_entry
  entry_rsp =
      vmcb_read-apart 8 8 at_rax 0x5d8 0x0c8 ((pa + 3) % 2 ^ 64) (omega arith)
      ∙ vmcb_read-apart 8 8 at_rsp 0x5d8 0x5f8 0 (omega arith)
      ∙ vmcb_read-same 8 at_rip 0x5d8 ((pa + 4096 - 16) % 2 ^ 64) (omega arith)
      ∙ omega arith

  entry_nrip : vmcb_read 8 (prepare_entry page pa) 0x0c8 ≡ pa + 3
  unfolding prepare_entry
  entry_nrip = vmcb_read-same 8 at_rax 0x0c8 ((pa + 3) % 2 ^ 64) (omega arith) ∙ omega arith

  -- The entry writes no other field.
  entry-apart :
      (offset : ℕ)
      → 0x0d0 ≤ offset
      → offset + 8 ≤ 0x578
      → vmcb_read 8 (prepare_entry page pa) offset ≡ vmcb_read 8 page offset
  unfolding prepare_entry
  entry-apart offset low high =
      vmcb_read-apart 8 8 at_rax offset 0x0c8 ((pa + 3) % 2 ^ 64) (omega arith)
      ∙ vmcb_read-apart 8 8 at_rsp offset 0x5f8 0 (omega arith)
      ∙ vmcb_read-apart 8 8 at_rip offset 0x5d8 ((pa + 4096 - 16) % 2 ^ 64) (omega arith)
      ∙ vmcb_read-apart 8 8 page offset 0x578 pa (omega arith)

-- A VMCB that is prepared for a guest page at a physical address whose page fits in 64 bits: the processor
-- reads the fields of `IsPrepared`, whatever the page held before.
pub prepare_vmcb-IsPrepared :
    (old : Bytes) (guest_pa : ℕ)
    → guest_pa + 4096 < 2 ^ 64
    → IsPrepared (prepare_vmcb old guest_pa) guest_pa
unfolding prepare_vmcb
prepare_vmcb-IsPrepared old guest_pa h = (
  entry_rip _ guest_pa h,
  entry_rsp _ guest_pa h,
  entry_nrip _ guest_pa h,
  entry-apart _ guest_pa h 0x570 (omega arith) (omega arith)
      ∙ vmcb_read-same 8 _ 0x570 2 (omega arith),
)
