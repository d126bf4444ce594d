-- ===== src/Vmx/Exit/Handler.antt =====
-- What a VM exit does: none of the intercepts runs.
use kernova_tee.Prelude.{
  ℕ, zero, suc, ◌+◌, ◌^◌, ◌<◌, ◌≡◌, refl, true, false, not, ◌&&◌, ltb, ◌==◌, u16, u32, u64, Bytes,
  arith,
}
use kernova_tee.Vmx.Vmcs.{VmcsInstructions, put_field}
use kernova_tee.Vmx.Exit.{
  ExitInstructions, ExitState, GuestRegisters, with_ax, saved, restored, vmcs_read64, vmcs_read32,
  vmcs_write64, vmexit_dispatch, resume, vmexit_handler,
}

-- Segment registers have 16 bits.
abbrev pub IsWide : GuestRegisters → Type 0
IsWide r = (r.ds < 2 ^ 16) × (r.es < 2 ^ 16) × (r.fs < 2 ^ 16) × (r.gs < 2 ^ 16)

low_word : (x w : ℕ) → w < 2 ^ 16 → u16 (with_ax x w) ≡ w
low_word x w small = omega (arith, small)

-- What is pushed is what is popped.
restored-saved : (r : GuestRegisters) → IsWide r → restored (saved r) ≡ r
restored-saved r (ds, es, fs, gs) =
    rw
      (
        low_word r.rax r.ds ds,
        low_word r.rax r.es es,
        low_word r.rax r.fs fs,
        low_word r.rax r.gs gs,
      )
      refl

-- A number of reads of one field.
abbrev pub reads : {M : Type 0} → VmcsInstructions M → ℕ → ℕ → M → M
reads vmcs zero f m = m
reads vmcs (suc n) f m = reads vmcs n f (vmcs.vmread f m).1

module _ {M : Type 0} (cpu : ExitInstructions M) (memory : ℕ → Bytes) (rodata : ℕ) where
  -- The reason 16 has no intercept.
  dispatch_other :
      (x rax rsi r14 : ℕ) (s : ExitState M)
      → vmexit_dispatch cpu memory rodata (with_ax x 0x10) rax rsi r14 s ≡ (rax, s)
  unfolding vmexit_dispatch
  dispatch_other x rax rsi r14 s =
      let is_not : (k : ℕ)
          → ltb k 0x1_0000 && not (k == 0x10) ≡ true
          → (with_ax x 0x10 == k) ≡ false =
        λ k other. ground (arith, other) in
      rw
        (
          is_not 28 refl,
          is_not 32 refl,
          is_not 10 refl,
          is_not 30 refl,
          is_not 18 refl,
          is_not 12 refl,
        )
        refl

  -- The segment registers are of 16 bits. On any VM exit, the four reads of the handler give `rax` of the
  -- guest with its low word replaced by 0x10, which is the reason of none of the intercepts. So the trace
  -- engine is as it was, the guest gets back all its registers, and what is written to its RIP before the
  -- VMRESUME is that number plus its low 32 bits, modulo 2^64.
  pub vmexit_handler_lem :
      (r : GuestRegisters) (s : ExitState M)
      → IsWide r
      → let v = with_ax r.rax 0x10 in
        vmexit_handler cpu memory rodata r s
        ≡ resume cpu r (record {
          machine = put_field cpu.vmcs 0x681e (u64 (v + u32 v)) (reads cpu.vmcs 4 v s.machine);
          engine = s.engine;
        })
  unfolding vmexit_handler vmcs_read64 vmcs_read32 vmcs_write64
  vmexit_handler_lem r s wide =
      rw
        (
          restored-saved r wide,
          dispatch_other r.rax (with_ax r.rax 0x10) r.rsi (with_ax r.rax 0x10),
        )
        refl
