-- ===== src/Vmx/Service.antt =====
-- The Intel backend of the service over the assembly that a bare-metal build gives it, in the place of the
-- stubs.
use kernova_tee.Prelude.{
  true-false, ℕ, zero, suc, ◌≡◌, ◌≢◌, refl, sym, ◌∙◌, true, false, List, bit_and, pos, is_zero,
}
use kernova_tee.Host.{Host}
use kernova_tee.Host.Beside.{beside}
use kernova_tee.Backend.Intel
use kernova_tee.Backend.Intel.{IntelVmx, new_intel}
use kernova_tee.Backend.Intel.Machine.{Call, calls, failing-calls}
use kernova_tee.Vmx.{Instructions, VmxState, vmx_init, vmx_launch, vmxoff_wrapper}
use kernova_tee.Vmx.Vmcs
use kernova_tee.Vmx.Vmcs.{VmcsInstructions, VmcsState, EntryPoints}
use kernova_tee.Vmx.Vmcs.Setup.{cleared}
use kernova_tee.Vmx.Whole.{with_vmcs, is_taken, in_vmx, vmx_init_whole}

-- The processor that runs the assembly, and where its sections and the stack stand.
pub record Bare (M : Type 0) : Type 0 where
  pub cpu : Instructions M
  pub vmcs : VmcsInstructions M
  pub entry : EntryPoints
  pub bss : ℕ
  pub address : ℕ
  pub rsp : ℕ

abbrev pub Machine : Type 0 → Type 0
Machine M = VmxState (VmcsState M)

abbrev routines : {M : Type 0} → Bare M → Instructions (VmcsState M)
routines bare = with_vmcs bare.cpu bare.vmcs bare.entry bare.bss

-- The host with the routines of vmx_init.asm and vmcs_config.asm, whose `rax` is the result.
abbrev pub with_assembly : {M N : Type 0} → Bare M → Host N → Host (Machine M × N)
with_assembly {M} bare host = record (beside (Machine M) host) {
  vmx_init = λ s. let (rax, v) = vmx_init (routines bare) bare.address s.0 in (pos rax, (v, s.1));
  vmcs_setup = λ s.
      let (rax, v) = Vmcs.vmcs_setup bare.vmcs bare.entry bare.bss s.0.machine in
      (pos rax, (record s.0 { machine = v }, s.1));
  vmx_launch = λ s.
      let (rax, v) = vmx_launch (routines bare) bare.address bare.rsp s.0 in (pos rax, (v, s.1));
  vmxoff = λ s. (vmxoff_wrapper (routines bare) bare.address s.0, s.1);
}

-- VMCLEAR and VMPTRLD succeed.
abbrev pub TakesVmcs : {M : Type 0} → Bare M → Type 0
TakesVmcs {M} bare =
    (a : ℕ) (m : M) → ((bare.vmcs.vmclear a m).0 ≡ false) × ((bare.vmcs.vmptrld a m).0 ≡ false)

-- Both regions are aligned to a page and do not stand at 0.
abbrev pub IsPlaced : {M : Type 0} → Bare M → Type 0
IsPlaced bare =
    (bare.address ≢ 0)
    × (bit_and bare.address 0xfff ≡ 0)
    × (bare.bss ≢ 0)
    × (bit_and bare.bss 0xfff ≡ 0)

is_zero-pos : (n : ℕ) → n ≢ 0 → is_zero (pos n) ≡ false
is_zero-pos zero other = absurd (other refl)
is_zero-pos (suc n) other = refl

module _ {M N : Type 0} (bare : Bare M) (host : Host N) (takes : TakesVmcs bare)
    (placed : IsPlaced bare) where
  vmx_init-nonzero : (s : Machine M × N) → is_zero ((with_assembly bare host).vmx_init s).0 ≡ false
  vmx_init-nonzero s =
      let (near, aligned, there, page) = placed in
      let m = in_vmx bare.cpu bare.vmcs bare.entry bare.bss bare.address s.0 in
      let outcome =
        vmx_init_whole bare.cpu bare.vmcs bare.entry bare.bss bare.address s.0 near aligned there
          page in
      let taken : is_taken bare.cpu bare.vmcs bare.entry bare.bss bare.address s.0 ≡ true =
        rw
          (
            (takes bare.bss m.machine).0,
            (takes bare.bss (cleared bare.vmcs bare.entry bare.bss m).1).1,
          )
          refl in
      is_zero-pos _ (λ e. true-false (sym taken ∙ outcome.0 e))

  -- VMCLEAR and VMPTRLD succeed, and the regions are placed. Then no sequence of method calls on a
  -- new Intel backend over the assembly initialises it: it stays as it is, so it never reports
  -- validated hardware.
  pub calls-new_intel :
      (cs : List Call) (s : Machine M × N)
      → let b = (calls (with_assembly bare host) new_intel s cs).0 in
        (b ≡ new_intel) × ((Intel.status (with_assembly bare host) b).hardware_validated ≡ false)
  unfolding Intel.status new_intel
  calls-new_intel cs s =
      let kept = failing-calls (with_assembly bare host) cs s vmx_init-nonzero in
      (kept, rw (kept) refl)
