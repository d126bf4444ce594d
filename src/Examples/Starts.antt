-- ===== src/Examples/Starts.antt =====
-- The theorems on the start of VMX operation, at a processor that confirms the VMXON region.
use kernova_tee.Prelude.{◌≡◌, ◌⊎◌, refl, some, true, false, zeros, arith, [], ◌∷◌}
use kernova_tee.Backend.Intel
use kernova_tee.Backend.Intel.{new_intel}
use kernova_tee.Backend.Intel.Machine.{calls, inits, sets_up}
use kernova_tee.Vmx.{Instructions, VmxState, init_failed, vmxon_failed, vmcs_setup_failed, vmx_init}
use kernova_tee.Vmx.Vmcs.{VmcsState, vmcs_setup}
use kernova_tee.Vmx.Whole.{whole, is_taken, in_vmx, vmx_init_whole}
use kernova_tee.Vmx.Service.{Bare, with_assembly, calls-new_intel}
use kernova_tee.Examples.Machines.{intel_host}
use kernova_tee.Examples.Exits.{Fields, plain_vmcs, entry, empty}

-- A processor that confirms the VMXON region by its bit 31.
abbrev eager_cpu : Instructions Fields
eager_cpu = record {
  read_cr4 = λ m. 0x2000;
  write_cr4 = λ v m. m;
  rdmsr = λ a m. (0x12, 0);
  vmxon = λ region m. (false, λ i. 0x8000_0012, m);
  vmxoff = λ m. zeros;
  vmlaunch = λ m. m;
  vmresume = λ m. m;
  invept = λ kind address m. m;
  vmread = λ f m. (some (m f), m);
  vmcs_setup = λ m. (0, m);
}

abbrev off : VmxState (VmcsState Fields)
off = record { machine = empty; vmxon_region = zeros; vmxon_region_ptr = 0; host_stack_ptr = 0 }

vmx_init_whole_example :
    let cpu = whole eager_cpu plain_vmcs entry 0x1_0000 0x2_0000 off in
    let taken = is_taken eager_cpu plain_vmcs entry 0x1_0000 0x2_0000 off in
    let m = in_vmx eager_cpu plain_vmcs entry 0x1_0000 0x2_0000 off in
    let (rax, s') = vmx_init cpu 0x2_0000 off in
    (rax ≡ 0 → taken ≡ false)
    × (taken ≡ true
        → (rax ≡ init_failed)
          ⊎ ((rax ≡ vmxon_failed)
              ⊎ ((rax ≡ vmcs_setup_failed)
                  × (s'.machine ≡ cpu.vmxoff (vmcs_setup plain_vmcs entry 0x1_0000 m).1))))
vmx_init_whole_example =
    vmx_init_whole eager_cpu plain_vmcs entry 0x1_0000 0x2_0000 off (λ e. omega (arith, e)) refl
      (λ e. omega (arith, e)) refl

abbrev bare : Bare Fields
bare = record {
  cpu = eager_cpu;
  vmcs = plain_vmcs;
  entry = entry;
  bss = 0x1_0000;
  address = 0x2_0000;
  rsp = 64;
}

calls-new_intel_example :
    let b = (calls (with_assembly bare intel_host) new_intel (off, 0) (inits ∷ sets_up ∷ [])).0 in
    (b ≡ new_intel) × ((Intel.status (with_assembly bare intel_host) b).hardware_validated ≡ false)
calls-new_intel_example =
    calls-new_intel bare intel_host (λ a m. (refl, refl))
      ((λ e. omega (arith, e)), refl, (λ e. omega (arith, e)), refl) (inits ∷ sets_up ∷ []) (off, 0)
