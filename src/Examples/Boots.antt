-- ===== src/Examples/Boots.antt =====
-- The theorems on the boot, at concrete machines.
use kernova_tee.Prelude.{
  ℕ, ◌≡◌, ◌≢◌, ◌⊎◌, refl, true, false, some, is_zero, bit_and, ◌^◌, u32, ◌+◌, ◌*◌, ◌/◌, arith,
}
use kernova_tee.Backend.{BackendKind}
use kernova_tee.Hypervisor.{new_world, hypervisor_init}
use kernova_tee.Hypervisor.Evidence.{Evidence}
use kernova_tee.Vmx.Boot.{BootInstructions, BootState, check_vmx_support, start}
use kernova_tee.Vmx.Boot.Flow.{HasVmx, asked, booted, is_main_halt, start-main_halt}
use kernova_tee.Vmx.Boot.Support.{KeepsFeatures, check_vmx_support_twice}
use kernova_tee.Examples.Machines.{intel_cpuid, driver_host}

-- The machine is its feature control; the other instructions leave it.
abbrev boot_cpu : BootInstructions ℕ
boot_cpu = record {
  cli = λ m. m;
  load_segments = λ v m. m;
  rdmsr = λ a m. (u32 m, u32 (m / 2 ^ 32));
  wrmsr = λ a v m. u32 v.0 + u32 v.1 * 2 ^ 32;
  cpuid = intel_cpuid;
  vzeroupper = λ m. m;
  ldmxcsr = λ v m. m;
  read_cr4 = λ m. 0;
  write_cr4 = λ v m. m;
}

abbrev loaded : BootState ℕ
loaded = record { world = new_world 5; boot_stack_ptr = 0; simd_mxcsr_init = 0 }

boot_cpu-KeepsFeatures : KeepsFeatures boot_cpu
boot_cpu-KeepsFeatures a d m unlocked =
    let low : u32 (u32 a + u32 d * 2 ^ 32) ≡ u32 a = omega arith in
    let high : u32 ((u32 a + u32 d * 2 ^ 32) / 2 ^ 32) ≡ u32 d = omega arith in rw (low, high) refl

start-main_halt_example :
    let (r, w) = hypervisor_init driver_host (booted boot_cpu loaded) in
    (is_main_halt (start boot_cpu driver_host 64 loaded) ≡ false)
    ⊎ (HasVmx boot_cpu (asked boot_cpu loaded)
        × (is_zero r ≡ true)
        × (w.hv.hardware_virtualization_validated ≡ true)
        × ((kind : BackendKind) × (w.selected ≡ some kind) × Evidence driver_host kind w.backends))
unfolding new_world
start-main_halt_example = start-main_halt boot_cpu driver_host 64 loaded refl

check_vmx_support_twice_example :
    let (supported, m') = check_vmx_support boot_cpu 0 in
    let control = (boot_cpu.rdmsr 0x3a m').0 in
    (supported ≢ 0 → (bit_and control 1 ≢ 0) × (bit_and control (2 ^ 2) ≢ 0))
    × (check_vmx_support boot_cpu m' ≡ (supported, m'))
check_vmx_support_twice_example = check_vmx_support_twice boot_cpu 0 boot_cpu-KeepsFeatures
