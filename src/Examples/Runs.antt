-- ===== src/Examples/Runs.antt =====
-- The theorems on whole runs, at concrete hosts.
use kernova_tee.Prelude.{
  ℕ, ◌≡◌, refl, ◌⊎◌, inr, true, false, arith, [], ◌∷◌, pos, some, none, zeros, Bytes, ◌+◌,
}
use kernova_tee.Cpu.{detect_cpu_features}
use kernova_tee.Svm.{has_minimum_runtime_support, capabilities_from_cpu_features}
use kernova_tee.Backend.{hardware_backend_enabled, userspace_poc}
use kernova_tee.Backend.Dispatch
use kernova_tee.Backend.Dispatch.{new_backends}
use kernova_tee.Hypervisor.{
  World, new_world, returned, halted, hypervisor_init, hypervisor_shutdown, main,
  strict_vmx_required, shutdown_backend,
}
use kernova_tee.Hypervisor.Startup.{
  IsTraceFailure, IsEnclaveFailure, HasMemory, IsStrictFailure, IsLive, hypervisor_init_cases,
}
use kernova_tee.Hypervisor.Evidence.{IsBacked, hypervisor_init-IsBacked}
use kernova_tee.Hypervisor.Strict.{IsUnvalidated, strict_start-IsUnvalidated}
use kernova_tee.Host.{Host}
use kernova_tee.Simd.{check_avx512_support}
use kernova_tee.Trace.{TraceEngine, new_engine}
use kernova_tee.Monitor.Engine.{Surroundings}
use kernova_tee.Hypervisor.Assembled.{assembled, assembled-main}
use kernova_tee.Hypervisor.Vmcall.{serve, serve-transferred}
use kernova_tee.Hypervisor.Stubs.{with_stubs, IsValidated, hypervisor_init_stubs-IsValidated}
use kernova_tee.Enclave.Contract.{SimdContract}
use kernova_tee.Hypervisor.Run.{IsFailure, checked, main_cases, shutdown_wipes}
use kernova_tee.Examples.Machines.{
  amd_cpuid, intel_cpuid, strict, unset, amd_host, host_over, driver_host, intel_host,
  machine-SimdContract, live_block, live_buffer, live_state,
}

-- The state at the start of the process.
abbrev first_world : World ℕ
first_world = new_world 0

abbrev live_world : World ℕ
live_world = record {
  backends = new_backends 0;
  hv = live_state;
  buffer = live_buffer;
  selected = some userspace_poc;
}

hypervisor_init-IsBacked_example : IsBacked driver_host (hypervisor_init driver_host first_world)
unfolding new_world
hypervisor_init-IsBacked_example = hypervisor_init-IsBacked driver_host first_world refl

hypervisor_init_cases_example :
    let (r, w') = hypervisor_init driver_host first_world in
    IsTraceFailure driver_host first_world (r, w')
    ⊎ (IsEnclaveFailure driver_host first_world (r, w')
        ⊎ (HasMemory driver_host first_world w'
            × ((r ≡ pos 0) ⊎ IsStrictFailure driver_host r)
            × IsLive w'))
unfolding new_world
hypervisor_init_cases_example =
    hypervisor_init_cases driver_host (machine-SimdContract amd_cpuid unset true true) first_world
      refl

strict_start-IsUnvalidated_example : IsUnvalidated (hypervisor_init amd_host first_world)
unfolding new_world strict_vmx_required detect_cpu_features has_minimum_runtime_support
    capabilities_from_cpu_features
strict_start-IsUnvalidated_example =
    strict_start-IsUnvalidated amd_host (machine-SimdContract amd_cpuid strict false true)
      first_world 4096 (λ i. i) refl refl refl refl refl (inr ((refl, refl), refl))

main_cases_example :
    let (r, w') = hypervisor_init intel_host first_world in
    (IsFailure intel_host first_world (r, w') × (main intel_host first_world ≡ returned (r, w')))
    ⊎ ((r ≡ pos 0)
        × HasMemory intel_host first_world w'
        × IsLive w'
        × (((w'.hv.hardware_virtualization_validated ≡ true)
              × (main intel_host first_world ≡ halted (checked intel_host w')))
            ⊎ ((w'.hv.hardware_virtualization_validated ≡ false)
                × (main intel_host first_world
                    ≡ returned (pos 0, hypervisor_shutdown intel_host (checked intel_host w'))))))
unfolding new_world
main_cases_example =
    main_cases intel_host (machine-SimdContract intel_cpuid strict false true) first_world refl

shutdown_wipes_example : hypervisor_shutdown amd_host live_world ≡ record live_world {
  backends = new_backends 1;
  buffer = record { block = none; size = 0 };
  hv = record live_state { enclave_active = false };
}
unfolding new_backends shutdown_backend Dispatch.shutdown
shutdown_wipes_example =
    shutdown_wipes amd_host (machine-SimdContract amd_cpuid strict false true) live_world live_block
      refl (omega arith) (omega arith)

-- A guest's memory of zeros.
abbrev guest : ℕ → Bytes
guest address = zeros

serve-transferred_example :
    let w' = serve amd_host guest live_world ((1, 4096, 22) ∷ (1, 0, 22) ∷ (1, 4096, 70000) ∷ []) in
    (w'.hv.enclave_active ≡ true) × (w'.hv.data_transferred_bytes ≡ 22)
serve-transferred_example =
    serve-transferred amd_host (machine-SimdContract amd_cpuid strict false true) guest live_world
      ((1, 4096, 22) ∷ (1, 0, 22) ∷ (1, 4096, 70000) ∷ []) (inr (live_block, refl, refl, refl))
      (omega arith)

stub_host-SimdContract : SimdContract (with_stubs intel_host)
stub_host-SimdContract = record {
  packs = λ d s n flags p q. refl;
  unpacks = λ d s n flags p q. refl;
  clears = λ a n p q. refl;
}

hypervisor_init_stubs-IsValidated_example :
    IsValidated (hypervisor_init (with_stubs intel_host) first_world)
unfolding new_world hardware_backend_enabled detect_cpu_features
hypervisor_init_stubs-IsValidated_example =
    hypervisor_init_stubs-IsValidated intel_host stub_host-SimdContract first_world 4096 (λ i. i)
      refl (refl, refl) refl refl refl refl

-- A machine with nothing to tell, under the assembly.
abbrev around : Surroundings ℕ
around = record { tsc = λ m. m; memory = λ m a. zeros; moves_on = λ m. m + 1 }

abbrev assembled_world : World (TraceEngine × ℕ)
assembled_world = new_world (new_engine, 0)

abbrev assembled_host : Host (TraceEngine × ℕ)
assembled_host = assembled around 7 (host_over amd_cpuid unset)

assembled-main_example :
    let (r, w') = hypervisor_init assembled_host assembled_world in
    (IsEnclaveFailure assembled_host assembled_world (r, w')
      × (main assembled_host assembled_world ≡ returned (r, w')))
    ⊎ ((r ≡ pos 0)
        × HasMemory assembled_host assembled_world w'
        × IsLive w'
        × (((w'.hv.hardware_virtualization_validated ≡ true)
              × (main assembled_host assembled_world ≡ halted (checked assembled_host w')))
            ⊎ ((w'.hv.hardware_virtualization_validated ≡ false)
                × (main assembled_host assembled_world
                    ≡ returned
                        (pos 0, hypervisor_shutdown assembled_host (checked assembled_host w'))))))
unfolding new_world check_avx512_support strict_vmx_required
assembled-main_example =
    assembled-main around 7 (host_over amd_cpuid unset) assembled_world refl refl refl
