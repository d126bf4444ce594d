-- ===== src/Examples/Backends.antt =====
-- The theorems on the backends, at concrete hosts.
use kernova_tee.Prelude.{◌≡◌, [], ◌∷◌, some}
use kernova_tee.Svm.{new_context}
use kernova_tee.Backend.Kernel.{new_driver}
use kernova_tee.Backend.Kernel.Protocol.{IsOrdered}
use kernova_tee.Backend.Kernel.Log.{
  phase_after, phase_of, calls, calls-phase, inits_backend, sets_up, launches,
}
use kernova_tee.Backend.Amd.Blocked as Blocked
use kernova_tee.Backend.Amd.Blocked.{IsBlocked, calls-new-IsBlocked, launch_cases}
use kernova_tee.Examples.Machines.{amd_cpuid, driver_host}

calls-phase_example :
    let (k, s) = calls driver_host new_driver ([], 0) (inits_backend ∷ sets_up ∷ launches ∷ []) in
    IsOrdered k × (phase_after s.0 ≡ some (phase_of k))
calls-phase_example = calls-phase driver_host 0 (inits_backend ∷ sets_up ∷ launches ∷ [])

calls-new-IsBlocked_example :
    IsBlocked amd_cpuid
      (Blocked.calls amd_cpuid new_context (Blocked.inits ∷ Blocked.launches ∷ []))
calls-new-IsBlocked_example = calls-new-IsBlocked amd_cpuid (Blocked.inits ∷ Blocked.launches ∷ [])
