-- ===== src/Backend/Dispatch.antt =====
-- The four backend objects of hypervisor_backend.cpp, the choice between them, and the virtual calls
-- through `HypervisorBackend&`. A call on one object leaves the other three as they are.
pub mod Selection
use kernova_tee.Prelude.{Bool, true, false, ◌&&◌, if◌then◌else◌, ℤ, pos}
use kernova_tee.Cpu.{detect_cpu_features}
use kernova_tee.Svm.{SvmRuntimeContext, new_context, is_amd}
use kernova_tee.Host.{Host}
use kernova_tee.Backend.{
  BackendKind, userspace_poc, kernel_driver, intel_vmx, amd_svm, BackendStatus,
}
use kernova_tee.Backend.Userspace
use kernova_tee.Backend.Kernel
use kernova_tee.Backend.Kernel.{KernelDriver, new_driver}
use kernova_tee.Backend.Intel
use kernova_tee.Backend.Intel.{IntelVmx, new_intel, is_intel}
use kernova_tee.Backend.Amd

-- The globals of lines 351-356, and the machine that they act on.
pub record Backends (M : Type 0) : Type 0 where
  pub machine : M
  pub kernel : KernelDriver
  pub vmx : IntelVmx
  pub svm : SvmRuntimeContext

unfoldable pub new_backends : {M : Type 0} → M → Backends M
unfolding new_driver new_intel new_context
new_backends m = record { machine = m; kernel = new_driver; vmx = new_intel; svm = new_context }

module _ {M : Type 0} where
  abbrev pub from_kernel : Backends M → ℤ × KernelDriver × M → ℤ × Backends M
  from_kernel b (r, k, m) = (r, record b { machine = m; kernel = k })

  abbrev pub from_intel : Backends M → ℤ × IntelVmx × M → ℤ × Backends M
  from_intel b (r, v, m) = (r, record b { machine = m; vmx = v })

  abbrev pub from_amd : Backends M → ℤ × SvmRuntimeContext → ℤ × Backends M
  from_amd b (r, c) = (r, record b { svm = c })

module _ {M : Type 0} (host : Host M) where
  open host use {cpuid}

  unfoldable pub status : BackendKind → Backends M → BackendStatus × Backends M
  status userspace_poc b = (Userspace.status cpuid, b)
  status kernel_driver b =
      let (s, m) = Kernel.status host b.kernel b.machine in (s, record b { machine = m })
  status intel_vmx b = (Intel.status host b.vmx, b)
  status amd_svm b = (Amd.status cpuid b.svm, b)

  unfoldable pub init : BackendKind → Backends M → ℤ × Backends M
  init userspace_poc b = (Userspace.init, b)
  init kernel_driver b = from_kernel b (Kernel.init host b.kernel b.machine)
  init intel_vmx b = from_intel b (Intel.init host b.vmx b.machine)
  init amd_svm b = from_amd b (Amd.init cpuid b.svm)

  unfoldable pub setup_guest : BackendKind → Backends M → ℤ × Backends M
  setup_guest userspace_poc b = (Userspace.setup_guest, b)
  setup_guest kernel_driver b = from_kernel b (Kernel.setup_guest host b.kernel b.machine)
  setup_guest intel_vmx b = from_intel b (Intel.setup_guest host b.vmx b.machine)
  setup_guest amd_svm b = (Amd.setup_guest b.svm, b)

  unfoldable pub launch : BackendKind → Backends M → ℤ × Backends M
  launch userspace_poc b = (Userspace.launch, b)
  launch kernel_driver b = from_kernel b (Kernel.launch host b.kernel b.machine)
  launch intel_vmx b = from_intel b (Intel.launch host b.vmx b.machine)
  launch amd_svm b = from_amd b (Amd.launch b.svm)

  unfoldable pub shutdown : BackendKind → Backends M → Backends M
  shutdown userspace_poc b = b
  shutdown kernel_driver b =
      let (k, m) = Kernel.shutdown host b.kernel b.machine in record b { machine = m; kernel = k }
  shutdown intel_vmx b =
      let (v, m) = Intel.shutdown host b.vmx b.machine in record b { machine = m; vmx = v }
  shutdown amd_svm b = record b { svm = Amd.shutdown b.svm }

  unfoldable pub select_backend : Backends M → BackendKind × Backends M
  select_backend b =
      let features = detect_cpu_features cpuid in
      let (found, k, m) = Kernel.available host b.kernel b.machine in
      let b' : Backends M = record b { machine = m; kernel = k } in
      if found
      then (kernel_driver, b')
      else if is_intel features.vendor && features.vmx
      then (intel_vmx, b')
      else if is_amd features.vendor && features.svm
      then (amd_svm, b')
      else (userspace_poc, b')
