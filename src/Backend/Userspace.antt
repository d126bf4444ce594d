-- ===== src/Backend/Userspace.antt =====
-- `UserspacePoCBackend`: it has no state, and its methods only print.
use kernova_tee.Prelude.{false, ℤ, pos}
use kernova_tee.Cpu.{Cpuid, detect_cpu_features}
use kernova_tee.Backend.{BackendStatus, userspace_poc}

unfoldable pub status : Cpuid → BackendStatus
status cpuid = record {
  kind = userspace_poc;
  cpu = detect_cpu_features cpuid;
  hardware_supported = false;
  hardware_validated = false;
  kernel_driver_available = false;
  mode = "userspace-poc";
  reason = "hardware virtualization backend unavailable in this environment";
}

unfoldable pub init : ℤ
init = pos 0

unfoldable pub setup_guest : ℤ
setup_guest = pos 0

unfoldable pub launch : ℤ
launch = pos 0
