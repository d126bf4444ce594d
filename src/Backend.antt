-- ===== src/Backend.antt =====
-- The backend interface: include/virtualization/hypervisor_backend.hpp and the shared parts of
-- src/virtualization/hypervisor_backend.cpp, both under service-api/service-cpp.
-- A method of a backend takes the backend's fields and the machine, and returns both beside its
-- result. What is printed is left out.
pub mod Userspace
pub mod Kernel
pub mod Intel
pub mod Amd
pub mod Dispatch
use kernova_tee.Prelude.{Bool, true, false, ◌||◌, String, Option, none, some, str_eq}
use kernova_tee.Cpu.{CpuFeatures}

pub data BackendKind : Type 0 where
  userspace_poc kernel_driver intel_vmx amd_svm : BackendKind

pub record BackendStatus : Type 0 where
  pub kind : BackendKind
  pub cpu : CpuFeatures
  pub hardware_supported : Bool
  pub hardware_validated : Bool
  pub kernel_driver_available : Bool
  pub mode : String
  pub reason : String

-- `value && std::strcmp(value, "1") == 0`
abbrev pub is_one : Option String → Bool
is_one none = false
is_one (some v) = str_eq v "1"

unfoldable pub hardware_backend_enabled : (String → Option String) → Bool
hardware_backend_enabled getenv =
    is_one (getenv "KERNOVA_ENABLE_HARDWARE_BACKEND") || is_one (getenv "KERNOVA_STRICT_VMX")

pub backend_kind_name : BackendKind → String
backend_kind_name kernel_driver = "Kernel Driver"
backend_kind_name intel_vmx = "Intel VMX"
backend_kind_name amd_svm = "AMD SVM"
backend_kind_name userspace_poc = "Userspace PoC"
