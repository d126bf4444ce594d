-- ===== src/Abi.antt =====
-- The contract between the service and the Linux driver: shared/kernova_abi.h.
-- Reserved fields are left out: no code reads or writes them but the zeroing of the whole struct.
pub mod State
use kernova_tee.Prelude.{ℕ, List, ℤ, String}

abbrev pub abi_version : ℕ
abi_version = 0x00010000

abbrev pub backend_amd_svm : ℕ
backend_amd_svm = 1

abbrev pub backend_intel_vmx : ℕ
backend_intel_vmx = 2

abbrev pub backend_userspace_fallback : ℕ
backend_userspace_fallback = 4

abbrev pub run_allow_privileged : ℕ
run_allow_privileged = 1

pub record Caps : Type 0 where
  pub abi_version : ℕ
  pub backend_flags : ℕ
  pub runtime_state : ℕ
  pub driver_name : String
  pub cpu_vendor : List ℕ
  pub svm_revision : ℕ
  pub svm_asid_count : ℕ
  pub driver_loaded : ℕ
  pub svm_supported : ℕ
  pub vmx_supported : ℕ
  pub svm_initialized : ℕ
  pub vm_created : ℕ
  pub vmrun_enabled : ℕ
  pub last_vmexit_valid : ℕ
  pub last_exit_code : ℕ
  pub last_exit_info1 : ℕ
  pub last_exit_info2 : ℕ

pub record InitRequest : Type 0 where
  pub backend_flags : ℕ

pub record CreateVmRequest : Type 0 where
  pub backend_flags : ℕ
  pub guest_size : ℕ

pub record RunRequest : Type 0 where
  pub flags : ℕ
  pub runtime_state : ℕ
  pub status : ℤ
  pub exit_code : ℕ
  pub exit_info1 : ℕ
  pub exit_info2 : ℕ
