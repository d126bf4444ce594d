-- ===== src/Driver.antt =====
-- The Linux driver: service-kernel/linux. The types of include/kernova_kernel.h, and the kernel's and the
-- processor's services that the driver uses, over a type `M` of machine states.
pub mod Layout
pub mod Pages
pub mod Svm
pub mod Ioctl
pub mod Invariant
pub mod Launch
pub mod Vmcb
pub mod Built
pub mod Consent
pub mod Device
pub mod Session
pub mod Ready
pub mod Boot
use kernova_tee.Prelude.{ℕ, Bool, false, Option, none, Bytes, ℤ, negsuc}
use kernova_tee.Cpu.{Cpuid}
use kernova_tee.Abi.{Caps}

-- A page that `__get_free_page` has given: its address, and its contents.
pub record Page : Type 0 where
  pub address : ℕ
  pub contents : Bytes

pub record Ring0 (M : Type 0) : Type 0 where
  pub cpuid : Cpuid
  -- `boot_cpu_has(X86_FEATURE_SVM)` and `boot_cpu_has(X86_FEATURE_VMX)`
  pub has_svm : Bool
  pub has_vmx : Bool
  -- the module parameter `allow_vmrun`, which root can write while the driver is loaded
  pub allow_vmrun : M → Bool
  pub rdmsr : ℕ → M → ℕ
  pub wrmsr : ℕ → ℕ → M → M
  -- a zeroed page or none; `virt_to_phys`
  pub get_free_page : M → Option ℕ × M
  pub free_page : ℕ → M → M
  pub virt_to_phys : ℕ → ℕ
  -- the VMRUN instruction with interrupts off, on the physical address of the VMCB: what it leaves in the
  -- VMCB page and in the guest's page
  pub vmrun : ℕ → Bytes → Bytes → M → Bytes × Bytes × M

-- `kernova_amd_svm_context`
pub record SvmContext : Type 0 where
  pub vmcb : Option Page
  pub host_save_area : Option Page
  pub guest_page : Option Page
  pub vmcb_pa : ℕ
  pub host_save_pa : ℕ
  pub guest_pa : ℕ
  pub original_efer : ℕ
  pub original_vm_hsave_pa : ℕ
  pub efer_saved : Bool
  pub hsave_saved : Bool
  pub initialized : Bool
  pub vm_created : Bool
  pub last_exit_code : ℕ
  pub last_exit_info1 : ℕ
  pub last_exit_info2 : ℕ

-- `memset(&state->svm, 0, sizeof(state->svm))`
abbrev pub cleared_context : SvmContext
cleared_context = record {
  vmcb = none;
  host_save_area = none;
  guest_page = none;
  vmcb_pa = 0;
  host_save_pa = 0;
  guest_pa = 0;
  original_efer = 0;
  original_vm_hsave_pa = 0;
  efer_saved = false;
  hsave_saved = false;
  initialized = false;
  vm_created = false;
  last_exit_code = 0;
  last_exit_info1 = 0;
  last_exit_info2 = 0;
}

-- `kernova_driver_state` and the machine. The mutex makes each ioctl one step.
pub record DriverState (M : Type 0) : Type 0 where
  pub machine : M
  pub caps : Caps
  pub svm : SvmContext

-- The error numbers of Linux that the driver returns, negated.
abbrev pub eperm : ℤ
eperm = negsuc 0

abbrev pub enomem : ℤ
enomem = negsuc 11

abbrev pub efault : ℤ
efault = negsuc 13

abbrev pub enodev : ℤ
enodev = negsuc 18

abbrev pub einval : ℤ
einval = negsuc 21

abbrev pub enotty : ℤ
enotty = negsuc 24

abbrev pub eopnotsupp : ℤ
eopnotsupp = negsuc 94
