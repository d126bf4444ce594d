-- ===== src/Driver/Ioctl.antt =====
-- service-kernel/linux/kernova_main.c and intel_vmx/intel_vmx.c: the capabilities and the ioctls.
use kernova_tee.Prelude.{
  Bool, true, false, not, ◌&&◌, Option, none, some, [], ◌∷◌, ◌++◌, leb, ◌==◌, if◌then◌else◌,
  bit_and, bit_or, ℤ, pos,
}
use kernova_tee.Cpu.{bytes_of}
use kernova_tee.Abi.{
  Caps, InitRequest, CreateVmRequest, RunRequest, abi_version, backend_amd_svm, backend_intel_vmx,
  backend_userspace_fallback,
}
use kernova_tee.Abi.State
use kernova_tee.Driver.{Ring0, DriverState, cleared_context, efault, enodev, enotty}
use kernova_tee.Driver.Svm.{fill_caps, svm_init, svm_create_vm, svm_run, svm_destroy}

-- An ioctl as the dispatcher sees it. A request that `copy_from_user` cannot read is `none`, and the
-- Boolean says whether `copy_to_user` can write.
pub data Command : Type 0 where
  foreign : Command
  query_caps : Bool → Command
  init_backend : Option InitRequest → Command
  create_vm : Option CreateVmRequest → Command
  run_vm : Option RunRequest → Bool → Command
  destroy_vm : Command
  unknown : Command

-- What the ioctl writes back to its caller.
pub data Reply : Type 0 where
  nothing : Reply
  reports : Caps → Reply
  answers : RunRequest → Reply

-- Lines 26-30.
abbrev pub zeroed_caps : Caps
zeroed_caps = record {
  abi_version = abi_version;
  backend_flags = 0;
  runtime_state = State.caps_ready;
  driver_name = "kernova-linux";
  cpu_vendor = [];
  svm_revision = 0;
  svm_asid_count = 0;
  driver_loaded = 1;
  svm_supported = 0;
  vmx_supported = 0;
  svm_initialized = 0;
  vm_created = 0;
  vmrun_enabled = 0;
  last_vmexit_valid = 0;
  last_exit_code = 0;
  last_exit_info1 = 0;
  last_exit_info2 = 0;
}

module _ {M : Type 0} (ring0 : Ring0 M) where
  open ring0 use {cpuid, has_svm, has_vmx}

  -- Lines 38-57.
  detect_flags : Caps → Caps
  detect_flags c =
      let svm : Caps =
        if has_svm
        then record c { backend_flags = bit_or c.backend_flags backend_amd_svm; svm_supported = 1 }
        else c in
      let vmx : Caps =
        if has_vmx
        then record svm {
          backend_flags = bit_or svm.backend_flags backend_intel_vmx;
          vmx_supported = 1;
        }
        else svm in
      let detailed : Caps =
        if leb 0x8000000a (cpuid 0x80000000 0).eax && not (vmx.svm_supported == 0)
        then record vmx {
          svm_revision = bit_and (cpuid 0x8000000a 0).eax 0xff;
          svm_asid_count = (cpuid 0x8000000a 0).ebx;
        }
        else vmx in
      if detailed.backend_flags == 0
      then record detailed { backend_flags = backend_userspace_fallback }
      else detailed

  unfoldable pub kernel_detect_cpu : Caps
  unfolding detect_flags
  kernel_detect_cpu =
      let r = cpuid 0 0 in
      detect_flags (record zeroed_caps {
        cpu_vendor = bytes_of r.ebx ++ bytes_of r.edx ++ bytes_of r.ecx ++ 0 ∷ [];
      })

  -- `kernova_intel_vmx_fill_caps`
  intel_fill_caps : Caps → Caps
  intel_fill_caps c =
      if c.vmx_supported == 0
      then c
      else record c { backend_flags = bit_or c.backend_flags backend_intel_vmx }

  unfoldable pub refresh_caps : DriverState M → DriverState M
  unfolding kernel_detect_cpu intel_fill_caps
  refresh_caps s =
      let filled = fill_caps ring0 (record s { caps = kernel_detect_cpu }) in
      record filled { caps = intel_fill_caps filled.caps }

  -- Lines 88-103.
  do_init : Option InitRequest → DriverState M → ℤ × Reply × DriverState M
  do_init none s = (efault, nothing, s)
  do_init (some request) s =
      let (r, s') = svm_init ring0 s in
      if bit_and request.backend_flags backend_amd_svm == 0
      then (enodev, nothing, refresh_caps s)
      else (r, nothing, refresh_caps s')

  -- Lines 105-120.
  do_create : Option CreateVmRequest → DriverState M → ℤ × Reply × DriverState M
  do_create none s = (efault, nothing, s)
  do_create (some request) s =
      let (r, s') = svm_create_vm ring0 s request.guest_size in
      if bit_and request.backend_flags backend_amd_svm == 0
      then (enodev, nothing, refresh_caps s)
      else (r, nothing, refresh_caps s')

  -- Lines 122-136.
  do_run : Option RunRequest → Bool → DriverState M → ℤ × Reply × DriverState M
  do_run none writable s = (efault, nothing, s)
  do_run (some request) writable s =
      let (r, request', s') = svm_run ring0 s request in
      if writable
      then (r, answers request', refresh_caps s')
      else (efault, nothing, refresh_caps s')

  -- The switch of lines 81-146.
  dispatch : Command → DriverState M → ℤ × Reply × DriverState M
  unfolding do_init do_create do_run
  dispatch foreign s = (enotty, nothing, s)
  dispatch (query_caps true) s = (pos 0, reports s.caps, s)
  dispatch (query_caps false) s = (efault, nothing, s)
  dispatch (init_backend request) s = do_init request s
  dispatch (create_vm request) s = do_create request s
  dispatch (run_vm request writable) s = do_run request writable s
  dispatch destroy_vm s = (pos 0, nothing, refresh_caps (svm_destroy ring0 s))
  dispatch unknown s = (enotty, nothing, s)

  -- `kernova_ioctl`: a command of another driver is refused before the state is touched.
  unfoldable pub ioctl : Command → DriverState M → ℤ × Reply × DriverState M
  unfolding dispatch
  ioctl foreign s = (enotty, nothing, s)
  ioctl command s = dispatch command (refresh_caps s)

  -- The state that `kernova_module_init` leaves, and `kernova_module_exit`.
  unfoldable pub module_init : M → DriverState M
  unfolding refresh_caps
  module_init m = refresh_caps (record { machine = m; caps = zeroed_caps; svm = cleared_context })

  unfoldable pub module_exit : DriverState M → DriverState M
  module_exit s = svm_destroy ring0 s
