-- ===== src/Backend/Kernel.antt =====
-- `KernelDriverBackend`: the client of /dev/kernova.
pub mod Protocol
pub mod Log
use kernova_tee.Prelude.{
  ℕ, Bool, true, false, not, ◌||◌, String, ◌==◌, if◌then◌else◌, ℤ, pos, is_zero, is_negative,
  minus_one, minus_two, minus_three, minus_four,
}
use kernova_tee.Cpu.{detect_cpu_features}
use kernova_tee.Abi.{
  Caps, InitRequest, CreateVmRequest, RunRequest, backend_amd_svm, backend_intel_vmx,
  run_allow_privileged,
}
use kernova_tee.Host.{Host}
use kernova_tee.Backend.{BackendStatus, kernel_driver, hardware_backend_enabled}

pub record KernelDriver : Type 0 where
  pub fd : ℤ
  pub initialized : Bool
  pub configured : Bool

unfoldable pub new_driver : KernelDriver
new_driver = record { fd = minus_one; initialized = false; configured = false }

abbrev nonzero : ℕ → Bool
nonzero n = not (n == 0)

module _ {M : Type 0} (host : Host M) where
  open host use {
    cpuid, getenv, open_device, query_caps, init_backend, create_vm, run_vm, destroy_vm, close,
  }

  unfoldable pub available : KernelDriver → M → Bool × KernelDriver × M
  available k m =
      let (opened, m') = open_device m in
      if not (is_negative k.fd)
      then (true, k, m)
      else (not (is_negative opened), record k { fd = opened }, m')

  -- Lines 85-90.
  unfoldable pub closed_status : KernelDriver → BackendStatus
  closed_status k = record {
    kind = kernel_driver;
    cpu = detect_cpu_features cpuid;
    hardware_supported = false;
    hardware_validated = false;
    kernel_driver_available = not (is_negative k.fd);
    mode = "kernel-driver-unavailable";
    reason = "Kernova kernel driver is not loaded";
  }

  unfoldable pub status : KernelDriver → M → BackendStatus × M
  unfolding closed_status
  status k m =
      let (r, caps, m') = query_caps k.fd m in
      if is_negative k.fd
      then (closed_status k, m)
      else if not (is_zero r)
      then (
        record (closed_status k) {
          mode = "kernel-driver-error";
          reason = "Kernova kernel driver did not respond to QUERY_CAPS";
        },
        m',
      )
      else (
        record (closed_status k) {
          kernel_driver_available = nonzero caps.driver_loaded;
          hardware_supported = nonzero caps.svm_supported || nonzero caps.vmx_supported;
          hardware_validated = nonzero caps.last_vmexit_valid;
          mode =
              if nonzero caps.last_vmexit_valid
              then "kernel-driver-vmexit"
              else if nonzero caps.vm_created
              then "kernel-driver-vm-created"
              else "kernel-driver-ready";
          reason = caps.driver_name;
        },
        m',
      )

  -- Lines 135-142.
  send_init : KernelDriver → InitRequest → M → ℤ × KernelDriver × M
  send_init k request m =
      let (r, m') = init_backend k.fd request m in
      if not (is_zero r) then (minus_four, k, m') else (pos 0, record k { initialized = true }, m')

  -- Lines 125-133.
  choose_backend : KernelDriver → Caps → M → ℤ × KernelDriver × M
  unfolding send_init
  choose_backend k caps m =
      if nonzero caps.svm_supported
      then send_init k (record { backend_flags = backend_amd_svm }) m
      else if nonzero caps.vmx_supported
      then send_init k (record { backend_flags = backend_intel_vmx }) m
      else (minus_three, k, m)

  unfoldable pub init : KernelDriver → M → ℤ × KernelDriver × M
  unfolding available choose_backend
  init k m =
      let (found, k', opened) = available k m in
      let (r, caps, m') = query_caps k'.fd opened in
      if not found
      then (minus_one, k', opened)
      else if not (is_zero r)
      then (minus_two, k', m')
      else choose_backend k' caps m'

  -- Lines 155-166.
  send_create : KernelDriver → Caps → M → ℤ × KernelDriver × M
  send_create k caps m =
      let (r, m') =
        create_vm k.fd
          (record {
            backend_flags =
                if nonzero caps.svm_supported then backend_amd_svm else backend_intel_vmx;
            guest_size = 4096;
          })
          m in
      if not (is_zero r) then (minus_three, k, m') else (pos 0, record k { configured = true }, m')

  unfoldable pub setup_guest : KernelDriver → M → ℤ × KernelDriver × M
  unfolding send_create
  setup_guest k m =
      let (r, caps, m') = query_caps k.fd m in
      if is_negative k.fd || not k.initialized
      then (minus_one, k, m)
      else if not (is_zero r)
      then (minus_two, k, m')
      else send_create k caps m'

  -- Lines 174-177: the zeroed request with its flag.
  abbrev pub run_request : RunRequest
  run_request = record {
    flags = if hardware_backend_enabled getenv then run_allow_privileged else 0;
    runtime_state = 0;
    status = pos 0;
    exit_code = 0;
    exit_info1 = 0;
    exit_info2 = 0;
  }

  unfoldable pub launch : KernelDriver → M → ℤ × KernelDriver × M
  launch k m =
      let (r, request, m') = run_vm k.fd run_request m in
      if is_negative k.fd || not k.configured
      then (minus_one, k, m)
      else if not (is_zero r)
      then (if is_zero request.status then minus_two else request.status, k, m')
      else (pos 0, k, m')

  unfoldable pub shutdown : KernelDriver → M → KernelDriver × M
  shutdown k m =
      let (r, destroyed) = destroy_vm k.fd m in
      let (s, closed) = close k.fd destroyed in
      if not (is_negative k.fd)
      then (record { fd = minus_one; initialized = false; configured = false }, closed)
      else (record k { initialized = false; configured = false }, m)
