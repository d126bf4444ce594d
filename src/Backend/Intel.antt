-- ===== src/Backend/Intel.antt =====
-- `IntelVmxBackend`, over the VMX routines of the host.
pub mod Machine
use kernova_tee.Prelude.{
  Bool, true, false, not, ◌&&◌, if◌then◌else◌, ℤ, pos, is_zero, to_int32, minus_one, minus_two,
  minus_three,
}
use kernova_tee.Cpu.{CpuVendor, intel, amd, unknown, detect_cpu_features}
use kernova_tee.Host.{Host}
use kernova_tee.Backend.{BackendStatus, intel_vmx, hardware_backend_enabled}

pub record IntelVmx : Type 0 where
  pub initialized : Bool
  pub configured : Bool

unfoldable pub new_intel : IntelVmx
new_intel = record { initialized = false; configured = false }

abbrev pub is_intel : CpuVendor → Bool
is_intel intel = true
is_intel amd = false
is_intel unknown = false

module _ {M : Type 0} (host : Host M) where
  open host use {cpuid, getenv, vmx_init, vmcs_setup, vmx_launch, vmxoff}

  unfoldable pub status : IntelVmx → BackendStatus
  status b =
      let cpu = detect_cpu_features cpuid in
      let usable = is_intel cpu.vendor && cpu.vmx in
      let validated = b.initialized && b.configured in
      record {
        kind = intel_vmx;
        cpu = cpu;
        hardware_supported = usable;
        hardware_validated = validated;
        kernel_driver_available = false;
        mode = if validated then "hardware-vmx" else "hardware-vmx-pending";
        reason =
            if usable
            then "Intel VMX is advertised by CPUID"
            else "Intel VMX is not available on this CPU/runtime";
      }

  unfoldable pub init : IntelVmx → M → ℤ × IntelVmx × M
  unfolding status
  init b m =
      let (r, m') = vmx_init m in
      if not (status b).hardware_supported
      then (minus_one, b, m)
      else if not (hardware_backend_enabled getenv)
      then (minus_three, b, m)
      else if not (is_zero r)
      then (minus_two, b, m')
      else (pos 0, record b { initialized = true }, m')

  unfoldable pub setup_guest : IntelVmx → M → ℤ × IntelVmx × M
  setup_guest b m =
      let (r, m') = vmcs_setup m in
      if not b.initialized
      then (minus_one, b, m)
      else if not (is_zero r)
      then (minus_two, b, m')
      else (pos 0, record b { configured = true }, m')

  unfoldable pub launch : IntelVmx → M → ℤ × IntelVmx × M
  launch b m =
      let (r, m') = vmx_launch m in
      if not b.configured then (minus_one, b, m) else (to_int32 r, b, m')

  unfoldable pub shutdown : IntelVmx → M → IntelVmx × M
  shutdown b m =
      if b.initialized
      then (record { initialized = false; configured = false }, vmxoff m)
      else (b, m)
