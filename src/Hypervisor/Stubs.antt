-- ===== src/Hypervisor/Stubs.antt =====
-- The userspace stubs of the VMX routines, service-api/service-cpp/src/vmx_stubs.cpp, under the start.
use kernova_tee.Prelude.{
  ℕ, ◌≡◌, refl, Bool, true, false, ◌&&◌, arith, ℤ, pos, is_zero, is_negative, some, Bytes,
}
use kernova_tee.Cpu.{detect_cpu_features, CpuFeatures}
use kernova_tee.Host.{Host}
use kernova_tee.Backend.{BackendStatus, intel_vmx, hardware_backend_enabled}
use kernova_tee.Backend.Kernel
use kernova_tee.Backend.Intel
use kernova_tee.Backend.Intel.{is_intel}
use kernova_tee.Backend.Dispatch
use kernova_tee.Backend.Dispatch.{Backends, select_backend}
use kernova_tee.Backend.Dispatch.Selection.{Suits}
use kernova_tee.Enclave.{enclave_size}
use kernova_tee.Enclave.Contract.{SimdContract}
use kernova_tee.Enclave.Lifecycle.{init_memory}
use kernova_tee.Monitor
use kernova_tee.Hypervisor.{
  World, globals_of, launch_enabled, validate, launch_guest, prepare_guest, init_backend,
  start_backend, start_enclave, hypervisor_init,
}
use kernova_tee.Hypervisor.Startup.{entered, traced}
use kernova_tee.Hypervisor.Strict.{no_device}

-- The stubs print, do nothing, and return 0.
pub stub_vmx_init : {M : Type 0} → M → ℤ × M
stub_vmx_init m = (pos 0, m)

pub stub_vmcs_setup : {M : Type 0} → M → ℤ × M
stub_vmcs_setup m = (pos 0, m)

pub stub_vmx_launch : {M : Type 0} → M → ℤ × M
stub_vmx_launch m = (pos 0, m)

pub stub_vmxoff : {M : Type 0} → M → M
stub_vmxoff m = m

pub stub_vmxon : {M : Type 0} → M → M
stub_vmxon m = m

pub stub_vmx_resume : {M : Type 0} → M → ℤ × M
stub_vmx_resume m = (pos 0, m)

pub stub_vmcs_clear : {M : Type 0} → ℕ → M → ℤ × M
stub_vmcs_clear address m = (pos 0, m)

pub stub_vmcs_load : {M : Type 0} → ℕ → M → ℤ × M
stub_vmcs_load address m = (pos 0, m)

pub stub_vmcs_launch_state : {M : Type 0} → M → ℤ × M
stub_vmcs_launch_state m = (pos 0, m)

pub stub_exception_handler : {M : Type 0} → M → M
stub_exception_handler m = m

-- A host whose VMX routines are the stubs.
abbrev pub with_stubs : {M : Type 0} → Host M → Host M
with_stubs host = record host {
  vmx_init = stub_vmx_init;
  vmcs_setup = stub_vmcs_setup;
  vmx_launch = stub_vmx_launch;
  vmxoff = stub_vmxoff;
}

-- The code is 0, the Intel backend is selected and hardware virtualization is marked as validated.
abbrev pub IsValidated : {M : Type 0} → ℤ × World M → Type 0
IsValidated (r, w) =
    (r ≡ pos 0) × (w.selected ≡ some intel_vmx) × (w.hv.hardware_virtualization_validated ≡ true)

intel-Suits : (f : CpuFeatures) → Suits f intel_vmx → (is_intel f.vendor && f.vmx) ≡ true
intel-Suits f h = ground arith

and_false : (b : Bool) → (b && false) ≡ false
and_false b = ground arith

module _ {M : Type 0} (host : Host M) where
  stubs_init :
      (b : Backends M)
      → Suits (detect_cpu_features host.cpuid) intel_vmx
      → hardware_backend_enabled host.getenv ≡ true
      → Dispatch.init (with_stubs host) intel_vmx b
        ≡ (pos 0, record b { vmx = record b.vmx { initialized = true } })
  unfolding Dispatch.init Intel.init Intel.status stub_vmx_init
  stubs_init b suits enabled =
      rw (intel-Suits (detect_cpu_features host.cpuid) suits, enabled, Dispatch.init, Intel.init)
        refl

  stubs_setup :
      (b : Backends M)
      → b.vmx.initialized ≡ true
      → Dispatch.setup_guest (with_stubs host) intel_vmx b
        ≡ (pos 0, record b { vmx = record b.vmx { configured = true } })
  unfolding Dispatch.setup_guest Intel.setup_guest stub_vmcs_setup
  stubs_setup b on = rw (on, Dispatch.setup_guest, Intel.setup_guest) refl

  stubs_backend :
      (s : BackendStatus) (w : World M)
      → s.kernel_driver_available ≡ false
      → w.selected ≡ some intel_vmx
      → Suits (detect_cpu_features host.cpuid) intel_vmx
      → hardware_backend_enabled host.getenv ≡ true
      → IsValidated (init_backend (with_stubs host) intel_vmx s w)
  unfolding init_backend prepare_guest launch_guest validate Dispatch.status Intel.status
  stubs_backend s w none' sel suits enabled =
      rw (stubs_init w.backends suits enabled, init_backend)
        (rw
          (
            stubs_setup (record w.backends { vmx = record w.backends.vmx { initialized = true } })
                refl,
            prepare_guest,
          )
          (rw (none', and_false (launch_enabled host.getenv), launch_guest) (refl, sel, refl)))

  select_intel :
      (b : Backends M)
      → (Kernel.available (with_stubs host) b.kernel b.machine).0 ≡ false
      → Suits (detect_cpu_features host.cpuid) intel_vmx
      → (select_backend (with_stubs host) b).0 ≡ intel_vmx
  unfolding select_backend
  select_intel b none' suits =
      rw (none', intel-Suits (detect_cpu_features host.cpuid) suits, select_backend)

  intel_no_driver :
      (b : Backends M)
      → (Dispatch.status (with_stubs host) intel_vmx b).0.kernel_driver_available ≡ false
  unfolding Dispatch.status Intel.status
  intel_no_driver b = refl

  stubs_start :
      (w : World M)
      → (Kernel.available (with_stubs host) w.backends.kernel w.backends.machine).0 ≡ false
      → Suits (detect_cpu_features host.cpuid) intel_vmx
      → hardware_backend_enabled host.getenv ≡ true
      → IsValidated (start_backend (with_stubs host) w)
  unfolding start_backend
  stubs_start w none' suits enabled =
      rw (select_intel w.backends none' suits, start_backend)
        (let (s, b') =
            Dispatch.status (with_stubs host) intel_vmx
              (select_backend (with_stubs host) w.backends).1 in
          stubs_backend s (record w { backends = b'; selected = some intel_vmx })
            (intel_no_driver (select_backend (with_stubs host) w.backends).1) refl suits enabled)

module _ {M : Type 0} (host : Host M) (simd : SimdContract (with_stubs host)) (w : World M) where
  stubs_enclave :
      (p : ℕ) (old : Bytes)
      → (host.aligned_alloc enclave_size w.backends.machine).0 ≡ some (p, old)
      → is_negative w.backends.kernel.fd ≡ true
      → is_negative (host.open_device (host.aligned_alloc enclave_size w.backends.machine).1).0
        ≡ true
      → Suits (detect_cpu_features host.cpuid) intel_vmx
      → hardware_backend_enabled host.getenv ≡ true
      → IsValidated (start_enclave (with_stubs host) w)
  unfolding start_enclave
  stubs_enclave p old found shut absent suits enabled =
      rw (init_memory (with_stubs host) (globals_of w) simd p old found, start_enclave)
        (stubs_start host (entered (with_stubs host) w p old)
          (no_device (with_stubs host) w.backends.kernel
            (entered (with_stubs host) w p old).backends.machine shut absent)
          suits enabled)

module _ {M : Type 0} (host : Host M) (simd : SimdContract (with_stubs host)) (w : World M) where
  -- If the SIMD routines keep their contract, then after a start with the stubs of the VMX routines, on an Intel processor with VMX, where the environment
  -- enables the hardware backend, `trace_init` succeeds, the enclave gets memory and the driver's device
  -- cannot be opened: the code is 0, and the Intel backend's hardware virtualization is marked as
  -- validated, though no VMX routine has done anything.
  pub hypervisor_init_stubs-IsValidated :
      (p : ℕ) (old : Bytes)
      → hardware_backend_enabled host.getenv ≡ true
      → Suits (detect_cpu_features host.cpuid) intel_vmx
      → is_zero (host.trace_init w.backends.machine).0 ≡ true
      → let m = (host.trace_init w.backends.machine).1 in
        (host.aligned_alloc enclave_size m).0 ≡ some (p, old)
        → is_negative w.backends.kernel.fd ≡ true
        → let m = (host.trace_init w.backends.machine).1 in
          is_negative (host.open_device (host.aligned_alloc enclave_size m).1).0 ≡ true
          → IsValidated (hypervisor_init (with_stubs host) w)
  unfolding hypervisor_init Monitor.init
  hypervisor_init_stubs-IsValidated p old enabled suits good found shut absent =
      rw (good, hypervisor_init, Monitor.init)
        (stubs_enclave host simd (traced (with_stubs host) w) p old found shut absent suits enabled)
