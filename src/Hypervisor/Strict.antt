-- ===== src/Hypervisor/Strict.antt =====
-- What strict mode does not demand: a start may succeed in it with no hardware validated.
use kernova_tee.Prelude.{
  ℕ, ◌≡◌, refl, ◌⊎◌, inl, inr, Bool, true, false, ◌&&◌, arith, ℤ, pos, is_zero, is_negative, some,
  Bytes,
}
use kernova_tee.Cpu.{detect_cpu_features, CpuFeatures}
use kernova_tee.Host.{Host}
use kernova_tee.Svm.{has_minimum_runtime_support, capabilities_from_cpu_features, is_amd}
use kernova_tee.Svm.Runtime.{prepare_cases}
use kernova_tee.Backend.{BackendKind, BackendStatus, userspace_poc, amd_svm}
use kernova_tee.Backend.Kernel
use kernova_tee.Backend.Kernel.{KernelDriver}
use kernova_tee.Backend.Intel.{is_intel}
use kernova_tee.Backend.Amd
use kernova_tee.Backend.Userspace
use kernova_tee.Backend.Dispatch
use kernova_tee.Backend.Dispatch.{Backends, select_backend}
use kernova_tee.Backend.Dispatch.Selection.{Suits}
use kernova_tee.Enclave.{enclave_size}
use kernova_tee.Enclave.Contract.{SimdContract}
use kernova_tee.Enclave.Lifecycle.{init_memory}
use kernova_tee.Monitor
use kernova_tee.Hypervisor.{
  World, globals_of, strict_vmx_required, launch_enabled, launch_guest, prepare_guest, init_backend,
  start_backend, start_enclave, hypervisor_init,
}
use kernova_tee.Hypervisor.Startup.{entered, traced}

-- The code is 0 and nothing is validated.
abbrev pub IsUnvalidated : {M : Type 0} → ℤ × World M → Type 0
IsUnvalidated (r, w) = (r ≡ pos 0) × (w.hv.hardware_virtualization_validated ≡ false)

and-false : (b : Bool) → (b && false) ≡ false
and-false b = ground arith

userspace-Suits :
    (f : CpuFeatures)
    → Suits f userspace_poc
    → ((is_intel f.vendor && f.vmx) ≡ false) × ((is_amd f.vendor && f.svm) ≡ false)
userspace-Suits f h = ground arith

amd-Suits :
    (f : CpuFeatures)
    → Suits f amd_svm
    → ((is_intel f.vendor && f.vmx) ≡ false) × ((is_amd f.vendor && f.svm) ≡ true)
amd-Suits f h = ground arith

module _ {M : Type 0} (host : Host M) where
  -- The two processors: one that only the userspace backend suits, and an AMD one with the minimum
  -- support.
  abbrev pub HasNoHardwarePath : Type 0
  HasNoHardwarePath =
      let f = detect_cpu_features host.cpuid in
      Suits f userspace_poc
      ⊎ (Suits f amd_svm × (has_minimum_runtime_support (capabilities_from_cpu_features f) ≡ true))

  -- A selected backend that sets up without ado and has no driver.
  abbrev IsQuiet : BackendKind → Backends M → Type 0
  IsQuiet kind b =
      let (r, b') = Dispatch.init host kind b in
      let (s, b'') = Dispatch.setup_guest host kind b' in
      (is_zero r ≡ true)
      × (is_zero s ≡ true)
      × ((Dispatch.status host kind b'').0.hardware_validated ≡ false)

  init_backend-quiet :
      (kind : BackendKind) (s : BackendStatus) (w : World M)
      → IsQuiet kind w.backends
      → s.kernel_driver_available ≡ false
      → IsUnvalidated (init_backend host kind s w)
  unfolding init_backend
  init_backend-quiet kind s w (up, ready, unseen) none' =
      rw
        (
          up,
          ready,
          none',
          and-false (launch_enabled host.getenv),
          init_backend,
          prepare_guest,
          launch_guest,
        )
        (refl, unseen)

  userspace-IsQuiet : (b : Backends M) → IsQuiet userspace_poc b
  unfolding Dispatch.init Dispatch.setup_guest Dispatch.status Userspace.init Userspace.setup_guest
      Userspace.status
  userspace-IsQuiet b = (refl, refl, refl)

  amd-IsQuiet :
      (b : Backends M)
      → has_minimum_runtime_support
          (capabilities_from_cpu_features (detect_cpu_features host.cpuid))
        ≡ true
      → IsQuiet amd_svm b
  unfolding Dispatch.init Dispatch.setup_guest Dispatch.status Amd.init Amd.setup_guest Amd.status
  amd-IsQuiet b enough = elim (prepare_cases b.svm (detect_cpu_features host.cpuid)) [
    | inl (_, e) ↦ rw (e, Dispatch.init, Amd.init, Amd.setup_guest) (refl, refl, refl)
    | inr (less, _) ↦ cc
  ]

  pub no_device :
      (k : KernelDriver) (m : M)
      → is_negative k.fd ≡ true
      → is_negative (host.open_device m).0 ≡ true
      → (Kernel.available host k m).0 ≡ false
  unfolding Kernel.available
  no_device k m shut' absent = rw (shut', absent, Kernel.available)

  select_userspace :
      (b : Backends M)
      → (Kernel.available host b.kernel b.machine).0 ≡ false
      → Suits (detect_cpu_features host.cpuid) userspace_poc
      → (select_backend host b).0 ≡ userspace_poc
  unfolding select_backend
  select_userspace b none' suits =
      let (i, a) = userspace-Suits (detect_cpu_features host.cpuid) suits in
      rw (none', i, a, select_backend)

  select_amd :
      (b : Backends M)
      → (Kernel.available host b.kernel b.machine).0 ≡ false
      → Suits (detect_cpu_features host.cpuid) amd_svm
      → (select_backend host b).0 ≡ amd_svm
  unfolding select_backend
  select_amd b none' suits =
      let (i, a) = amd-Suits (detect_cpu_features host.cpuid) suits in
      rw (none', i, a, select_backend)

  userspace_no_driver :
      (b : Backends M) → (Dispatch.status host userspace_poc b).0.kernel_driver_available ≡ false
  unfolding Dispatch.status Userspace.status
  userspace_no_driver b = refl

  amd_no_driver :
      (b : Backends M) → (Dispatch.status host amd_svm b).0.kernel_driver_available ≡ false
  unfolding Dispatch.status Amd.status
  amd_no_driver b = refl

  start_backend-quiet :
      (w : World M)
      → (Kernel.available host w.backends.kernel w.backends.machine).0 ≡ false
      → HasNoHardwarePath
      → IsUnvalidated (start_backend host w)
  unfolding start_backend
  start_backend-quiet w none' (inl suits) =
      rw (select_userspace w.backends none' suits, start_backend)
        (let (s, b') = Dispatch.status host userspace_poc (select_backend host w.backends).1 in
          init_backend-quiet userspace_poc s
            (record w { backends = b'; selected = some userspace_poc }) (userspace-IsQuiet b')
            (userspace_no_driver (select_backend host w.backends).1))
  start_backend-quiet w none' (inr (suits, enough)) =
      rw (select_amd w.backends none' suits, start_backend)
        (let (s, b') = Dispatch.status host amd_svm (select_backend host w.backends).1 in
          init_backend-quiet amd_svm s (record w { backends = b'; selected = some amd_svm })
            (amd-IsQuiet b' enough) (amd_no_driver (select_backend host w.backends).1))

module _ {M : Type 0} (host : Host M) (simd : SimdContract host) (w : World M) where
  start_enclave-quiet :
      (p : ℕ) (old : Bytes)
      → (host.aligned_alloc enclave_size w.backends.machine).0 ≡ some (p, old)
      → is_negative w.backends.kernel.fd ≡ true
      → is_negative (host.open_device (host.aligned_alloc enclave_size w.backends.machine).1).0
        ≡ true
      → HasNoHardwarePath host
      → IsUnvalidated (start_enclave host w)
  unfolding start_enclave
  start_enclave-quiet p old found shut absent poor =
      rw (init_memory host (globals_of w) simd p old found, start_enclave)
        (start_backend-quiet host (entered host w p old)
          (no_device host w.backends.kernel (entered host w p old).backends.machine shut absent)
          poor)

module _ {M : Type 0} (host : Host M) (simd : SimdContract host) (w : World M) where
  -- If the SIMD routines keep their contract, then after a start in strict mode, where `trace_init` succeeds, the enclave gets memory, the device of the
  -- kernel driver cannot be opened, and the processor is either one that only the userspace backend
  -- suits or an AMD one with the minimum support: the code is 0, and nothing is validated.
  pub strict_start-IsUnvalidated :
      (p : ℕ) (old : Bytes)
      → strict_vmx_required host.getenv ≡ true
      → is_zero (host.trace_init w.backends.machine).0 ≡ true
      → let m = (host.trace_init w.backends.machine).1 in
        (host.aligned_alloc enclave_size m).0 ≡ some (p, old)
        → is_negative w.backends.kernel.fd ≡ true
        → let m = (host.trace_init w.backends.machine).1 in
          is_negative (host.open_device (host.aligned_alloc enclave_size m).1).0 ≡ true
          → HasNoHardwarePath host
          → IsUnvalidated (hypervisor_init host w)
  unfolding hypervisor_init Monitor.init
  strict_start-IsUnvalidated p old strict good found shut absent poor =
      rw (good, hypervisor_init, Monitor.init)
        (start_enclave-quiet host simd (traced host w) p old found shut absent poor)
