-- ===== src/Backend/Dispatch/Selection.antt =====
-- Which backend is chosen, and what its first status says.
use kernova_tee.Prelude.{
  ◌≡◌, ◌≢◌, refl, ◌⊎◌, ◌↔◌, inl, inr, not, Bool, true, false, ◌&&◌, arith, is_negative, Bool-cases,
}
use kernova_tee.Cpu.{CpuVendor, CpuFeatures, intel, amd, detect_cpu_features}
use kernova_tee.Host.{Host}
use kernova_tee.Svm.{is_amd}
use kernova_tee.Backend.{BackendKind, userspace_poc, kernel_driver, intel_vmx, amd_svm}
use kernova_tee.Backend.Kernel
use kernova_tee.Backend.Kernel.{KernelDriver}
use kernova_tee.Backend.Intel.{is_intel}
use kernova_tee.Backend.Dispatch.{Backends, select_backend}

-- The kind that a processor calls for when there is no driver.
abbrev pub Suits : CpuFeatures → BackendKind → Type 0
Suits f userspace_poc =
    ((f.vendor ≢ intel) ⊎ (f.vmx ≡ false)) × ((f.vendor ≢ amd) ⊎ (f.svm ≡ false))
Suits f kernel_driver = ⊥
Suits f intel_vmx = (f.vendor ≡ intel) × (f.vmx ≡ true)
Suits f amd_svm = (f.vendor ≡ amd) × (f.svm ≡ true)

is_intel_iff : (v : CpuVendor) (x : Bool) → ((is_intel v && x) ≡ true) ↔ ((v ≡ intel) × (x ≡ true))
is_intel_iff v x = ground arith

is_intel_not : (v : CpuVendor) (x : Bool) → (is_intel v && x) ≡ false → (v ≢ intel) ⊎ (x ≡ false)
is_intel_not v x h = ground arith

is_amd_iff : (v : CpuVendor) (x : Bool) → ((is_amd v && x) ≡ true) ↔ ((v ≡ amd) × (x ≡ true))
is_amd_iff v x = ground arith

is_amd_not : (v : CpuVendor) (x : Bool) → (is_amd v && x) ≡ false → (v ≢ amd) ⊎ (x ≡ false)
is_amd_not v x h = ground arith

found_lem :
    {M : Type 0} (host : Host M) (k : KernelDriver) (m : M)
    → let (found, k', m') = Kernel.available host k m in found ≡ not (is_negative k'.fd)
unfolding Kernel.available
found_lem host k m = ground arith

module _ {M : Type 0} (host : Host M) (b : Backends M) where
  -- The driver is chosen exactly if its device is open afterwards; else the choice is the kind that
  -- suits the processor. The Intel and AMD objects are not touched.
  pub select_backend_lem :
      let (kind, b') = select_backend host b in
      (((kind ≡ kernel_driver) × (is_negative b'.kernel.fd ≡ false))
        ⊎ ((is_negative b'.kernel.fd ≡ true) × Suits (detect_cpu_features host.cpuid) kind))
      × (b'.vmx ≡ b.vmx)
      × (b'.svm ≡ b.svm)
  unfolding select_backend
  select_backend_lem =
      let f = detect_cpu_features host.cpuid in
      let found = found_lem host b.kernel b.machine in
      elim (Bool-cases (Kernel.available host b.kernel b.machine).0) [
        | inl open' ↦ rw (open', select_backend) (inl (refl, ground arith), refl, refl)
        | inr shut' ↦ elim (Bool-cases (is_intel f.vendor && f.vmx)) [
          | inl i ↦
              rw (shut', i, select_backend)
                (inr (ground arith, (is_intel_iff f.vendor f.vmx).0 i), refl, refl)
          | inr ni ↦ elim (Bool-cases (is_amd f.vendor && f.svm)) [
            | inl a ↦
                rw (shut', ni, a, select_backend)
                  (inr (ground arith, (is_amd_iff f.vendor f.svm).0 a), refl, refl)
            | inr na ↦
                rw (shut', ni, na, select_backend)
                  (
                    inr (
                      ground arith,
                      (is_intel_not f.vendor f.vmx ni, is_amd_not f.vendor f.svm na),
                    ),
                    refl,
                    refl,
                  )
          ]
        ]
      ]
