-- ===== src/Hypervisor/Evidence.antt =====
-- What stands behind "hardware virtualization validated".
use kernova_tee.Prelude.{
  ℕ, ◌≡◌, ◌≢◌, refl, ◌∙◌, ◌==◌, ◌⊎◌, inl, inr, true, false, not, ◌&&◌, arith, ℤ, is_zero,
  is_negative, Bool-cases, some,
}
use kernova_tee.Host.{Host}
use kernova_tee.Globals.{Globals}
use kernova_tee.Backend.{
  BackendKind, BackendStatus, userspace_poc, kernel_driver, intel_vmx, amd_svm,
}
use kernova_tee.Backend.Kernel
use kernova_tee.Backend.Intel
use kernova_tee.Backend.Amd
use kernova_tee.Backend.Userspace
use kernova_tee.Backend.Dispatch
use kernova_tee.Backend.Dispatch.{Backends}
use kernova_tee.Enclave
use kernova_tee.Enclave.{enclave_size}
use kernova_tee.Enclave.Lifecycle.{init-validated}
use kernova_tee.Monitor
use kernova_tee.Hypervisor.{
  World, globals_of, put_globals, strict_vmx_required, launch_enabled, validate, launch_guest,
  prepare_guest, init_backend, start_backend, start_enclave, hypervisor_init,
}

-- What a backend has to show: the driver, that its answer to the query that was the last step of the
-- machine has a valid last VMEXIT; the Intel backend, that it is initialised and configured. The other two have nothing to show.
abbrev pub Evidence : {M : Type 0} → Host M → BackendKind → Backends M → Type 0
Evidence host userspace_poc b = ⊥
Evidence {M} host kernel_driver b =
    (m : M) × (is_zero (host.query_caps b.kernel.fd m).0 ≡ true)
    × ((host.query_caps b.kernel.fd m).1.last_vmexit_valid ≢ 0)
    × (b.machine ≡ (host.query_caps b.kernel.fd m).2)
Evidence host intel_vmx b = (b.vmx.initialized ≡ true) × (b.vmx.configured ≡ true)
Evidence host amd_svm b = ⊥

nonzero-cases : (n : ℕ) → (not (n == 0) ≡ false) ⊎ (n ≢ 0)
nonzero-cases n = ground arith

module _ {M : Type 0} (host : Host M) where
  kernel-Evidence :
      (b : Backends M)
      → let (s, b') = Dispatch.status host kernel_driver b in
        (s.hardware_validated ≡ false) ⊎ Evidence host kernel_driver b'
  unfolding Dispatch.status Kernel.status
  kernel-Evidence b = elim (Bool-cases (is_negative b.kernel.fd)) [
    | inl shut' ↦ rw (shut', Dispatch.status, Kernel.status) (inl refl)
    | inr open' ↦ elim (Bool-cases (is_zero (host.query_caps b.kernel.fd b.machine).0)) [
      | inr failed ↦ rw (open', failed, Dispatch.status, Kernel.status) (inl refl)
      | inl asked ↦
          rw (open', asked, Dispatch.status, Kernel.status)
            (elim (nonzero-cases (host.query_caps b.kernel.fd b.machine).1.last_vmexit_valid) [
              | inl zero' ↦ inl zero'
              | inr valid ↦ inr (b.machine, asked, valid, refl)
            ])
    ]
  ]

  status-Evidence :
      (kind : BackendKind) (b : Backends M)
      → let (s, b') = Dispatch.status host kind b in
        (s.hardware_validated ≡ false) ⊎ Evidence host kind b'
  unfolding Dispatch.status Userspace.status Intel.status Amd.status
  status-Evidence userspace_poc b = inl refl
  status-Evidence kernel_driver b = kernel-Evidence b
  status-Evidence intel_vmx b = ground arith
  status-Evidence amd_svm b = inl refl

  -- Nothing is validated, or the selected backend has its evidence.
  abbrev pub IsBacked : ℤ × World M → Type 0
  IsBacked (r, w) =
      (w.hv.hardware_virtualization_validated ≡ false)
      ⊎ ((kind : BackendKind) × (w.selected ≡ some kind) × Evidence host kind w.backends)

  validate-IsBacked :
      (kind : BackendKind) (w : World M) → w.selected ≡ some kind → IsBacked (validate host kind w)
  unfolding validate
  validate-IsBacked kind w sel = elim (status-Evidence kind w.backends) [
    | inl off ↦ inl off
    | inr shown ↦ inr (kind, sel, shown)
  ]

  launch_guest-IsBacked :
      (kind : BackendKind) (s : BackendStatus) (w : World M)
      → w.hv.hardware_virtualization_validated ≡ false
      → w.selected ≡ some kind
      → IsBacked (launch_guest host kind s w)
  unfolding launch_guest
  launch_guest-IsBacked kind s w off sel =
      elim (Bool-cases (launch_enabled host.getenv && s.kernel_driver_available)) [
        | inr skip ↦ rw (skip, launch_guest) (validate-IsBacked kind w sel)
        | inl tried ↦
            elim (Bool-cases (
              not (is_zero (Dispatch.launch host kind w.backends).0)
              && strict_vmx_required host.getenv)) [
                | inl bad ↦ rw (tried, bad, launch_guest) (inl off)
                | inr good ↦
                    rw (tried, good, launch_guest)
                      (validate-IsBacked kind
                        (record w { backends = (Dispatch.launch host kind w.backends).1 }) sel)
              ]
      ]

  prepare_guest-IsBacked :
      (kind : BackendKind) (s : BackendStatus) (w : World M)
      → w.hv.hardware_virtualization_validated ≡ false
      → w.selected ≡ some kind
      → IsBacked (prepare_guest host kind s w)
  unfolding prepare_guest
  prepare_guest-IsBacked kind s w off sel =
      elim (Bool-cases (is_zero (Dispatch.setup_guest host kind w.backends).0)) [
        | inl up ↦
            rw (up, prepare_guest)
              (launch_guest-IsBacked kind s
                (record w { backends = (Dispatch.setup_guest host kind w.backends).1 }) off sel)
        | inr failed ↦ elim (Bool-cases (strict_vmx_required host.getenv)) [
          | inl strict ↦ rw (failed, strict, prepare_guest) (inl off)
          | inr lax ↦ rw (failed, lax, prepare_guest) (inl off)
        ]
      ]

  init_backend-IsBacked :
      (kind : BackendKind) (s : BackendStatus) (w : World M)
      → w.hv.hardware_virtualization_validated ≡ false
      → w.selected ≡ some kind
      → IsBacked (init_backend host kind s w)
  unfolding init_backend
  init_backend-IsBacked kind s w off sel =
      elim (Bool-cases (is_zero (Dispatch.init host kind w.backends).0)) [
        | inl up ↦
            rw (up, init_backend)
              (prepare_guest-IsBacked kind s
                (record w { backends = (Dispatch.init host kind w.backends).1 }) off sel)
        | inr failed ↦ elim (Bool-cases (strict_vmx_required host.getenv)) [
          | inl strict ↦ rw (failed, strict, init_backend) (inl off)
          | inr lax ↦ rw (failed, lax, init_backend) (inl off)
        ]
      ]

  start_backend-IsBacked :
      (w : World M)
      → w.hv.hardware_virtualization_validated ≡ false
      → IsBacked (start_backend host w)
  unfolding start_backend
  start_backend-IsBacked w off =
      let (kind, b) = Dispatch.select_backend host w.backends in
      let (s, b') = Dispatch.status host kind b in
      init_backend-IsBacked kind s (record w { backends = b'; selected = some kind }) off refl

  monitor_validated :
      (g : Globals M)
      → (Monitor.init host g).1.hv.hardware_virtualization_validated
        ≡ g.hv.hardware_virtualization_validated
  unfolding Monitor.init
  monitor_validated g = ground arith

  start_enclave-IsBacked :
      (w : World M)
      → w.hv.hardware_virtualization_validated ≡ false
      → IsBacked (start_enclave host w)
  unfolding start_enclave
  start_enclave-IsBacked w off = elim (Bool-cases (is_zero (Enclave.init host (globals_of w)).0)) [
    | inl entered ↦
        rw (entered, start_enclave)
          (start_backend-IsBacked (put_globals w (Enclave.init host (globals_of w)).1)
            (init-validated host (globals_of w) ∙ off))
    | inr failed ↦ rw (failed, start_enclave) (inl (init-validated host (globals_of w) ∙ off))
  ]

  -- From a state in which nothing is validated, a start marks hardware virtualization as validated only
  -- with evidence of the selected backend: the driver has reported a valid VMEXIT in its last answer, or the Intel backend
  -- is initialised and configured. It never does so with the userspace or the AMD backend.
  pub hypervisor_init-IsBacked :
      (w : World M)
      → w.hv.hardware_virtualization_validated ≡ false
      → IsBacked (hypervisor_init host w)
  unfolding hypervisor_init
  hypervisor_init-IsBacked w off =
      elim (Bool-cases (is_zero (Monitor.init host (globals_of w)).0)) [
        | inl traced ↦
            rw (traced, hypervisor_init)
              (start_enclave-IsBacked (put_globals w (Monitor.init host (globals_of w)).1)
                (monitor_validated (globals_of w) ∙ off))
        | inr failed ↦ rw (failed, hypervisor_init) (inl (monitor_validated (globals_of w) ∙ off))
      ]
