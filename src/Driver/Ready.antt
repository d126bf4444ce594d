-- ===== src/Driver/Ready.antt =====
-- When the driver's ioctls cannot fail.
use kernova_tee.Prelude.{
  ℕ, ◌^◌, ◌≤◌, ◌≡◌, refl, true, false, some, arith, ◌==◌, bit_and, pos, Bool-cases, Option-cases,
  inl, inr, ◌&&◌, not, ltb,
}
use kernova_tee.Abi.{InitRequest, CreateVmRequest, backend_amd_svm}
use kernova_tee.Driver.{Ring0, DriverState}
use kernova_tee.Driver.Svm.{msr_vm_cr, svm_init, svm_create_vm, fill_caps}
use kernova_tee.Driver.Ioctl.{init_backend, create_vm, ioctl, refresh_caps, kernel_detect_cpu}
use kernova_tee.Driver.Invariant.{refresh_caps-svm}

-- A machine on which the driver has what it needs: SVM is there and not locked by the firmware, pages can be
-- had, and the module parameter allows VMRUN all the time.
pub record IsReady {M : Type 0} (ring0 : Ring0 M) : Type 0 where
  pub svm : ring0.has_svm ≡ true
  pub unlocked : (m : M) → bit_and (ring0.rdmsr msr_vm_cr m) (2 ^ 4) ≡ 0
  pub pages : (m : M) → (p : ℕ) × (m' : M) × (ring0.get_free_page m ≡ (some p, m'))
  pub allowed : (m : M) → ring0.allow_vmrun m ≡ true

module _ {M : Type 0} (ring0 : Ring0 M) (ready : IsReady ring0) where
  pub refresh-supported : (s : DriverState M) → (refresh_caps ring0 s).caps.svm_supported ≡ 1
  unfolding refresh_caps fill_caps kernel_detect_cpu
  refresh-supported s = ground (arith, ready.svm)

  svm_init-ready :
      (s : DriverState M)
      → s.caps.svm_supported ≡ 1
      → ((svm_init ring0 s).0 ≡ pos 0) × ((svm_init ring0 s).1.svm.initialized ≡ true)
  unfolding svm_init
  svm_init-ready s supported =
      let (p, m', got) = ready.pages s.machine in
      elim (Bool-cases s.svm.initialized) [
        | inl on ↦ rw (supported, ready.unlocked s.machine, on) (refl, refl)
        | inr off ↦ rw (supported, ready.unlocked s.machine, off, got) (refl, refl)
      ]

  abbrev Created : DriverState M → Type 0
  Created s = (s.svm.initialized ≡ true) × (s.svm.vm_created ≡ true)

  svm_create_vm-ready :
      (s : DriverState M) (size : ℕ)
      → s.svm.initialized ≡ true
      → size ≤ 4096
      → ((svm_create_vm ring0 s size).0 ≡ pos 0) × Created (svm_create_vm ring0 s size).1
  unfolding svm_create_vm
  svm_create_vm-ready s size on small =
      let (p, m', got) = ready.pages s.machine in
      let (p'', m'', got') = ready.pages m' in
      let fits : (not (size == 0) && ltb 4096 size) ≡ false = ground arith in
      elim (Option-cases s.svm.vmcb) [
        | inl new ↦ elim (Option-cases s.svm.guest_page) [
          | inl fresh ↦ rw (on, fits, new, got, fresh, got') (refl, (refl, refl))
          | inr (g, same) ↦ rw (on, fits, new, got, same) (refl, (refl, refl))
        ]
        | inr (v, old) ↦ elim (Option-cases s.svm.guest_page) [
          | inl fresh ↦ rw (on, fits, old, fresh, got) (refl, (refl, refl))
          | inr (g, same) ↦ rw (on, fits, old, same) (refl, (refl, refl))
        ]
      ]

  pub ioctl_init-ready :
      (s : DriverState M) (q : InitRequest)
      → (bit_and q.backend_flags backend_amd_svm == 0) ≡ false
      → let (r, reply, s') = ioctl ring0 (init_backend (some q)) s in
        (r ≡ pos 0) × (s'.svm.initialized ≡ true)
  unfolding ioctl
  ioctl_init-ready s q ours =
      let s' = refresh_caps ring0 s in
      let (zero', on) = svm_init-ready s' (refresh-supported s) in
      rw (ours) (zero', rw (refresh_caps-svm ring0 (svm_init ring0 s').1) on)

  pub ioctl_create-ready :
      (s : DriverState M) (q : CreateVmRequest)
      → (bit_and q.backend_flags backend_amd_svm == 0) ≡ false
      → q.guest_size ≤ 4096
      → s.svm.initialized ≡ true
      → let (r, reply, s') = ioctl ring0 (create_vm (some q)) s in
        (r ≡ pos 0) × (s'.svm.initialized ≡ true) × (s'.svm.vm_created ≡ true)
  unfolding ioctl
  ioctl_create-ready s q ours small on =
      let s' = refresh_caps ring0 s in
      let (zero', created) =
        svm_create_vm-ready s' q.guest_size (rw (refresh_caps-svm ring0 s) on) small in
      let same = refresh_caps-svm ring0 (svm_create_vm ring0 s' q.guest_size).1 in
      rw (ours) (zero', rw (same) created.0, rw (same) created.1)
