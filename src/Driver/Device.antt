-- ===== src/Driver/Device.antt =====
-- Both sides of /dev/kernova together: the service's client over the ioctls of the driver.
use kernova_tee.Prelude.{
  ◌≡◌, ◌↔◌, inl, inr, true, false, arith, ℤ, pos, is_zero, is_negative, minus_one, some, ◌%◌,
  if◌then◌else◌, Bool-cases,
}
use kernova_tee.Host.{Host}
use kernova_tee.Abi.{Caps, RunRequest}
use kernova_tee.Backend.{hardware_backend_enabled}
use kernova_tee.Backend.Kernel.{KernelDriver, launch, run_request}
use kernova_tee.Backend.Kernel.Protocol.{launch-zero_iff}
use kernova_tee.Driver.{Ring0, DriverState}
use kernova_tee.Driver.Svm.{svm_run}
use kernova_tee.Driver.Ioctl.{
  query_caps, init_backend, create_vm, run_vm, destroy_vm, Reply, reports, answers, ioctl,
  refresh_caps, zeroed_caps,
}
use kernova_tee.Driver.Invariant.{refresh_caps-svm, refresh_caps-machine}
use kernova_tee.Driver.Launch.{svm_run-zero_iff}

-- The system call gives 0, or -1 for every error of the driver.
abbrev pub user_code : ℤ → ℤ
user_code r = if is_zero r then pos 0 else minus_one

abbrev pub caps_of : Reply → Caps
caps_of (reports c) = c
caps_of _ = zeroed_caps

abbrev pub request_of : RunRequest → Reply → RunRequest
request_of q (answers q') = q'
request_of q _ = q

-- The host with the driver behind its ioctls, whose arguments can be read and written.
abbrev pub with_driver : {N : Type 0} → Ring0 N → Host (DriverState N) → Host (DriverState N)
with_driver ring0 host = record host {
  query_caps = λ fd s.
      let (r, reply, s') = ioctl ring0 (query_caps true) s in (user_code r, caps_of reply, s');
  init_backend =
      λ fd q s. let (r, reply, s') = ioctl ring0 (init_backend (some q)) s in (user_code r, s');
  create_vm =
      λ fd q s. let (r, reply, s') = ioctl ring0 (create_vm (some q)) s in (user_code r, s');
  run_vm = λ fd q s.
      let (r, reply, s') = ioctl ring0 (run_vm (some q) true) s in
      (user_code r, request_of q reply, s');
  destroy_vm = λ fd s. let (r, reply, s') = ioctl ring0 destroy_vm s in (user_code r, s');
}

user_code-zero_iff : (r : ℤ) → (is_zero (user_code r) ≡ true) ↔ (r ≡ pos 0)
user_code-zero_iff r = ground arith

module _ {N : Type 0} (ring0 : Ring0 N) (host : Host (DriverState N)) where
  flag_iff :
      ((run_request (with_driver ring0 host)).flags % 2 ≡ 1)
      ↔ (hardware_backend_enabled host.getenv ≡ true)
  flag_iff = elim (Bool-cases (hardware_backend_enabled host.getenv)) [
    | inl on ↦ rw on (ground arith)
    | inr off ↦ rw off (ground arith)
  ]

  -- With the driver behind the device, a launch of the client returns 0 exactly if its device is open and
  -- its guest set up, the driver has SVM initialised and a VM created, and both sides consent: the
  -- module parameter `allow_vmrun` and the service's environment.
  pub driver_launch-zero_iff :
      (k : KernelDriver) (s : DriverState N)
      → ((launch (with_driver ring0 host) k s).0 ≡ pos 0) ↔ (
          (is_negative k.fd ≡ false)
          × (k.configured ≡ true)
          × (s.svm.initialized ≡ true)
          × (s.svm.vm_created ≡ true)
          × (ring0.allow_vmrun s.machine ≡ true)
          × (hardware_backend_enabled host.getenv ≡ true))
  unfolding ioctl
  driver_launch-zero_iff k s =
      let host' = with_driver ring0 host in
      let s' = refresh_caps ring0 s in
      let client = launch-zero_iff host' k s in
      let code = user_code-zero_iff (svm_run ring0 s' (run_request host')).0 in
      let run = (svm_run-zero_iff ring0 s' (run_request host')).0 in
      let svm = refresh_caps-svm ring0 s in
      let machine = refresh_caps-machine ring0 s in
      (
        λ e.
            let (opened, configured, ran) = client.0 e in
            let (on, created, allowed, low) = run.0 (code.0 ran) in
            (
              opened,
              configured,
              rw svm at on,
              rw svm at created,
              rw machine at allowed,
              flag_iff.0 low,
            ),
        λ h.
            let (opened, configured, on, created, allowed, enabled) = h in
            client.1 (
              opened,
              configured,
              code.1 (run.1 (rw svm on, rw svm created, rw machine allowed, flag_iff.1 enabled)),
            ),
      )
