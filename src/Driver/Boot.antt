-- ===== src/Driver/Boot.antt =====
-- The service's client boots a guest through the driver.
use kernova_tee.Prelude.{◌≡◌, refl, ap, true, false, arith, pos, is_negative, ◌==◌}
use kernova_tee.Host.{Host}
use kernova_tee.Abi.{backend_amd_svm}
use kernova_tee.Backend.{hardware_backend_enabled}
use kernova_tee.Backend.Kernel.{KernelDriver, new_driver, available, init, setup_guest, launch}
use kernova_tee.Driver.{Ring0, DriverState}
use kernova_tee.Driver.Ioctl.{ioctl, refresh_caps}
use kernova_tee.Driver.Invariant.{refresh_caps-svm}
use kernova_tee.Driver.Device.{user_code, with_driver, driver_launch-zero_iff}
use kernova_tee.Driver.Ready.{IsReady, refresh-supported, ioctl_init-ready, ioctl_create-ready}

-- What the client does where nothing fails.
module _ {M : Type 0} (host : Host M) where
  init_succeeds :
      (m : M)
      → is_negative (host.open_device m).0 ≡ false
      → let (fd, opened) = host.open_device m in
        let (r, caps, asked) = host.query_caps fd opened in
        let (r', m') = host.init_backend fd (record { backend_flags = backend_amd_svm }) asked in
        r ≡ pos 0
        → (caps.svm_supported == 0) ≡ false
        → r' ≡ pos 0
        → init host new_driver m
          ≡ (pos 0, record { fd = fd; initialized = true; configured = false }, m')
  unfolding init available new_driver
  init_succeeds m opened asked supported done = rw (opened, asked, supported, done) refl

  setup_guest_succeeds :
      (k : KernelDriver) (m : M)
      → is_negative k.fd ≡ false
      → k.initialized ≡ true
      → let (r, caps, asked) = host.query_caps k.fd m in
        let (r', m') =
          host.create_vm k.fd
            (record { backend_flags = backend_amd_svm; guest_size = 4096 })
            asked in
        r ≡ pos 0
        → (caps.svm_supported == 0) ≡ false
        → r' ≡ pos 0
        → setup_guest host k m ≡ (pos 0, record k { configured = true }, m')
  unfolding setup_guest
  setup_guest_succeeds k m opened set_up asked supported done =
      rw (opened, set_up, asked, supported, done) refl

module _ {N : Type 0} (ring0 : Ring0 N) (ready : IsReady ring0) (host : Host (DriverState N)) where
  is_supported : (s : DriverState N) → ((refresh_caps ring0 s).caps.svm_supported == 0) ≡ false
  is_supported s = rw (refresh-supported ring0 ready s) refl

  init-ready :
      (s : DriverState N)
      → is_negative (host.open_device s).0 ≡ false
      → let (r, k, s') = init (with_driver ring0 host) new_driver s in
        (r ≡ pos 0)
        × (is_negative k.fd ≡ false)
        × (k.initialized ≡ true)
        × (s'.svm.initialized ≡ true)
  unfolding ioctl
  init-ready s opened =
      let s1 = (host.open_device s).1 in
      let (zero', on) =
        ioctl_init-ready ring0 ready (refresh_caps ring0 s1)
          (record { backend_flags = backend_amd_svm }) refl in
      let done =
        init_succeeds (with_driver ring0 host) s opened refl (is_supported s1)
          (ap user_code zero') in
      rw (done) (refl, opened, refl, on)

  setup_guest-ready :
      (k : KernelDriver) (s : DriverState N)
      → is_negative k.fd ≡ false
      → k.initialized ≡ true
      → s.svm.initialized ≡ true
      → let (r, k', s') = setup_guest (with_driver ring0 host) k s in
        (r ≡ pos 0)
        × (is_negative k'.fd ≡ false)
        × (k'.configured ≡ true)
        × (s'.svm.initialized ≡ true)
        × (s'.svm.vm_created ≡ true)
  unfolding ioctl
  setup_guest-ready k s opened set_up on =
      let s1 = refresh_caps ring0 s in
      let (zero', on', created) =
        ioctl_create-ready ring0 ready s1
          (record { backend_flags = backend_amd_svm; guest_size = 4096 }) refl (omega arith)
          (rw (refresh_caps-svm ring0 s) on) in
      let done =
        setup_guest_succeeds (with_driver ring0 host) k s opened set_up refl (is_supported s)
          (ap user_code zero') in
      rw (done) (refl, opened, refl, on', created)

  -- On a machine that is ready, from any state of the driver, a new client whose device opens and whose
  -- environment enables the hardware backend initialises it, sets up its guest and launches it, each with
  -- the result 0.
  pub client_boots :
      (s : DriverState N)
      → is_negative (host.open_device s).0 ≡ false
      → hardware_backend_enabled host.getenv ≡ true
      → let host' = with_driver ring0 host in
        let (r1, k1, s1) = init host' new_driver s in
        let (r2, k2, s2) = setup_guest host' k1 s1 in
        (r1 ≡ pos 0) × (r2 ≡ pos 0) × ((launch host' k2 s2).0 ≡ pos 0)
  client_boots s opened enabled =
      let host' = with_driver ring0 host in
      let (r1, k1, s1) = init host' new_driver s in
      let (zero1, open1, set_up, on1) = init-ready s opened in
      let (r2, k2, s2) = setup_guest host' k1 s1 in
      let (zero2, open2, configured, on2, created) = setup_guest-ready k1 s1 open1 set_up on1 in
      (
        zero1,
        zero2,
        (driver_launch-zero_iff ring0 host k2 s2).1
            (open2, configured, on2, created, ready.allowed s2.machine, enabled),
      )
