-- ===== src/Backend/Kernel/Protocol.antt =====
-- The client's own state over any driver: what its flags and codes mean.
use kernova_tee.Prelude.{◌≡◌, ◌↔◌, ◌⊎◌, true, false, arith, pos, is_zero, is_negative}
use kernova_tee.Host.{Host}
use kernova_tee.Backend.Kernel.{
  KernelDriver, available, run_request, init, setup_guest, launch, shutdown,
}

-- A configured client is initialised, and an initialised one has the device open.
abbrev pub IsOrdered : KernelDriver → Type 0
IsOrdered k =
    ((k.initialized ≡ false) ⊎ (is_negative k.fd ≡ false))
    × ((k.configured ≡ false) ⊎ (k.initialized ≡ true))

module _ {M : Type 0} (host : Host M) where
  pub available-IsOrdered :
      (k : KernelDriver) (m : M) → IsOrdered k → IsOrdered (available host k m).1
  unfolding available
  available-IsOrdered k m v = ground arith

  pub init-IsOrdered : (k : KernelDriver) (m : M) → IsOrdered k → IsOrdered (init host k m).1
  unfolding init
  init-IsOrdered k m v = ground arith

  pub setup_guest-IsOrdered :
      (k : KernelDriver) (m : M) → IsOrdered k → IsOrdered (setup_guest host k m).1
  unfolding setup_guest
  setup_guest-IsOrdered k m v = ground arith

  pub launch-client : (k : KernelDriver) (m : M) → (launch host k m).1 ≡ k
  unfolding launch
  launch-client k m = ground arith

  pub shutdown-IsOrdered : (k : KernelDriver) (m : M) → IsOrdered (shutdown host k m).0
  unfolding shutdown
  shutdown-IsOrdered k m = ground arith

  -- A launch returns 0 exactly if the device is open, the client configured and the driver's answer
  -- to RUN_VM is 0: a refused or failed run never looks like a VMEXIT.
  pub launch-zero_iff :
      (k : KernelDriver) (m : M)
      → ((launch host k m).0 ≡ pos 0) ↔ (
          (is_negative k.fd ≡ false)
          × (k.configured ≡ true)
          × (is_zero (host.run_vm k.fd (run_request host) m).0 ≡ true))
  unfolding launch
  launch-zero_iff k m = ground arith
