-- ===== src/Driver/Launch.antt =====
-- When the driver executes VMRUN, and what it answers.
use kernova_tee.Prelude.{◌≡◌, ◌↔◌, ◌⊎◌, true, arith, ◌%◌, pos}
use kernova_tee.Prelude.Bits.{bit_and-one}
use kernova_tee.Abi.{RunRequest}
use kernova_tee.Driver.{Ring0, DriverState}
use kernova_tee.Driver.Svm.{svm_run}

module _ {M : Type 0} (ring0 : Ring0 M) where
  -- A run returns 0 exactly if SVM is initialised, a VM is created, the module parameter allows VMRUN and
  -- the low bit of the request's flags, `KERNOVA_RUN_ALLOW_PRIVILEGED`, is set. In every other case the
  -- driver's state and the machine stay as they are, and the reply's status is the returned code.
  pub svm_run-zero_iff :
      (s : DriverState M) (q : RunRequest)
      → let (r, reply, s') = svm_run ring0 s q in
        ((r ≡ pos 0) ↔ (
          (s.svm.initialized ≡ true)
          × (s.svm.vm_created ≡ true)
          × (ring0.allow_vmrun s.machine ≡ true)
          × (q.flags % 2 ≡ 1)))
        × (reply.status ≡ r)
        × ((r ≡ pos 0) ⊎ (s' ≡ s))
  unfolding svm_run
  svm_run-zero_iff s q = (
    (λ e. ground (arith, bit_and-one q.flags), λ h. ground (arith, bit_and-one q.flags)),
    ground arith,
    ground arith,
  )
