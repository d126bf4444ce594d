-- ===== src/Driver/Built.antt =====
-- The pages behind the driver's flags.
use kernova_tee.Prelude.{ℕ, ◌≡◌, refl, ◌⊎◌, inl, true, false, List, arith}
use kernova_tee.Abi.{RunRequest}
use kernova_tee.Driver.{Ring0, SvmContext, DriverState}
use kernova_tee.Driver.Svm.{is_missing, svm_init, svm_create_vm, svm_run, svm_destroy}
use kernova_tee.Driver.Ioctl.{Command, module_init}
use kernova_tee.Driver.Invariant.{Holds, ioctls, session-Holds}

-- An initialised context has its host save area and the saved registers, and one with a VM is
-- initialised and has the VMCB and the guest's page.
abbrev pub IsBuilt : {M : Type 0} → SvmContext → M → Type 0
IsBuilt c m =
    ((c.initialized ≡ false)
      ⊎ ((is_missing c.host_save_area ≡ false) × (c.efer_saved ≡ true) × (c.hsave_saved ≡ true)))
    × ((c.vm_created ≡ false)
        ⊎ ((c.initialized ≡ true)
            × (is_missing c.vmcb ≡ false)
            × (is_missing c.guest_page ≡ false)))

module _ {M : Type 0} (ring0 : Ring0 M) where
  by_init : (s : DriverState M) → Holds IsBuilt s → Holds IsBuilt (svm_init ring0 s).1
  unfolding svm_init
  by_init s h = ground arith

  by_create :
      (s : DriverState M) (n : ℕ) → Holds IsBuilt s → Holds IsBuilt (svm_create_vm ring0 s n).1
  unfolding svm_create_vm
  by_create s n h = ground arith

  by_run :
      (s : DriverState M) (q : RunRequest) → Holds IsBuilt s → Holds IsBuilt (svm_run ring0 s q).2
  unfolding svm_run
  by_run s q h = ground arith

  by_destroy : (s : DriverState M) → Holds IsBuilt s → Holds IsBuilt (svm_destroy ring0 s)
  unfolding svm_destroy
  by_destroy s h = (inl refl, inl refl)

  -- After a load and any ioctls, in any order and whether they succeed or fail, the context is `IsBuilt`:
  -- so whenever the driver executes VMRUN, the pages that it hands over are there.
  pub session-IsBuilt :
      (m : M) (cs : List Command) → Holds IsBuilt (ioctls ring0 cs (module_init ring0 m))
  session-IsBuilt m cs =
      session-Holds ring0 IsBuilt
        (record {
          by_init = by_init;
          by_create = by_create;
          by_run = by_run;
          by_destroy = by_destroy;
        })
        m cs (inl refl, inl refl)
