-- ===== src/Driver/Session.antt =====
-- The driver's sessions: what a load, any ioctls and an unload leave of the processor's registers.
use kernova_tee.Prelude.{ℕ, ◌≡◌, ◌≢◌, ◌⊎◌, true, false}
use kernova_tee.Driver.{Ring0, SvmContext, DriverState}
use kernova_tee.Driver.Svm.{msr_efer, msr_vm_hsave_pa}

-- The registers that the driver saves.
abbrev pub IsSvmRegister : ℕ → Type 0
IsSvmRegister a = (a ≡ msr_efer) ⊎ (a ≡ msr_vm_hsave_pa)

-- What the processor's manual says of EFER and VM_HSAVE_PA: a value that a register has held, written back to
-- it, is read again, and does not touch the other one. The page allocator writes neither.
pub record MsrLaws {M : Type 0} (ring0 : Ring0 M) : Type 0 where
  pub written :
      (a : ℕ) (held m : M)
      → IsSvmRegister a
      → ring0.rdmsr a (ring0.wrmsr a (ring0.rdmsr a held) m) ≡ ring0.rdmsr a held
  pub apart :
      (a b : ℕ) (held m : M)
      → IsSvmRegister a
      → IsSvmRegister b
      → a ≢ b
      → ring0.rdmsr a (ring0.wrmsr b (ring0.rdmsr b held) m) ≡ ring0.rdmsr a m
  pub allocated :
      (a : ℕ) (m : M) → IsSvmRegister a → ring0.rdmsr a (ring0.get_free_page m).1 ≡ ring0.rdmsr a m
  pub freed :
      (a p : ℕ) (m : M) → IsSvmRegister a → ring0.rdmsr a (ring0.free_page p m) ≡ ring0.rdmsr a m

module _ {M : Type 0} (ring0 : Ring0 M) (laws : MsrLaws ring0) (first : M) where
  abbrev efer : ℕ
  efer = ring0.rdmsr msr_efer first

  abbrev hsave : ℕ
  hsave = ring0.rdmsr msr_vm_hsave_pa first

  -- Either SVM is off and the registers have their first values, or it is on and these are saved.
  abbrev IsSaved : SvmContext → M → Type 0
  IsSaved c m =
      ((c.initialized ≡ false)
        × (c.efer_saved ≡ false)
        × (c.hsave_saved ≡ false)
        × (ring0.rdmsr msr_efer m ≡ efer)
        × (ring0.rdmsr msr_vm_hsave_pa m ≡ hsave))
      ⊎ ((c.initialized ≡ true)
          × (c.efer_saved ≡ true)
          × (c.hsave_saved ≡ true)
          × (c.original_efer ≡ efer)
          × (c.original_vm_hsave_pa ≡ hsave))

  abbrev KeepsSaved : DriverState M → Type 0
  KeepsSaved s = IsSaved s.svm s.machine

  -- What a destroy does to one page and to the registers.
  abbrev Restored : M → Type 0
  Restored m = (ring0.rdmsr msr_efer m ≡ efer) × (ring0.rdmsr msr_vm_hsave_pa m ≡ hsave)
