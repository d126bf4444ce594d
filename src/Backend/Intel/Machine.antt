-- ===== src/Backend/Intel/Machine.antt =====
-- When the Intel backend touches the machine, over any VMX routines.
use kernova_tee.Prelude.{
  ◌≡◌, refl, ap, ◌∙◌, ◌↔◌, ◌⊎◌, inl, inr, true, false, List, [], ◌∷◌, arith, pos, is_zero,
}
use kernova_tee.Cpu.{intel, detect_cpu_features}
use kernova_tee.Host.{Host}
use kernova_tee.Backend.{hardware_backend_enabled}
use kernova_tee.Backend.Intel.{IntelVmx, new_intel, init, setup_guest, launch, shutdown}

pub data Call : Type 0 where
  inits sets_up launches shuts_down : Call

-- A configured backend is initialised.
abbrev pub IsOrdered : IntelVmx → Type 0
IsOrdered b = (b.configured ≡ false) ⊎ (b.initialized ≡ true)

module _ {M : Type 0} (host : Host M) where
  pub call : IntelVmx → M → Call → IntelVmx × M
  call b m inits = let (r, b', m') = init host b m in (b', m')
  call b m sets_up = let (r, b', m') = setup_guest host b m in (b', m')
  call b m launches = let (r, b', m') = launch host b m in (b', m')
  call b m shuts_down = shutdown host b m

  pub calls : IntelVmx → M → List Call → IntelVmx × M
  calls b m [] = (b, m)
  calls b m (c ∷ cs) = let (b', m') = call b m c in calls b' m' cs

  call-new_intel :
      (m : M) (c : Call)
      → hardware_backend_enabled host.getenv ≡ false
      → call new_intel m c ≡ (new_intel, m)
  unfolding call new_intel init setup_guest launch shutdown
  call-new_intel m inits off = rw off (ground arith)
  call-new_intel m _ off = refl

  -- Unless the environment enables the hardware backend, no sequence of method calls on a new backend
  -- runs a VMX routine: the machine and the backend stay as they are.
  pub calls_disabled :
      (m : M) (cs : List Call)
      → hardware_backend_enabled host.getenv ≡ false
      → calls new_intel m cs ≡ (new_intel, m)
  unfolding calls
  calls_disabled m [] off = refl
  calls_disabled m (c ∷ cs) off = rw (call-new_intel m c off) (calls_disabled m cs off)

  call-IsOrdered : (b : IntelVmx) (m : M) (c : Call) → IsOrdered b → IsOrdered (call b m c).0
  unfolding call init setup_guest launch shutdown
  call-IsOrdered b m inits v = ground arith
  call-IsOrdered b m _ v = ground arith

  -- An initialisation returns 0 exactly if CPUID names an Intel processor with VMX, the environment
  -- enables the hardware backend and `vmx_init` returns 0; and only then is a backend marked
  -- initialised that was not before.
  pub init-zero_iff :
      (b : IntelVmx) (m : M)
      → let f = detect_cpu_features host.cpuid in
        (((init host b m).0 ≡ pos 0) ↔ (
          (f.vendor ≡ intel)
          × (f.vmx ≡ true)
          × (hardware_backend_enabled host.getenv ≡ true)
          × (is_zero (host.vmx_init m).0 ≡ true)))
        × (((init host b m).0 ≡ pos 0) ⊎ ((init host b m).1 ≡ b))
  unfolding init
  init-zero_iff b m = ((λ e. ground arith, λ h. ground arith), ground arith)

  -- Where `vmx_init` never returns 0, a new backend is never initialised.
  init-new_intel :
      (m : M) → is_zero (host.vmx_init m).0 ≡ false → (init host new_intel m).1 ≡ new_intel
  init-new_intel m failed = elim (init-zero_iff new_intel m).1 [
    | inr same ↦ same
    | inl zero' ↦
        let (vendor, vmx, on, done) = (init-zero_iff new_intel m).0.0 zero' in
        absurd (ground (arith, done, failed))
  ]

  failing-call :
      (m : M) (c : Call) → is_zero (host.vmx_init m).0 ≡ false → (call new_intel m c).0 ≡ new_intel
  unfolding call new_intel setup_guest launch shutdown
  failing-call m inits failed = init-new_intel m failed
  failing-call m _ failed = refl

  pub failing-calls :
      (cs : List Call) (m : M)
      → ((n : M) → is_zero (host.vmx_init n).0 ≡ false)
      → (calls new_intel m cs).0 ≡ new_intel
  unfolding calls
  failing-calls [] m failed = refl
  failing-calls (c ∷ cs) m failed =
      ap (λ (b : IntelVmx). (calls b (call new_intel m c).1 cs).0) (failing-call m c (failed m))
      ∙ failing-calls cs _ failed
