-- ===== src/Vmx/Boot/Flow.antt =====
-- Where the boot ends.
use kernova_tee.Prelude.{
  true-false, ℕ, ◌≡◌, ◌≢◌, refl, ap, ◌∙◌, sym, ◌⊎◌, inl, inr, Bool, true, false, not, ◌==◌,
  if◌then◌else◌, bit_and, ◌^◌, is_zero, Bool-cases, some, Option, Bytes, zeros, get_or, if_both,
  arith,
}
use kernova_tee.Host.{Host}
use kernova_tee.Backend.{BackendKind}
use kernova_tee.Enclave.{send_data, receive_data, Pointer}
use kernova_tee.Globals.{Globals}
use kernova_tee.Monitor.{check_integrity}
use kernova_tee.Hypervisor.{
  World, Finish, returned, halted, hypervisor_init, hypervisor_main, globals_of, test_message,
  test_length, test_enclave_operations,
}
use kernova_tee.Hypervisor.Evidence.{Evidence, hypervisor_init-IsBacked}
use kernova_tee.Vmx.Boot.{
  BootInstructions, BootState, BootEnd, vmx_not_supported, init_failed, hypervisor_panic, main_halt,
  with_machine, check_long_mode, enable_long_mode, setup_page_tables, check_vmx_support,
  init_simd_state, run_main, start_hypervisor, start,
}

-- The processor has VMX, and its feature control allows it, or is not locked yet.
abbrev pub HasVmx : {M : Type 0} → BootInstructions M → M → Type 0
HasVmx cpu m =
    (bit_and (cpu.cpuid 1 0).ecx (2 ^ 5) ≢ 0)
    × ((bit_and (cpu.rdmsr 0x3a m).0 1 ≡ 0) ⊎ (bit_and (cpu.rdmsr 0x3a m).0 (2 ^ 2) ≢ 0))

abbrev is_halted : {A B : Type 0} → Finish A B → Bool
is_halted (returned a) = false
is_halted (halted b) = true

abbrev pub is_main_halt : {M : Type 0} → BootEnd M → Bool
is_main_halt (vmx_not_supported s) = false
is_main_halt (init_failed s) = false
is_main_halt (hypervisor_panic s) = false
is_main_halt (main_halt s) = true

Finish-cases : {A B : Type 0} (f : Finish A B) → (is_halted f ≡ false) ⊎ ((b : B) × (f ≡ halted b))
Finish-cases (returned a) = inl refl
Finish-cases (halted b) = inr (b, refl)

support-HasVmx :
    {M : Type 0} (cpu : BootInstructions M) (m : M)
    → ((check_vmx_support cpu m).0 == 0) ≡ false
    → HasVmx cpu m
unfolding check_vmx_support
support-HasVmx cpu m granted = (ground (arith, granted), ground (arith, granted))

module _ {M : Type 0} (host : Host M) where
  send_data-validated :
      (g : Globals M) (src : Pointer) (size : ℕ)
      → (send_data host g src size).1.hv.hardware_virtualization_validated
        ≡ g.hv.hardware_virtualization_validated
  unfolding send_data
  send_data-validated g src size = ground arith

  check_integrity-validated :
      (g : Globals M)
      → (check_integrity host g).1.hv.hardware_virtualization_validated
        ≡ g.hv.hardware_virtualization_validated
  unfolding check_integrity
  check_integrity-validated g = ground arith

  test-validated :
      (w : World M)
      → (test_enclave_operations host w).1.hv.hardware_virtualization_validated
        ≡ w.hv.hardware_virtualization_validated
  unfolding test_enclave_operations
  test-validated w =
      let kept : Option Bytes × World M → Type 0 =
        λ p. p.1.hv.hardware_virtualization_validated ≡ w.hv.hardware_virtualization_validated in
      let (r, g) =
        send_data host (globals_of w) (some (λ i. get_or test_message i 0)) test_length in
      let sent =
        send_data-validated (globals_of w) (some (λ i. get_or test_message i 0)) test_length in
      if_both kept (not (is_zero r)) sent
        (if_both kept (is_zero (receive_data host g (some zeros) test_length).0) sent sent)

  -- The main loop halts only with validated hardware.
  main-halted :
      (w w' : World M)
      → hypervisor_main host w ≡ halted w'
      → w.hv.hardware_virtualization_validated ≡ true
  unfolding hypervisor_main
  main-halted w w' ends =
      let tested = (test_enclave_operations host w).1 in
      let checked =
        (check_integrity host (globals_of tested)).1.hv.hardware_virtualization_validated in
      let same : checked ≡ w.hv.hardware_virtualization_validated =
        check_integrity-validated (globals_of tested) ∙ test-validated w in
      elim (Bool-cases checked) [
        | inl on ↦ sym same ∙ on
        | inr off ↦
            let returns : is_halted (hypervisor_main host w) ≡ false = rw (off) refl in
            absurd (true-false (sym (ap is_halted ends) ∙ returns))
      ]

module _ {M : Type 0} (cpu : BootInstructions M) where
  -- The machine that is asked for VMX, and how the program is initialised.
  abbrev pub asked : BootState M → M
  asked s = cpu.load_segments 0 (cpu.cli s.world.backends.machine)

  abbrev pub booted : BootState M → World M
  booted s =
      let m = (check_vmx_support cpu (asked s)).1 in
      (with_machine s (init_simd_state cpu s.simd_mxcsr_init m)).world

module _ {M : Type 0} (cpu : BootInstructions M) (host : Host M) where
  -- Both ways to long mode leave the machine.
  same_machine : (m : M) → (if check_long_mode cpu m == 0 then enable_long_mode cpu m else m) ≡ m
  unfolding enable_long_mode
  same_machine m = if_both (λ n. n ≡ m) (check_long_mode cpu m == 0) refl refl

  run_main-is_main_halt :
      (s : BootState M) (f : Finish (World M) (World M))
      → is_main_halt (run_main cpu host s f) ≡ is_halted f
  unfolding run_main
  run_main-is_main_halt s (returned w) = refl
  run_main-is_main_halt s (halted w) = refl

  -- Nothing is validated when the boot starts. Then it does not end in the halt of `hypervisor_main`, or the
  -- processor has VMX and its feature control allows it or was not locked, `hypervisor_init` has returned 0,
  -- and hardware virtualization is validated with the evidence of the selected backend.
  pub start-main_halt :
      (rsp : ℕ) (s : BootState M)
      → s.world.hv.hardware_virtualization_validated ≡ false
      → let (r, w) = hypervisor_init host (booted cpu s) in
        (is_main_halt (start cpu host rsp s) ≡ false)
        ⊎ (HasVmx cpu (asked cpu s)
            × (is_zero r ≡ true)
            × (w.hv.hardware_virtualization_validated ≡ true)
            × ((kind : BackendKind) × (w.selected ≡ some kind) × Evidence host kind w.backends))
  unfolding start start_hypervisor setup_page_tables
  start-main_halt rsp s off =
      let w = hypervisor_init host (booted cpu s) in
      let checked =
        with_machine (record s { boot_stack_ptr = rsp }) (check_vmx_support cpu (asked cpu s)).1 in
      elim (Bool-cases ((check_vmx_support cpu (asked cpu s)).0 == 0)) [
        | inl refused ↦ inl (rw (same_machine (asked cpu s), refused) refl)
        | inr granted ↦ elim (Bool-cases (is_zero w.0)) [
          | inr failed ↦ inl (rw (same_machine (asked cpu s), granted, failed) refl)
          | inl started ↦ elim (Finish-cases (hypervisor_main host w.1)) [
            | inl returns ↦ inl (
                rw (same_machine (asked cpu s), granted, started)
                  (run_main-is_main_halt checked (hypervisor_main host w.1) ∙ returns))
            | inr (w', halts') ↦
                let on = main-halted host w.1 w' halts' in
                elim (hypervisor_init-IsBacked host (booted cpu s) off) [
                  | inl clear ↦ absurd (true-false (sym on ∙ clear))
                  | inr backed ↦ inr (support-HasVmx cpu (asked cpu s) granted, started, on, backed)
                ]
          ]
        ]
      ]
