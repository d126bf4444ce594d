-- ===== src/Driver/Consent.antt =====
-- Whose word stands behind a VMEXIT that the driver reports.
use kernova_tee.Prelude.{
  ℕ, ◌≡◌, refl, ◌⊎◌, inl, inr, true, false, List, [], ◌∷◌, arith, pos, some, none, ◌==◌, bit_and,
  Bool-cases, ◌%◌,
}
use kernova_tee.Prelude.Bits.{bit_and-one}
use kernova_tee.Abi.{Caps, RunRequest, backend_amd_svm}
use kernova_tee.Driver.{Ring0, DriverState, cleared_context}
use kernova_tee.Driver.Svm.{svm_init, svm_create_vm, svm_run, svm_destroy, fill_caps}
use kernova_tee.Driver.Ioctl.{
  Command, foreign, query_caps, init_backend, create_vm, run_vm, destroy_vm, unknown, reports,
  module_init, ioctl, refresh_caps, zeroed_caps,
}
use kernova_tee.Driver.Invariant.{refresh_caps-svm, refresh_caps-machine}

-- What happens while the driver is loaded: an ioctl, or anything that changes the machine and not the
-- driver's state, such as root's write of the module parameter.
pub data Event (M : Type 0) : Type 0 where
  request : Command → Event M
  outside : (M → M) → Event M

module _ {M : Type 0} (ring0 : Ring0 M) where
  abbrev pub after : Event M → DriverState M → DriverState M
  after (request c) s = (ioctl ring0 c s).2
  after (outside f) s = record s { machine = f s.machine }

  abbrev pub events : List (Event M) → DriverState M → DriverState M
  events [] s = s
  events (e ∷ es) s = events es (after e s)

  -- A request to run the created VM that both sides consent to: the module parameter is set at that
  -- moment, and the caller's flags have the low bit, `KERNOVA_RUN_ALLOW_PRIVILEGED`.
  unfoldable pub IsConsent : Event M → DriverState M → Type 0
  IsConsent (request (run_vm (some q) writable)) s =
      (s.svm.vm_created ≡ true) × (ring0.allow_vmrun s.machine ≡ true) × (q.flags % 2 ≡ 1)
  IsConsent _ s = ⊥

  -- One of the events is such a request, in the state that the earlier ones left.
  unfoldable pub HadConsent : List (Event M) → DriverState M → Type 0
  HadConsent [] s = ⊥
  HadConsent (e ∷ es) s = IsConsent e s ⊎ HadConsent es (after e s)

  -- The driver keeps no exit code.
  abbrev IsQuiet : DriverState M → Type 0
  IsQuiet s = s.svm.last_exit_code ≡ 0

  refresh-IsQuiet : (s : DriverState M) → IsQuiet s → IsQuiet (refresh_caps ring0 s)
  refresh-IsQuiet s h = rw (refresh_caps-svm ring0 s) h

  init-IsQuiet : (s : DriverState M) → IsQuiet s → IsQuiet (svm_init ring0 s).1
  unfolding svm_init
  init-IsQuiet s h = ground arith

  create-IsQuiet : (s : DriverState M) (n : ℕ) → IsQuiet s → IsQuiet (svm_create_vm ring0 s n).1
  unfolding svm_create_vm
  create-IsQuiet s n h = ground arith

  run-IsQuiet :
      (s : DriverState M) (q : RunRequest)
      → IsQuiet s
      → IsQuiet (svm_run ring0 s q).2
        ⊎ ((s.svm.vm_created ≡ true) × (ring0.allow_vmrun s.machine ≡ true) × (q.flags % 2 ≡ 1))
  unfolding svm_run
  run-IsQuiet s q h = ground (arith, bit_and-one q.flags)

  -- A run behind a refresh, seen from the state before it.
  refreshed-IsQuiet :
      (s : DriverState M) (q : RunRequest)
      → IsQuiet s
      → IsQuiet (svm_run ring0 (refresh_caps ring0 s) q).2
        ⊎ ((s.svm.vm_created ≡ true) × (ring0.allow_vmrun s.machine ≡ true) × (q.flags % 2 ≡ 1))
  refreshed-IsQuiet s q h = elim (run-IsQuiet (refresh_caps ring0 s) q (refresh-IsQuiet s h)) [
    | inl quiet ↦ inl quiet
    | inr (created, allowed, low) ↦ inr (
      rw (refresh_caps-svm ring0 s) at created,
      rw (refresh_caps-machine ring0 s) at allowed,
      low,
    )
  ]

  destroy-IsQuiet : (s : DriverState M) → IsQuiet (svm_destroy ring0 s)
  unfolding svm_destroy
  destroy-IsQuiet s = refl

  -- Every ioctl but a run with consent leaves the driver without an exit code.
  ioctl-IsQuiet :
      (c : Command) (s : DriverState M)
      → IsQuiet s
      → IsQuiet (ioctl ring0 c s).2 ⊎ IsConsent (request c) s
  unfolding ioctl IsConsent
  ioctl-IsQuiet foreign s h = inl h
  ioctl-IsQuiet (query_caps true) s h = inl (refresh-IsQuiet s h)
  ioctl-IsQuiet (query_caps false) s h = inl (refresh-IsQuiet s h)
  ioctl-IsQuiet (init_backend none) s h = inl (refresh-IsQuiet s h)
  ioctl-IsQuiet (init_backend (some q)) s h =
      let s' = refresh_caps ring0 s in
      elim (Bool-cases (bit_and q.backend_flags backend_amd_svm == 0)) [
        | inl other ↦ rw (other, ioctl) (inl (refresh-IsQuiet s' (refresh-IsQuiet s h)))
        | inr ours ↦
            rw (ours, ioctl)
              (inl (refresh-IsQuiet (svm_init ring0 s').1 (init-IsQuiet s' (refresh-IsQuiet s h))))
      ]
  ioctl-IsQuiet (create_vm none) s h = inl (refresh-IsQuiet s h)
  ioctl-IsQuiet (create_vm (some q)) s h =
      let s' = refresh_caps ring0 s in
      elim (Bool-cases (bit_and q.backend_flags backend_amd_svm == 0)) [
        | inl other ↦ rw (other, ioctl) (inl (refresh-IsQuiet s' (refresh-IsQuiet s h)))
        | inr ours ↦
            rw (ours, ioctl)
              (inl (
                refresh-IsQuiet (svm_create_vm ring0 s' q.guest_size).1
                  (create-IsQuiet s' q.guest_size (refresh-IsQuiet s h))))
      ]
  ioctl-IsQuiet (run_vm none writable) s h = inl (refresh-IsQuiet s h)
  ioctl-IsQuiet (run_vm (some q) true) s h = elim (refreshed-IsQuiet s q h) [
    | inl quiet ↦ inl (refresh-IsQuiet (svm_run ring0 (refresh_caps ring0 s) q).2 quiet)
    | inr given ↦ inr given
  ]
  ioctl-IsQuiet (run_vm (some q) false) s h = elim (refreshed-IsQuiet s q h) [
    | inl quiet ↦ inl (refresh-IsQuiet (svm_run ring0 (refresh_caps ring0 s) q).2 quiet)
    | inr given ↦ inr given
  ]
  ioctl-IsQuiet destroy_vm s h = inl (
      refresh-IsQuiet (svm_destroy ring0 (refresh_caps ring0 s))
        (destroy-IsQuiet (refresh_caps ring0 s)))
  ioctl-IsQuiet unknown s h = inl (refresh-IsQuiet s h)

  events-IsQuiet :
      (es : List (Event M)) (s : DriverState M)
      → IsQuiet s
      → IsQuiet (events es s) ⊎ HadConsent es s
  unfolding HadConsent
  events-IsQuiet [] s h = inl h
  events-IsQuiet (request c ∷ es) s h = elim (ioctl-IsQuiet c s h) [
    | inl quiet ↦ elim (events-IsQuiet es (ioctl ring0 c s).2 quiet) [
      | inl still ↦ inl still
      | inr later ↦ inr (inr later)
    ]
    | inr given ↦ inr (inl given)
  ]
  events-IsQuiet (outside f ∷ es) s h = elim (events-IsQuiet es (after (outside f) s) h) [
    | inl still ↦ inl still
    | inr later ↦ inr (inr later)
  ]

  query-IsQuiet :
      (s : DriverState M) → IsQuiet s → (refresh_caps ring0 s).caps.last_vmexit_valid ≡ 0
  unfolding refresh_caps fill_caps
  query-IsQuiet s h = ground arith

  loaded-IsQuiet : (m : M) → IsQuiet (module_init ring0 m)
  unfolding module_init
  loaded-IsQuiet m =
      refresh-IsQuiet (record { machine = m; caps = zeroed_caps; svm = cleared_context }) refl

  -- After a load, any ioctls, in any order and whether they succeed or fail, and any changes of the machine
  -- between them, of the module parameter too, a QUERY_CAPS answers 0. Its capabilities show no valid
  -- VMEXIT, unless one of the ioctls was a RUN_VM for a created VM, with the low bit of its flags, that
  -- came while the module parameter `allow_vmrun` was set.
  pub session_query_lem :
      (m : M) (es : List (Event M))
      → let s = module_init ring0 m in
        let (r, reply, s') = ioctl ring0 (query_caps true) (events es s) in
        (r ≡ pos 0)
        × ((c : Caps) × (reply ≡ reports c) × ((c.last_vmexit_valid ≡ 0) ⊎ HadConsent es s))
  unfolding ioctl
  session_query_lem m es =
      let s = module_init ring0 m in
      (
        refl,
        (
          (refresh_caps ring0 (events es s)).caps,
          refl,
          elim (events-IsQuiet es s (loaded-IsQuiet m)) [
            | inl quiet ↦ inl (query-IsQuiet (events es s) quiet)
            | inr given ↦ inr given
          ],
        ),
      )
