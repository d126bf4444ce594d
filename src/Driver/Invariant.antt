-- ===== src/Driver/Invariant.antt =====
-- What the four operations on the SVM context keep, every session of ioctls keeps.
use kernova_tee.Prelude.{
  ℕ, ◌≡◌, inl, inr, true, false, List, [], ◌∷◌, none, some, arith, ◌==◌, bit_and, Bool-cases,
}
use kernova_tee.Abi.{RunRequest, backend_amd_svm}
use kernova_tee.Driver.{Ring0, SvmContext, cleared_context, DriverState}
use kernova_tee.Driver.Svm.{svm_init, svm_create_vm, svm_run, svm_destroy, fill_caps}
use kernova_tee.Driver.Ioctl.{
  Command, foreign, query_caps, init_backend, create_vm, run_vm, destroy_vm, unknown, refresh_caps,
  zeroed_caps, ioctl, module_init,
}

-- The commands of a session, one after the other.
abbrev pub ioctls : {M : Type 0} → Ring0 M → List Command → DriverState M → DriverState M
ioctls ring0 [] s = s
ioctls ring0 (c ∷ cs) s = let (r, reply, s') = ioctl ring0 c s in ioctls ring0 cs s'

-- A property of the context and the machine, of a state.
abbrev pub Holds : {M : Type 0} → (SvmContext → M → Type 0) → DriverState M → Type 0
Holds Inv s = Inv s.svm s.machine

-- The operations keep a property.
pub record IsKept {M : Type 0} (ring0 : Ring0 M) (Inv : SvmContext → M → Type 0) : Type 0 where
  pub by_init : (s : DriverState M) → Holds Inv s → Holds Inv (svm_init ring0 s).1
  pub by_create : (s : DriverState M) (n : ℕ) → Holds Inv s → Holds Inv (svm_create_vm ring0 s n).1
  pub by_run : (s : DriverState M) (q : RunRequest) → Holds Inv s → Holds Inv (svm_run ring0 s q).2
  pub by_destroy : (s : DriverState M) → Holds Inv s → Holds Inv (svm_destroy ring0 s)

module _ {M : Type 0} (ring0 : Ring0 M) where
  pub refresh_caps-machine : (s : DriverState M) → (refresh_caps ring0 s).machine ≡ s.machine
  unfolding refresh_caps fill_caps
  refresh_caps-machine s = ground arith

  pub refresh_caps-svm : (s : DriverState M) → (refresh_caps ring0 s).svm ≡ s.svm
  unfolding refresh_caps fill_caps
  refresh_caps-svm s = ground arith

module _ {M : Type 0} (ring0 : Ring0 M) (Inv : SvmContext → M → Type 0) where
  by_refresh : (s : DriverState M) → Holds Inv s → Holds Inv (refresh_caps ring0 s)
  by_refresh s h = rw (refresh_caps-machine ring0 s, refresh_caps-svm ring0 s) h

  module _ (kept : IsKept ring0 Inv) where
    ioctl-Holds : (c : Command) (s : DriverState M) → Holds Inv s → Holds Inv (ioctl ring0 c s).2
    unfolding ioctl
    ioctl-Holds foreign s h = h
    ioctl-Holds (query_caps true) s h = by_refresh s h
    ioctl-Holds (query_caps false) s h = by_refresh s h
    ioctl-Holds (init_backend none) s h = by_refresh s h
    ioctl-Holds (init_backend (some q)) s h =
        let s' = refresh_caps ring0 s in
        elim (Bool-cases (bit_and q.backend_flags backend_amd_svm == 0)) [
          | inl other ↦ rw (other, ioctl) (by_refresh s' (by_refresh s h))
          | inr ours ↦
              rw (ours, ioctl) (by_refresh (svm_init ring0 s').1 (kept.by_init s' (by_refresh s h)))
        ]
    ioctl-Holds (create_vm none) s h = by_refresh s h
    ioctl-Holds (create_vm (some q)) s h =
        let s' = refresh_caps ring0 s in
        elim (Bool-cases (bit_and q.backend_flags backend_amd_svm == 0)) [
          | inl other ↦ rw (other, ioctl) (by_refresh s' (by_refresh s h))
          | inr ours ↦
              rw (ours, ioctl)
                (by_refresh (svm_create_vm ring0 s' q.guest_size).1
                  (kept.by_create s' q.guest_size (by_refresh s h)))
        ]
    ioctl-Holds (run_vm none writable) s h = by_refresh s h
    ioctl-Holds (run_vm (some q) true) s h =
        let s' = refresh_caps ring0 s in
        by_refresh (svm_run ring0 s' q).2 (kept.by_run s' q (by_refresh s h))
    ioctl-Holds (run_vm (some q) false) s h =
        let s' = refresh_caps ring0 s in
        by_refresh (svm_run ring0 s' q).2 (kept.by_run s' q (by_refresh s h))
    ioctl-Holds destroy_vm s h =
        let s' = refresh_caps ring0 s in
        by_refresh (svm_destroy ring0 s') (kept.by_destroy s' (by_refresh s h))
    ioctl-Holds unknown s h = by_refresh s h

    ioctls-Holds :
        (cs : List Command) (s : DriverState M) → Holds Inv s → Holds Inv (ioctls ring0 cs s)
    ioctls-Holds [] s h = h
    ioctls-Holds (c ∷ cs) s h = ioctls-Holds cs (ioctl ring0 c s).2 (ioctl-Holds c s h)

    pub session-Holds :
        (m : M) (cs : List Command)
        → Inv cleared_context m
        → Holds Inv (ioctls ring0 cs (module_init ring0 m))
    unfolding module_init
    session-Holds m cs h =
        ioctls-Holds cs (module_init ring0 m)
          (by_refresh (record { machine = m; caps = zeroed_caps; svm = cleared_context }) h)
