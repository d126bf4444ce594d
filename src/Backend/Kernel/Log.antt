-- ===== src/Backend/Kernel/Log.antt =====
-- The order in which the client uses the device. A host is wrapped so that it logs each open, ioctl and
-- close on /dev/kernova with its success, and the log is read by the protocol that the driver's
-- contract suggests: a device is opened, its backend initialised, a VM created, and only then run.
use kernova_tee.Prelude.{
  ◌≡◌, refl, inl, Bool, not, List, [], ◌∷◌, Option, none, some, arith, if◌then◌else◌, is_zero,
  is_negative,
}
use kernova_tee.Host.{Host}
use kernova_tee.Host.Beside.{beside}
use kernova_tee.Backend.Kernel.{
  KernelDriver, new_driver, available, status, init, setup_guest, launch, shutdown,
}
use kernova_tee.Backend.Kernel.Protocol.{
  IsOrdered, available-IsOrdered, init-IsOrdered, setup_guest-IsOrdered, shutdown-IsOrdered,
  launch-client,
}

pub data Event : Type 0 where
  opens inits creates runs : Bool → Event
  queries destroys closes : Event

pub data Phase : Type 0 where
  closed opened initialized configured : Phase

-- The protocol: `none` for an event that has no place in the phase.
abbrev pub advance : Phase → Event → Option Phase
advance closed (opens ok) = some (if ok then opened else closed)
advance opened (inits ok) = some (if ok then initialized else opened)
advance initialized (inits ok) = some initialized
advance configured (inits ok) = some configured
advance initialized (creates ok) = some (if ok then configured else initialized)
advance configured (creates ok) = some configured
advance configured (runs ok) = some configured
advance opened queries = some opened
advance initialized queries = some initialized
advance configured queries = some configured
advance opened destroys = some opened
advance initialized destroys = some initialized
advance configured destroys = some configured
advance opened closes = some closed
advance initialized closes = some closed
advance configured closes = some closed
advance _ _ = none

abbrev pub and_then : Option Phase → Event → Option Phase
and_then none e = none
and_then (some p) e = advance p e

-- The phase after a log, the newest event first.
abbrev pub phase_after : List Event → Option Phase
phase_after [] = some closed
phase_after (e ∷ es) = and_then (phase_after es) e

module _ {M : Type 0} (host : Host M) where
  -- The host with a log beside its machine.
  abbrev pub logged : Host (List Event × M)
  logged = record (beside (List Event) host) {
    open_device =
        λ s. let (fd, m) = host.open_device s.1 in (fd, (opens (not (is_negative fd)) ∷ s.0, m));
    query_caps = λ fd s. let (r, caps, m) = host.query_caps fd s.1 in (r, caps, (queries ∷ s.0, m));
    init_backend =
        λ fd q s. let (r, m) = host.init_backend fd q s.1 in (r, (inits (is_zero r) ∷ s.0, m));
    create_vm =
        λ fd q s. let (r, m) = host.create_vm fd q s.1 in (r, (creates (is_zero r) ∷ s.0, m));
    run_vm =
        λ fd q s. let (r, q', m) = host.run_vm fd q s.1 in (r, q', (runs (is_zero r) ∷ s.0, m));
    destroy_vm = λ fd s. let (r, m) = host.destroy_vm fd s.1 in (r, (destroys ∷ s.0, m));
    close = λ fd s. let (r, m) = host.close fd s.1 in (r, (closes ∷ s.0, m));
  }

-- The phase that the client's flags stand for.
abbrev pub phase_of : KernelDriver → Phase
phase_of k =
    if is_negative k.fd
    then closed
    else if k.configured
    then configured
    else if k.initialized
    then initialized
    else opened

pub data Call : Type 0 where
  finds asks inits_backend sets_up launches shuts_down : Call

module _ {M : Type 0} (host : Host M) where
  -- A method of the client on the logging host.
  pub call : KernelDriver → List Event × M → Call → KernelDriver × (List Event × M)
  call k s finds = let (found, k', s') = available (logged host) k s in (k', s')
  call k s asks = let (answer, s') = status (logged host) k s in (k, s')
  call k s inits_backend = let (r, k', s') = init (logged host) k s in (k', s')
  call k s sets_up = let (r, k', s') = setup_guest (logged host) k s in (k', s')
  call k s launches = let (r, k', s') = launch (logged host) k s in (k', s')
  call k s shuts_down = shutdown (logged host) k s

  pub calls : KernelDriver → List Event × M → List Call → KernelDriver × (List Event × M)
  calls k s [] = (k, s)
  calls k s (c ∷ cs) = let (k', s') = call k s c in calls k' s' cs

  abbrev Follows : KernelDriver → List Event × M → Type 0
  Follows k s = IsOrdered k × (phase_after s.0 ≡ some (phase_of k))

  available-Follows :
      (k : KernelDriver) (s : List Event × M)
      → Follows k s
      → let (found, k', s') = available (logged host) k s in phase_after s'.0 ≡ some (phase_of k')
  unfolding available
  available-Follows k s v = ground arith

  setup_guest-Follows :
      (k : KernelDriver) (s : List Event × M)
      → Follows k s
      → let (r, k', s') = setup_guest (logged host) k s in phase_after s'.0 ≡ some (phase_of k')
  unfolding setup_guest
  setup_guest-Follows k s v = ground arith

  launch-Follows :
      (k : KernelDriver) (s : List Event × M)
      → Follows k s
      → let (r, k', s') = launch (logged host) k s in phase_after s'.0 ≡ some (phase_of k')
  unfolding launch
  launch-Follows k s v = ground arith

  shutdown-Follows :
      (k : KernelDriver) (s : List Event × M)
      → Follows k s
      → let (k', s') = shutdown (logged host) k s in phase_after s'.0 ≡ some (phase_of k')
  unfolding shutdown
  shutdown-Follows k s v = ground arith

  status-Follows :
      (k : KernelDriver) (s : List Event × M)
      → Follows k s
      → let (b, s') = status (logged host) k s in phase_after s'.0 ≡ some (phase_of k)
  unfolding status
  status-Follows k s v = ground arith

  init-Follows :
      (k : KernelDriver) (s : List Event × M)
      → Follows k s
      → let (r, k', s') = init (logged host) k s in phase_after s'.0 ≡ some (phase_of k')
  unfolding init
  init-Follows k s v = ground arith

  call-Follows :
      (k : KernelDriver) (s : List Event × M) (c : Call)
      → Follows k s
      → Follows (call k s c).0 (call k s c).1
  unfolding call
  call-Follows k s finds v = (available-IsOrdered (logged host) k s v.0, available-Follows k s v)
  call-Follows k s asks v = (v.0, status-Follows k s v)
  call-Follows k s inits_backend v = (init-IsOrdered (logged host) k s v.0, init-Follows k s v)
  call-Follows k s sets_up v =
      (setup_guest-IsOrdered (logged host) k s v.0, setup_guest-Follows k s v)
  call-Follows k s launches v = (rw (launch-client (logged host) k s) v.0, launch-Follows k s v)
  call-Follows k s shuts_down v = (shutdown-IsOrdered (logged host) k s, shutdown-Follows k s v)

  calls-Follows :
      (k : KernelDriver) (s : List Event × M) (cs : List Call)
      → Follows k s
      → Follows (calls k s cs).0 (calls k s cs).1
  unfolding calls
  calls-Follows k s [] v = v
  calls-Follows k s (c ∷ cs) v =
      calls-Follows (call k s c).0 (call k s c).1 cs (call-Follows k s c v)

  new_driver-Follows : (m : M) → Follows new_driver ([], m)
  unfolding new_driver
  new_driver-Follows m = ((inl refl, inl refl), refl)

  -- Whatever the driver answers, and in whatever order the methods of a new client are called, the log
  -- follows the protocol to its end: nothing is asked of a device that is not open, no VM is created
  -- before the backend is initialised and none is run before it is created. The phase of the log is
  -- the one that the client's flags stand for.
  pub calls-phase :
      (m : M) (cs : List Call)
      → let (k, s) = calls new_driver ([], m) cs in
        IsOrdered k × (phase_after s.0 ≡ some (phase_of k))
  calls-phase m cs = calls-Follows new_driver ([], m) cs (new_driver-Follows m)
