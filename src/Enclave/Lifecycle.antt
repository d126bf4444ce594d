-- ===== src/Enclave/Lifecycle.antt =====
-- Allocation, the wipe before release, and what holds of the enclave between two calls.
use kernova_tee.Prelude.{
  ℕ, ◌<◌, ◌^◌, ◌≡◌, refl, ◌⊎◌, inl, inr, not, ◌||◌, ◌==◌, true, false, none, some, arith, Bytes,
  fill, ltb, if◌then◌else◌, ℤ, pos, minus_one, Option-cases, Bool-cases, if_both,
}
use kernova_tee.Host.{Host}
use kernova_tee.Globals.{Block, Globals}
use kernova_tee.Enclave.{
  Pointer, is_null, data_buffer_size, bytes_at, enclave_size, allocate, deallocate, zero_buffer,
  is_count, activate, pack_in, init, cleanup, send_data,
}
use kernova_tee.Enclave.Contract.{SimdContract}
use kernova_tee.Monitor
use kernova_tee.Monitor.{check_integrity, log_event}

-- An active enclave has a block of `enclave_size` bytes, at the address that is published as its base.
abbrev pub IsSound : {M : Type 0} → Globals M → Type 0
IsSound g =
    (g.hv.enclave_active ≡ false)
    ⊎ ((b : Block) × (g.buffer.block ≡ some b)
        × (g.buffer.size ≡ enclave_size)
        × (g.hv.enclave_base ≡ b.address))

-- The calls that the service makes on the shared globals. The enclave is initialised only while it is
-- not active.
pub data Step {M : Type 0} (host : Host M) (g : Globals M) : Globals M → Type 0 where
  enclave_init : g.hv.enclave_active ≡ false → Step host g (init host g).1
  enclave_cleanup : Step host g (cleanup host g)
  enclave_send : (src : Pointer) (size : ℕ) → Step host g (send_data host g src size).1
  monitor_init : Step host g (Monitor.init host g).1
  monitor_check : Step host g (check_integrity host g).1
  monitor_log : (event_type value : ℕ) → Step host g (log_event host event_type value g)

pub data Reach {M : Type 0} (host : Host M) (g : Globals M) : Globals M → Type 0 where
  here : Reach host g g
  next : {h k : Globals M} → Reach host g h → Step host h k → Reach host g k

module _ {M : Type 0} (host : Host M) (g : Globals M) where
  pub init_no_memory :
      (host.aligned_alloc enclave_size g.machine).0 ≡ none
      → init host g ≡ (
        minus_one,
        record g {
          buffer = record g.buffer { block = none };
          machine = (host.aligned_alloc enclave_size g.machine).1;
        },
      )
  unfolding init
  init_no_memory h = rw (h, init, allocate)

  pub init_memory :
      SimdContract host
      → (p : ℕ) (old : Bytes) → (host.aligned_alloc enclave_size g.machine).0 ≡ some (p, old)
      → init host g ≡ (
        pos 0,
        record g {
          machine = (host.aligned_alloc enclave_size g.machine).1;
          buffer = record {
            block =
                some (record {
                  address = p;
                  contents = fill (fill old 0 enclave_size) 0 enclave_size;
                });
            size = enclave_size;
          };
          hv = record g.hv { enclave_base = p; enclave_active = true };
        },
      )
  unfolding init
  init_memory simd p old h =
      rw (h, init, allocate)
        (rw
          (
            simd.clears (fill old 0 enclave_size) enclave_size (omega arith) (omega arith),
            activate,
            zero_buffer,
          )
          (ground arith))

  activate-IsSound :
      (b : Block)
      → g.buffer.block ≡ some b
      → g.buffer.size ≡ enclave_size
      → g.hv.enclave_active ≡ false
      → IsSound (activate host g).1
  unfolding activate zero_buffer deallocate
  activate-IsSound b held size off =
      elim (Bool-cases
        (is_count (host.simd_zero_memory b.contents g.buffer.size).0 g.buffer.size)) [
          | inl wiped ↦ rw (held, wiped, activate) (inr (_, refl, size, refl))
          | inr kept ↦ rw (held, kept, activate) (inl off)
        ]

  cleanup-IsSound : IsSound (cleanup host g)
  unfolding cleanup
  cleanup-IsSound = ground arith

  pack_in-IsSound : (src : Bytes) (size : ℕ) → IsSound g → IsSound (pack_in host g src size).1
  unfolding pack_in
  pack_in-IsSound src size (inl off) =
      if_both (λ (r : ℤ × Globals M). IsSound r.1) _ (inl off) (inl off)
  pack_in-IsSound src size (inr (b, held, full, base)) =
      rw (held, pack_in)
        (if_both (λ (r : ℤ × Globals M). IsSound r.1) _ (inr (_, refl, full, base))
          (inr (_, refl, full, base)))

  send_data-IsSound : (src : Pointer) (size : ℕ) → IsSound g → IsSound (send_data host g src size).1
  unfolding send_data
  send_data-IsSound src size h =
      elim (Bool-cases (not g.hv.enclave_active || is_null src || size == 0)) [
        | inl refused ↦ rw (refused, send_data) h
        | inr accepted ↦ elim (Bool-cases (ltb data_buffer_size size)) [
          | inl long ↦ rw (accepted, long, send_data) h
          | inr short ↦ rw (accepted, short, send_data) (pack_in-IsSound (bytes_at src) size h)
        ]
      ]

  monitor-IsSound : IsSound g → IsSound (Monitor.init host g).1
  unfolding Monitor.init
  monitor-IsSound h = ground arith

  check_integrity-IsSound : IsSound g → IsSound (check_integrity host g).1
  unfolding check_integrity
  check_integrity-IsSound h = ground arith

  log_event-IsSound : (t v : ℕ) → IsSound g → IsSound (log_event host t v g)
  unfolding log_event
  log_event-IsSound t v h = ground arith

module _ {M : Type 0} (host : Host M) (g : Globals M) where
  init-IsSound : g.hv.enclave_active ≡ false → IsSound (init host g).1
  unfolding init allocate
  init-IsSound off = elim (Option-cases (host.aligned_alloc enclave_size g.machine).0) [
    | inl missing ↦ rw (missing, init) (inl off)
    | inr (found, e) ↦ rw (e, init) (activate-IsSound host _ _ refl refl off)
  ]

module _ {M : Type 0} (host : Host M) (g : Globals M) where
  activate-validated :
      (activate host g).1.hv.hardware_virtualization_validated
      ≡ g.hv.hardware_virtualization_validated
  unfolding activate
  activate-validated = elim (Bool-cases (zero_buffer host g.buffer).0) [
    | inl wiped ↦ rw (wiped, activate)
    | inr kept ↦ rw (kept, activate)
  ]

module _ {M : Type 0} (host : Host M) (g : Globals M) where
  -- An initialisation of the enclave does not touch the validation flag.
  pub init-validated :
      (init host g).1.hv.hardware_virtualization_validated ≡ g.hv.hardware_virtualization_validated
  unfolding init
  init-validated = elim (Bool-cases (allocate host enclave_size g.buffer g.machine).0) [
    | inl found ↦ rw (found, init) (activate-validated host _)
    | inr missing ↦ rw (missing, init)
  ]

module _ {M : Type 0} (host : Host M) where
  Step-IsSound : {g h : Globals M} → Step host g h → IsSound g → IsSound h
  Step-IsSound {g} (enclave_init off) v = init-IsSound host g off
  Step-IsSound {g} enclave_cleanup v = cleanup-IsSound host g
  Step-IsSound {g} (enclave_send src size) v = send_data-IsSound host g src size v
  Step-IsSound {g} monitor_init v = monitor-IsSound host g v
  Step-IsSound {g} monitor_check v = check_integrity-IsSound host g v
  Step-IsSound {g} (monitor_log t n) v = log_event-IsSound host g t n v

  -- Whatever the host's routines do, an enclave that is sound stays so through every sequence of
  -- initialisations while inactive, sends, clean-ups and monitor calls: while it is active it has a
  -- block of `enclave_size` bytes, whose address is the published base.
  pub Reach-IsSound : {g h : Globals M} → IsSound g → Reach host g h → IsSound h
  Reach-IsSound v here = v
  Reach-IsSound v (next r s) = Step-IsSound s (Reach-IsSound v r)

-- A clean-up of an enclave with a block of `n` bytes, 0 < n < 2^63: the host is given back the block
-- with all `n` bytes cleared, no block is left, and the enclave is not active.
pub cleanup_wipes :
    {M : Type 0} (host : Host M) (simd : SimdContract host) (g : Globals M) (b : Block)
    → g.buffer.block ≡ some b
    → 0 < g.buffer.size
    → g.buffer.size < 2 ^ 63
    → cleanup host g ≡ record g {
      machine = host.free b.address (fill b.contents 0 g.buffer.size) g.machine;
      buffer = record { block = none; size = 0 };
      hv = record g.hv { enclave_active = false };
    }
unfolding cleanup
cleanup_wipes host simd g b held p q =
    rw (held, simd.clears b.contents g.buffer.size p q, cleanup) (ground arith)

-- The initialisation of an enclave that is not active. Without memory it returns -1 and leaves no block
-- and the enclave inactive; else it returns 0, the enclave is active, and its `enclave_size` bytes are 0.
pub init_cases :
    {M : Type 0} (host : Host M) (simd : SimdContract host) (g : Globals M) (i : ℕ)
    → g.hv.enclave_active ≡ false
    → let (r, h) = init host g in
      ((r ≡ minus_one) × (h.hv.enclave_active ≡ false) × (h.buffer.block ≡ none))
      ⊎ ((r ≡ pos 0)
          × (h.hv.enclave_active ≡ true)
          × (h.buffer.size ≡ enclave_size)
          × ((b : Block) × (h.buffer.block ≡ some b)
              × (h.hv.enclave_base ≡ b.address)
              × ((if ltb i enclave_size then b.contents i else 0) ≡ 0)))
init_cases host simd g i off = elim (Option-cases (host.aligned_alloc enclave_size g.machine).0) [
  | inl missing ↦ rw (init_no_memory host g missing) (inl (refl, off, refl))
  | inr ((p, old), e) ↦
      rw (init_memory host g simd p old e) (inr (refl, refl, refl, (_, refl, refl, ground arith)))
]
