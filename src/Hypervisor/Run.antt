-- ===== src/Hypervisor/Run.antt =====
-- A whole run of the program: the self test, the end of the main loop, and the shutdown.
use kernova_tee.Prelude.{
  ℕ, ◌-◌, ◌^◌, ◌<◌, ◌≡◌, refl, ap, ◌⊎◌, inl, inr, true, false, arith, ℤ, pos, is_zero, Option, none,
  some, Bytes, copy, fill, zeros, Bool-cases, get_or, minus_three, minus_four, minus_five,
}
use kernova_tee.Host.{Host}
use kernova_tee.Globals.{Block}
use kernova_tee.Backend.{BackendKind}
use kernova_tee.Backend.Dispatch
use kernova_tee.Backend.Dispatch.{Backends}
use kernova_tee.Enclave.{cleanup, contents_of, reverse_prefix}
use kernova_tee.Enclave.Contract.{SimdContract}
use kernova_tee.Enclave.Lifecycle.{cleanup_wipes}
use kernova_tee.Enclave.Transfer.{sent, send_data_packs, reply_byte_lem, receive_data_unpacks}
use kernova_tee.Monitor.{check_integrity}
use kernova_tee.Hypervisor.{
  World, globals_of, put_globals, returned, halted, test_message, test_length,
  test_enclave_operations, hypervisor_init, hypervisor_main, shutdown_backend, hypervisor_shutdown,
  after_main, main,
}
use kernova_tee.Hypervisor.Startup.{
  IsLive, IsStrictFailure, IsTraceFailure, IsEnclaveFailure, HasMemory, hypervisor_init_cases,
}

-- The message as the bytes behind a pointer.
abbrev pub message : Bytes
message i = get_or test_message i 0

-- What the self test leaves of a live enclave, and what the integrity check then leaves.
abbrev pub tested : {M : Type 0} → World M → World M
tested w = put_globals w (sent (globals_of w) message test_length)

abbrev pub checked : {M : Type 0} → Host M → World M → World M
checked host w = put_globals (tested w) (check_integrity host (globals_of (tested w))).1

module _ {M : Type 0} (host : Host M) (simd : SimdContract host) (w : World M) where
  test_enclave_operations_live :
      w.hv.enclave_active ≡ true
      → test_enclave_operations host w
        ≡ (some (copy zeros (contents_of (tested w).buffer.block) test_length), tested w)
  unfolding test_enclave_operations
  test_enclave_operations_live active =
      rw
        (
          send_data_packs host (globals_of w) simd message test_length active (omega arith)
              (omega arith),
          receive_data_unpacks host (sent (globals_of w) message test_length) simd zeros test_length
              active (omega arith) (omega arith),
          test_enclave_operations,
        )
        refl

  mirrored :
      (old : Bytes) (i : ℕ)
      → i < test_length
      → copy zeros (reverse_prefix test_length (copy old message test_length)) test_length i
        ≡ message (test_length - 1 - i)
  mirrored old i short = ground (arith, reply_byte_lem old message zeros test_length test_length i)

  -- Where the enclave is live, the self test receives something, and each of its 22 bytes is the byte of
  -- the message at the mirrored place.
  pub test_enclave_operations_lem :
      (i : ℕ)
      → IsLive w
      → i < test_length
      → (received : Bytes) × ((test_enclave_operations host w).0 ≡ some received)
        × (received i ≡ message (test_length - 1 - i))
  test_enclave_operations_lem i (traced, active, full, (b, held, base)) short = (
    _,
    ap (λ (x : Option Bytes × World M). x.0) (test_enclave_operations_live active),
    rw held (mirrored b.contents i short),
  )

  validated_kept :
      (checked host w).hv.hardware_virtualization_validated ≡ w.hv.hardware_virtualization_validated
  unfolding check_integrity
  validated_kept = ground arith

  hypervisor_main_cases :
      w.hv.enclave_active ≡ true
      → ((w.hv.hardware_virtualization_validated ≡ true)
          × (hypervisor_main host w ≡ halted (checked host w)))
        ⊎ ((w.hv.hardware_virtualization_validated ≡ false)
            × (hypervisor_main host w ≡ returned (checked host w)))
  unfolding hypervisor_main
  hypervisor_main_cases active = elim (Bool-cases w.hv.hardware_virtualization_validated) [
    | inl on ↦ inl (on, rw (test_enclave_operations_live active, validated_kept, on) refl)
    | inr off ↦ inr (off, rw (test_enclave_operations_live active, validated_kept, off) refl)
  ]

-- The ways in which a start fails.
abbrev pub IsFailure : {M : Type 0} → Host M → World M → ℤ × World M → Type 0
IsFailure host w (r, w') =
    IsTraceFailure host w (r, w')
    ⊎ (IsEnclaveFailure host w (r, w') ⊎ (HasMemory host w w' × IsStrictFailure host r × IsLive w'))

strict_nonzero :
    (r : ℤ) → (r ≡ minus_three) ⊎ ((r ≡ minus_four) ⊎ (r ≡ minus_five)) → is_zero r ≡ false
strict_nonzero r (inl e) = rw e refl
strict_nonzero r (inr (inl e)) = rw e refl
strict_nonzero r (inr (inr e)) = rw e refl

module _ {M : Type 0} (host : Host M) (simd : SimdContract host) (w : World M) where
  start_cases :
      w.hv.enclave_active ≡ false
      → let (r, w') = hypervisor_init host w in
        ((is_zero r ≡ false) × IsFailure host w (r, w'))
        ⊎ ((r ≡ pos 0) × HasMemory host w w' × IsLive w')
  start_cases off = elim (hypervisor_init_cases host simd w off) [
    | inl (bad, e, hv, buffer) ↦ inl (rw e refl, inl (bad, e, hv, buffer))
    | inr (inl (good, missing, e, hv, gone)) ↦
        inl (rw e refl, inr (inl (good, missing, e, hv, gone)))
    | inr (inr (memory, inl e, live)) ↦ inr (e, memory, live)
    | inr (inr (memory, inr (strict, code), live)) ↦
        inl (strict_nonzero _ code, inr (inr (memory, (strict, code), live)))
  ]

  -- If the SIMD routines keep their contract, a run of the program from an inactive enclave is one of
  -- these. The start fails, in `trace_init`, for want of memory or in strict mode, and the run ends at once
  -- with its code and its state; so a strict failure leaves the enclave live, neither cleared nor freed.
  -- Or the start gets the memory, returns 0 and leaves the enclave live, and the run goes through the self
  -- test and one integrity check; then it halts if hardware virtualization is validated, and ends with 0
  -- after a shutdown if not.
  pub main_cases :
      w.hv.enclave_active ≡ false
      → let (r, w') = hypervisor_init host w in
        (IsFailure host w (r, w') × (main host w ≡ returned (r, w')))
        ⊎ ((r ≡ pos 0)
            × HasMemory host w w'
            × IsLive w'
            × (((w'.hv.hardware_virtualization_validated ≡ true)
                  × (main host w ≡ halted (checked host w')))
                ⊎ ((w'.hv.hardware_virtualization_validated ≡ false)
                    × (main host w
                        ≡ returned (pos 0, hypervisor_shutdown host (checked host w'))))))
  unfolding main after_main
  main_cases off = elim (start_cases off) [
    | inl (bad, failure) ↦ inl (failure, rw (bad, main) refl)
    | inr (good, memory, (traced, active, full, held)) ↦ inr (
      good,
      memory,
      (traced, active, full, held),
      elim (hypervisor_main_cases host simd (hypervisor_init host w).1 active) [
        | inl (on, e) ↦ inl (on, rw (good, e, main, after_main) refl)
        | inr (off', e) ↦ inr (off', rw (good, e, main, after_main) refl)
      ],
    )
  ]

-- A clean-up after the shutdown of the selected backend.
abbrev wiped : {M : Type 0} → Host M → Option BackendKind → World M → Block → World M
wiped host kind w b =
    let w' = shutdown_backend host kind w in
    record w' {
      backends = record w'.backends {
        machine = host.free b.address (fill b.contents 0 w.buffer.size) w'.backends.machine;
      };
      buffer = record { block = none; size = 0 };
      hv = record w.hv { enclave_active = false };
    }

backend-wiped :
    {M : Type 0} (host : Host M) (simd : SimdContract host) (kind : Option BackendKind)
    (w : World M) (b : Block)
    → w.buffer.block ≡ some b
    → 0 < w.buffer.size
    → w.buffer.size < 2 ^ 63
    → put_globals
        (shutdown_backend host kind w)
        (cleanup host (globals_of (shutdown_backend host kind w)))
      ≡ wiped host kind w b
unfolding shutdown_backend
backend-wiped host simd none w b held some' short =
    rw (cleanup_wipes host simd (globals_of w) b held some' short) refl
backend-wiped host simd (some kind) w b held some' short =
    rw
      (cleanup_wipes host simd
        (globals_of (record w { backends = Dispatch.shutdown host kind w.backends })) b held some'
        short)
      refl

-- If the SIMD routines keep their contract, in a shutdown in a state with a block of `n` bytes,
-- 0 < n < 2^63: after the backend is shut down, the host
-- is given back the block with all `n` bytes cleared, no block is left, and the enclave is not active.
pub shutdown_wipes :
    {M : Type 0} (host : Host M) (simd : SimdContract host) (w : World M) (b : Block)
    → w.buffer.block ≡ some b
    → 0 < w.buffer.size
    → w.buffer.size < 2 ^ 63
    → let w' = shutdown_backend host w.selected w in
      hypervisor_shutdown host w ≡ record w' {
        backends = record w'.backends {
          machine = host.free b.address (fill b.contents 0 w.buffer.size) w'.backends.machine;
        };
        buffer = record { block = none; size = 0 };
        hv = record w.hv { enclave_active = false };
      }
unfolding hypervisor_shutdown
shutdown_wipes host simd w b held some' short =
    backend-wiped host simd w.selected w b held some' short
