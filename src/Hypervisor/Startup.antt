-- ===== src/Hypervisor/Startup.antt =====
-- The codes of `hypervisor_init` and the state that each leaves.
use kernova_tee.Prelude.{
  ◌≡◌, refl, ℕ, Bytes, fill, ap, ◌∙◌, ◌⊎◌, inl, inr, true, false, ◌&&◌, ℤ, pos, is_zero, minus_one,
  minus_two, minus_three, minus_four, minus_five, Bool-cases, Option-cases, none, some,
}
use kernova_tee.Host.{Host}
use kernova_tee.Globals.{HypervisorState, EnclaveBuffer, Block}
use kernova_tee.Backend.{BackendKind, BackendStatus}
use kernova_tee.Backend.Dispatch
use kernova_tee.Enclave.{enclave_size}
use kernova_tee.Enclave.Contract.{SimdContract}
use kernova_tee.Enclave.Lifecycle.{init_no_memory, init_memory}
use kernova_tee.Monitor
use kernova_tee.Hypervisor.{
  World, globals_of, strict_vmx_required, launch_enabled, launch_guest, prepare_guest, init_backend,
  start_backend, start_enclave, hypervisor_init,
}

-- A refusal of the backend, which only strict mode turns into a failure of the start.
abbrev pub IsStrictFailure : {M : Type 0} → Host M → ℤ → Type 0
IsStrictFailure host r =
    (strict_vmx_required host.getenv ≡ true)
    × ((r ≡ minus_three) ⊎ ((r ≡ minus_four) ⊎ (r ≡ minus_five)))

module _ {M : Type 0} (host : Host M) where
  -- What the backend's part of the start does: it succeeds or is a strict failure, and beside the
  -- backends it changes only whether hardware virtualization is validated.
  abbrev pub IsStarted : World M → ℤ × World M → Type 0
  IsStarted w (r, w') =
      ((r ≡ pos 0) ⊎ IsStrictFailure host r)
      × (w'.buffer ≡ w.buffer)
      × (w'.hv ≡ record w.hv {
        hardware_virtualization_validated = w'.hv.hardware_virtualization_validated;
      })

  launch_guest-IsStarted :
      (kind : BackendKind) (s : BackendStatus) (w : World M)
      → IsStarted w (launch_guest host kind s w)
  unfolding launch_guest
  launch_guest-IsStarted kind s w =
      elim (Bool-cases (launch_enabled host.getenv && s.kernel_driver_available)) [
        | inr skip ↦ rw (skip, launch_guest) (inl refl, refl, refl)
        | inl tried ↦ elim (Bool-cases (is_zero (Dispatch.launch host kind w.backends).0)) [
          | inl ran ↦ rw (tried, ran, launch_guest) (inl refl, refl, refl)
          | inr failed ↦ elim (Bool-cases (strict_vmx_required host.getenv)) [
            | inl strict ↦
                rw (tried, failed, strict, launch_guest) (inr (refl, inr (inr refl)), refl, refl)
            | inr lax ↦ rw (tried, failed, lax, launch_guest) (inl refl, refl, refl)
          ]
        ]
      ]

  prepare_guest-IsStarted :
      (kind : BackendKind) (s : BackendStatus) (w : World M)
      → IsStarted w (prepare_guest host kind s w)
  unfolding prepare_guest
  prepare_guest-IsStarted kind s w =
      elim (Bool-cases (is_zero (Dispatch.setup_guest host kind w.backends).0)) [
        | inl set_up ↦ rw (set_up, prepare_guest) (launch_guest-IsStarted kind s _)
        | inr failed ↦ elim (Bool-cases (strict_vmx_required host.getenv)) [
          | inl strict ↦ rw (failed, strict, prepare_guest) (inr (refl, inr (inl refl)), refl, refl)
          | inr lax ↦ rw (failed, lax, prepare_guest) (inl refl, refl, refl)
        ]
      ]

  init_backend-IsStarted :
      (kind : BackendKind) (s : BackendStatus) (w : World M)
      → IsStarted w (init_backend host kind s w)
  unfolding init_backend
  init_backend-IsStarted kind s w =
      elim (Bool-cases (is_zero (Dispatch.init host kind w.backends).0)) [
        | inl up ↦ rw (up, init_backend) (prepare_guest-IsStarted kind s _)
        | inr failed ↦ elim (Bool-cases (strict_vmx_required host.getenv)) [
          | inl strict ↦ rw (failed, strict, init_backend) (inr (refl, inl refl), refl, refl)
          | inr lax ↦ rw (failed, lax, init_backend) (inl refl, refl, refl)
        ]
      ]

  start_backend-IsStarted : (w : World M) → IsStarted w (start_backend host w)
  unfolding start_backend
  start_backend-IsStarted w =
      let (kind, b) = Dispatch.select_backend host w.backends in
      let (s, b') = Dispatch.status host kind b in init_backend-IsStarted kind s _

-- The three ways in which a start from an inactive enclave ends.
abbrev pub IsTraceFailure : {M : Type 0} → Host M → World M → ℤ × World M → Type 0
IsTraceFailure host w (r, w') =
    (is_zero (host.trace_init w.backends.machine).0 ≡ false)
    × (r ≡ minus_one)
    × (w'.hv ≡ w.hv)
    × (w'.buffer ≡ w.buffer)

abbrev pub IsEnclaveFailure : {M : Type 0} → Host M → World M → ℤ × World M → Type 0
IsEnclaveFailure host w (r, w') =
    (is_zero (host.trace_init w.backends.machine).0 ≡ true)
    × ((host.aligned_alloc enclave_size (host.trace_init w.backends.machine).1).0 ≡ none)
    × (r ≡ minus_two)
    × (w'.hv ≡ record w.hv { trace_enabled = true })
    × (w'.buffer.block ≡ none)

-- The host traces and has memory, whose address is the published base.
abbrev pub HasMemory : {M : Type 0} → Host M → World M → World M → Type 0
HasMemory host w w' =
    (is_zero (host.trace_init w.backends.machine).0 ≡ true)
    × ((p : ℕ) × (old : Bytes) × ((host.aligned_alloc enclave_size
            (host.trace_init w.backends.machine).1).0
          ≡ some (p, old))
        × (w'.hv.enclave_base ≡ p))

abbrev pub IsLive : {M : Type 0} → World M → Type 0
IsLive w =
    (w.hv.trace_enabled ≡ true)
    × (w.hv.enclave_active ≡ true)
    × (w.buffer.size ≡ enclave_size)
    × ((b : Block) × (w.buffer.block ≡ some b) × (w.hv.enclave_base ≡ b.address))

IsLive-IsStarted :
    {M : Type 0} (host : Host M) (w : World M) (x : ℤ × World M)
    → IsStarted host w x
    → IsLive w
    → ((x.0 ≡ pos 0) ⊎ IsStrictFailure host x.0) × IsLive x.1
IsLive-IsStarted host w x (code, buffer, hv) (traced, active, full, (b, held, base)) = (
  code,
  (
    ap (λ (h : HypervisorState). h.trace_enabled) hv ∙ traced,
    ap (λ (h : HypervisorState). h.enclave_active) hv ∙ active,
    ap (λ (e : EnclaveBuffer). e.size) buffer ∙ full,
    (
      b,
      ap (λ (e : EnclaveBuffer). e.block) buffer ∙ held,
      ap (λ (h : HypervisorState). h.enclave_base) hv ∙ base,
    ),
  ),
)

-- The state once the enclave has got the block at `p`, and once tracing is on.
abbrev pub entered : {M : Type 0} → Host M → World M → ℕ → Bytes → World M
entered host w p old = record w {
  backends = record w.backends { machine = (host.aligned_alloc enclave_size w.backends.machine).1 };
  hv = record w.hv { enclave_base = p; enclave_active = true };
  buffer = record {
    block = some (record { address = p; contents = fill (fill old 0 enclave_size) 0 enclave_size });
    size = enclave_size;
  };
}

abbrev pub traced : {M : Type 0} → Host M → World M → World M
traced host w = record w {
  backends = record w.backends { machine = (host.trace_init w.backends.machine).1 };
  hv = record w.hv { trace_enabled = true };
}

module _ {M : Type 0} (host : Host M) (simd : SimdContract host) (w : World M) where
  start_enclave_cases :
      w.hv.enclave_active ≡ false
      → w.hv.trace_enabled ≡ true
      → let (r, w') = start_enclave host w in
        (((host.aligned_alloc enclave_size w.backends.machine).0 ≡ none)
          × (r ≡ minus_two)
          × (w'.hv ≡ w.hv)
          × (w'.buffer.block ≡ none))
        ⊎ (((p : ℕ) × (old : Bytes) × ((host.aligned_alloc enclave_size w.backends.machine).0
                ≡ some (p, old))
              × (w'.hv.enclave_base ≡ p))
            × ((r ≡ pos 0) ⊎ IsStrictFailure host r)
            × IsLive w')
  unfolding start_enclave
  start_enclave_cases off on =
      elim (Option-cases (host.aligned_alloc enclave_size w.backends.machine).0) [
        | inl missing ↦
            rw (init_no_memory host (globals_of w) missing, start_enclave)
              (inl (missing, refl, refl, refl))
        | inr ((p, old), e) ↦
            let w' = entered host w p old in
            let started = start_backend-IsStarted host w' in
            let live =
              IsLive-IsStarted host w' (start_backend host w') started
                (on, refl, refl, (_, refl, refl)) in
            rw (init_memory host (globals_of w) simd p old e, start_enclave)
              (inr (
                (p, old, e, ap (λ (h : HypervisorState). h.enclave_base) started.2),
                live.0,
                live.1,
              ))
      ]

module _ {M : Type 0} (host : Host M) (simd : SimdContract host) (w : World M) where
  -- If the SIMD routines keep their contract, a start from an inactive enclave has three outcomes. Where
  -- `trace_init` fails, the code is -1, and neither the flags nor the buffer change. Where `trace_init`
  -- returns 0 and `aligned_alloc` returns null, the code is -2, tracing is on and there is no block. Where
  -- `trace_init` returns 0 and `aligned_alloc` a block, tracing is on, the enclave is active over
  -- `enclave_size` bytes at that block's address, which is the published base, and the code is 0, or in
  -- strict mode one of -3, -4 and -5.
  pub hypervisor_init_cases :
      w.hv.enclave_active ≡ false
      → let (r, w') = hypervisor_init host w in
        IsTraceFailure host w (r, w')
        ⊎ (IsEnclaveFailure host w (r, w')
            ⊎ (HasMemory host w w' × ((r ≡ pos 0) ⊎ IsStrictFailure host r) × IsLive w'))
  unfolding hypervisor_init Monitor.init
  hypervisor_init_cases off = elim (Bool-cases (is_zero (host.trace_init w.backends.machine).0)) [
    | inr bad ↦ rw (bad, hypervisor_init, Monitor.init) (inl (refl, refl, refl, refl))
    | inl good ↦
        rw (good, hypervisor_init, Monitor.init)
          (inr (elim (start_enclave_cases host simd (traced host w) off refl) [
            | inl (missing, code, hv, gone) ↦ inl (refl, missing, code, hv, gone)
            | inr (memory, code, live) ↦ inr ((refl, memory), code, live)
          ]))
  ]
