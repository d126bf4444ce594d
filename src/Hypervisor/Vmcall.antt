-- ===== src/Hypervisor/Vmcall.antt =====
-- The results of the VMCALL handler, and what it leaves of the state.
use kernova_tee.Prelude.{
  ℕ, ◌+◌, ◌-◌, leb, ◌&&◌, List, [], ◌∷◌, ◌%◌, ◌^◌, ◌<◌, ◌≡◌, refl, ap, ◌∙◌, ◌⊎◌, inl, inr, Bool,
  not, arith, Bytes, to_u64, ◌==◌, if◌then◌else◌,
}
use kernova_tee.Host.{Host}
use kernova_tee.Enclave.{data_buffer_size, send_data}
use kernova_tee.Enclave.Contract.{SimdContract}
use kernova_tee.Enclave.Lifecycle.{IsSound, enclave_send, monitor_check, Reach-IsSound, here, next}
use kernova_tee.Enclave.Transfer.{IsRefused, send_data_refused, send_data_cases}
use kernova_tee.Monitor.{check_integrity}
use kernova_tee.Hypervisor.{World, globals_of, put_globals, pointer_at, vmcall_handler}

module _ {M : Type 0} (host : Host M) (memory : ℕ → Bytes) (w : World M) where
  pub vmcall_echo : (a b : ℕ) → vmcall_handler host memory w 0 a b ≡ ((a + b) % 2 ^ 64, w)
  unfolding vmcall_handler
  vmcall_echo a b = refl

  vmcall_send :
      (a b : ℕ)
      → let (r, g) = send_data host (globals_of w) (pointer_at memory a) b in
        vmcall_handler host memory w 1 a b ≡ (to_u64 r, put_globals w g)
  unfolding vmcall_handler
  vmcall_send a b = refl

  vmcall_check :
      (a b : ℕ)
      → let (r, g) = check_integrity host (globals_of w) in
        vmcall_handler host memory w 2 a b ≡ (to_u64 r, put_globals w g)
  unfolding vmcall_handler
  vmcall_check a b = refl

  vmcall_unknown : (f a b : ℕ) → 2 < f → vmcall_handler host memory w f a b ≡ (2 ^ 64 - 1, w)
  unfolding vmcall_handler
  vmcall_unknown f a b h = ground arith

  -- A call that sends data and that the enclave refuses, since it is inactive, or the address or the
  -- size is 0, returns the same number as a call of any function above 2, and like it changes nothing:
  -- the guest cannot tell them apart.
  pub vmcall_ambiguous :
      (f a b c d : ℕ)
      → 2 < f
      → IsRefused (globals_of w) (pointer_at memory a) b
      → vmcall_handler host memory w 1 a b ≡ vmcall_handler host memory w f c d
  vmcall_ambiguous f a b c d h refused =
      rw
        (
          vmcall_send a b,
          send_data_refused host (globals_of w) (pointer_at memory a) b refused,
          vmcall_unknown f c d h,
        )
        refl

function_cases : (f : ℕ) → (f ≡ 0) ⊎ ((f ≡ 1) ⊎ ((f ≡ 2) ⊎ (2 < f)))
function_cases f = omega arith

-- A call: the function and its two parameters.
abbrev pub Call : Type 0
Call = ℕ × ℕ × ℕ

-- The calls of a guest, one after the other.
abbrev pub serve : {M : Type 0} → Host M → (ℕ → Bytes) → World M → List Call → World M
serve host memory w [] = w
serve host memory w ((f, a, b) ∷ calls) =
    serve host memory (vmcall_handler host memory w f a b).1 calls

-- The bytes that a call brings into an enclave, and those of several calls.
abbrev pub brought : Bool → Call → ℕ
brought active (f, a, b) =
    if f == 1 && active && not (a == 0) && not (b == 0) && leb b data_buffer_size then b else 0

abbrev pub brought_by : Bool → List Call → ℕ
brought_by active [] = 0
brought_by active (call ∷ calls) = brought active call + brought_by active calls

module _ {M : Type 0} (host : Host M) (memory : ℕ → Bytes) where
  call-IsSound :
      (w : World M) (f a b : ℕ)
      → IsSound (globals_of w)
      → IsSound (globals_of (vmcall_handler host memory w f a b).1)
  call-IsSound w f a b h = elim (function_cases f) [
    | inl e ↦ rw (e, vmcall_echo host memory w a b) h
    | inr (inl e) ↦
        rw (e, vmcall_send host memory w a b)
          (Reach-IsSound host h (next here (enclave_send (pointer_at memory a) b)))
    | inr (inr (inl e)) ↦
        rw (e, vmcall_check host memory w a b) (Reach-IsSound host h (next here monitor_check))
    | inr (inr (inr k)) ↦ rw (vmcall_unknown host memory w f a b k) h
  ]

  -- No calls of a guest make a sound enclave unsound: while it is active it keeps a block of
  -- `enclave_size` bytes at the address that is published as its base.
  pub serve-IsSound :
      (w : World M) (calls : List Call)
      → IsSound (globals_of w)
      → IsSound (globals_of (serve host memory w calls))
  serve-IsSound w [] h = h
  serve-IsSound w ((f, a, b) ∷ calls) h =
      serve-IsSound (vmcall_handler host memory w f a b).1 calls (call-IsSound w f a b h)

module _ {M : Type 0} (host : Host M) (simd : SimdContract host) (memory : ℕ → Bytes) where
  -- What one call does to the enclave's flag and to the counter.
  abbrev Counts : World M → Call → Type 0
  Counts w (f, a, b) =
      let w' = (vmcall_handler host memory w f a b).1 in
      (w'.hv.enclave_active ≡ w.hv.enclave_active)
      × (w'.hv.data_transferred_bytes
          ≡ (w.hv.data_transferred_bytes + brought w.hv.enclave_active (f, a, b)) % 2 ^ 64)

  echo-Counts : (w : World M) (a b : ℕ) → w.hv.data_transferred_bytes < 2 ^ 64 → Counts w (0, a, b)
  unfolding vmcall_handler
  echo-Counts w a b fits = (refl, omega arith)

  check-Counts : (w : World M) (a b : ℕ) → w.hv.data_transferred_bytes < 2 ^ 64 → Counts w (2, a, b)
  unfolding vmcall_handler check_integrity
  check-Counts w a b fits = ground arith

  unknown-Counts :
      (w : World M) (f a b : ℕ) → w.hv.data_transferred_bytes < 2 ^ 64 → 2 < f → Counts w (f, a, b)
  unknown-Counts w f a b fits h = rw (vmcall_unknown host memory w f a b h) (refl, ground arith)

  send-Counts :
      (w : World M) (a b : ℕ)
      → IsSound (globals_of w)
      → w.hv.data_transferred_bytes < 2 ^ 64
      → Counts w (1, a, b)
  send-Counts w a b sound fits =
      elim (send_data_cases host simd (globals_of w) (pointer_at memory a) b sound) [
        | inl (refused, e) ↦ rw (vmcall_send host memory w a b, e) (refl, ground arith)
        | inr (src, block, same, held, on, inl (long, e)) ↦
            rw (vmcall_send host memory w a b, e) (refl, ground arith)
        | inr (src, block, same, held, on, inr (some', short, e)) ↦
            rw (vmcall_send host memory w a b, e) (refl, ground arith)
      ]

  call-Counts :
      (w : World M) (call : Call)
      → IsSound (globals_of w)
      → w.hv.data_transferred_bytes < 2 ^ 64
      → Counts w call
  call-Counts w (f, a, b) sound fits = elim (function_cases f) [
    | inl e ↦ rw e (echo-Counts w a b fits)
    | inr (inl e) ↦ rw e (send-Counts w a b sound fits)
    | inr (inr (inl e)) ↦ rw e (check-Counts w a b fits)
    | inr (inr (inr h)) ↦ unknown-Counts w f a b fits h
  ]

  -- If the SIMD routines keep their contract, then after any calls of a guest that finds a sound enclave, whatever their functions, addresses and sizes, the counter of
  -- transferred bytes, which fits in 64 bits, has grown modulo 2^64 by the sizes of the calls of function
  -- 1 that came while the enclave was active, with an address and a size that are not 0 and at most
  -- 64 KiB; and the enclave is active if it was so before.
  pub serve-transferred :
      (w : World M) (calls : List Call)
      → IsSound (globals_of w)
      → w.hv.data_transferred_bytes < 2 ^ 64
      → let w' = serve host memory w calls in
        (w'.hv.enclave_active ≡ w.hv.enclave_active)
        × (w'.hv.data_transferred_bytes
            ≡ (w.hv.data_transferred_bytes + brought_by w.hv.enclave_active calls) % 2 ^ 64)
  serve-transferred w [] sound fits = (refl, omega arith)
  serve-transferred w ((f, a, b) ∷ calls) sound fits =
      let (active, counted) = call-Counts w (f, a, b) sound fits in
      let (active', counted') =
        serve-transferred (vmcall_handler host memory w f a b).1 calls
          (call-IsSound host memory w f a b sound) (omega (arith, counted)) in
      (
        active' ∙ active,
        omega (arith, counted, counted', ap (λ (x : Bool). brought_by x calls) active),
      )
