-- ===== src/Hypervisor.antt =====
-- The public API and the entry point: lines 37-52 and 299-499 of service-api/service-cpp/src/main.cpp.
-- What is printed is left out.
pub mod Startup
pub mod Evidence
pub mod Strict
pub mod Stubs
pub mod SelfTest
pub mod Assembled
pub mod Vmcall
pub mod Run
use kernova_tee.Prelude.{
  ℕ, ◌+◌, ◌%◌, ◌^◌, Bool, true, false, not, ◌&&◌, List, [], ◌∷◌, String, Option, none, some, ◌==◌,
  if◌then◌else◌, u64, Bytes, zeros, ℤ, pos, is_zero, to_u64, minus_one, minus_two, minus_three,
  minus_four, minus_five, get_or,
}
use kernova_tee.Host.{Host}
use kernova_tee.Globals.{HypervisorState, new_state, EnclaveBuffer, no_buffer, Globals}
use kernova_tee.Backend.{BackendKind, BackendStatus, is_one}
use kernova_tee.Backend.Dispatch
use kernova_tee.Backend.Dispatch.{Backends, new_backends}
use kernova_tee.Enclave
use kernova_tee.Enclave.{Pointer}
use kernova_tee.Monitor

-- All the state of the process. `selected` is `g_backend`.
pub record World (M : Type 0) : Type 0 where
  pub backends : Backends M
  pub hv : HypervisorState
  pub buffer : EnclaveBuffer
  pub selected : Option BackendKind

unfoldable pub new_world : {M : Type 0} → M → World M
unfolding new_backends new_state no_buffer
new_world m = record {
  backends = new_backends m;
  hv = new_state;
  buffer = no_buffer;
  selected = none;
}

-- The part of the state that the enclave and the monitor work on, and putting it back.
abbrev pub globals_of : {M : Type 0} → World M → Globals M
globals_of w = record { machine = w.backends.machine; hv = w.hv; buffer = w.buffer }

abbrev pub put_globals : {M : Type 0} → World M → Globals M → World M
put_globals w g = record w {
  backends = record w.backends { machine = g.machine };
  hv = g.hv;
  buffer = g.buffer;
}

unfoldable pub strict_vmx_required : (String → Option String) → Bool
strict_vmx_required getenv = is_one (getenv "KERNOVA_STRICT_VMX")

-- `config::hardware_backend_enabled`, which is not the function of that name in the backends.
unfoldable pub launch_enabled : (String → Option String) → Bool
launch_enabled getenv = is_one (getenv "KERNOVA_ENABLE_HARDWARE_BACKEND")

-- "Hello, Secure Enclave!" and its length
abbrev pub test_message : List ℕ
test_message =
    b'H' ∷ b'e' ∷ b'l' ∷ b'l' ∷ b'o' ∷ b',' ∷ b' ' ∷ b'S' ∷ b'e' ∷ b'c' ∷ b'u' ∷ b'r' ∷ b'e' ∷ b' '
    ∷ b'E' ∷ b'n' ∷ b'c' ∷ b'l' ∷ b'a' ∷ b'v' ∷ b'e' ∷ b'!' ∷ []

abbrev pub test_length : ℕ
test_length = 22

-- `reinterpret_cast<const uint8_t*>(address)`, over the guest's memory
abbrev pub pointer_at : (ℕ → Bytes) → ℕ → Pointer
pointer_at memory address = if address == 0 then none else some (memory address)

-- How a run of the program ends.
pub data Finish (A B : Type 0) : Type 0 where
  returned : A → Finish A B
  halted : B → Finish A B

module _ {M : Type 0} (host : Host M) where
  open host use {getenv}

  -- Line 398.
  validate : BackendKind → World M → ℤ × World M
  validate kind w =
      let (s, b) = Dispatch.status host kind w.backends in
      (
        pos 0,
        record w {
          backends = b;
          hv = record w.hv { hardware_virtualization_validated = s.hardware_validated };
        },
      )

  -- Lines 388-398.
  launch_guest : BackendKind → BackendStatus → World M → ℤ × World M
  unfolding validate
  launch_guest kind status w =
      let (r, b) = Dispatch.launch host kind w.backends in
      let launched : World M = record w { backends = b } in
      if launch_enabled getenv && status.kernel_driver_available
      then (if not (is_zero r) && strict_vmx_required getenv
          then (minus_five, launched)
          else validate kind launched)
      else validate kind w

  -- Lines 381-387.
  prepare_guest : BackendKind → BackendStatus → World M → ℤ × World M
  unfolding launch_guest
  prepare_guest kind status w =
      let (r, b) = Dispatch.setup_guest host kind w.backends in
      let prepared : World M = record w { backends = b } in
      if not (is_zero r)
      then (if strict_vmx_required getenv then (minus_four, prepared) else (pos 0, prepared))
      else launch_guest kind status prepared

  -- Lines 375-380.
  init_backend : BackendKind → BackendStatus → World M → ℤ × World M
  unfolding prepare_guest
  init_backend kind status w =
      let (r, b) = Dispatch.init host kind w.backends in
      let initialized : World M = record w { backends = b } in
      if not (is_zero r)
      then (if strict_vmx_required getenv then (minus_three, initialized) else (pos 0, initialized))
      else prepare_guest kind status initialized

  -- Lines 364-365.
  start_backend : World M → ℤ × World M
  unfolding init_backend
  start_backend w =
      let (kind, b) = Dispatch.select_backend host w.backends in
      let (status, b') = Dispatch.status host kind b in
      init_backend kind status (record w { backends = b'; selected = some kind })

  -- Lines 359-362.
  start_enclave : World M → ℤ × World M
  unfolding start_backend
  start_enclave w =
      let (r, g) = Enclave.init host (globals_of w) in
      let w' : World M = put_globals w g in
      if not (is_zero r) then (minus_two, w') else start_backend w'

  unfoldable pub hypervisor_init : World M → ℤ × World M
  unfolding start_enclave
  hypervisor_init w =
      let (r, g) = Monitor.init host (globals_of w) in
      let w' : World M = put_globals w g in
      if not (is_zero r) then (minus_one, w') else start_enclave w'

  -- `test_enclave_operations`: what it receives, if both calls succeed.
  unfoldable pub test_enclave_operations : World M → Option Bytes × World M
  test_enclave_operations w =
      let (r, g) =
        Enclave.send_data host (globals_of w) (some (λ i. get_or test_message i 0)) test_length in
      let w' : World M = put_globals w g in
      let (s, received) = Enclave.receive_data host g (some zeros) test_length in
      if not (is_zero r) then (none, w') else if is_zero s then (some received, w') else (none, w')

  -- `test_simd_operations`, which changes nothing here, is in Hypervisor.SelfTest.
  unfoldable pub hypervisor_main : World M → Finish (World M) (World M)
  hypervisor_main w =
      let (received, tested) = test_enclave_operations w in
      let (r, g) = Monitor.check_integrity host (globals_of tested) in
      let checked : World M = put_globals tested g in
      if not checked.hv.hardware_virtualization_validated then returned checked else halted checked

  -- Lines 451-453.
  unfoldable pub shutdown_backend : Option BackendKind → World M → World M
  shutdown_backend none w = w
  shutdown_backend (some kind) w = record w { backends = Dispatch.shutdown host kind w.backends }

  unfoldable pub hypervisor_shutdown : World M → World M
  unfolding shutdown_backend
  hypervisor_shutdown w =
      let w' = shutdown_backend w.selected w in
      put_globals w' (Enclave.cleanup host (globals_of w'))

  unfoldable pub vmcall_handler : (ℕ → Bytes) → World M → ℕ → ℕ → ℕ → ℕ × World M
  vmcall_handler memory w function param1 param2 =
      let (sent, g) = Enclave.send_data host (globals_of w) (pointer_at memory param1) param2 in
      let (intact, g') = Monitor.check_integrity host (globals_of w) in
      if function == 0
      then (u64 (param1 + param2), w)
      else if function == 1
      then (to_u64 sent, put_globals w g)
      else if function == 2
      then (to_u64 intact, put_globals w g')
      else (0xffff_ffff_ffff_ffff, w)

  after_main : Finish (World M) (World M) → Finish (ℤ × World M) (World M)
  after_main (halted w) = halted w
  after_main (returned w) = returned (pos 0, hypervisor_shutdown w)

  -- `main`: the exit code and the last state, or the state in which it halts for ever.
  unfoldable pub main : World M → Finish (ℤ × World M) (World M)
  unfolding after_main
  main w =
      let (r, w') = hypervisor_init w in
      if not (is_zero r) then returned (r, w') else after_main (hypervisor_main w')
