-- ===== src/Globals.antt =====
-- The global variables of service-api/service-cpp/src/main.cpp that the enclave and the monitor share.
use kernova_tee.Prelude.{ℕ, Bool, false, Option, none, Bytes}

pub record HypervisorState : Type 0 where
  pub hardware_virtualization_validated : Bool
  pub trace_enabled : Bool
  pub enclave_active : Bool
  pub enclave_base : ℕ
  pub vmexits_total : ℕ
  pub vmexits_per_second : ℕ
  pub data_transferred_bytes : ℕ
  pub suspicious_events : ℕ
  pub integrity_violations : ℕ

unfoldable pub new_state : HypervisorState
new_state = record {
  hardware_virtualization_validated = false;
  trace_enabled = false;
  enclave_active = false;
  enclave_base = 0;
  vmexits_total = 0;
  vmexits_per_second = 0;
  data_transferred_bytes = 0;
  suspicious_events = 0;
  integrity_violations = 0;
}

-- An allocated block.
pub record Block : Type 0 where
  pub address : ℕ
  pub contents : Bytes

pub record EnclaveBuffer : Type 0 where
  pub block : Option Block
  pub size : ℕ

unfoldable pub no_buffer : EnclaveBuffer
no_buffer = record { block = none; size = 0 }

-- The machine with `g_hv_state` and `g_enclave`.
pub record Globals (M : Type 0) : Type 0 where
  pub machine : M
  pub hv : HypervisorState
  pub buffer : EnclaveBuffer
