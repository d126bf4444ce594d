-- ===== src/Abi/State.antt =====
-- `kernova_runtime_state` of shared/kernova_abi.h: the numbers that the driver reports.
use kernova_tee.Prelude.{ℕ}

abbrev pub uninitialized : ℕ
uninitialized = 0

abbrev pub caps_ready : ℕ
caps_ready = 1

abbrev pub backend_initialized : ℕ
backend_initialized = 2

abbrev pub vm_created : ℕ
vm_created = 3

abbrev pub launch_blocked : ℕ
launch_blocked = 4

abbrev pub vmexit_received : ℕ
vmexit_received = 5

abbrev pub error : ℕ
error = 6
