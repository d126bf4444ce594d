-- ===== src/Examples/Machines.antt =====
-- Concrete processors and hosts, on which the theorems are tried.
use kernova_tee.Prelude.{
  ℕ, ◌+◌, Bool, true, false, String, Option, none, some, str_eq, ◌==◌, if◌then◌else◌, copy, fill,
  zeros, refl, pos, minus_one, [],
}
use kernova_tee.Cpu.{Registers, Cpuid}
use kernova_tee.Abi.{Caps}
use kernova_tee.Host.{Host}
use kernova_tee.Globals.{Block, EnclaveBuffer, HypervisorState, Globals}
use kernova_tee.Enclave.{enclave_size}
use kernova_tee.Enclave.Contract.{SimdContract}

abbrev pub registers : ℕ → ℕ → ℕ → ℕ → Registers
registers a b c d = record { eax = a; ebx = b; ecx = c; edx = d }

-- An AMD processor with SVM revision 1, 32768 ASIDs and nested paging.
abbrev pub amd_cpuid : Cpuid
amd_cpuid leaf subleaf =
    if leaf == 0
    then registers 13 0x68747541 0x444d4163 0x69746e65
    else if leaf == 0x80000000
    then registers 0x8000001f 0 0 0
    else if leaf == 0x80000001
    then registers 0 0 4 0
    else if leaf == 0x8000000a
    then registers 1 32768 0 1
    else registers 0 0 0 0

-- An Intel processor with VMX.
abbrev pub intel_cpuid : Cpuid
intel_cpuid leaf subleaf =
    if leaf == 0
    then registers 13 0x756e6547 0x6c65746e 0x49656e69
    else if leaf == 1
    then registers 0 0 32 0
    else registers 0 0 0 0

abbrev pub unset : String → Option String
unset name = none

abbrev pub strict : String → Option String
strict name = if str_eq name "KERNOVA_STRICT_VMX" then some "1" else none

abbrev pub no_caps : Caps
no_caps = record {
  abi_version = 0;
  backend_flags = 0;
  runtime_state = 0;
  driver_name = "";
  cpu_vendor = [];
  svm_revision = 0;
  svm_asid_count = 0;
  driver_loaded = 0;
  svm_supported = 0;
  vmx_supported = 0;
  svm_initialized = 0;
  vm_created = 0;
  vmrun_enabled = 0;
  last_vmexit_valid = 0;
  last_exit_code = 0;
  last_exit_info1 = 0;
  last_exit_info2 = 0;
}

-- A machine that counts what it is asked to do. The device opens if `device` says so, and there is
-- memory if `memory` says so; the tracer finds a violation when the count is 1.
abbrev pub machine : Cpuid → (String → Option String) → Bool → Bool → Host ℕ
machine cpuid getenv device memory = record {
  cpuid = cpuid;
  getenv = getenv;
  open_device = λ m. (if device then pos 3 else minus_one, m + 1);
  query_caps = λ fd m. (
    pos 0,
    record no_caps { driver_loaded = 1; svm_supported = 1; last_vmexit_valid = 1 },
    m + 1,
  );
  init_backend = λ fd q m. (pos 0, m + 1);
  create_vm = λ fd q m. (pos 0, m + 1);
  run_vm = λ fd q m. (pos 0, q, m + 1);
  destroy_vm = λ fd m. (pos 0, m + 1);
  close = λ fd m. (pos 0, m + 1);
  vmx_init = λ m. (pos 0, m + 1);
  vmcs_setup = λ m. (pos 0, m + 1);
  vmx_launch = λ m. (pos 0, m + 1);
  vmxoff = λ m. m + 1;
  aligned_alloc = λ n m. (if memory then some (4096, λ i. i) else none, m + 1);
  free = λ p a m. m + 1;
  simd_pack_data = λ d s n flags. (pos n, copy d s n);
  simd_unpack_data = λ d s n flags. (pos n, copy d s n);
  simd_zero_memory = λ a n. (pos n, fill a 0 n);
  trace_init = λ m. (pos 0, m + 1);
  trace_check_integrity = λ m. (if m == 1 then minus_one else pos 0, m + 1);
  trace_log_event = λ t v m. (pos 0, m + 1);
}

pub machine-SimdContract :
    (cpuid : Cpuid) (getenv : String → Option String) (device memory : Bool)
    → SimdContract (machine cpuid getenv device memory)
machine-SimdContract cpuid getenv device memory = record {
  packs = λ d s n flags p q. refl;
  unpacks = λ d s n flags p q. refl;
  clears = λ a n p q. refl;
}

-- An AMD host without the driver, an AMD one with it, and an Intel one without; all have memory.
abbrev pub amd_host : Host ℕ
amd_host = machine amd_cpuid strict false true

abbrev pub driver_host : Host ℕ
driver_host = machine amd_cpuid unset true true

abbrev pub intel_host : Host ℕ
intel_host = machine intel_cpuid strict false true

-- A live enclave at address 4096, and the state around it.
abbrev pub live_block : Block
live_block = record { address = 4096; contents = zeros }

abbrev pub live_buffer : EnclaveBuffer
live_buffer = record { block = some live_block; size = enclave_size }

abbrev pub live_state : HypervisorState
live_state = record {
  hardware_virtualization_validated = false;
  trace_enabled = true;
  enclave_active = true;
  enclave_base = 4096;
  vmexits_total = 0;
  vmexits_per_second = 0;
  data_transferred_bytes = 0;
  suspicious_events = 0;
  integrity_violations = 0;
}

abbrev pub live_globals : Globals ℕ
live_globals = record { machine = 0; hv = live_state; buffer = live_buffer }

-- A host over any machine, which every call leaves as it is.
abbrev pub host_over : {M : Type 0} → Cpuid → (String → Option String) → Host M
host_over cpuid getenv = record {
  cpuid = cpuid;
  getenv = getenv;
  open_device = λ m. (pos 3, m);
  query_caps = λ fd m. (pos 0, no_caps, m);
  init_backend = λ fd q m. (pos 0, m);
  create_vm = λ fd q m. (pos 0, m);
  run_vm = λ fd q m. (pos 0, q, m);
  destroy_vm = λ fd m. (pos 0, m);
  close = λ fd m. (pos 0, m);
  vmx_init = λ m. (pos 0, m);
  vmcs_setup = λ m. (pos 0, m);
  vmx_launch = λ m. (pos 0, m);
  vmxoff = λ m. m;
  aligned_alloc = λ n m. (some (4096, zeros), m);
  free = λ p a m. m;
  simd_pack_data = λ d s n flags. (pos n, copy d s n);
  simd_unpack_data = λ d s n flags. (pos n, copy d s n);
  simd_zero_memory = λ a n. (pos n, fill a 0 n);
  trace_init = λ m. (pos 0, m);
  trace_check_integrity = λ m. (pos 0, m);
  trace_log_event = λ t v m. (pos 0, m);
}
