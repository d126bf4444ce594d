-- ===== src/Host.antt =====
-- What the C++ service calls and does not implement itself, over a type `M` of machine states: the
-- CPUID instruction, the environment, the system calls on /dev/kernova, the privileged VMX
-- routines, the allocator, and the assembly routines of src/marshall and src/monitor.
pub mod Beside
use kernova_tee.Prelude.{ℕ, String, Option, Bytes, ℤ}
use kernova_tee.Cpu.{Cpuid}
use kernova_tee.Abi.{Caps, InitRequest, CreateVmRequest, RunRequest}

pub record Host (M : Type 0) : Type 0 where
  pub cpuid : Cpuid
  pub getenv : String → Option String
  -- `open(KERNOVA_DEVICE_PATH, O_RDWR | O_CLOEXEC)`, the `ioctl`s by their request, and `close`
  pub open_device : M → ℤ × M
  pub query_caps : ℤ → M → ℤ × Caps × M
  pub init_backend : ℤ → InitRequest → M → ℤ × M
  pub create_vm : ℤ → CreateVmRequest → M → ℤ × M
  pub run_vm : ℤ → RunRequest → M → ℤ × RunRequest × M
  pub destroy_vm : ℤ → M → ℤ × M
  pub close : ℤ → M → ℤ × M
  -- the VMX routines of Ring -1, or their userspace stubs
  pub vmx_init : M → ℤ × M
  pub vmcs_setup : M → ℤ × M
  pub vmx_launch : M → ℤ × M
  pub vmxoff : M → M
  -- `aligned_alloc(4096, size)` gives null, or an address and what stands there; `free` is given
  -- the block's last contents
  pub aligned_alloc : ℕ → M → Option (ℕ × Bytes) × M
  pub free : ℕ → Bytes → M → M
  -- the new contents of the destination stand beside the returned number
  pub simd_pack_data : Bytes → Bytes → ℕ → ℕ → ℤ × Bytes
  pub simd_unpack_data : Bytes → Bytes → ℕ → ℕ → ℤ × Bytes
  pub simd_zero_memory : Bytes → ℕ → ℤ × Bytes
  pub trace_init : M → ℤ × M
  pub trace_check_integrity : M → ℤ × M
  pub trace_log_event : ℕ → ℕ → M → ℤ × M
