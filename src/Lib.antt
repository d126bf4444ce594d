-- ===== src/Lib.antt =====
-- Kernova-TEE: a trusted execution service in C++. It detects the processor, keeps a secure enclave
-- buffer, watches its own integrity through a trace engine, and picks one of four virtualization
-- backends, of which one is the client of a Linux driver in C, which comes with it.
--
-- All C++ files below are under service-api/service-cpp.
-- - Cpu: src/virtualization/cpu_features.cpp and its header. `detect_cpu_features` and
--   `cpu_vendor_name`. Cpu.Vendor and Cpu.Features say where the values come from, and
--   Cpu.Report puts them against the processor's manual.
-- - Svm: src/virtualization/amd_svm/amd_svm.cpp and its header. The capabilities, the VMCB page and
--   the runtime context. Svm.Page is about the bytes of the page, Svm.Runtime about the context.
-- - Abi: shared/kernova_abi.h, the structs and numbers of the device contract.
-- - Backend: src/virtualization/hypervisor_backend.cpp and its header. One module for each class:
--   Backend.Userspace (UserspacePoCBackend), Backend.Kernel (KernelDriverBackend), Backend.Intel
--   (IntelVmxBackend), Backend.Amd (AmdSvmBackend). Backend.Dispatch has the four objects, the
--   virtual calls and `select_backend`. Their child modules have the proofs.
-- - Globals: the global variables `g_hv_state` and `g_enclave` of src/main.cpp.
-- - Enclave: namespace enclave of src/main.cpp. Enclave.Contract is what it asks of the SIMD
--   routines; Enclave.Reversal, Transfer, Mailbox and Lifecycle have the proofs.
-- - Monitor: namespace monitor of src/main.cpp, with Monitor.Integrity.
-- - Hypervisor: namespaces config and testing, the public functions and `main` of src/main.cpp.
--   Hypervisor.Startup, Evidence, Strict, Run and Vmcall have the proofs; Hypervisor.Stubs has the
--   stubs of src/vmx_stubs.cpp too, Hypervisor.SelfTest the self test of the SIMD routines, and
--   Hypervisor.Assembled a run over the assembly of src/marshall and src/monitor.
-- - Driver: the Linux driver under service-kernel/linux. Driver.Svm, Driver.Pages and Driver.Layout
--   are amd_svm/amd_svm.c, Driver.Ioctl is kernova_main.c with intel_vmx/intel_vmx.c.
--   Driver.Invariant carries what the operations keep over sessions of ioctls; Driver.Session,
--   Built, Consent, Launch, Vmcb and Ready have the proofs, and Driver.Device and Boot put the
--   service's client on top of the driver.
-- - Simd: src/marshall/simd_packer.asm, a function for each routine; Simd.Hash is
--   `simd_hash_blocks`. Simd.Blocks is about the loops, Simd.Copy and Simd.Avx512 about what the
--   routines move, Simd.Hash.Lane and Change about the hash, and Simd.Contract puts the routines
--   behind the fields of `Host`.
-- - Trace: src/monitor/trace_engine.asm over its data section. Trace.Blind, Buffer, Compare and
--   Watch have the proofs, and Monitor.Engine puts the engine behind the fields of `Host`.
--   Host.Beside is the host whose machine has a state beside it.
-- - Vmx: the assembly of src/virtualization/intel_vmx. Vmx is core/vmx_init.asm, with Vmx.Start; a
--   region is a function from double words to numbers. Vmx.Vmcs is core/vmcs_config.asm: Setup is
--   about its result, Writes has the laws of VMWRITE, and Fields what the VMCS then holds. Vmx.Whole
--   puts the two files together, and Vmx.Service puts them behind the fields of `Host`. Vmx.Exit is
--   monitor/intercept.asm over the trace engine, with Handler, Record, Identity and Frame; Vmx.Boot
--   is boot/entry.asm over `hypervisor_init` and `hypervisor_main`, with Flow and Support. The
--   privileged instructions are the records `Instructions M`, `VmcsInstructions M`,
--   `ExitInstructions M` and `BootInstructions M`; where an instruction has its operand in memory,
--   its field takes the operand's address.
-- - Registers: include/registers.hpp. Registers.Descriptor is about the segment descriptors,
--   Registers.Control has the control registers, the MSRs and RFLAGS, with Enable and Restore, and
--   Registers.Features is `CPUID::get_features`.
-- - Prelude: shared types and lemmas. Examples: the theorems at concrete processors and hosts.
--
-- How code becomes a function. A method takes the fields of its object and the machine, and gives
-- its result beside the new fields and the new machine. A machine is any type `M`: what the service
-- calls and does not implement itself is the record `Host M`, a field for each call, so a theorem
-- over a `Host M` holds whatever the calls answer. The driver's calls, and its
-- module parameter, are the record `Ring0 M`. A
-- call stands before the guards that decide whether it is made; where a guard fails, its result and
-- its machine are dropped. A byte array is a function from indices to bytes, a pointer that may be
-- null an `Option`, a return code an integer (`Prelude.Codes`), and an unsigned integer a natural
-- number that is cut to its width where it can overflow. The reversal in `send_data` runs by
-- recursion on its number of rounds `size / 2`, and calls in a sequence are recursion on the list
-- of calls, so these need no fuel. The loops of the SIMD routines run on the fuel `size + 1`, which
-- is enough since each round moves at least one byte (Simd.Blocks). Assembly becomes a function
-- from the registers and the memory that it reads to those that it leaves; where a `ret` could miss
-- its address, the stack is a list of slots.
--
-- Not modelled: include/avx_macros.inc, which no routine uses; tables that nothing reads; what is
-- printed; the hidden parts of the segment registers. The stack of the VM-exit handler is a list of
-- slots, apart from the variables. The service's VMX routines are fields of `Host`: Hypervisor.Stubs
-- has the stubs there, which the usual build links, and Vmx.Service the assembly. Some theorems assume
-- `SimdContract`: what simd_packer.asm documents of three routines. Simd.Contract puts the assembly
-- there, for a processor without AVX-512; on a processor with it `simd_pack_data` is outside the
-- contract (Simd.Avx512), and a theorem that assumes the contract says nothing of the assembly.
pub mod Prelude
pub mod Cpu
pub mod Svm
pub mod Abi
pub mod Host
pub mod Backend
pub mod Driver
pub mod Simd
pub mod Trace
pub mod Vmx
pub mod Globals
pub mod Enclave
pub mod Monitor
pub mod Hypervisor
pub mod Registers
mod Examples
