-- ===== src/Svm.antt =====
-- The AMD SVM capability model and its runtime context: include/virtualization/amd_svm.hpp and
-- src/virtualization/amd_svm/amd_svm.cpp, both under service-api/service-cpp.
-- A page is a function from offsets to bytes. A `const char*` that may be null is an `Option`.
pub mod Page
pub mod Runtime
use kernova_tee.Prelude.{
  ℕ, ◌+◌, ◌/◌, ◌%◌, ◌^◌, Bool, true, false, not, ◌&&◌, String, Option, none, some, bit_and, u8,
  ◌>>>◌, ◌==◌, if◌then◌else◌, Bytes, store, zeros, ℤ, pos, minus_one, minus_two,
}
use kernova_tee.Cpu.{CpuVendor, intel, amd, unknown, CpuFeatures}

pub data SvmRuntimeState : Type 0 where
  unsupported supported prepared launch_blocked launch_attempted : SvmRuntimeState

pub record SvmCapabilities : Type 0 where
  pub is_supported : Bool
  pub revision : ℕ
  pub asid_count : ℕ
  pub nested_paging : Bool
  pub lbr_virtualization : Bool
  pub svm_lock : Bool
  pub nrip_save : Bool
  pub tsc_rate_msr : Bool
  pub vmcb_clean : Bool
  pub flush_by_asid : Bool
  pub decode_assists : Bool
  pub pause_filter : Bool
  pub pause_filter_threshold : Bool
  pub avic : Bool
  pub vmsave_virtualization : Bool
  pub vgif : Bool

unfoldable pub no_capabilities : SvmCapabilities
no_capabilities = record {
  is_supported = false;
  revision = 0;
  asid_count = 0;
  nested_paging = false;
  lbr_virtualization = false;
  svm_lock = false;
  nrip_save = false;
  tsc_rate_msr = false;
  vmcb_clean = false;
  flush_by_asid = false;
  decode_assists = false;
  pause_filter = false;
  pause_filter_threshold = false;
  avic = false;
  vmsave_virtualization = false;
  vgif = false;
}

unfoldable pub has_minimum_runtime_support : SvmCapabilities → Bool
has_minimum_runtime_support c = c.is_supported && not (c.revision == 0) && not (c.asid_count == 0)

abbrev pub vmcb_size : ℕ
vmcb_size = 4096

abbrev pub vmcb_control_area_size : ℕ
vmcb_control_area_size = 1024

-- The three parts of the VMCB page.
pub record Vmcb : Type 0 where
  pub control_area : Bytes
  pub save_state_area : Bytes
  pub reserved : Bytes

pub record HostSaveArea : Type 0 where
  pub bytes : Bytes

pub record SvmRuntimeContext : Type 0 where
  pub vmcb : Vmcb
  pub host_save_area : HostSaveArea
  pub capabilities : SvmCapabilities
  pub state : SvmRuntimeState
  pub last_error : Option String

abbrev pub is_amd : CpuVendor → Bool
is_amd intel = false
is_amd amd = true
is_amd unknown = false

unfoldable pub capabilities_from_cpu_features : CpuFeatures → SvmCapabilities
capabilities_from_cpu_features f = record {
  is_supported = is_amd f.vendor && f.svm;
  revision = f.svm_revision;
  asid_count = f.svm_asid_count;
  nested_paging = f.svm_nested_paging;
  lbr_virtualization = f.svm_lbr_virtualization;
  svm_lock = f.svm_lock;
  nrip_save = f.svm_nrip_save;
  tsc_rate_msr = f.svm_tsc_rate_msr;
  vmcb_clean = f.svm_vmcb_clean;
  flush_by_asid = f.svm_flush_by_asid;
  decode_assists = f.svm_decode_assists;
  pause_filter = f.svm_pause_filter;
  pause_filter_threshold = f.svm_pause_filter_threshold;
  avic = f.svm_avic;
  vmsave_virtualization = f.svm_vmsave_virtualization;
  vgif = f.svm_vgif;
}

-- `vmcb = Vmcb{}` and `host_save_area = HostSaveArea{}`: the old contents do not matter.
unfoldable pub initialize_vmcb : Vmcb → Vmcb
initialize_vmcb v = record { control_area = zeros; save_state_area = zeros; reserved = zeros }

unfoldable pub initialize_host_save_area : HostSaveArea → HostSaveArea
initialize_host_save_area h = record { bytes = zeros }

-- `SvmRuntimeContext{}`
unfoldable pub new_context : SvmRuntimeContext
unfolding no_capabilities
new_context = record {
  vmcb = record { control_area = zeros; save_state_area = zeros; reserved = zeros };
  host_save_area = record { bytes = zeros };
  capabilities = no_capabilities;
  state = unsupported;
  last_error = some "not initialized";
}

unfoldable pub write16 : Vmcb → ℕ → ℕ → Vmcb
write16 v offset value =
    let low = store v.control_area (offset + 0) (u8 (bit_and value 0xff)) in
    record v { control_area = store low (offset + 1) (u8 (bit_and (value >>> 8) 0xff)) }

unfoldable pub write32 : Vmcb → ℕ → ℕ → Vmcb
write32 v offset value =
    let a = store v.control_area (offset + 0) (u8 (bit_and value 0xff)) in
    let b = store a (offset + 1) (u8 (bit_and (value >>> 8) 0xff)) in
    let c = store b (offset + 2) (u8 (bit_and (value >>> 16) 0xff)) in
    record v { control_area = store c (offset + 3) (u8 (bit_and (value >>> 24) 0xff)) }

unfoldable pub prepare_minimal_vmcb : Vmcb → SvmCapabilities → Vmcb
unfolding initialize_vmcb write16 write32
prepare_minimal_vmcb vmcb c =
    let v = initialize_vmcb vmcb in
    let reads = write16 v 0x000 0xffff in
    let writes = write16 reads 0x002 0xffff in
    let intercepts = write32 writes 0x00c 1 in
    let paging = if c.nested_paging then write32 intercepts 0x090 1 else intercepts in
    if c.vmcb_clean then write32 paging 0x0c0 0 else paging

unfoldable pub capability_summary : SvmCapabilities → String
unfolding has_minimum_runtime_support
capability_summary c =
    if not c.is_supported
    then "AMD SVM is not advertised by CPUID"
    else if not (has_minimum_runtime_support c)
    then "AMD SVM is present, but minimum runtime metadata is incomplete"
    else if c.nested_paging && c.nrip_save
    then "AMD SVM is present with nested paging and NRIP save"
    else "AMD SVM is present with baseline VMRUN support"

-- The context and the returned code.
unfoldable pub prepare_runtime_context : SvmRuntimeContext → CpuFeatures → SvmRuntimeContext × ℤ
unfolding new_context capabilities_from_cpu_features
prepare_runtime_context old f =
    let context = record new_context { capabilities = capabilities_from_cpu_features f } in
    if not (has_minimum_runtime_support context.capabilities)
    then (
      record context {
        state = unsupported;
        last_error = some (capability_summary context.capabilities);
      },
      minus_one,
    )
    else (
      record context {
        host_save_area = initialize_host_save_area context.host_save_area;
        vmcb = prepare_minimal_vmcb context.vmcb context.capabilities;
        state = prepared;
        last_error = some "AMD SVM runtime context prepared; VMRUN requires privileged execution";
      },
      pos 0,
    )

abbrev pub is_prepared : SvmRuntimeState → Bool
is_prepared prepared = true
is_prepared _ = false

unfoldable pub attempt_vmrun : SvmRuntimeContext → SvmRuntimeContext × ℤ
attempt_vmrun context =
    if not (is_prepared context.state)
    then (record context { last_error = some "AMD SVM context is not prepared" }, minus_one)
    else (
      record context {
        state = launch_blocked;
        last_error =
            some
              "VMRUN is blocked in userspace builds; use the Linux kernel driver for privileged execution";
      },
      minus_two,
    )

unfoldable pub runtime_state_name : SvmRuntimeState → String
runtime_state_name unsupported = "unsupported"
runtime_state_name supported = "supported"
runtime_state_name prepared = "prepared"
runtime_state_name launch_blocked = "launch-blocked"
runtime_state_name launch_attempted = "launch-attempted"
