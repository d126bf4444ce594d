-- ===== src/Backend/Amd.antt =====
-- `AmdSvmBackend`: its only state is the SVM runtime context.
pub mod Blocked
use kernova_tee.Prelude.{
  Bool, true, false, not, String, Option, none, some, if◌then◌else◌, ℤ, pos, is_zero, minus_one,
}
use kernova_tee.Cpu.{Cpuid, detect_cpu_features}
use kernova_tee.Svm.{
  SvmRuntimeContext, new_context, capabilities_from_cpu_features, has_minimum_runtime_support,
  runtime_state_name, capability_summary, prepare_runtime_context, attempt_vmrun, is_prepared,
}
use kernova_tee.Backend.{BackendStatus, amd_svm}

-- `last_error ? last_error : summary`
abbrev or_summary : Option String → String → String
or_summary none summary = summary
or_summary (some e) summary = e

module _ (cpuid : Cpuid) where
  unfoldable pub status : SvmRuntimeContext → BackendStatus
  status context =
      let cpu = detect_cpu_features cpuid in
      let capabilities = capabilities_from_cpu_features cpu in
      record {
        kind = amd_svm;
        cpu = cpu;
        hardware_supported = has_minimum_runtime_support capabilities;
        hardware_validated = false;
        kernel_driver_available = false;
        mode = runtime_state_name context.state;
        reason = or_summary context.last_error (capability_summary capabilities);
      }

  unfoldable pub init : SvmRuntimeContext → ℤ × SvmRuntimeContext
  init context =
      let (context', result) = prepare_runtime_context context (detect_cpu_features cpuid) in
      if not (is_zero result) then (result, context') else (pos 0, context')

unfoldable pub setup_guest : SvmRuntimeContext → ℤ
setup_guest context = if not (is_prepared context.state) then minus_one else pos 0

unfoldable pub launch : SvmRuntimeContext → ℤ × SvmRuntimeContext
launch context = let (context', result) = attempt_vmrun context in (result, context')

unfoldable pub shutdown : SvmRuntimeContext → SvmRuntimeContext
shutdown context = new_context
