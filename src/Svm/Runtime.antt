-- ===== src/Svm/Runtime.antt =====
-- When a processor has what the SVM runtime context needs, and what preparing the context does.
use kernova_tee.Prelude.{
  ◌%◌, ◌/◌, ◌≤◌, ◌≡◌, ◌≢◌, ◌↔◌, ◌⊎◌, inl, inr, true, false, arith, Bool-cases, some, pos, minus_one,
}
use kernova_tee.Cpu.{Cpuid, CpuFeatures, detect_cpu_features, amd}
use kernova_tee.Cpu.Vendor.{IsRegisters, IsAmd, vendor_iff}
use kernova_tee.Cpu.Features.{svm_iff, svm_details_lem}
use kernova_tee.Svm.{
  SvmRuntimeContext, unsupported, prepared, has_minimum_runtime_support,
  capabilities_from_cpu_features, capability_summary, prepare_minimal_vmcb, new_context,
  initialize_host_save_area, prepare_runtime_context,
}

-- The processor is an AMD one that advertises SVM, and leaf 0x8000000A exists and gives a revision
-- and an ASID count that are not 0.
abbrev pub CanRunSvm : Cpuid → Type 0
CanRunSvm cpuid =
    IsAmd (cpuid 0 0)
    × ((cpuid 0x80000001 0).ecx / 4 % 2 ≡ 1)
    × (0x8000000a ≤ (cpuid 0x80000000 0).eax)
    × ((cpuid 0x8000000a 0).eax % 256 ≢ 0)
    × ((cpuid 0x8000000a 0).ebx ≢ 0)

minimum_of_features :
    (f : CpuFeatures)
    → (has_minimum_runtime_support (capabilities_from_cpu_features f) ≡ true)
      ↔ ((f.vendor ≡ amd) × (f.svm ≡ true) × (f.svm_revision ≢ 0) × (f.svm_asid_count ≢ 0))
unfolding has_minimum_runtime_support capabilities_from_cpu_features
minimum_of_features f = ground arith

-- With SVM reported, a revision or an ASID count that is not 0 comes from leaf 0x8000000A.
details_present :
    (cpuid : Cpuid)
    → (detect_cpu_features cpuid).svm_revision ≢ 0
    → (0x8000000a ≤ (cpuid 0x80000000 0).eax)
      × ((detect_cpu_features cpuid).svm_revision ≡ (cpuid 0x8000000a 0).eax % 256)
      × ((detect_cpu_features cpuid).svm_asid_count ≡ (cpuid 0x8000000a 0).ebx)
details_present cpuid h = elim (svm_details_lem cpuid) [
  | inl (svm, top, revision, asids) ↦ (top, revision, asids)
  | inr (why, none) ↦ absurd (h none.0)
]

details_read :
    (cpuid : Cpuid)
    → (detect_cpu_features cpuid).svm ≡ true
    → 0x8000000a ≤ (cpuid 0x80000000 0).eax
    → ((detect_cpu_features cpuid).svm_revision ≡ (cpuid 0x8000000a 0).eax % 256)
      × ((detect_cpu_features cpuid).svm_asid_count ≡ (cpuid 0x8000000a 0).ebx)
details_read cpuid svm top = elim (svm_details_lem cpuid) [
  | inl (svm', top', revision, asids) ↦ (revision, asids)
  | inr (inl off, none) ↦ cc
  | inr (inr low, none) ↦ absurd (omega arith)
]

-- With 32-bit registers in leaf 0, the capability model accepts a processor exactly when it can run
-- SVM in the sense of `CanRunSvm`.
pub minimum_iff :
    (cpuid : Cpuid)
    → IsRegisters (cpuid 0 0)
    → (has_minimum_runtime_support (capabilities_from_cpu_features (detect_cpu_features cpuid))
        ≡ true)
      ↔ CanRunSvm cpuid
minimum_iff cpuid regs = (can_run, has_minimum)
  where
    f : CpuFeatures
    f = detect_cpu_features cpuid

    can_run :
        has_minimum_runtime_support (capabilities_from_cpu_features f) ≡ true → CanRunSvm cpuid
    can_run e =
        let (vendor, svm, revision, asids) = (minimum_of_features f).0 e in
        let (top, low, count) = details_present cpuid revision in
        (
          (vendor_iff cpuid regs).1.0 vendor,
          ((svm_iff cpuid).0 svm).1,
          top,
          rw low at revision,
          rw count at asids,
        )

    has_minimum :
        CanRunSvm cpuid → has_minimum_runtime_support (capabilities_from_cpu_features f) ≡ true
    has_minimum (named, bit, top, revision, asids) =
        let svm = (svm_iff cpuid).1 (omega arith, bit) in
        let (low, count) = details_read cpuid svm top in
        (minimum_of_features f).1
          ((vendor_iff cpuid regs).1.1 named, svm, rw low revision, rw count asids)

-- The context that is prepared on a processor with the minimum support.
abbrev pub prepared_context : CpuFeatures → SvmRuntimeContext
prepared_context f = record {
  vmcb = prepare_minimal_vmcb new_context.vmcb (capabilities_from_cpu_features f);
  host_save_area = initialize_host_save_area new_context.host_save_area;
  capabilities = capabilities_from_cpu_features f;
  state = prepared;
  last_error = some "AMD SVM runtime context prepared; VMRUN requires privileged execution";
}

-- Preparing forgets the old context. With the minimum support it returns 0 and the prepared context;
-- without, it returns -1 and a fresh context that is marked unsupported, with the summary as its error.
pub prepare_cases :
    (old : SvmRuntimeContext) (f : CpuFeatures)
    → ((has_minimum_runtime_support (capabilities_from_cpu_features f) ≡ true)
        × (prepare_runtime_context old f ≡ (prepared_context f, pos 0)))
      ⊎ ((has_minimum_runtime_support (capabilities_from_cpu_features f) ≡ false)
          × (prepare_runtime_context old f ≡ (
            record new_context {
              capabilities = capabilities_from_cpu_features f;
              state = unsupported;
              last_error = some (capability_summary (capabilities_from_cpu_features f));
            },
            minus_one,
          )))
unfolding prepare_runtime_context
prepare_cases old f =
    elim (Bool-cases (has_minimum_runtime_support (capabilities_from_cpu_features f))) [
      | inl yes' ↦ inl (yes', rw (yes', prepare_runtime_context))
      | inr no' ↦ inr (no', rw (no', prepare_runtime_context))
    ]
