-- ===== src/Cpu/Features.antt =====
-- How the feature flags depend on each other, and where the SVM numbers come from.
use kernova_tee.Prelude.{
  ℕ, ◌<◌, ◌≤◌, ◌%◌, ◌/◌, ◌^◌, ◌≡◌, ◌↔◌, ◌⊎◌, Bool, true, false, arith, leb, flag, ◌&&◌,
}
use kernova_tee.Prelude.Bits.{bit_and-one, bit_and-mask}
use kernova_tee.Cpu.{Cpuid, CpuFeatures, detect_cpu_features}

-- The 15 fields that leaf 0x8000000A fills have their initial values.
abbrev pub HasNoSvmDetails : CpuFeatures → Type 0
HasNoSvmDetails f =
    (f.svm_revision ≡ 0)
    × (f.svm_asid_count ≡ 0)
    × (f.svm_nested_paging ≡ false)
    × (f.svm_lbr_virtualization ≡ false)
    × (f.svm_lock ≡ false)
    × (f.svm_nrip_save ≡ false)
    × (f.svm_tsc_rate_msr ≡ false)
    × (f.svm_vmcb_clean ≡ false)
    × (f.svm_flush_by_asid ≡ false)
    × (f.svm_decode_assists ≡ false)
    × (f.svm_pause_filter ≡ false)
    × (f.svm_pause_filter_threshold ≡ false)
    × (f.svm_avic ≡ false)
    × (f.svm_vmsave_virtualization ≡ false)
    × (f.svm_vgif ≡ false)

svm-detect :
    (cpuid : Cpuid)
    → (detect_cpu_features cpuid).svm
      ≡ (leb 0x80000001 (cpuid 0x80000000 0).eax && flag (cpuid 0x80000001 0).ecx 2)
unfolding detect_cpu_features
svm-detect cpuid = ground arith

pub flag_iff : (x k : ℕ) → (flag x k ≡ true) ↔ (x / 2 ^ k % 2 ≡ 1)
flag_iff x k = ground (arith, bit_and-one (x / 2 ^ k))

leb_and_iff : (a b : ℕ) (c : Bool) → ((leb a b && c) ≡ true) ↔ ((a ≤ b) × (c ≡ true))
leb_and_iff a b c = ground arith

-- SVM is reported exactly when the processor has leaf 0x80000001 and sets bit 2 of its ECX.
pub svm_iff :
    (cpuid : Cpuid)
    → ((detect_cpu_features cpuid).svm ≡ true)
      ↔ ((0x80000001 ≤ (cpuid 0x80000000 0).eax) × ((cpuid 0x80000001 0).ecx / 4 % 2 ≡ 1))
svm_iff cpuid =
    let split = leb_and_iff 0x80000001 (cpuid 0x80000000 0).eax (flag (cpuid 0x80000001 0).ecx 2) in
    let bit = flag_iff (cpuid 0x80000001 0).ecx 2 in
    rw (svm-detect cpuid) (λ e. ((split.0 e).0, bit.0 (split.0 e).1), λ h. split.1 (h.0, bit.1 h.1))

-- Either SVM is reported and leaf 0x8000000A exists, and then the revision is the low byte of its
-- EAX and the ASID count its EBX; or one of the two is missing, and then no SVM detail is reported.
pub svm_details_lem :
    (cpuid : Cpuid)
    → let f = detect_cpu_features cpuid in
      let top = (cpuid 0x80000000 0).eax in
      ((f.svm ≡ true)
        × (0x8000000a ≤ top)
        × (f.svm_revision ≡ (cpuid 0x8000000a 0).eax % 256)
        × (f.svm_asid_count ≡ (cpuid 0x8000000a 0).ebx))
      ⊎ (((f.svm ≡ false) ⊎ (top < 0x8000000a)) × HasNoSvmDetails f)
unfolding detect_cpu_features
svm_details_lem cpuid = ground (arith, bit_and-mask 8 (cpuid 0x8000000a 0).eax)
