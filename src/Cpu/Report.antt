-- ===== src/Cpu/Report.antt =====
-- What `detect_cpu_features` tells of a processor, against its manual.
use kernova_tee.Prelude.{
  ℕ, ◌≤◌, ◌%◌, ◌/◌, ◌^◌, ◌≡◌, ◌↔◌, ◌⊎◌, inl, inr, Bool, true, List, [], ◌∷◌, arith, flag,
}
use kernova_tee.Cpu.{Cpuid, CpuFeatures, intel, amd, detect_cpu_features}
use kernova_tee.Cpu.Vendor.{IsRegisters, IsIntel, IsAmd, vendor_iff}
use kernova_tee.Cpu.Features.{HasNoSvmDetails, flag_iff, svm_iff, svm_details_lem}

-- The 13 features of SVM, by the bit of EDX of leaf 0x8000000A that the manual gives them.
abbrev pub svm_flags : CpuFeatures → List (ℕ × Bool)
svm_flags f =
    (0, f.svm_nested_paging)
    ∷ (1, f.svm_lbr_virtualization)
    ∷ (2, f.svm_lock)
    ∷ (3, f.svm_nrip_save)
    ∷ (4, f.svm_tsc_rate_msr)
    ∷ (5, f.svm_vmcb_clean)
    ∷ (6, f.svm_flush_by_asid)
    ∷ (7, f.svm_decode_assists)
    ∷ (10, f.svm_pause_filter)
    ∷ (12, f.svm_pause_filter_threshold)
    ∷ (13, f.svm_avic)
    ∷ (15, f.svm_vmsave_virtualization)
    ∷ (16, f.svm_vgif)
    ∷ []

-- Each feature is there exactly if its bit is 1.
abbrev pub AllTold : ℕ → List (ℕ × Bool) → Type 0
AllTold edx [] = Unit
AllTold edx ((k, b) ∷ rows) = ((b ≡ true) ↔ (edx / 2 ^ k % 2 ≡ 1)) × AllTold edx rows

-- The processor has SVM and the leaf that describes it.
abbrev pub HasSvmLeaf : Cpuid → Type 0
HasSvmLeaf cpuid = (0x8000000a ≤ (cpuid 0x80000000 0).eax) × ((cpuid 0x80000001 0).ecx / 4 % 2 ≡ 1)

unfoldable pub IsReport : Cpuid → CpuFeatures → Type 0
IsReport cpuid f =
    ((f.vendor ≡ intel) ↔ IsIntel (cpuid 0 0))
    × ((f.vendor ≡ amd) ↔ IsAmd (cpuid 0 0))
    × ((f.svm ≡ true)
        ↔ ((0x80000001 ≤ (cpuid 0x80000000 0).eax) × ((cpuid 0x80000001 0).ecx / 4 % 2 ≡ 1)))
    × ((f.vmx ≡ true) ↔ ((cpuid 1 0).ecx / 2 ^ 5 % 2 ≡ 1))
    × ((f.avx2 ≡ true) ↔ ((cpuid 7 0).ebx / 2 ^ 5 % 2 ≡ 1))
    × ((f.avx512 ≡ true) ↔ ((cpuid 7 0).ebx / 2 ^ 16 % 2 ≡ 1))
    × ((HasSvmLeaf cpuid
          × (f.svm_revision ≡ (cpuid 0x8000000a 0).eax % 256)
          × (f.svm_asid_count ≡ (cpuid 0x8000000a 0).ebx)
          × AllTold (cpuid 0x8000000a 0).edx (svm_flags f))
        ⊎ (¬ (HasSvmLeaf cpuid) × HasNoSvmDetails f))

abbrev flags_of : ℕ → List ℕ → List (ℕ × Bool)
flags_of edx [] = []
flags_of edx (k ∷ ks) = (k, flag edx k) ∷ flags_of edx ks

AllTold-flags_of : (edx : ℕ) (ks : List ℕ) → AllTold edx (flags_of edx ks)
AllTold-flags_of edx [] = tt
AllTold-flags_of edx (k ∷ ks) = (flag_iff edx k, AllTold-flags_of edx ks)

abbrev bits : List ℕ
bits = 0 ∷ 1 ∷ 2 ∷ 3 ∷ 4 ∷ 5 ∷ 6 ∷ 7 ∷ 10 ∷ 12 ∷ 13 ∷ 15 ∷ 16 ∷ []

AllTold-bits : (edx : ℕ) (rows : List (ℕ × Bool)) → rows ≡ flags_of edx bits → AllTold edx rows
AllTold-bits edx rows e = rw e (AllTold-flags_of edx bits)

module _ (cpuid : Cpuid) where
  svm_flags-detect :
      (detect_cpu_features cpuid).svm ≡ true
      → 0x8000000a ≤ (cpuid 0x80000000 0).eax
      → svm_flags (detect_cpu_features cpuid) ≡ flags_of (cpuid 0x8000000a 0).edx bits
  unfolding detect_cpu_features
  svm_flags-detect on top = ground (arith, on, top)

  basic-detect :
      let f = detect_cpu_features cpuid in
      (f.vmx ≡ flag (cpuid 1 0).ecx 5)
      × (f.avx2 ≡ flag (cpuid 7 0).ebx 5)
      × (f.avx512 ≡ flag (cpuid 7 0).ebx 16)
  unfolding detect_cpu_features
  basic-detect = ground arith

  -- On a processor whose leaf 0 holds 32-bit registers, `detect_cpu_features` names Intel and AMD exactly
  -- by the words of their vendor strings. It reports VMX exactly by bit 5 of ECX of leaf 1, AVX2 and
  -- AVX-512 by bits 5 and 16 of EBX of leaf 7, and SVM by bit 2 of ECX of leaf 0x80000001, where the
  -- processor has that leaf. If it has leaf 0x8000000A too and the bit of SVM is 1, the revision is the low
  -- byte of that leaf's EAX, the ASID count is its EBX, and each of the 13 features is there exactly if its
  -- bit of EDX is 1; if not, both numbers are 0 and there is none of the 13.
  pub detect_cpu_features-IsReport :
      IsRegisters (cpuid 0 0) → IsReport cpuid (detect_cpu_features cpuid)
  unfolding IsReport
  detect_cpu_features-IsReport narrow =
      let vendor = vendor_iff cpuid narrow in
      let svm = svm_iff cpuid in
      (
        vendor.0,
        vendor.1,
        svm,
        rw basic-detect.0 (flag_iff (cpuid 1 0).ecx 5),
        rw basic-detect.1 (flag_iff (cpuid 7 0).ebx 5),
        rw basic-detect.2 (flag_iff (cpuid 7 0).ebx 16),
        elim (svm_details_lem cpuid) [
          | inl (on, top, revision, asids) ↦ inl (
            (top, (svm.0 on).1),
            revision,
            asids,
            AllTold-bits (cpuid 0x8000000a 0).edx _ (svm_flags-detect on top),
          )
          | inr (inl off, bare) ↦
              inr (λ h. absurd (ground (arith, off, svm.1 (omega (arith, h.0), h.1))), bare)
          | inr (inr low, bare) ↦ inr (λ h. omega (arith, low, h.0), bare)
        ],
      )
