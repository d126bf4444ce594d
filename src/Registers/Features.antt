-- ===== src/Registers/Features.antt =====
-- `CPUID::get_features` of include/registers.hpp.
use kernova_tee.Prelude.{ℕ, ◌≡◌, Bool, false, not, ◌==◌, bit_and, flag, arith}
use kernova_tee.Cpu.{Cpuid, detect_cpu_features}

pub record Features : Type 0 where
  pub eax_mmx : Bool
  pub eax_sse : Bool
  pub eax_sse2 : Bool
  pub ecx_sse3 : Bool
  pub ecx_ssse3 : Bool
  pub ecx_sse4_1 : Bool
  pub ecx_sse4_2 : Bool
  pub ecx_avx : Bool
  pub ecx_avx2 : Bool
  pub ecx_avx512 : Bool
  pub ecx_vmx : Bool
  pub ecx_rdrand : Bool

-- `Features features{}`
abbrev pub no_features : Features
no_features = record {
  eax_mmx = false;
  eax_sse = false;
  eax_sse2 = false;
  ecx_sse3 = false;
  ecx_ssse3 = false;
  ecx_sse4_1 = false;
  ecx_sse4_2 = false;
  ecx_avx = false;
  ecx_avx2 = false;
  ecx_avx512 = false;
  ecx_vmx = false;
  ecx_rdrand = false;
}

-- The first CPUID does not set `ecx`, so its subleaf is what the register holds.
unfoldable pub get_features : Cpuid → ℕ → Features
get_features cpuid ecx = record no_features {
  eax_sse = flag (cpuid 1 ecx).edx 25;
  eax_sse2 = flag (cpuid 1 ecx).edx 26;
  ecx_sse3 = not (bit_and (cpuid 1 ecx).ecx 1 == 0);
  ecx_ssse3 = flag (cpuid 1 ecx).ecx 9;
  ecx_sse4_1 = flag (cpuid 1 ecx).ecx 19;
  ecx_sse4_2 = flag (cpuid 1 ecx).ecx 20;
  ecx_avx = flag (cpuid 1 ecx).ecx 28;
  ecx_vmx = flag (cpuid 1 ecx).ecx 5;
  ecx_rdrand = flag (cpuid 1 ecx).ecx 30;
  ecx_avx2 = flag (cpuid 7 0).ebx 5;
  ecx_avx512 = flag (cpuid 7 0).ebx 16;
}

-- Where leaf 1 of CPUID does not depend on the subleaf, as its documentation has it, the two detections of
-- the processor agree on VMX, AVX2 and AVX-512, whatever the register `ecx` holds; and `eax_mmx` is false on
-- every processor.
pub get_features-detect :
    (cpuid : Cpuid) (ecx : ℕ)
    → cpuid 1 ecx ≡ cpuid 1 0
    → let f = get_features cpuid ecx in
      let g = detect_cpu_features cpuid in
      (f.ecx_vmx ≡ g.vmx) × (f.ecx_avx2 ≡ g.avx2) × (f.ecx_avx512 ≡ g.avx512) × (f.eax_mmx ≡ false)
unfolding get_features detect_cpu_features
get_features-detect cpuid ecx same = ground arith
