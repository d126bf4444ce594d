-- ===== src/Cpu.antt =====
-- CPU feature detection: include/virtualization/cpu_features.hpp and
-- src/virtualization/cpu_features.cpp, both under service-api/service-cpp.
-- The CPUID instruction is a parameter: the four registers that each leaf and subleaf gives.
pub mod Text
pub mod Vendor
pub mod Features
pub mod Report
use kernova_tee.Prelude.{
  ℕ, ◌/◌, ◌%◌, ◌^◌, Bool, true, false, ◌&&◌, not, List, [], ◌∷◌, ◌++◌, String, bit_and, u8, ◌>>>◌,
  flag, leb, ◌==◌, if◌then◌else◌,
}

pub record Registers : Type 0 where
  pub eax : ℕ
  pub ebx : ℕ
  pub ecx : ℕ
  pub edx : ℕ

abbrev pub Cpuid : Type 0
Cpuid = ℕ → ℕ → Registers

pub data CpuVendor : Type 0 where
  intel amd unknown : CpuVendor

-- `char vendor_id[13]` is the list of its bytes.
pub record CpuFeatures : Type 0 where
  pub vendor : CpuVendor
  pub vendor_id : List ℕ
  pub vmx : Bool
  pub svm : Bool
  pub avx2 : Bool
  pub avx512 : Bool
  pub svm_revision : ℕ
  pub svm_asid_count : ℕ
  pub svm_nested_paging : Bool
  pub svm_lbr_virtualization : Bool
  pub svm_lock : Bool
  pub svm_nrip_save : Bool
  pub svm_tsc_rate_msr : Bool
  pub svm_vmcb_clean : Bool
  pub svm_flush_by_asid : Bool
  pub svm_decode_assists : Bool
  pub svm_pause_filter : Bool
  pub svm_pause_filter_threshold : Bool
  pub svm_avic : Bool
  pub svm_vmsave_virtualization : Bool
  pub svm_vgif : Bool

-- `CpuFeatures features{}`
unfoldable pub no_features : CpuFeatures
no_features = record {
  vendor = unknown;
  vendor_id = 0 ∷ 0 ∷ 0 ∷ 0 ∷ 0 ∷ 0 ∷ 0 ∷ 0 ∷ 0 ∷ 0 ∷ 0 ∷ 0 ∷ 0 ∷ [];
  vmx = false;
  svm = false;
  avx2 = false;
  avx512 = false;
  svm_revision = 0;
  svm_asid_count = 0;
  svm_nested_paging = false;
  svm_lbr_virtualization = false;
  svm_lock = false;
  svm_nrip_save = false;
  svm_tsc_rate_msr = false;
  svm_vmcb_clean = false;
  svm_flush_by_asid = false;
  svm_decode_assists = false;
  svm_pause_filter = false;
  svm_pause_filter_threshold = false;
  svm_avic = false;
  svm_vmsave_virtualization = false;
  svm_vgif = false;
}

-- The bytes that `memcpy` takes from a uint32_t: the lowest first.
abbrev pub bytes_of : ℕ → List ℕ
bytes_of x = u8 x ∷ u8 (x >>> 8) ∷ u8 (x >>> 16) ∷ u8 (x >>> 24) ∷ []

-- The text that a char array holds: up to its first NUL.
pub c_string : List ℕ → List ℕ
c_string [] = []
c_string (c ∷ cs) = if c == 0 then [] else c ∷ c_string cs

pub same_bytes : List ℕ → List ℕ → Bool
same_bytes [] [] = true
same_bytes [] (d ∷ ds) = false
same_bytes (c ∷ cs) [] = false
same_bytes (c ∷ cs) (d ∷ ds) = c == d && same_bytes cs ds

-- `strcmp(a, text) == 0`, for a text without NUL
pub is_text : List ℕ → List ℕ → Bool
unfolding c_string same_bytes
is_text a text = same_bytes (c_string a) text

abbrev pub genuine_intel : List ℕ
genuine_intel =
    b'G' ∷ b'e' ∷ b'n' ∷ b'u' ∷ b'i' ∷ b'n' ∷ b'e' ∷ b'I' ∷ b'n' ∷ b't' ∷ b'e' ∷ b'l' ∷ []

abbrev pub authentic_amd : List ℕ
authentic_amd =
    b'A' ∷ b'u' ∷ b't' ∷ b'h' ∷ b'e' ∷ b'n' ∷ b't' ∷ b'i' ∷ b'c' ∷ b'A' ∷ b'M' ∷ b'D' ∷ []

vendor_of : List ℕ → CpuVendor
unfolding is_text
vendor_of id =
    if is_text id genuine_intel then intel else if is_text id authentic_amd then amd else unknown

-- Lines 21-31: leaf 0.
read_vendor : Registers → CpuFeatures → CpuFeatures
unfolding vendor_of
read_vendor r f =
    let id : List ℕ = bytes_of r.ebx ++ bytes_of r.edx ++ bytes_of r.ecx ++ 0 ∷ [] in
    record f { vendor_id = id; vendor = vendor_of id }

-- Lines 40-44: the largest extended leaf is asked for before leaf 0x80000001 is read.
read_svm : Cpuid → CpuFeatures → CpuFeatures
read_svm cpuid f =
    if leb 0x80000001 (cpuid 0x80000000 0).eax
    then record f { svm = flag (cpuid 0x80000001 0).ecx 2 }
    else f

-- Lines 49-63: leaf 0x8000000A.
svm_details : Registers → CpuFeatures → CpuFeatures
svm_details r f = record f {
  svm_revision = bit_and r.eax 0xff;
  svm_asid_count = r.ebx;
  svm_nested_paging = flag r.edx 0;
  svm_lbr_virtualization = flag r.edx 1;
  svm_lock = flag r.edx 2;
  svm_nrip_save = flag r.edx 3;
  svm_tsc_rate_msr = flag r.edx 4;
  svm_vmcb_clean = flag r.edx 5;
  svm_flush_by_asid = flag r.edx 6;
  svm_decode_assists = flag r.edx 7;
  svm_pause_filter = flag r.edx 10;
  svm_pause_filter_threshold = flag r.edx 12;
  svm_avic = flag r.edx 13;
  svm_vmsave_virtualization = flag r.edx 15;
  svm_vgif = flag r.edx 16;
}

-- Lines 46-64.
read_svm_details : Cpuid → CpuFeatures → CpuFeatures
unfolding svm_details
read_svm_details cpuid f =
    if f.svm && leb 0x8000000a (cpuid 0x80000000 0).eax
    then svm_details (cpuid 0x8000000a 0) f
    else f

unfoldable pub detect_cpu_features : Cpuid → CpuFeatures
unfolding no_features read_vendor read_svm read_svm_details
detect_cpu_features cpuid =
    let named = read_vendor (cpuid 0 0) no_features in
    let basic = record named { vmx = flag (cpuid 1 0).ecx 5 } in
    let extended = record basic {
      avx2 = flag (cpuid 7 0).ebx 5;
      avx512 = flag (cpuid 7 0).ebx 16;
    } in
    read_svm_details cpuid (read_svm cpuid extended)

pub cpu_vendor_name : CpuVendor → String
cpu_vendor_name intel = "Intel"
cpu_vendor_name amd = "AMD"
cpu_vendor_name unknown = "Unknown"
