-- ===== src/Cpu/Vendor.antt =====
-- Which leaf-0 registers name which vendor.
use kernova_tee.Prelude.{ℕ, ◌<◌, ◌^◌, ◌≡◌, refl, ◌↔◌, List, [], ◌∷◌, ◌++◌, arith, length}
use kernova_tee.Cpu.{
  Registers, intel, amd, Cpuid, bytes_of, genuine_intel, authentic_amd, vendor_of,
  detect_cpu_features,
}
use kernova_tee.Cpu.Text.{eq_of_is_text}

-- The registers hold 32 bits each.
abbrev pub IsRegisters : Registers → Type 0
IsRegisters r = (r.eax < 2 ^ 32) × (r.ebx < 2 ^ 32) × (r.ecx < 2 ^ 32) × (r.edx < 2 ^ 32)

abbrev id_bytes : Registers → List ℕ
id_bytes r = bytes_of r.ebx ++ bytes_of r.edx ++ bytes_of r.ecx

vendor-detect :
    (cpuid : Cpuid)
    → (detect_cpu_features cpuid).vendor ≡ vendor_of (id_bytes (cpuid 0 0) ++ 0 ∷ [])
unfolding detect_cpu_features
vendor-detect cpuid = ground arith

-- Leaf 0 of an Intel processor, as the processor manual gives it.
abbrev pub IsIntel : Registers → Type 0
IsIntel r = (r.ebx ≡ 0x756e6547) × (r.edx ≡ 0x49656e69) × (r.ecx ≡ 0x6c65746e)

-- Leaf 0 of an AMD processor.
abbrev pub IsAmd : Registers → Type 0
IsAmd r = (r.ebx ≡ 0x68747541) × (r.edx ≡ 0x69746e65) × (r.ecx ≡ 0x444d4163)

IsIntel-id_bytes : (r : Registers) → IsRegisters r → id_bytes r ≡ genuine_intel → IsIntel r
IsIntel-id_bytes r h e = ground arith

IsAmd-id_bytes : (r : Registers) → IsRegisters r → id_bytes r ≡ authentic_amd → IsAmd r
IsAmd-id_bytes r h e = ground arith

intel_text : (id : List ℕ) → length id ≡ 12 → vendor_of (id ++ 0 ∷ []) ≡ intel → id ≡ genuine_intel
unfolding vendor_of
intel_text id n e = ground (arith, eq_of_is_text id genuine_intel n (ground arith))

amd_text : (id : List ℕ) → length id ≡ 12 → vendor_of (id ++ 0 ∷ []) ≡ amd → id ≡ authentic_amd
unfolding vendor_of
amd_text id n e = ground (arith, eq_of_is_text id authentic_amd n (ground arith))

IsIntel-vendor : (r : Registers) → IsIntel r → vendor_of (id_bytes r ++ 0 ∷ []) ≡ intel
unfolding vendor_of
IsIntel-vendor r h = rw (h.0, h.1, h.2)

IsAmd-vendor : (r : Registers) → IsAmd r → vendor_of (id_bytes r ++ 0 ∷ []) ≡ amd
unfolding vendor_of
IsAmd-vendor r h = rw (h.0, h.1, h.2)

-- With 32-bit registers, the vendor is Intel exactly when leaf 0 holds the three words of
-- `GenuineIntel`, and AMD exactly when it holds those of `AuthenticAMD`.
pub vendor_iff :
    (cpuid : Cpuid)
    → IsRegisters (cpuid 0 0)
    → (((detect_cpu_features cpuid).vendor ≡ intel) ↔ IsIntel (cpuid 0 0))
      × (((detect_cpu_features cpuid).vendor ≡ amd) ↔ IsAmd (cpuid 0 0))
vendor_iff cpuid h = rw (vendor-detect cpuid) (
  (λ e. IsIntel-id_bytes (cpuid 0 0) h (intel_text _ refl e), IsIntel-vendor (cpuid 0 0)),
  (λ e. IsAmd-id_bytes (cpuid 0 0) h (amd_text _ refl e), IsAmd-vendor (cpuid 0 0)),
)
