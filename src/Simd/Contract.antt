-- ===== src/Simd/Contract.antt =====
-- The routines fill what the enclave asks of them, on a processor without AVX-512.
use kernova_tee.Prelude.{
  ℕ, ◌-◌, ◌^◌, ◌<◌, ◌≡◌, refl, Bool, false, ◌&&◌, some, ltb, ◌==◌, if◌then◌else◌, Bytes, bit_and, ℤ,
  pos, negsuc, minus_one, arith,
}
use kernova_tee.Host.{Host}
use kernova_tee.Enclave.Contract.{SimdContract}
use kernova_tee.Simd.{
  Exit, returned, check_avx512_support, simd_pack_data, simd_unpack_data, simd_zero_memory,
}
use kernova_tee.Simd.Copy.{unpack_copies, zero_clears, pack_copies}

-- `rax` as the `int64_t` that main.cpp declares.
abbrev pub to_int64 : ℕ → ℤ
to_int64 rax = if ltb rax (2 ^ 63) then pos rax else negsuc (2 ^ 64 - 1 - rax)

-- A routine's result for its caller. What does not return has none; -1 and the old contents stand in.
abbrev pub result_of : Bytes → Exit → ℤ × Bytes
result_of d (returned rax a) = (to_int64 rax, a)
result_of d _ = (minus_one, d)

-- A host whose SIMD routines are these. `rax` is what the caller of `simd_zero_memory` had in it.
abbrev pub with_simd : {M : Type 0} → ℕ → Host M → Host M
with_simd rax host = record host {
  simd_pack_data =
      λ d s size flags. result_of d (simd_pack_data host.cpuid (some d) (some s) size flags);
  simd_unpack_data = λ d s size flags. result_of d (simd_unpack_data (some d) (some s) size flags);
  simd_zero_memory = λ a size. result_of a (simd_zero_memory rax (some a) size);
}

fits : (size : ℕ) → size < 2 ^ 63 → to_int64 size ≡ pos size
fits size h = ground arith

and_off : (a b : Bool) → b ≡ false → (a && b) ≡ false
and_off a b h = ground arith

-- On a processor whose CPUID does not report AVX-512F, the three assembly routines that the enclave calls
-- fill its contract: for a size that is a positive int64_t they return the size, and copy or clear
-- exactly that many bytes.
pub with_simd-SimdContract :
    {M : Type 0} (rax : ℕ) (host : Host M)
    → check_avx512_support host.cpuid ≡ false
    → SimdContract (with_simd rax host)
with_simd-SimdContract rax host narrow = record {
  packs = λ d s size flags p q.
      rw
        (
          pack_copies size p q host.cpuid d s flags
              (and_off (bit_and flags 1 == 1) (check_avx512_support host.cpuid) narrow),
          fits size q,
        )
        refl;
  unpacks = λ d s size flags p q. rw (unpack_copies size p q d s flags, fits size q) refl;
  clears = λ a size p q. rw (zero_clears size p q rax a, fits size q) refl;
}
