-- ===== src/Simd/Avx512.antt =====
-- What packing does on a processor with AVX-512.
use kernova_tee.Prelude.{
  ℕ, ◌+◌, ◌-◌, ◌%◌, ◌^◌, ◌<◌, ◌≡◌, ◌≢◌, refl, ap, ◌⊎◌, inl, inr, true, false, [], ◌∷◌, some, leb,
  ◌==◌, Bool-cases, arith, Bytes, copy, bit_and,
}
use kernova_tee.Cpu.{Cpuid}
use kernova_tee.Simd.{
  return_address, saved, Exit, returned, wild_jump, end_256bit, end_512bit, simd_pack_256bit,
  simd_pack_512bit, check_avx512_support, simd_pack_data, fuel_for,
}
use kernova_tee.Simd.Blocks.{blocks-Ends, blocks_start}

-- With a saved register where its return address should be, `simd_pack_256bit` ends in a wild jump.
pack_256bit_wild :
    (src d : Bytes) (fuel at size m : ℕ)
    → size < 2 ^ 63
    → size < fuel
    → m ≡ at + 0
    → simd_pack_256bit fuel src at size (copy d src m) (saved ∷ return_address ∷ []) ≡ wild_jump
unfolding simd_pack_256bit end_256bit
pack_256bit_wild src d fuel at size m h q same =
    let (r, k, e, f, g, l) =
      blocks-Ends d src 32 fuel at size 0 (omega arith) (omega arith) h (omega arith)
        (omega arith) in
    rw (same, e) refl

-- Packing with AVX-512: no return address is reached unless whole blocks of 64 bytes are moved.
abbrev pub IsPacked : Bytes → Bytes → ℕ → Exit → Type 0
IsPacked d src size out =
    ((size % 64 ≡ 0) × (out ≡ returned 0 (copy d src size))) ⊎ ((size % 64 ≢ 0) × (out ≡ wild_jump))

pack_512bit-IsPacked :
    (src d : Bytes) (size : ℕ)
    → size < 2 ^ 63
    → IsPacked d src size (simd_pack_512bit (fuel_for size) src size d (return_address ∷ []))
unfolding simd_pack_512bit end_512bit
pack_512bit-IsPacked src d size h =
    let (r, k, e, f, g, l) =
      blocks_start d src 64 (fuel_for size) size (omega arith) (omega arith) h (omega arith) in
    elim (Bool-cases (size - r == 0)) [
      | inl whole ↦
          let same : size - r ≡ 0 = ground arith in
          rw (e, whole)
            (inl (omega arith, rw same (ap (returned 0) (ap (copy d src) (omega arith)))))
      | inr part ↦
          let left : size - r ≢ 0 = ground arith in
          rw (e, part)
            (inr (
              omega arith,
              pack_256bit_wild src d (fuel_for size) r (size - r) (0 + r) (omega arith)
                  (omega arith) (omega arith),
            ))
    ]

-- Packing 1 to 2^63 - 1 bytes with the AVX-512 flag, on a processor that reports AVX-512F: if the size is a
-- multiple of 64, all bytes are copied and the result is 0, not the size; if it is not, the routine does
-- not return to its caller: its `ret` takes a saved register for the address.
pub pack_avx512-IsPacked :
    (cpuid : Cpuid) (d src : Bytes) (size flags : ℕ)
    → check_avx512_support cpuid ≡ true
    → bit_and flags 1 ≡ 1
    → 0 < size
    → size < 2 ^ 63
    → IsPacked d src size (simd_pack_data cpuid (some d) (some src) size flags)
unfolding simd_pack_data
pack_avx512-IsPacked cpuid d src size flags wide asked some' h =
    let guard : (size == 0) ≡ false = ground arith in
    let signed : leb (2 ^ 63) size ≡ false = ground arith in
    rw (guard, signed, asked, wide) (pack_512bit-IsPacked src d size h)
