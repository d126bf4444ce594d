-- ===== src/Simd/Copy.antt =====
-- What the routines move on a processor without AVX-512, and where AVX-512 is not asked for.
use kernova_tee.Prelude.{
  ℕ, ◌^◌, ◌<◌, ◌≡◌, ap, ◌∙◌, inl, inr, false, ◌||◌, ◌&&◌, [], ◌∷◌, some, leb, ◌==◌, Bool-cases,
  arith, Bytes, copy, fill, zeros, bit_and,
}
use kernova_tee.Cpu.{Cpuid}
use kernova_tee.Simd.{
  return_address, returned, blocks, end_256bit, simd_pack_256bit, check_avx512_support,
  simd_pack_data, simd_unpack_data, simd_secure_memcpy, simd_zero_memory, fuel_for, finish,
}
use kernova_tee.Simd.Blocks.{blocks_start, rest_bytes-copy, pack_remaining-copy}

-- `simd_pack_256bit` from its start, with a return address on the stack.
pack_256bit_copies :
    (src d : Bytes) (size : ℕ)
    → size < 2 ^ 63
    → simd_pack_256bit (fuel_for size) src 0 size d (return_address ∷ [])
      ≡ returned size (copy d src size)
unfolding simd_pack_256bit end_256bit
pack_256bit_copies src d size h =
    let (r, k, e, f, g, l) =
      blocks_start d src 32 (fuel_for size) size (omega arith) (omega arith) h (omega arith) in
    rw e (ap (returned size) (pack_remaining-copy d src 0 size r g ∙ ap (copy d src) (omega arith)))

-- The tail of the other loops.
finish_copies :
    (src d : Bytes) (size : ℕ)
    → size < 2 ^ 63
    → finish src size (blocks src 32 (fuel_for size) 0 size 0 d) ≡ returned size (copy d src size)
finish_copies src d size h =
    let (r, k, e, f, g, l) =
      blocks_start d src 32 (fuel_for size) size (omega arith) (omega arith) h (omega arith) in
    rw e (ap (returned size) (rest_bytes-copy d src 0 size r g ∙ ap (copy d src) (omega arith)))

module _ (size : ℕ) (some' : 0 < size) (h : size < 2 ^ 63) where
  pub unpack_copies :
      (d src : Bytes) (flags : ℕ)
      → simd_unpack_data (some d) (some src) size flags ≡ returned size (copy d src size)
  unfolding simd_unpack_data
  unpack_copies d src flags =
      let guard : (size == 0 || leb (2 ^ 63) size) ≡ false = ground arith in
      rw guard (finish_copies src d size h)

  pub zero_clears :
      (rax : ℕ) (d : Bytes) → simd_zero_memory rax (some d) size ≡ returned size (fill d 0 size)
  unfolding simd_zero_memory
  zero_clears rax d =
      let guard : (size == 0) ≡ false = ground arith in rw guard (finish_copies zeros d size h)

  pub pack_copies :
      (cpuid : Cpuid) (d src : Bytes) (flags : ℕ)
      → (bit_and flags 1 == 1 && check_avx512_support cpuid) ≡ false
      → simd_pack_data cpuid (some d) (some src) size flags ≡ returned size (copy d src size)
  unfolding simd_pack_data
  pack_copies cpuid d src flags narrow =
      let guard : (size == 0) ≡ false = ground arith in
      let signed : leb (2 ^ 63) size ≡ false = ground arith in
      rw (guard, signed, narrow) (pack_256bit_copies src d size h)

-- A secure copy of less than 2^63 bytes ends, returns the size and copies exactly its bytes, whatever the
-- alignment of the two addresses.
pub memcpy_copies :
    (dest_address src_address : ℕ) (d src : Bytes) (size : ℕ)
    → size < 2 ^ 63
    → simd_secure_memcpy dest_address src_address d src size ≡ returned size (copy d src size)
unfolding simd_secure_memcpy
memcpy_copies dest_address src_address d src size h =
    elim (Bool-cases (bit_and dest_address 0x1f == 0 && bit_and src_address 0x1f == 0)) [
      | inl aligned ↦ rw aligned (finish_copies src d size h)
      | inr unaligned ↦ rw unaligned (finish_copies src d size h)
    ]
