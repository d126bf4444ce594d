-- ===== src/Hypervisor/SelfTest.antt =====
-- `testing::test_simd_operations` of service-api/service-cpp/src/main.cpp, over the routines of simd_packer.asm.
-- What it prints is four verdicts; it changes nothing else.
use kernova_tee.Prelude.{
  ℕ, zero, suc, ◌+◌, ◌≤◌, ◌≡◌, refl, Bool, true, false, not, ltb, ◌==◌, if◌then◌else◌, some, Bytes,
  fill, copy, u8, bit_and, is_zero, arith,
}
use kernova_tee.Enclave.{is_count}
use kernova_tee.Simd.{simd_secure_memcpy, simd_zero_memory}
use kernova_tee.Simd.Hash.{simd_hash_blocks}
use kernova_tee.Simd.Contract.{to_int64, result_of}
use kernova_tee.Simd.Copy.{zero_clears, memcpy_copies}

abbrev pub test_size : ℕ
test_size = 256

-- The array `src` after lines 257-259, from what the stack held.
unfoldable pub fill_source : ℕ → ℕ → Bytes → Bytes
fill_source i zero a = a
fill_source i (suc rounds) a =
    fill_source (i + 1) rounds (λ j. if j == i then u8 (bit_and i 0xff) else a j)

-- The loop of lines 287-292.
unfoldable pub all_zero_from : Bytes → ℕ → ℕ → Bool
all_zero_from a i zero = true
all_zero_from a i (suc rounds) =
    let rest = all_zero_from a (i + 1) rounds in if not (a i == 0) then false else rest

-- The verdicts, in the order of their lines.
pub record Verdicts : Type 0 where
  pub memcpy : Bool
  pub hash : Bool
  pub zero_memory : Bool
  pub zero_verified : Bool

-- The arrays stand at two addresses of the stack, and hold what it held. `rax` is what `simd_zero_memory` finds
-- in the register.
unfoldable pub test_simd_operations : ℕ → ℕ → Bytes → Bytes → Bytes → ℕ → Verdicts
unfolding fill_source all_zero_from
test_simd_operations dest_address src_address dest0 src0 hash0 rax =
    let src = fill_source 0 test_size src0 in
    let (copied, dest) =
      result_of dest0 (simd_secure_memcpy dest_address src_address dest0 src test_size) in
    let (code, hash) = simd_hash_blocks (some src) test_size (some hash0) in
    let (cleared, dest') = result_of dest (simd_zero_memory rax (some dest) test_size) in
    record {
      memcpy = is_count copied test_size;
      hash = is_zero (to_int64 code);
      zero_memory = is_count cleared test_size;
      zero_verified = all_zero_from dest' 0 test_size;
    }

all_zero_fill :
    (a : Bytes) (n i rounds : ℕ) → i + rounds ≤ n → all_zero_from (fill a 0 n) i rounds ≡ true
unfolding all_zero_from
all_zero_fill a n i zero h = refl
all_zero_fill a n i (suc rounds) h =
    let here : ltb i n ≡ true = ground arith in
    rw (here) (all_zero_fill a n (i + 1) rounds (omega arith))

-- Wherever its arrays stand on the stack and whatever they hold, the self test of the SIMD routines passes
-- in all four points: the copy and the clearing return the size, the hash returns 0, and each of the
-- 256 bytes of the destination is 0 at the end.
pub test_simd_operations_lem :
    (dest_address src_address : ℕ) (dest0 src0 hash0 : Bytes) (rax : ℕ)
    → test_simd_operations dest_address src_address dest0 src0 hash0 rax
      ≡ record { memcpy = true; hash = true; zero_memory = true; zero_verified = true }
unfolding test_simd_operations simd_hash_blocks
test_simd_operations_lem dest_address src_address dest0 src0 hash0 rax =
    let src = fill_source 0 test_size src0 in
    rw
      (
        memcpy_copies dest_address src_address dest0 src test_size (omega arith),
        zero_clears test_size (omega arith) (omega arith) rax (copy dest0 src test_size),
        all_zero_fill (copy dest0 src test_size) test_size 0 test_size (omega arith),
      )
      refl
