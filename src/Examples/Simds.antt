-- ===== src/Examples/Simds.antt =====
-- The theorems on the SIMD routines, at concrete processors and buffers.
use kernova_tee.Prelude.{◌≢◌, ◌==◌, if◌then◌else◌, ◌+◌, refl, arith, Bytes, copy, zeros, some}
use kernova_tee.Cpu.{Cpuid}
use kernova_tee.Enclave.Contract.{SimdContract}
use kernova_tee.Simd.{check_avx512_support, blocks, simd_pack_data}
use kernova_tee.Simd.Blocks.{Ends, blocks-Ends}
use kernova_tee.Simd.Contract.{with_simd, with_simd-SimdContract}
use kernova_tee.Simd.Avx512.{IsPacked, pack_avx512-IsPacked}
use kernova_tee.Simd.Hash.{simd_hash_blocks}
use kernova_tee.Simd.Hash.Change.{simd_hash_blocks-byte}
use kernova_tee.Examples.Machines.{registers, amd_host}

abbrev counting : Bytes
counting i = i + 1

with_simd-SimdContract_example : SimdContract (with_simd 7 amd_host)
unfolding check_avx512_support
with_simd-SimdContract_example = with_simd-SimdContract 7 amd_host refl

-- A processor that reports AVX-512F.
abbrev wide_cpuid : Cpuid
wide_cpuid leaf subleaf = registers 0 0x10000 0 0

pack_avx512-IsPacked_example :
    IsPacked zeros counting 22 (simd_pack_data wide_cpuid (some zeros) (some counting) 22 1)
unfolding check_avx512_support
pack_avx512-IsPacked_example =
    pack_avx512-IsPacked wide_cpuid zeros counting 22 1 refl refl (omega arith) (omega arith)

blocks-Ends_example :
    Ends zeros counting 32 0 70 0 (blocks counting 32 71 0 70 0 (copy zeros counting (0 + 0)))
blocks-Ends_example =
    blocks-Ends zeros counting 32 71 0 70 0 (omega arith) (omega arith) (omega arith) (omega arith)
      (omega arith)

-- A buffer of zeros, and one that differs from it in the fifth byte.
abbrev spoiled : Bytes
spoiled i = if i == 4 then 1 else 0

simd_hash_blocks-byte_example :
    simd_hash_blocks (some spoiled) 10 (some zeros) ≢ simd_hash_blocks (some zeros) 10 (some zeros)
simd_hash_blocks-byte_example =
    simd_hash_blocks-byte spoiled zeros zeros 10 4 (omega arith) (λ j. (ground arith, omega arith))
      (omega arith) (λ j h. ground arith) (λ e. omega (arith, e))
