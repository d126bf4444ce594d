-- ===== src/Enclave/Contract.antt =====
-- What the headers of the routines in src/marshall/simd_packer.asm promise for a size that is a
-- positive int64_t: the bytes are copied, or cleared, and their number is returned.
use kernova_tee.Prelude.{ℕ, ◌^◌, ◌<◌, ◌≡◌, Bytes, fill, copy, pos}
use kernova_tee.Host.{Host}

pub record SimdContract {M : Type 0} (host : Host M) : Type 0 where
  pub packs :
      (dest src : Bytes) (size flags : ℕ)
      → 0 < size
      → size < 2 ^ 63
      → host.simd_pack_data dest src size flags ≡ (pos size, copy dest src size)
  pub unpacks :
      (dest src : Bytes) (size flags : ℕ)
      → 0 < size
      → size < 2 ^ 63
      → host.simd_unpack_data dest src size flags ≡ (pos size, copy dest src size)
  pub clears :
      (buffer : Bytes) (size : ℕ)
      → 0 < size
      → size < 2 ^ 63
      → host.simd_zero_memory buffer size ≡ (pos size, fill buffer 0 size)
