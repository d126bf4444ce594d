-- ===== src/Simd/Hash.antt =====
-- `simd_hash_blocks` of service-api/service-cpp/src/marshall/simd_packer.asm. A lane is a 64-bit number.
pub mod Lane
pub mod Change
use kernova_tee.Prelude.{
  ℕ, zero, suc, ◌+◌, ◌-◌, ◌*◌, ◌/◌, ◌%◌, ◌^◌, Option, none, some, ◌==◌, ltb, leb, ◌&&◌,
  if◌then◌else◌, bit_xor, u64, ◌<<<◌, ◌>>>◌, Bytes,
}
use kernova_tee.Simd.{eax_minus_one}

pub record Lanes : Type 0 where
  pub r8 : ℕ
  pub r9 : ℕ
  pub r10 : ℕ
  pub r11 : ℕ

-- `imul x, r15`
abbrev pub mul_prime : ℕ → ℕ
mul_prime x = u64 (x * 0x100_0000_01b3)

-- `rol x, k`
abbrev pub rol : ℕ → ℕ → ℕ
rol x k = u64 (x <<< k) + (x >>> (64 - k))

-- One round of `.hash_loop`, with the byte in `rax` and the index in `rbx`.
unfoldable pub hash_round : ℕ → ℕ → Lanes → Lanes
hash_round rax rbx l = record {
  r8 = rol (mul_prime (bit_xor l.r8 (u64 (rax + rbx)))) 13;
  r9 = rol (mul_prime (u64 (l.r9 + bit_xor (u64 (rbx <<< 8)) rax))) 29;
  r10 = rol (mul_prime (bit_xor l.r10 (bit_xor (u64 (rax <<< 32)) rbx))) 37;
  r11 = rol (bit_xor l.r11 (mul_prime (bit_xor (u64 (rax + rbx)) l.r11))) 43;
}

-- The rounds from index `rbx` on, with `rounds` left.
unfoldable pub hash_loop : Bytes → ℕ → ℕ → Lanes → Lanes
unfolding hash_round
hash_loop data' rbx zero l = l
hash_loop data' rbx (suc rounds) l = hash_loop data' (rbx + 1) rounds (hash_round (data' rbx) rbx l)

-- The lanes before the loop, and the hash of nothing.
abbrev pub first_lanes : Lanes
first_lanes = record {
  r8 = 0x243f6a8885a308d3;
  r9 = 0x13198a2e03707344;
  r10 = 0xa4093822299f31d0;
  r11 = 0x082efa98ec4e6c89;
}

unfoldable pub seeded : ℕ → Lanes
seeded size = record first_lanes {
  r8 = bit_xor first_lanes.r8 size;
  r9 = bit_xor first_lanes.r9 (u64 (size <<< 17));
}

-- `x ^= x >> 33`
abbrev pub xor_shift : ℕ → ℕ
xor_shift x = bit_xor x (x >>> 33)

unfoldable pub fmix64 : ℕ → ℕ
fmix64 x =
    let a = u64 (xor_shift x * 0xff51_afd7_ed55_8ccd) in
    let b = u64 (xor_shift a * 0xc4ce_b9fe_1a85_ec53) in xor_shift b

unfoldable pub finalize : Lanes → Lanes
unfolding fmix64
finalize l = record { r8 = fmix64 l.r8; r9 = fmix64 l.r9; r10 = fmix64 l.r10; r11 = fmix64 l.r11 }

-- `mov [r14 + at], lane`: the eight bytes of a lane, the lowest first.
abbrev pub put_lane : ℕ → ℕ → Bytes → Bytes
put_lane at lane d j = if leb at j && ltb j (at + 8) then lane / 2 ^ (8 * (j - at)) % 2 ^ 8 else d j

abbrev pub put_lanes : Lanes → Bytes → Bytes
put_lanes l d = put_lane 24 l.r11 (put_lane 16 l.r10 (put_lane 8 l.r9 (put_lane 0 l.r8 d)))

-- `rax` and the hash buffer.
unfoldable pub simd_hash_blocks : Option Bytes → ℕ → Option Bytes → ℕ × Option Bytes
unfolding hash_loop seeded finalize
simd_hash_blocks data' size none = (eax_minus_one, none)
simd_hash_blocks none size (some out) =
    if size == 0 then (0, some (put_lanes first_lanes out)) else (eax_minus_one, some out)
simd_hash_blocks (some a) size (some out) =
    (0, some (put_lanes (finalize (hash_loop a 0 size (seeded size))) out))
