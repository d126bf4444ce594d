-- ===== src/Simd.antt =====
-- The SIMD routines: service-api/service-cpp/src/marshall/simd_packer.asm. The buffers are byte arrays
-- that do not overlap; the stack is a list of slots, so that a `ret` can be seen to find its address.
pub mod Blocks
pub mod Copy
pub mod Contract
pub mod Avx512
pub mod Hash
use kernova_tee.Prelude.{
  ℕ, zero, suc, ◌+◌, ◌-◌, ◌/◌, ◌%◌, ◌^◌, Bool, true, false, not, ◌&&◌, ◌||◌, List, [], ◌∷◌, Option,
  none, some, ltb, leb, ◌==◌, if◌then◌else◌, bit_and, flag, ◌>>>◌, Bytes, zeros, ℤ, pos, negsuc,
  minus_one,
}
use kernova_tee.Cpu.{Cpuid}
use kernova_tee.Host.{Host}

-- A stack slot: the address that a `call` left, or a register that a `push` saved.
pub data Slot : Type 0 where
  return_address saved : Slot

-- How a routine ends: with `rax` and the destination's contents, by a `ret` to what is no return address,
-- or not within the fuel.
pub data Exit : Type 0 where
  returned : ℕ → Bytes → Exit
  wild_jump no_fuel : Exit

-- `pop rbp; ret`
abbrev pub leave : ℕ → Bytes → List Slot → Exit
leave rax d (rbp ∷ return_address ∷ stack) = returned rax d
leave rax d _ = wild_jump

-- `n` bytes of the source go to the same place of the destination.
abbrev pub write : Bytes → ℕ → ℕ → Bytes → Bytes
write src at n d j = if leb at j && ltb j (at + n) then src j else d j

-- `cmp rax, width; jl`, on 64-bit numbers
abbrev pub signed_less : ℕ → ℕ → Bool
signed_less rax width = ltb rax width || leb (2 ^ 63) rax

-- A loop that moves `width` bytes at a time, from offset `at + rbx` on, while `size - rbx` is not less than
-- `width`: the last `rbx`, and the destination.
pub blocks : Bytes → ℕ → ℕ → ℕ → ℕ → ℕ → Bytes → Option (ℕ × Bytes)
blocks src width zero at size rbx d = none
blocks src width (suc fuel) at size rbx d =
    let more = blocks src width fuel at size (rbx + width) (write src (at + rbx) width d) in
    if signed_less (size - rbx) width then some (rbx, d) else more

-- `.use_byte_copy` and the tail of the other loops: `rep movsb`, or `rep stosb`, of what is left.
abbrev pub rest_bytes : Bytes → ℕ → ℕ → ℕ → Bytes → Bytes
rest_bytes src at size rbx d = if size - rbx == 0 then d else write src (at + rbx) (size - rbx) d

-- `.pack_remaining`: 16 bytes at once, if there are as many, and the rest one by one.
abbrev pub pack_remaining : Bytes → ℕ → ℕ → ℕ → Bytes → Bytes
pack_remaining src at size rbx d =
    if size - rbx == 0
    then d
    else if leb 16 (size - rbx)
    then rest_bytes src at size (rbx + 16) (write src (at + rbx) 16 d)
    else rest_bytes src at size rbx d

-- `.pack_remaining` to the end of `simd_pack_256bit`.
end_256bit : Bytes → ℕ → ℕ → List Slot → Option (ℕ × Bytes) → Exit
end_256bit src at size stack none = no_fuel
end_256bit src at size stack (some (rbx, d)) = leave size (pack_remaining src at size rbx d) stack

-- `simd_pack_256bit`, with `at` bytes before `r12` and `r13` and `size` in `r14`.
pub simd_pack_256bit : ℕ → Bytes → ℕ → ℕ → Bytes → List Slot → Exit
unfolding blocks end_256bit
simd_pack_256bit fuel src at size d stack =
    end_256bit src at size (saved ∷ stack) (blocks src 32 fuel at size 0 d)

-- `.pack_remaining` to the end of `simd_pack_512bit`. It jumps to `simd_pack_256bit`, which saves `rbp`
-- a second time.
end_512bit : ℕ → Bytes → ℕ → List Slot → Option (ℕ × Bytes) → Exit
unfolding simd_pack_256bit
end_512bit fuel src size stack none = no_fuel
end_512bit fuel src size stack (some (rbx, d)) =
    if size - rbx == 0
    then leave (size - rbx) d stack
    else simd_pack_256bit fuel src rbx (size - rbx) d stack

pub simd_pack_512bit : ℕ → Bytes → ℕ → Bytes → List Slot → Exit
unfolding blocks end_512bit
simd_pack_512bit fuel src size d stack =
    end_512bit fuel src size (saved ∷ stack) (blocks src 64 fuel 0 size 0 d)

-- `mov eax, -1` clears the upper half of `rax`.
abbrev pub eax_minus_one : ℕ
eax_minus_one = 0xffff_ffff

-- What stands behind a pointer, null if it is none.
abbrev pub behind : Option Bytes → Bytes
behind none = zeros
behind (some a) = a

abbrev pub is_null : Option Bytes → Bool
is_null none = true
is_null (some a) = false

-- The fuel of a loop over `size` bytes.
abbrev pub fuel_for : ℕ → ℕ
fuel_for size = size + 1

module _ (cpuid : Cpuid) where
  unfoldable pub check_avx512_support : Bool
  check_avx512_support = flag (cpuid 7 0).ebx 16

  unfoldable pub simd_pack_data : Option Bytes → Option Bytes → ℕ → ℕ → Exit
  simd_pack_data dest src size flags =
      let d = behind dest in
      let s = behind src in
      if is_null dest || is_null src
      then returned eax_minus_one d
      else if size == 0
      then returned 0 d
      else if leb (2 ^ 63) size
      then returned eax_minus_one d
      else if bit_and flags 1 == 1 && check_avx512_support
      then simd_pack_512bit (fuel_for size) s size d (return_address ∷ [])
      else simd_pack_256bit (fuel_for size) s 0 size d (return_address ∷ [])

-- What follows the loops of `simd_unpack_data`, `simd_secure_memcpy` and `simd_zero_memory`.
abbrev pub finish : Bytes → ℕ → Option (ℕ × Bytes) → Exit
finish src size none = no_fuel
finish src size (some (rbx, d)) = returned size (rest_bytes src 0 size rbx d)

-- `.invalid_param` runs on into `.zero_size`, so each error is 0.
unfoldable pub simd_unpack_data : Option Bytes → Option Bytes → ℕ → ℕ → Exit
unfolding blocks
simd_unpack_data dest src size flags =
    let d = behind dest in
    let s = behind src in
    if is_null dest || is_null src || size == 0 || leb (2 ^ 63) size
    then returned 0 d
    else finish s size (blocks s 32 (fuel_for size) 0 size 0 d)

-- Two loops, of aligned and of unaligned moves, by the alignment of the addresses.
unfoldable pub simd_secure_memcpy : ℕ → ℕ → Bytes → Bytes → ℕ → Exit
unfolding blocks
simd_secure_memcpy dest_address src_address d s size =
    let aligned = blocks s 32 (fuel_for size) 0 size 0 d in
    let unaligned = blocks s 32 (fuel_for size) 0 size 0 d in
    if bit_and dest_address 0x1f == 0 && bit_and src_address 0x1f == 0
    then finish s size aligned
    else finish s size unaligned

-- A null buffer or an empty one leaves `rax` as the caller had it.
unfoldable pub simd_zero_memory : ℕ → Option Bytes → ℕ → Exit
unfolding blocks
simd_zero_memory rax buffer size =
    let d = behind buffer in
    if is_null buffer || size == 0
    then returned rax d
    else finish zeros size (blocks zeros 32 (fuel_for size) 0 size 0 d)
