-- ===== src/Enclave.antt =====
-- The secure enclave buffer: namespace `enclave` of service-api/service-cpp/src/main.cpp.
-- The buffer is an address and its bytes, or null. The operations also set the globals
-- `enclave_base`, `enclave_active` and `data_transferred_bytes` of `g_hv_state`.
pub mod Contract
pub mod Reversal
pub mod Transfer
pub mod Mailbox
pub mod Lifecycle
use kernova_tee.Prelude.{
  ℕ, zero, suc, ◌+◌, ◌-◌, ◌/◌, ◌%◌, ◌^◌, Bool, true, false, not, ◌||◌, Option, none, some, ltb,
  ◌==◌, if◌then◌else◌, u64, Bytes, store, fill, zeros, ℤ, pos, negsuc, is_zero, is_negative,
  minus_one, minus_two, minus_three,
}
use kernova_tee.Host.{Host}
use kernova_tee.Globals.{HypervisorState, Block, EnclaveBuffer, Globals}

abbrev pub enclave_size : ℕ
enclave_size = 0x100000

abbrev pub data_buffer_size : ℕ
data_buffer_size = 0x10000

-- `std::swap(data[i], data[j])`
unfoldable pub swap_bytes : Bytes → ℕ → ℕ → Bytes
swap_bytes a i j = store (store a i (a j)) j (a i)

-- The loop of lines 164-166, from index `i` with `rounds` rounds left.
unfoldable pub reverse_loop : ℕ → ℕ → ℕ → Bytes → Bytes
reverse_loop size i zero a = a
reverse_loop size i (suc rounds) a =
    reverse_loop size (suc i) rounds (swap_bytes a i (size - 1 - i))

unfoldable pub reverse_prefix : ℕ → Bytes → Bytes
unfolding reverse_loop
reverse_prefix size a = reverse_loop size 0 (size / 2) a

-- A pointer that is not null, with the bytes behind it.
abbrev pub Pointer : Type 0
Pointer = Option Bytes

abbrev pub is_null {ℓ} : {A : Type ℓ} → Option A → Bool
is_null none = true
is_null (some p) = false

abbrev pub bytes_at : Pointer → Bytes
bytes_at none = zeros
bytes_at (some p) = p

-- What is read through `data`; nothing is said of a null one, which only an enclave that is active without
-- a block reads through.
abbrev pub contents_of : Option Block → Bytes
contents_of none = zeros
contents_of (some b) = b.contents

abbrev pub set_contents : Option Block → Bytes → Option Block
set_contents none a = none
set_contents (some b) a = some (record b { contents = a })

abbrev pub address_of : Option Block → ℕ
address_of none = 0
address_of (some b) = b.address

-- `result == static_cast<int64_t>(size)`
abbrev pub is_count : ℤ → ℕ → Bool
is_count (pos n) size = n == size
is_count (negsuc n) size = false

-- Lines 90-94: a block is cleared and taken over.
adopt : ℕ → EnclaveBuffer → Option (ℕ × Bytes) → Bool × EnclaveBuffer
adopt sz buffer none = (false, record buffer { block = none })
adopt sz buffer (some (p, old)) =
    (true, record { block = some (record { address = p; contents = fill old 0 sz }); size = sz })

module _ {M : Type 0} (host : Host M) where
  open host use {aligned_alloc, free, simd_pack_data, simd_unpack_data, simd_zero_memory}

  -- Lines 98-102.
  release : Option Block → EnclaveBuffer → M → EnclaveBuffer × M
  release none buffer m = (buffer, m)
  release (some b) buffer m = (record { block = none; size = 0 }, free b.address b.contents m)

  -- `EnclaveBuffer::allocate`: a null result overwrites the pointer, and the size stays.
  unfoldable pub allocate : ℕ → EnclaveBuffer → M → Bool × EnclaveBuffer × M
  unfolding adopt
  allocate sz buffer m =
      let (found, m') = aligned_alloc sz m in
      let (done, buffer') = adopt sz buffer found in (done, buffer', m')

  unfoldable pub deallocate : EnclaveBuffer → M → EnclaveBuffer × M
  unfolding release
  deallocate buffer m = release buffer.block buffer m

  -- `EnclaveBuffer::zero`
  unfoldable pub zero_buffer : EnclaveBuffer → Bool × EnclaveBuffer
  zero_buffer buffer =
      let (r, wiped) = simd_zero_memory (contents_of buffer.block) buffer.size in
      if is_null buffer.block
      then (false, buffer)
      else (is_count r buffer.size, record buffer { block = set_contents buffer.block wiped })

  -- Lines 119-128.
  activate : Globals M → ℤ × Globals M
  unfolding deallocate zero_buffer
  activate g =
      let (wiped, buffer) = zero_buffer g.buffer in
      let (freed, m) = deallocate buffer g.machine in
      if not wiped then (minus_two, record g { buffer = freed; machine = m }) else (
        pos 0,
        record g {
          buffer = buffer;
          hv = record g.hv { enclave_base = address_of buffer.block; enclave_active = true };
        },
      )

  unfoldable pub init : Globals M → ℤ × Globals M
  unfolding allocate activate
  init g =
      let (allocated, buffer, m) = allocate enclave_size g.buffer g.machine in
      let g' : Globals M = record g { buffer = buffer; machine = m } in
      if not allocated then (minus_one, g') else activate g'

  unfoldable pub cleanup : Globals M → Globals M
  unfolding deallocate zero_buffer
  cleanup g =
      let (wiped, buffer) = zero_buffer g.buffer in
      let (freed, m) = deallocate buffer g.machine in
      record g { buffer = freed; machine = m; hv = record g.hv { enclave_active = false } }

  -- Lines 148-168.
  pack_in : Globals M → Bytes → ℕ → ℤ × Globals M
  unfolding reverse_prefix
  pack_in g src size =
      let (r, packed) = simd_pack_data (contents_of g.buffer.block) src size 1 in
      let filled : Globals M = record g {
        buffer = record g.buffer { block = set_contents g.buffer.block packed };
      } in
      if is_negative r then (minus_three, filled) else (
        pos 0,
        record g {
          buffer = record g.buffer {
            block = set_contents g.buffer.block (reverse_prefix size packed);
          };
          hv = record g.hv { data_transferred_bytes = u64 (g.hv.data_transferred_bytes + size) };
        },
      )

  unfoldable pub send_data : Globals M → Pointer → ℕ → ℤ × Globals M
  unfolding pack_in
  send_data g src size =
      if not g.hv.enclave_active || is_null src || size == 0
      then (minus_one, g)
      else if ltb data_buffer_size size
      then (minus_two, g)
      else pack_in g (bytes_at src) size

  -- The result and the destination's new contents.
  unfoldable pub receive_data : Globals M → Pointer → ℕ → ℤ × Bytes
  receive_data g dest size =
      let (r, unpacked) = simd_unpack_data (bytes_at dest) (contents_of g.buffer.block) size 1 in
      if not g.hv.enclave_active || is_null dest || size == 0
      then (minus_one, bytes_at dest)
      else if ltb data_buffer_size size
      then (minus_two, bytes_at dest)
      else if is_negative r
      then (minus_three, unpacked)
      else (pos 0, unpacked)
