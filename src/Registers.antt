-- ===== src/Registers.antt =====
-- The descriptor encodings of include/registers.hpp, under service-api/service-cpp.
pub mod Descriptor
pub mod Control
pub mod Features
use kernova_tee.Prelude.{ℕ, ◌+◌, ◌*◌, ◌/◌, ◌%◌, ◌^◌, bit_and, bit_or, u8, u16, ◌<<<◌, ◌>>>◌}

pub record SegmentDescriptor : Type 0 where
  pub limit_low : ℕ
  pub base_low : ℕ
  pub base_mid : ℕ
  pub access : ℕ
  pub limit_high_flags : ℕ
  pub base_high : ℕ

unfoldable pub new_descriptor : SegmentDescriptor
new_descriptor = record {
  limit_low = 0;
  base_low = 0;
  base_mid = 0;
  access = 0;
  limit_high_flags = 0;
  base_high = 0;
}

unfoldable pub set_base : SegmentDescriptor → ℕ → SegmentDescriptor
set_base d base = record d {
  base_low = u16 (bit_and base 0xffff);
  base_mid = u8 (bit_and (base >>> 16) 0xff);
  base_high = u8 (bit_and (base >>> 24) 0xff);
}

unfoldable pub set_limit : SegmentDescriptor → ℕ → SegmentDescriptor
set_limit d limit = record d {
  limit_low = u16 (bit_and limit 0xffff);
  limit_high_flags = u8 (bit_or (bit_and d.limit_high_flags 0xf0) (bit_and (limit >>> 16) 0x0f));
}

unfoldable pub set_access : SegmentDescriptor → ℕ → SegmentDescriptor
set_access d access_rights = record d { access = access_rights }

-- `GDTEntry::set_segment`: the new `data`. No shift leaves 64 bits.
unfoldable pub set_segment : ℕ → ℕ → ℕ → ℕ
set_segment base limit access =
    let d1 = bit_or 0 (bit_and base 0xffff <<< 16) in
    let d2 = bit_or d1 (bit_and base 0xff0000 <<< 16) in
    let d3 = bit_or d2 (bit_and base 0xff000000 <<< 32) in
    let d4 = bit_or d3 (bit_and limit 0xffff) in
    let d5 = bit_or d4 (bit_and limit 0xf0000 <<< 32) in
    let d6 = bit_or d5 (access <<< 40) in bit_or d6 (bit_or (1 <<< 55) (1 <<< 54))
