-- ===== src/Registers/Descriptor.antt =====
-- The two encodings of a segment descriptor agree.
use kernova_tee.Prelude.{ℕ, ◌+◌, ◌*◌, ◌/◌, ◌%◌, ◌^◌, ◌<◌, ◌≡◌, ◌∙◌, ap, arith, bit_and, bit_or}
use kernova_tee.Prelude.Bits.{
  zero-bit_or, bit_or-zero, bit_or_split, bit_and-mask, bit_and-shifted, bit_or-fields,
}
use kernova_tee.Registers.{
  SegmentDescriptor, new_descriptor, set_base, set_limit, set_access, set_segment,
}

-- The eight bytes of the packed struct, as the number that the processor reads.
abbrev pub packed : SegmentDescriptor → ℕ
packed d =
    d.limit_low
    + d.base_low * 2 ^ 16
    + d.base_mid * 2 ^ 32
    + d.access * 2 ^ 40
    + d.limit_high_flags * 2 ^ 48
    + d.base_high * 2 ^ 56

-- A field is a sum, if its bits are 0 before.
or_field :
    (k w h v lo : ℕ)
    → v < 2 ^ w
    → lo < 2 ^ k
    → 0 < 2 ^ k
    → 0 < 2 ^ w
    → bit_or ((h * 2 ^ w + 0) * 2 ^ k + lo) (v * 2 ^ k + 0) ≡ (h * 2 ^ w + v) * 2 ^ k + lo
or_field k w h v lo a b c d =
    rw (bit_or_split k (h * 2 ^ w + 0) v lo 0 b c, bit_or-zero lo)
      (ap (λ (t : ℕ). t * 2 ^ k + lo)
        (ap (λ (t : ℕ). bit_or (h * 2 ^ w + 0) t) (omega arith)
          ∙ bit_or_split w h 0 0 v d a
          ∙ omega (arith, bit_or-zero h, zero-bit_or v, ap (λ (t : ℕ). t * 2 ^ w) (bit_or-zero h))))

or_into :
    (k w d x h v lo : ℕ)
    → d ≡ (h * 2 ^ w + 0) * 2 ^ k + lo
    → x ≡ v * 2 ^ k + 0
    → v < 2 ^ w
    → lo < 2 ^ k
    → 0 < 2 ^ k
    → 0 < 2 ^ w
    → bit_or d x ≡ (h * 2 ^ w + v) * 2 ^ k + lo
or_into k w d x h v lo e f a b c q = rw (e, f) (or_field k w h v lo a b c q)

-- The masks cut out a field.
mask_low : (x : ℕ) → bit_and x 0xffff ≡ x % 2 ^ 16
mask_low x = bit_and-mask 16 x

mask_mid : (x : ℕ) → bit_and x 0xff0000 ≡ x / 2 ^ 16 % 2 ^ 8 * 2 ^ 16
mask_mid x = bit_and-shifted 16 x 255 ∙ ap (λ (t : ℕ). t * 2 ^ 16) (bit_and-mask 8 (x / 2 ^ 16))

mask_high : (x : ℕ) → bit_and x 0xff000000 ≡ x / 2 ^ 24 % 2 ^ 8 * 2 ^ 24
mask_high x = bit_and-shifted 24 x 255 ∙ ap (λ (t : ℕ). t * 2 ^ 24) (bit_and-mask 8 (x / 2 ^ 24))

mask_limit : (x : ℕ) → bit_and x 0xf0000 ≡ x / 2 ^ 16 % 2 ^ 4 * 2 ^ 16
mask_limit x = bit_and-shifted 16 x 15 ∙ ap (λ (t : ℕ). t * 2 ^ 16) (bit_and-mask 4 (x / 2 ^ 16))

-- The flags stand above the limit's high bits.
high_nibble : (x : ℕ) → bit_or 0xc0 (bit_and x 0x0f) ≡ 0xc0 + x % 2 ^ 4
high_nibble x = rw (bit_and-mask 4 x) (bit_or-fields 4 12 (x % 2 ^ 4) (omega arith))

module _ (b0 b1 b2 l0 l1 a : ℕ) (hb0 : b0 < 2 ^ 16) (hb1 : b1 < 2 ^ 8) (hb2 : b2 < 2 ^ 8)
    (hl0 : l0 < 2 ^ 16) (hl1 : l1 < 2 ^ 4) (ha : a < 2 ^ 8) where
  -- The chain of `|`, over the fields.
  or_chain :
      bit_or
        (bit_or
          (bit_or
            (bit_or
              (bit_or
                (bit_or (bit_or 0 (b0 * 2 ^ 16)) (b1 * 2 ^ 16 * 2 ^ 16))
                (b2 * 2 ^ 24 * 2 ^ 32))
              l0)
            (l1 * 2 ^ 16 * 2 ^ 32))
          (a * 2 ^ 40))
        (12 * 2 ^ 52)
      ≡ l0 + b0 * 2 ^ 16 + b1 * 2 ^ 32 + a * 2 ^ 40 + l1 * 2 ^ 48 + 12 * 2 ^ 52 + b2 * 2 ^ 56
  or_chain =
      rw
        (
          zero-bit_or (b0 * 2 ^ 16),
          or_into 32 8 (b0 * 2 ^ 16) (b1 * 2 ^ 16 * 2 ^ 16) 0 b1 (b0 * 2 ^ 16) (omega arith)
              (omega arith) hb1 (omega arith) (omega arith) (omega arith),
          or_into 56 8 ((0 * 2 ^ 8 + b1) * 2 ^ 32 + b0 * 2 ^ 16) (b2 * 2 ^ 24 * 2 ^ 32) 0 b2
              (b1 * 2 ^ 32 + b0 * 2 ^ 16) (omega arith) (omega arith) hb2 (omega arith)
              (omega arith) (omega arith),
          or_into 0 16 ((0 * 2 ^ 8 + b2) * 2 ^ 56 + (b1 * 2 ^ 32 + b0 * 2 ^ 16)) l0
              (b2 * 2 ^ 40 + b1 * 2 ^ 16 + b0) l0 0 (omega arith) (omega arith) hl0 (omega arith)
              (omega arith) (omega arith),
          or_into 48 4 (((b2 * 2 ^ 40 + b1 * 2 ^ 16 + b0) * 2 ^ 16 + l0) * 2 ^ 0 + 0)
              (l1 * 2 ^ 16 * 2 ^ 32) (b2 * 2 ^ 4) l1 (b1 * 2 ^ 32 + b0 * 2 ^ 16 + l0) (omega arith)
              (omega arith) hl1 (omega arith) (omega arith) (omega arith),
          or_into 40 8 ((b2 * 2 ^ 4 * 2 ^ 4 + l1) * 2 ^ 48 + (b1 * 2 ^ 32 + b0 * 2 ^ 16 + l0))
              (a * 2 ^ 40) (b2 * 2 ^ 8 + l1) a (b1 * 2 ^ 32 + b0 * 2 ^ 16 + l0) (omega arith)
              (omega arith) ha (omega arith) (omega arith) (omega arith),
          or_into 52 4 (((b2 * 2 ^ 8 + l1) * 2 ^ 8 + a) * 2 ^ 40 + (b1 * 2 ^ 32 + b0 * 2 ^ 16 + l0))
              (12 * 2 ^ 52) b2 12 (l1 * 2 ^ 48 + a * 2 ^ 40 + (b1 * 2 ^ 32 + b0 * 2 ^ 16 + l0))
              (omega arith) (omega arith) (omega arith) (omega arith) (omega arith) (omega arith),
        )
        (omega arith)

-- A GDT entry for a 32-bit base, a 32-bit limit and an access byte has the bytes of the packed segment
-- descriptor that is built for them, with page granularity and 32-bit code as its flags: the low 20 bits
-- of the limit, the whole base and the access byte stand at their places.
pub set_segment_lem :
    (base limit access : ℕ)
    → base < 2 ^ 32
    → limit < 2 ^ 32
    → access < 2 ^ 8
    → set_segment base limit access
      ≡ packed (
          set_access
            (set_limit (set_base (record new_descriptor { limit_high_flags = 0xc0 }) base) limit)
            access)
unfolding set_segment set_access set_limit set_base new_descriptor
set_segment_lem base limit access hb hl ha =
    rw
      (
        mask_low base,
        mask_mid base,
        mask_high base,
        mask_low limit,
        mask_limit limit,
        or_chain (base % 2 ^ 16) (base / 2 ^ 16 % 2 ^ 8) (base / 2 ^ 24 % 2 ^ 8) (limit % 2 ^ 16)
            (limit / 2 ^ 16 % 2 ^ 4) access (omega arith) (omega arith) (omega arith) (omega arith)
            (omega arith) ha,
      )
      (omega (
        arith,
        bit_and-mask 8 (base / 2 ^ 16),
        bit_and-mask 8 (base / 2 ^ 24),
        high_nibble (limit / 2 ^ 16),
      ))
