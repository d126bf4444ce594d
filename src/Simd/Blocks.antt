-- ===== src/Simd/Blocks.antt =====
-- The loop over blocks ends within its fuel, and has moved whole blocks only.
use kernova_tee.Prelude.{
  ℕ, zero, suc, ◌+◌, ◌-◌, ◌*◌, ◌^◌, ◌<◌, ◌≤◌, ◌≡◌, refl, sym, ap, ◌∙◌, fun_ext, inl, inr, Option,
  some, leb, ◌==◌, Bool-cases, arith, Bytes, copy,
}
use native.Mathlib.Nat.{suc-mul}
use kernova_tee.Simd.{write, signed_less, blocks, rest_bytes, pack_remaining}

-- A block that follows a copied part lengthens it.
pub write-copy :
    (d src : Bytes) (at n m : ℕ) → m ≡ at + n → write src at n (copy d src at) ≡ copy d src m
write-copy d src at n m e = fun_ext (λ (j : ℕ). write_at j)
  where
    write_at : (j : ℕ) → write src at n (copy d src at) j ≡ copy d src m j
    write_at j = ground arith

-- The result of a loop: some rounds of `width` bytes, and less than `width` bytes left.
abbrev pub Ends : Bytes → Bytes → ℕ → ℕ → ℕ → ℕ → Option (ℕ × Bytes) → Type 0
Ends d src width at size rbx out =
    (r k : ℕ) × (out ≡ some (r, copy d src (at + r)))
    × (r ≡ rbx + k * width)
    × (r ≤ size)
    × (size - r < width)

-- A loop over blocks of `width` bytes, 0 < width < 2^63, on a size below 2^63, ends within any fuel above the
-- number of bytes that are left. It has then moved whole blocks, which together with those before it are
-- the first bytes of the source, and leaves less than a block.
pub blocks-Ends :
    (d src : Bytes) (width fuel at size rbx : ℕ)
    → 0 < width
    → width < 2 ^ 63
    → size < 2 ^ 63
    → rbx ≤ size
    → size - rbx < fuel
    → Ends d src width at size rbx (blocks src width fuel at size rbx (copy d src (at + rbx)))
unfolding blocks
blocks-Ends d src width zero at size rbx w w' s p q = absurd (omega arith)
blocks-Ends d src width (suc fuel) at size rbx w w' s p q =
    elim (Bool-cases (signed_less (size - rbx) width)) [
      | inl done ↦ rw done (rbx, 0, refl, omega arith, p, ground arith)
      | inr more ↦
          let (r, k, e, f, g, h) =
            blocks-Ends d src width fuel at size (rbx + width) w w' s (ground arith)
              (ground arith) in
          rw (more, write-copy d src (at + rbx) width (at + (rbx + width)) (omega arith))
            (r, suc k, e, omega (arith, suc-mul k width), g, h)
    ]

copy-zero : (d src : Bytes) → copy d src (0 + 0) ≡ d
copy-zero d src = fun_ext (λ (j : ℕ). untouched j)
  where
    untouched : (j : ℕ) → copy d src (0 + 0) j ≡ d j
    untouched j = ground arith

-- A loop from the start of the buffers, with the fuel that the routines give it.
pub blocks_start :
    (d src : Bytes) (width fuel size : ℕ)
    → 0 < width
    → width < 2 ^ 63
    → size < 2 ^ 63
    → size < fuel
    → Ends d src width 0 size 0 (blocks src width fuel 0 size 0 d)
blocks_start d src width fuel size w w' s q =
    let (r, k, e, f, g, l) =
      blocks-Ends d src width fuel 0 size 0 w w' s (omega arith) (omega arith) in
    (
      r,
      k,
      ap (λ (a : Bytes). blocks src width fuel 0 size 0 a) (sym (copy-zero d src)) ∙ e,
      f,
      g,
      l,
    )

-- The bytes that are left, at once or 16 and the rest.
pub rest_bytes-copy :
    (d src : Bytes) (at size rbx : ℕ)
    → rbx ≤ size
    → rest_bytes src at size rbx (copy d src (at + rbx)) ≡ copy d src (at + size)
rest_bytes-copy d src at size rbx p = elim (Bool-cases (size - rbx == 0)) [
  | inl none' ↦ rw none' (ap (copy d src) (ground arith))
  | inr some' ↦ rw some' (write-copy d src (at + rbx) (size - rbx) (at + size) (omega arith))
]

pub pack_remaining-copy :
    (d src : Bytes) (at size rbx : ℕ)
    → rbx ≤ size
    → pack_remaining src at size rbx (copy d src (at + rbx)) ≡ copy d src (at + size)
pack_remaining-copy d src at size rbx p = elim (Bool-cases (size - rbx == 0)) [
  | inl none' ↦ rw none' (ap (copy d src) (ground arith))
  | inr some' ↦ elim (Bool-cases (leb 16 (size - rbx))) [
    | inl wide ↦
        rw (some', wide, write-copy d src (at + rbx) 16 (at + (rbx + 16)) (omega arith))
          (rest_bytes-copy d src at size (rbx + 16) (ground arith))
    | inr narrow ↦
        rw (some', narrow) (write-copy d src (at + rbx) (size - rbx) (at + size) (omega arith))
  ]
]
