-- ===== src/Simd/Hash/Change.antt =====
-- `simd_hash_blocks` sees every change of a single byte: its first lane does.
use kernova_tee.Prelude.{
  ℕ, zero, suc, ◌+◌, ◌-◌, ◌*◌, ◌/◌, ◌%◌, ◌^◌, ◌<◌, ◌≤◌, ◌≡◌, ◌≢◌, refl, ap, sym, ◌∙◌, Option, some,
  Bytes, u64, bit_xor, arith, leb, ltb, ◌&&◌, Bool-cases, ==_iff, ◌==◌, inl, inr, true, false,
}
use kernova_tee.Prelude.Xor.{bit_xor-cancel, bit_xor_comm, bit_xor_lt}
use kernova_tee.Simd.{behind}
use kernova_tee.Simd.Hash.{
  Lanes, mul_prime, rol, hash_round, hash_loop, seeded, finalize, put_lanes, simd_hash_blocks,
  fmix64,
}
use kernova_tee.Simd.Hash.Lane.{fmix64_lt, mul_prime-cancel, rol-cancel, rol_lt, fmix64-cancel}

mul_prime_lt : (x : ℕ) → mul_prime x < 2 ^ 64
mul_prime_lt x = omega arith

-- The first lane after a round, by what is mixed in.
stirred : ℕ → ℕ → ℕ
stirred x c = rol (mul_prime (bit_xor x c)) 13

stirred-cancel :
    (x y c d : ℕ)
    → x < 2 ^ 64
    → y < 2 ^ 64
    → c < 2 ^ 64
    → d < 2 ^ 64
    → stirred x c ≡ stirred y d
    → bit_xor x c ≡ bit_xor y d
unfolding stirred
stirred-cancel x y c d p q r s e =
    mul_prime-cancel (bit_xor x c) (bit_xor y d) (bit_xor_lt 64 x c p r) (bit_xor_lt 64 y d q s) (
      rol-cancel (mul_prime (bit_xor x c)) (mul_prime (bit_xor y d)) (mul_prime_lt (bit_xor x c))
        (mul_prime_lt (bit_xor y d)) e)

stirred_lt : (x c : ℕ) → stirred x c < 2 ^ 64
unfolding stirred
stirred_lt x c = rol_lt (mul_prime (bit_xor x c)) (mul_prime_lt (bit_xor x c))

-- Lanes that are the same after a round with the same byte were so before.
hash_round-cancel :
    (byte i : ℕ) (l m : Lanes)
    → l.r8 < 2 ^ 64
    → m.r8 < 2 ^ 64
    → (hash_round byte i l).r8 ≡ (hash_round byte i m).r8
    → l.r8 ≡ m.r8
unfolding hash_round stirred
hash_round-cancel byte i l m p q e =
    let c = u64 (byte + i) in
    bit_xor-cancel l.r8 m.r8 c (
      bit_xor_comm c l.r8
      ∙ stirred-cancel l.r8 m.r8 c c p q (omega arith) (omega arith) e
      ∙ bit_xor_comm m.r8 c)

-- The same lanes after a round from the same lanes had the same byte.
hash_round-byte :
    (a b i : ℕ) (l : Lanes)
    → l.r8 < 2 ^ 64
    → a < 2 ^ 8
    → b < 2 ^ 8
    → (hash_round a i l).r8 ≡ (hash_round b i l).r8
    → a ≡ b
unfolding hash_round stirred
hash_round-byte a b i l p q r e =
    let c = u64 (a + i) in
    let d = u64 (b + i) in
    let same =
      bit_xor-cancel c d l.r8 (stirred-cancel l.r8 l.r8 c d p p (omega arith) (omega arith) e) in
    omega arith

hash_round_lt : (byte i : ℕ) (l : Lanes) → (hash_round byte i l).r8 < 2 ^ 64
unfolding hash_round stirred
hash_round_lt byte i l = stirred_lt l.r8 (u64 (byte + i))

module _ (a b : Bytes) where
  hash_loop-cancel :
      (i rounds : ℕ) (l m : Lanes)
      → ((j : ℕ) → i ≤ j → a j ≡ b j)
      → l.r8 < 2 ^ 64
      → m.r8 < 2 ^ 64
      → (hash_loop a i rounds l).r8 ≡ (hash_loop b i rounds m).r8
      → l.r8 ≡ m.r8
  unfolding hash_loop
  hash_loop-cancel i zero l m agree p q e = e
  hash_loop-cancel i (suc rounds) l m agree p q e =
      let l' = hash_round (a i) i l in
      let m' = hash_round (b i) i m in
      let after =
        hash_loop-cancel (i + 1) rounds l' m' (λ j h. agree j (omega arith))
          (hash_round_lt (a i) i l) (hash_round_lt (b i) i m) e in
      hash_round-cancel (a i) i l m p q
        (after ∙ ap (λ (byte : ℕ). (hash_round byte i m).r8) (sym (agree i (omega arith))))

  -- The loop from the changed byte on, and from anywhere before it.
  hash_loop-byte_here :
      (at rounds : ℕ) (l : Lanes)
      → ((j : ℕ) → j ≢ at → a j ≡ b j)
      → ((j : ℕ) → (a j < 2 ^ 8) × (b j < 2 ^ 8))
      → l.r8 < 2 ^ 64
      → (hash_loop a at (suc rounds) l).r8 ≡ (hash_loop b at (suc rounds) l).r8
      → a at ≡ b at
  unfolding hash_loop
  hash_loop-byte_here at rounds l agree bytes r e =
      hash_round-byte (a at) (b at) at l r (bytes at).0 (bytes at).1 (
        hash_loop-cancel (at + 1) rounds (hash_round (a at) at l) (hash_round (b at) at l)
          (λ j h. agree j (λ same. omega arith)) (hash_round_lt (a at) at l)
          (hash_round_lt (b at) at l) e)

  hash_loop-byte :
      (at i rounds : ℕ) (l : Lanes)
      → ((j : ℕ) → j ≢ at → a j ≡ b j)
      → ((j : ℕ) → (a j < 2 ^ 8) × (b j < 2 ^ 8))
      → i ≤ at
      → at < i + rounds
      → l.r8 < 2 ^ 64
      → (hash_loop a i rounds l).r8 ≡ (hash_loop b i rounds l).r8
      → a at ≡ b at
  unfolding hash_loop
  hash_loop-byte at i zero l agree bytes low high r e = absurd (omega arith)
  hash_loop-byte at i (suc rounds) l agree bytes low high r e = elim (Bool-cases (i == at)) [
    | inl here ↦
        let same = (==_iff i at).0 here in
        ap a (sym same)
        ∙ hash_loop-byte_here i rounds l (λ j h. agree j (λ k. h (k ∙ sym same))) bytes r e
        ∙ ap b same
    | inr later ↦
        let unchanged = agree i (λ same. ground arith) in
        hash_loop-byte at (i + 1) rounds (hash_round (a i) i l) agree bytes (ground arith)
          (omega arith) (hash_round_lt (a i) i l)
          (e
            ∙ ap (λ (byte : ℕ). (hash_loop b (i + 1) rounds (hash_round byte i l)).r8)
                (sym unchanged))
  ]

-- A lane below 2^64 is read back from its eight bytes.
lane_bytes :
    (x y : ℕ)
    → x < 2 ^ 64
    → y < 2 ^ 64
    → ((j : ℕ) → j < 8 → x / 2 ^ (8 * j) % 2 ^ 8 ≡ y / 2 ^ (8 * j) % 2 ^ 8)
    → x ≡ y
lane_bytes x y p q same = omega (
  arith,
  same 0 (omega arith),
  same 1 (omega arith),
  same 2 (omega arith),
  same 3 (omega arith),
  same 4 (omega arith),
  same 5 (omega arith),
  same 6 (omega arith),
  same 7 (omega arith),
)

put_lanes-first :
    (l : Lanes) (out : Bytes) (j : ℕ) → j < 8 → put_lanes l out j ≡ l.r8 / 2 ^ (8 * j) % 2 ^ 8
put_lanes-first l out j h =
    let past24 : (leb 24 j && ltb j (24 + 8)) ≡ false = ground arith in
    let past16 : (leb 16 j && ltb j (16 + 8)) ≡ false = ground arith in
    let past8 : (leb 8 j && ltb j (8 + 8)) ≡ false = ground arith in
    let here : (leb 0 j && ltb j (0 + 8)) ≡ true = ground arith in
    let start : j - 0 ≡ j = omega arith in rw (past24, past16, past8, here, start) refl

seeded_lt : (size : ℕ) → size < 2 ^ 64 → (seeded size).r8 < 2 ^ 64
unfolding seeded
seeded_lt size h = bit_xor_lt 64 0x243f_6a88_85a3_08d3 size (omega arith) h

hash_loop_lt :
    (a : Bytes) (i rounds : ℕ) (l : Lanes) → l.r8 < 2 ^ 64 → (hash_loop a i rounds l).r8 < 2 ^ 64
unfolding hash_loop
hash_loop_lt a i zero l h = h
hash_loop_lt a i (suc rounds) l h =
    hash_loop_lt a (i + 1) rounds (hash_round (a i) i l) (hash_round_lt (a i) i l)

-- The first eight bytes of a hash tell the byte.
first_bytes :
    (a b out : Bytes) (size at : ℕ)
    → size < 2 ^ 64
    → ((j : ℕ) → (a j < 2 ^ 8) × (b j < 2 ^ 8))
    → at < size
    → ((j : ℕ) → j ≢ at → a j ≡ b j)
    → ((j : ℕ)
        → j < 8
        → behind (simd_hash_blocks (some a) size (some out)).1 j
          ≡ behind (simd_hash_blocks (some b) size (some out)).1 j)
    → a at ≡ b at
unfolding simd_hash_blocks finalize
first_bytes a b out size at fits bytes inside agree same =
    let x = hash_loop a 0 size (seeded size) in
    let y = hash_loop b 0 size (seeded size) in
    let xl = hash_loop_lt a 0 size (seeded size) (seeded_lt size fits) in
    let yl = hash_loop_lt b 0 size (seeded size) (seeded_lt size fits) in
    let lane =
      lane_bytes (fmix64 x.r8) (fmix64 y.r8) (fmix64_lt x.r8 xl) (fmix64_lt y.r8 yl) (λ j h.
        sym (put_lanes-first (finalize x) out j h)
        ∙ same j h
        ∙ put_lanes-first (finalize y) out j h) in
    hash_loop-byte a b at 0 size (seeded size) agree bytes (omega arith) (omega arith)
      (seeded_lt size fits) (fmix64-cancel x.r8 y.r8 xl yl lane)

-- Two buffers of the same size, below 2^64, that hold bytes and differ in exactly one of the bytes that are
-- hashed get different hashes, whatever the hash buffer held.
pub simd_hash_blocks-byte :
    (a b out : Bytes) (size at : ℕ)
    → size < 2 ^ 64
    → ((j : ℕ) → (a j < 2 ^ 8) × (b j < 2 ^ 8))
    → at < size
    → ((j : ℕ) → j ≢ at → a j ≡ b j)
    → a at ≢ b at
    → simd_hash_blocks (some a) size (some out) ≢ simd_hash_blocks (some b) size (some out)
simd_hash_blocks-byte a b out size at fits bytes inside agree change same = change (
    first_bytes a b out size at fits bytes inside agree
      (λ j h. ap (λ (r : ℕ × Option Bytes). behind r.1 j) same))
