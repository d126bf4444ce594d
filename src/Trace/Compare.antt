-- ===== src/Trace/Compare.antt =====
-- `compare_memory` of trace_engine.asm finds whether two buffers are equal.
use kernova_tee.Prelude.{
  ℕ, zero, suc, ◌+◌, ◌<◌, ◌≤◌, ◌≡◌, ◌↔◌, refl, ap, sym, ◌∙◌, bit_or, bit_xor, Bytes, ◌==◌,
  Bool-cases, ==_iff, inl, inr, arith, if◌then◌else◌,
}
use kernova_tee.Prelude.Xor.{bit_or-zero_iff, bit_xor-zero_iff}
use kernova_tee.Trace.{compare_loop, compare_memory}

-- The bytes from `i` on, `n` of them, are the same.
abbrev pub Agree : Bytes → Bytes → ℕ → ℕ → Type 0
Agree a b i n = (j : ℕ) → i ≤ j → j < i + n → a j ≡ b j

Agree-first : (a b : Bytes) (i n : ℕ) → a i ≡ b i → Agree a b (i + 1) n → Agree a b i (suc n)
Agree-first a b i n e agree j p q = elim (Bool-cases (i == j)) [
  | inl s ↦ ap a (sym ((==_iff i j).0 s)) ∙ e ∙ ap b ((==_iff i j).0 s)
  | inr s ↦ agree j (ground arith) (ground arith)
]

compare_loop-zero :
    (a b : Bytes) (i n bl : ℕ) → compare_loop a b i n bl ≡ 0 → (bl ≡ 0) × Agree a b i n
unfolding compare_loop
compare_loop-zero a b i zero bl e = (e, λ j p q. absurd (omega arith))
compare_loop-zero a b i (suc n) bl e =
    let (or_zero, agree) = compare_loop-zero a b (i + 1) n (bit_or bl (bit_xor (a i) (b i))) e in
    let (before, here) = (bit_or-zero_iff bl (bit_xor (a i) (b i))).0 or_zero in
    (before, Agree-first a b i n ((bit_xor-zero_iff (a i) (b i)).0 here) agree)

compare_loop-Agree : (a b : Bytes) (i n : ℕ) → Agree a b i n → compare_loop a b i n 0 ≡ 0
unfolding compare_loop
compare_loop-Agree a b i zero agree = refl
compare_loop-Agree a b i (suc n) agree =
    rw ((bit_xor-zero_iff (a i) (b i)).1 (agree i (omega arith) (omega arith)))
      (compare_loop-Agree a b (i + 1) n (λ j p q. agree j (omega arith) (omega arith)))

test_zero : (x : ℕ) → if◌then◌else◌ {A = ℕ} (x == 0) 1 0 ≡ 1 → x ≡ 0
test_zero x e = ground arith

-- The comparison of two buffers returns 1 exactly if their first `n` bytes are the same.
pub compare_memory_iff :
    (a b : Bytes) (n : ℕ) → (compare_memory a b n ≡ 1) ↔ ((j : ℕ) → j < n → a j ≡ b j)
unfolding compare_memory
compare_memory_iff a b n = (
  λ e j p.
      (compare_loop-zero a b 0 n 0 (test_zero (compare_loop a b 0 n 0) e)).1 j (omega arith)
        (omega arith),
  λ agree. rw (compare_loop-Agree a b 0 n (λ j p q. agree j (omega arith))) refl,
)
