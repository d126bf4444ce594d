-- ===== src/Enclave/Reversal.antt =====
-- The in-place reversal of the processed data.
use kernova_tee.Prelude.{
  ℕ, zero, suc, ◌+◌, ◌-◌, ◌/◌, ◌≤◌, ◌≡◌, ◌∙◌, arith, Bytes, ltb, leb, ◌&&◌, if◌then◌else◌,
}
use kernova_tee.Enclave.{swap_bytes, reverse_loop, reverse_prefix}

-- What the rounds from index `i` on are to do: mirror the bytes from `i` up to `size - i`.
abbrev mirrored : ℕ → ℕ → Bytes → Bytes
mirrored size i a k = if leb i k && ltb k (size - i) then a (size - 1 - k) else a k

mirrored-middle : (size i : ℕ) (a : Bytes) (k : ℕ) → i ≡ size / 2 → a k ≡ mirrored size i a k
mirrored-middle size i a k h = ground arith

mirrored-swap :
    (size i : ℕ) (a : Bytes) (k : ℕ)
    → suc i ≤ size / 2
    → mirrored size (suc i) (swap_bytes a i (size - 1 - i)) k ≡ mirrored size i a k
unfolding swap_bytes
mirrored-swap size i a k h = ground arith

reverse_loop-mirrored :
    (size i rounds : ℕ) (a : Bytes) (k : ℕ)
    → i + rounds ≡ size / 2
    → reverse_loop size i rounds a k ≡ mirrored size i a k
unfolding reverse_loop
reverse_loop-mirrored size i zero a k h = mirrored-middle size i a k (omega arith)
reverse_loop-mirrored size i (suc rounds) a k h =
    reverse_loop-mirrored size (suc i) rounds (swap_bytes a i (size - 1 - i)) k (omega arith)
    ∙ mirrored-swap size i a k (omega arith)

-- The loop reverses the first `size` bytes, the middle one of an odd number included, and leaves
-- every later byte.
pub reverse_prefix_lem :
    (size : ℕ) (a : Bytes) (k : ℕ)
    → reverse_prefix size a k ≡ (if ltb k size then a (size - 1 - k) else a k)
unfolding reverse_prefix
reverse_prefix_lem size a k =
    reverse_loop-mirrored size 0 (size / 2) a k (omega arith) ∙ ground arith
