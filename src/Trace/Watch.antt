-- ===== src/Trace/Watch.antt =====
-- The four watchpoints of trace_engine.asm.
use kernova_tee.Prelude.{
  ℕ, suc, ◌≤◌, ◌≡◌, ◌⊎◌, refl, ap, ◌||◌, ◌==◌, Bool, Bool-cases, inl, inr, arith, true, false,
  if◌then◌else◌, List, [], ◌∷◌, some, none, length,
}
use kernova_tee.Simd.{eax_minus_one}
use kernova_tee.Trace.{
  Watchpoint, TraceEngine, take_watchpoint, store_watchpoints, with_head, trace_set_watchpoint,
}

-- How many watchpoints are in use.
abbrev pub armed : List Watchpoint → ℕ
armed [] = 0
armed (w ∷ ws) = if w.address == 0 then armed ws else suc (armed ws)

abbrev pub valid_size : ℕ → Bool
valid_size size = size == 1 || size == 2 || size == 4 || size == 8

armed_le : (ws : List Watchpoint) → armed ws ≤ length ws
armed_le [] = omega arith
armed_le (w ∷ ws) =
    let rest = armed_le ws in
    elim (Bool-cases (w.address == 0)) [ inl e ↦ rw (e) omega arith | inr e ↦ rw (e) omega arith ]

-- The list is full, or one more of its watchpoints is in use.
abbrev pub Taken : List Watchpoint → Watchpoint → Type 0
Taken ws w =
    ((take_watchpoint ws w ≡ none) × (armed ws ≡ length ws))
    ⊎ ((ws' : List Watchpoint) × (take_watchpoint ws w ≡ some ws')
        × (armed ws' ≡ suc (armed ws))
        × (length ws' ≡ length ws))

one_more :
    (ws : List Watchpoint) (w : Watchpoint) (ws' : List Watchpoint)
    → take_watchpoint ws w ≡ some ws'
    → armed ws' ≡ suc (armed ws)
    → length ws' ≡ length ws
    → Taken ws w
one_more ws w ws' got more same = inr (ws', got, more, same)

take_watchpoint_cases :
    (ws : List Watchpoint) (w : Watchpoint) → (w.address == 0) ≡ false → Taken ws w
unfolding take_watchpoint with_head
take_watchpoint_cases [] w used = inl (refl, refl)
take_watchpoint_cases (v ∷ vs) w used = elim (Bool-cases (v.address == 0)) [
  | inl free ↦ one_more (v ∷ vs) w (w ∷ vs) (rw (free) refl) (rw (free, used) refl) refl
  | inr taken ↦ elim (take_watchpoint_cases vs w used) [
    | inl (full, all) ↦ inl (rw (taken, full) refl, rw (taken) (ap suc all))
    | inr (vs', got, more, same) ↦
        one_more (v ∷ vs) w (v ∷ vs') (rw (taken, got) refl) (rw (taken) (ap suc more))
          (ap suc same)
  ]
]

-- A watchpoint on an address that is not 0 is refused with 0xffffffff, and nothing changes, if its size is
-- not 1, 2, 4 or 8 or all watchpoints are in use. Else the result is 0, the size is one of the four, one
-- more watchpoint is in use, and there are as many as before.
pub trace_set_watchpoint_cases :
    (address size kind : ℕ) (e : TraceEngine)
    → (address == 0) ≡ false
    → let (rax, e') = trace_set_watchpoint address size kind e in
      ((rax ≡ eax_minus_one)
        × (e' ≡ e)
        × ((valid_size size ≡ false) ⊎ (armed e.watchpoints ≡ length e.watchpoints)))
      ⊎ ((rax ≡ 0)
          × (valid_size size ≡ true)
          × (armed e'.watchpoints ≡ suc (armed e.watchpoints))
          × (length e'.watchpoints ≡ length e.watchpoints))
unfolding trace_set_watchpoint store_watchpoints
trace_set_watchpoint_cases address size kind e used = elim (Bool-cases (valid_size size)) [
  | inr odd ↦ inl (rw (odd) refl, rw (odd) refl, inl odd)
  | inl valid ↦
      elim (take_watchpoint_cases e.watchpoints
        (record { address = address; size = size; kind = kind }) used) [
          | inl (full, all) ↦ inl (rw (valid, full) refl, rw (valid, full) refl, inr all)
          | inr (ws, got, more, same) ↦
              inr (rw (valid, got) refl, valid, rw (valid, got) more, rw (valid, got) same)
        ]
]
