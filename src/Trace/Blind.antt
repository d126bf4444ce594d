-- ===== src/Trace/Blind.antt =====
-- What the integrity check of trace_engine.asm can see: its regions stand at address 0.
use kernova_tee.Prelude.{
  ◌||◌, if_both, ℕ, ◌≡◌, refl, ap, fun_ext, Option, ◌+◌, u64, ◌∷◌, [], List, zeros, fill, Bytes,
  ltb, leb, some, none, ◌==◌, ◌+◌, u64, Bool-cases, inl, inr,
}
use kernova_tee.Trace.{
  TraceEngine, Watchpoint, trace_max_events, IntegrityEntry, new_engine, no_entry, idt_tag, gdt_tag,
  sysc_tag, trace_init, trace_log_event, trace_check_integrity, trace_set_watchpoint,
  check_region_integrity, find_entry, check_entry, compare_memory, store_watchpoints,
  take_watchpoint,
}
use kernova_tee.Simd.Hash.{simd_hash_blocks}

abbrev blind_entry : ℕ → IntegrityEntry
blind_entry tag = record { tag = tag; address = 0; size = 256; hash = zeros }

abbrev blind_baseline : List IntegrityEntry
blind_baseline =
    blind_entry idt_tag ∷ blind_entry gdt_tag ∷ blind_entry sysc_tag ∷ no_entry ∷ no_entry ∷ []

-- The regions stand at address 0, and the hash buffer is as it was at the start.
unfoldable pub IsBlind : TraceEngine → Type 0
IsBlind e =
    (e.baseline ≡ blind_baseline)
    × (e.current_hash_buffer ≡ zeros)
    × (e.stats.integrity_failures ≡ 0)

fill-zeros : fill zeros 0 32 ≡ zeros
fill-zeros =
    fun_ext (λ i. elim (Bool-cases (ltb i 32)) [ inl e ↦ rw (e) refl | inr e ↦ rw (e) refl ])

compare-zeros : compare_memory zeros zeros 32 ≡ 1
unfolding compare_memory
compare-zeros = refl

check_region-blind :
    (memory : ℕ → Bytes) (tag : ℕ) (e : TraceEngine)
    → IsBlind e
    → find_entry blind_baseline tag ≡ some (blind_entry tag)
    → check_region_integrity memory tag e ≡ (1, e)
unfolding check_region_integrity check_entry simd_hash_blocks IsBlind
check_region-blind memory tag e (b, h, f) found = rw (b, found, h, compare-zeros) refl

-- One call of the engine's interface after `trace_init`. Memory is as it stands at the call.
pub data Call : Type 0 where
  log : ℕ → ℕ → ℕ → Call
  check : (ℕ → Bytes) → ℕ → Call
  watch : ℕ → ℕ → ℕ → Call
  init : Call

unfoldable pub run : Call → TraceEngine → ℕ × TraceEngine
run (log tsc kind value) e = trace_log_event tsc kind value e
run (check memory tsc) e = trace_check_integrity memory tsc e
run (watch address size kind) e = trace_set_watchpoint address size kind e
run init e = trace_init e

-- The states that the engine can be in once it has been set up.
pub data Reachable : TraceEngine → Type 0 where
  set_up : Reachable (trace_init new_engine).1
  called : {e : TraceEngine} (c : Call) → Reachable e → Reachable (run c e).1

pub check_integrity-blind :
    (memory : ℕ → Bytes) (tsc : ℕ) (e : TraceEngine)
    → IsBlind e
    → trace_check_integrity memory tsc e ≡ (
      0,
      record e { stats = record e.stats { integrity_checks = u64 (e.stats.integrity_checks + 1) } },
    )
unfolding trace_check_integrity IsBlind
check_integrity-blind memory tsc e (b, h, f) =
    let counted : TraceEngine = record e {
      stats = record e.stats { integrity_checks = u64 (e.stats.integrity_checks + 1) };
    } in
    rw
      (
        check_region-blind memory idt_tag counted (b, h, f) refl,
        check_region-blind memory gdt_tag counted (b, h, f) refl,
        check_region-blind memory sysc_tag counted (b, h, f) refl,
      )
      refl

store_watchpoints-IsBlind :
    (e : TraceEngine) (ws : Option (List Watchpoint))
    → IsBlind e
    → IsBlind (store_watchpoints e ws).1
unfolding store_watchpoints IsBlind
store_watchpoints-IsBlind e none blind = blind
store_watchpoints-IsBlind e (some ws) blind = blind

run-IsBlind : (c : Call) (e : TraceEngine) → IsBlind e → IsBlind (run c e).1
unfolding run IsBlind trace_log_event trace_set_watchpoint trace_init
run-IsBlind (log tsc kind value) e (b, h, f) =
    if_both (λ (p : ℕ × TraceEngine). IsBlind p.1) (leb trace_max_events e.write_index) (b, h, f)
      (b, h, f)
run-IsBlind (check memory tsc) e (b, h, f) =
    rw (check_integrity-blind memory tsc e (b, h, f)) (b, h, f)
run-IsBlind (watch address size kind) e (b, h, f) =
    if_both (λ (p : ℕ × TraceEngine). IsBlind p.1)
      (size == 1 || size == 2 || size == 4 || size == 8)
      (store_watchpoints-IsBlind e
        (take_watchpoint e.watchpoints (record { address = address; size = size; kind = kind }))
        (b, h, f))
      (b, h, f)
run-IsBlind init e (b, h, f) = rw (b, fill-zeros) (refl, h, refl)

pub Reachable-IsBlind : (e : TraceEngine) → Reachable e → IsBlind e
unfolding IsBlind trace_init
Reachable-IsBlind _ set_up = rw (fill-zeros) (refl, refl, refl)
Reachable-IsBlind _ (called {e} c r) = run-IsBlind c e (Reachable-IsBlind e r)

-- Once `trace_init` has run on the zeroed data section, then after any calls of the engine, whatever the
-- memory holds at each of them, an integrity check returns 0 whatever the memory holds, and no failure
-- has been counted.
pub never_compromised :
    (memory : ℕ → Bytes) (tsc : ℕ) (e : TraceEngine)
    → Reachable e
    → ((trace_check_integrity memory tsc e).0 ≡ 0) × (e.stats.integrity_failures ≡ 0)
unfolding IsBlind
never_compromised memory tsc e r = (
  ap (λ (p : ℕ × TraceEngine). p.0) (check_integrity-blind memory tsc e (Reachable-IsBlind e r)),
  (Reachable-IsBlind e r).2,
)
