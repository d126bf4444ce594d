-- ===== src/Examples/Traces.antt =====
-- The theorems on the trace engine, at concrete engines.
use kernova_tee.Prelude.{
  ℕ, suc, ◌+◌, ◌<◌, ◌≡◌, ◌⊎◌, ◌↔◌, refl, true, false, arith, Bytes, [], pos, length,
}
use kernova_tee.Globals.{Globals}
use kernova_tee.Monitor.{init}
use kernova_tee.Monitor.Integrity.{check_repeatedly}
use kernova_tee.Monitor.Engine.{Surroundings, with_trace, engine_counts_nothing}
use kernova_tee.Simd.{eax_minus_one}
use kernova_tee.Trace.{
  TraceEngine, new_engine, trace_init, trace_log_event, trace_check_integrity, trace_set_watchpoint,
  compare_memory,
}
use kernova_tee.Trace.Blind.{set_up, called, log, run, never_compromised}
use kernova_tee.Trace.Buffer.{Holds, append, event_of, trace_init-Holds, trace_log_event-append}
use kernova_tee.Trace.Compare.{compare_memory_iff}
use kernova_tee.Trace.Watch.{armed, valid_size, trace_set_watchpoint_cases}
use kernova_tee.Examples.Machines.{amd_cpuid, strict, host_over, live_state, live_buffer}

-- A memory that holds something everywhere.
abbrev noise : ℕ → Bytes
noise address i = address + i

-- The engine after its start, and with one event.
abbrev started : TraceEngine
started = (trace_init new_engine).1

abbrev busy : TraceEngine
busy = (run (log 77 4 9) started).1

never_compromised_example :
    ((trace_check_integrity noise 80 busy).0 ≡ 0) × (busy.stats.integrity_failures ≡ 0)
never_compromised_example = never_compromised noise 80 busy (called (log 77 4 9) set_up)

trace_log_event-append_example :
    ((trace_log_event 77 4 9 started).0 ≡ (append (event_of 77 4 9) []).0)
    × Holds (trace_log_event 77 4 9 started).1 (append (event_of 77 4 9) []).1
trace_log_event-append_example =
    trace_log_event-append 77 4 9 started [] (trace_init-Holds new_engine)

compare_memory_iff_example :
    (compare_memory (noise 1) (noise 2) 32 ≡ 1) ↔ ((j : ℕ) → j < 32 → noise 1 j ≡ noise 2 j)
compare_memory_iff_example = compare_memory_iff (noise 1) (noise 2) 32

trace_set_watchpoint_cases_example :
    let (rax, e') = trace_set_watchpoint 4096 8 1 started in
    ((rax ≡ eax_minus_one)
      × (e' ≡ started)
      × ((valid_size 8 ≡ false) ⊎ (armed started.watchpoints ≡ length started.watchpoints)))
    ⊎ ((rax ≡ 0)
        × (valid_size 8 ≡ true)
        × (armed e'.watchpoints ≡ suc (armed started.watchpoints))
        × (length e'.watchpoints ≡ length started.watchpoints))
trace_set_watchpoint_cases_example = trace_set_watchpoint_cases 4096 8 1 started refl

abbrev around : Surroundings ℕ
around = record { tsc = λ m. m; memory = λ m. noise; moves_on = λ m. m + 1 }

abbrev unstarted : Globals (TraceEngine × ℕ)
unstarted = record { machine = (new_engine, 0); hv = live_state; buffer = live_buffer }

engine_counts_nothing_example :
    let host = with_trace around (host_over amd_cpuid strict) in
    let (r, g) = init host unstarted in
    (r ≡ pos 0) × (g.hv.trace_enabled ≡ true) × ((check_repeatedly host 3 g).hv ≡ g.hv)
engine_counts_nothing_example =
    engine_counts_nothing around (host_over amd_cpuid strict) 3 unstarted refl (omega arith)
