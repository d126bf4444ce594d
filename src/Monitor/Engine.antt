-- ===== src/Monitor/Engine.antt =====
-- Monitoring of main.cpp over the trace engine of trace_engine.asm: the machine of the host has the
-- engine's data section beside it.
use kernova_tee.Prelude.{
  ℕ, suc, zero, ◌+◌, ◌%◌, ◌^◌, ◌<◌, ◌≡◌, refl, true, arith, pos, Bytes, ap, ◌∙◌,
}
use kernova_tee.Host.{Host}
use kernova_tee.Host.Beside.{beside}
use kernova_tee.Globals.{Globals}
use kernova_tee.Monitor.{init}
use kernova_tee.Monitor.Integrity.{check_repeatedly, failures, violations_lem}
use kernova_tee.Simd.Contract.{to_int64}
use kernova_tee.Trace.{TraceEngine, new_engine, trace_init, trace_log_event, trace_check_integrity}
use kernova_tee.Trace.Blind.{Reachable, set_up, called, check, run, never_compromised}

-- What the engine sees of a machine: the time-stamp counter, the memory, and the machine as it is after a
-- call, which may have changed everything else.
pub record Surroundings (M : Type 0) : Type 0 where
  pub tsc : M → ℕ
  pub memory : M → ℕ → Bytes
  pub moves_on : M → M

module _ {M : Type 0} (around : Surroundings M) (host : Host M) where
  -- A host whose tracer is the engine.
  abbrev pub with_trace : Host (TraceEngine × M)
  with_trace = record (beside TraceEngine host) {
    trace_init = λ s. let (rax, e) = trace_init s.0 in (to_int64 rax, (e, around.moves_on s.1));
    trace_check_integrity = λ s.
        let (rax, e) = trace_check_integrity (around.memory s.1) (around.tsc s.1) s.0 in
        (to_int64 rax, (e, around.moves_on s.1));
    trace_log_event = λ t v s.
        let (rax, e) = trace_log_event (around.tsc s.1) t v s.0 in
        (to_int64 rax, (e, around.moves_on s.1));
  }

  failures-zero : (n : ℕ) (e : TraceEngine) (m : M) → Reachable e → failures with_trace n (e, m) ≡ 0
  unfolding run
  failures-zero zero e m r = refl
  failures-zero (suc n) e m r =
      let (clean, none_before) = never_compromised (around.memory m) (around.tsc m) e r in
      rw (clean) (
        failures-zero n (trace_check_integrity (around.memory m) (around.tsc m) e).1
          (around.moves_on m) (called (check (around.memory m) (around.tsc m)) r))

  counts_nothing_from :
      (n : ℕ) (g : Globals (TraceEngine × M))
      → Reachable g.machine.0
      → g.hv.trace_enabled ≡ true
      → g.hv.integrity_violations < 2 ^ 64
      → (check_repeatedly with_trace n g).hv ≡ g.hv
  counts_nothing_from n g r on fits =
      let same : (g.hv.integrity_violations + 0) % 2 ^ 64 ≡ g.hv.integrity_violations =
        omega arith in
      ap (λ (h : Globals (TraceEngine × M)). h.hv) (violations_lem with_trace n g on fits)
      ∙ (rw (failures-zero n g.machine.0 g.machine.1 r, same) refl)

  -- A monitor over the trace engine, which starts with its zeroed data section: the start returns 0 and
  -- turns tracing on, and any number of integrity checks after it, whatever becomes of the memory between
  -- them, leave the state of the service as it is, the counter of violations included.
  pub engine_counts_nothing :
      (n : ℕ) (g : Globals (TraceEngine × M))
      → g.machine.0 ≡ new_engine
      → g.hv.integrity_violations < 2 ^ 64
      → let (r, started) = init with_trace g in
        (r ≡ pos 0)
        × (started.hv.trace_enabled ≡ true)
        × ((check_repeatedly with_trace n started).hv ≡ started.hv)
  unfolding init trace_init
  engine_counts_nothing n g fresh fits =
      (refl, refl, counts_nothing_from n (init with_trace g).1 (rw (fresh) set_up) refl fits)
