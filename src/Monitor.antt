-- ===== src/Monitor.antt =====
-- Monitoring: namespace `monitor` of service-api/service-cpp/src/main.cpp. What is printed is left out.
pub mod Integrity
pub mod Engine
use kernova_tee.Prelude.{
  ℕ, ◌+◌, ◌%◌, ◌^◌, Bool, true, false, not, if◌then◌else◌, u64, ℤ, pos, is_zero, minus_one,
  minus_two,
}
use kernova_tee.Host.{Host}
use kernova_tee.Globals.{HypervisorState, Globals}

module _ {M : Type 0} (host : Host M) where
  open host use {trace_init, trace_check_integrity, trace_log_event}

  unfoldable pub init : Globals M → ℤ × Globals M
  init g =
      let (r, m) = trace_init g.machine in
      if not (is_zero r)
      then (minus_one, record g { machine = m })
      else (pos 0, record g { machine = m; hv = record g.hv { trace_enabled = true } })

  unfoldable pub check_integrity : Globals M → ℤ × Globals M
  check_integrity g =
      let (r, m) = trace_check_integrity g.machine in
      if not g.hv.trace_enabled
      then (minus_one, g)
      else if not (is_zero r)
      then (
        minus_two,
        record g {
          machine = m;
          hv = record g.hv { integrity_violations = u64 (g.hv.integrity_violations + 1) };
        },
      )
      else (pos 0, record g { machine = m })

  unfoldable pub log_event : ℕ → ℕ → Globals M → Globals M
  log_event event_type value g =
      let (r, m) = trace_log_event event_type value g.machine in
      if g.hv.trace_enabled then record g { machine = m } else g
