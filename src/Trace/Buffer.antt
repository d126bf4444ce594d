-- ===== src/Trace/Buffer.antt =====
-- The trace buffer of trace_engine.asm as a list of at most 1024 events, the newest first.
use kernova_tee.Prelude.{
  ℕ, suc, ◌+◌, ◌≤◌, ◌≡◌, refl, List, [], ◌∷◌, true, false, leb, length, ltb, ◌==◌, if◌then◌else◌,
  Bool-cases, inl, inr, arith, u8, u32, u64,
}
use kernova_tee.Simd.{eax_minus_one}
use kernova_tee.Trace.{
  TraceEngine, TraceEvent, no_event, trace_max_events, trace_init, trace_log_event,
}

-- The event at a position, counted from the oldest.
abbrev pub nth : List TraceEvent → ℕ → TraceEvent
nth [] i = no_event
nth (event ∷ older) i = if i == length older then event else nth older i

-- What a log of at most 1024 events promises: the code and the log after a call.
unfoldable pub append : TraceEvent → List TraceEvent → ℕ × List TraceEvent
append event log =
    if ltb (length log) trace_max_events then (0, event ∷ log) else (eax_minus_one, log)

abbrev pub event_of : ℕ → ℕ → ℕ → TraceEvent
event_of tsc event_type value = record { timestamp = u32 tsc; kind = u8 event_type; value = value }

-- The engine holds the log, and counts it.
unfoldable pub Holds : TraceEngine → List TraceEvent → Type 0
Holds e log =
    (e.write_index ≡ length log)
    × (e.events ≡ nth log)
    × (e.stats.event_count ≡ length log)
    × (length log ≤ trace_max_events)

pub trace_init-Holds : (e : TraceEngine) → Holds (trace_init e).1 []
unfolding trace_init Holds
trace_init-Holds e = (refl, refl, refl, omega arith)

below_capacity :
    (n : ℕ)
    → ltb n trace_max_events ≡ true
    → (leb trace_max_events n ≡ false) × (u64 (n + 1) ≡ suc n) × (suc n ≤ trace_max_events)
below_capacity n e = (ground arith, ground arith, ground arith)

at_capacity : (n : ℕ) → ltb n trace_max_events ≡ false → leb trace_max_events n ≡ true
at_capacity n e = ground arith

-- An engine that holds a log of at most 1024 events and is asked to log one more returns what the log
-- returns, and then holds the log that `append` makes: the event is added and the result is 0, or the log
-- has 1024 events already, nothing changes and the result is 0xffffffff.
pub trace_log_event-append :
    (tsc event_type value : ℕ) (e : TraceEngine) (log : List TraceEvent)
    → Holds e log
    → ((trace_log_event tsc event_type value e).0 ≡ (append (event_of tsc event_type value) log).0)
      × Holds
          (trace_log_event tsc event_type value e).1
          (append (event_of tsc event_type value) log).1
unfolding trace_log_event append Holds
trace_log_event-append tsc event_type value e log (index, events, count, room) =
    elim (Bool-cases (ltb (length log) trace_max_events)) [
      | inl below ↦
          let (free, next, room') = below_capacity (length log) below in
          rw (index, events, count, below, free, next) (refl, (refl, refl, refl, room'))
      | inr full ↦
          rw (index, full, at_capacity (length log) full) (refl, (refl, events, count, room))
    ]

-- A list of requests, the first one first: the time stamp, the type and the value of each.
abbrev pub Request : Type 0
Request = ℕ × ℕ × ℕ

pub log_all : List Request → TraceEngine → TraceEngine
log_all [] e = e
log_all ((tsc, event_type, value) ∷ requests) e =
    log_all requests (trace_log_event tsc event_type value e).1

unfoldable pub append_all : List Request → List TraceEvent → List TraceEvent
append_all [] log = log
append_all ((tsc, event_type, value) ∷ requests) log =
    append_all requests (append (event_of tsc event_type value) log).1

log_all-Holds :
    (requests : List Request) (e : TraceEngine) (log : List TraceEvent)
    → Holds e log
    → Holds (log_all requests e) (append_all requests log)
unfolding log_all append_all
log_all-Holds [] e log holds = holds
log_all-Holds ((tsc, event_type, value) ∷ requests) e log holds =
    log_all-Holds requests _ _ (trace_log_event-append tsc event_type value e log holds).1
