-- ===== src/Trace.antt =====
-- The trace engine: service-api/service-cpp/src/monitor/trace_engine.asm. Its data section is a record. An
-- event is a slot of 32 bytes, a region's address is 0 or points into `memory`, and `tsc` is what `rdtsc`
-- reads when an event is logged.
pub mod Compare
pub mod Buffer
pub mod Blind
pub mod Watch
use kernova_tee.Prelude.{
  ℕ, zero, suc, ◌+◌, ◌%◌, ◌^◌, Bool, true, false, not, ◌||◌, List, [], ◌∷◌, Option, none, some, ltb,
  leb, ◌==◌, if◌then◌else◌, bit_or, bit_xor, u8, u32, u64, Bytes, fill, zeros,
}
use kernova_tee.Simd.{eax_minus_one}
use kernova_tee.Simd.Hash.{simd_hash_blocks}

abbrev pub trace_max_events : ℕ
trace_max_events = 1024

abbrev pub trace_severity_critical : ℕ
trace_severity_critical = 2

abbrev pub trace_event_integrity_fail : ℕ
trace_event_integrity_fail = 5

-- The fields of an event that the code writes.
pub record TraceEvent : Type 0 where
  pub timestamp : ℕ
  pub kind : ℕ
  pub value : ℕ

pub record IntegrityEntry : Type 0 where
  pub tag : ℕ
  pub address : ℕ
  pub size : ℕ
  pub hash : Bytes

pub record Watchpoint : Type 0 where
  pub address : ℕ
  pub size : ℕ
  pub kind : ℕ

pub record TraceStatistics : Type 0 where
  pub event_count : ℕ
  pub critical_events : ℕ
  pub integrity_checks : ℕ
  pub integrity_failures : ℕ

pub record TraceEngine : Type 0 where
  pub events : ℕ → TraceEvent
  pub read_index : ℕ
  pub write_index : ℕ
  pub stats : TraceStatistics
  pub baseline : List IntegrityEntry
  pub watchpoints : List Watchpoint
  pub current_hash_buffer : Bytes

abbrev pub no_event : TraceEvent
no_event = record { timestamp = 0; kind = 0; value = 0 }

abbrev pub no_statistics : TraceStatistics
no_statistics = record {
  event_count = 0;
  critical_events = 0;
  integrity_checks = 0;
  integrity_failures = 0;
}

abbrev pub no_entry : IntegrityEntry
no_entry = record { tag = 0; address = 0; size = 0; hash = zeros }

abbrev pub no_watchpoint : Watchpoint
no_watchpoint = record { address = 0; size = 0; kind = 0 }

-- The data section when the program is loaded: zeros.
abbrev pub new_engine : TraceEngine
new_engine = record {
  events = λ i. no_event;
  read_index = 0;
  write_index = 0;
  stats = no_statistics;
  baseline = no_entry ∷ no_entry ∷ no_entry ∷ no_entry ∷ no_entry ∷ [];
  watchpoints = no_watchpoint ∷ no_watchpoint ∷ no_watchpoint ∷ no_watchpoint ∷ [];
  current_hash_buffer = zeros;
}

-- "IDT ", "GDT " and "SYSC", as NASM reads them
abbrev pub idt_tag : ℕ
idt_tag = 0x20544449

abbrev pub gdt_tag : ℕ
gdt_tag = 0x20544447

abbrev pub sysc_tag : ℕ
sysc_tag = 0x43535953

-- The first entry gets a zero hash, the other two keep theirs.
abbrev pub compute_baseline_hashes : List IntegrityEntry → List IntegrityEntry
compute_baseline_hashes (idt ∷ gdt ∷ sysc ∷ more) =
    record { tag = idt_tag; address = 0; size = 256; hash = fill idt.hash 0 32 }
    ∷ record { tag = gdt_tag; address = 0; size = 256; hash = gdt.hash }
    ∷ record { tag = sysc_tag; address = 0; size = 256; hash = sysc.hash }
    ∷ more
compute_baseline_hashes entries = entries

unfoldable pub trace_init : TraceEngine → ℕ × TraceEngine
trace_init e = (
  0,
  record e {
    events = λ i. no_event;
    read_index = 0;
    write_index = 0;
    stats = no_statistics;
    baseline = compute_baseline_hashes e.baseline;
  },
)

-- `rdtsc` leaves the low half in `rax`, and the high half is not used. The event's type is cut
-- to a byte. `jge` is signed; the index never comes near 2^63.
unfoldable pub trace_log_event : ℕ → ℕ → ℕ → TraceEngine → ℕ × TraceEngine
trace_log_event tsc event_type value e =
    let slot : TraceEvent = record { timestamp = u32 tsc; kind = u8 event_type; value = value } in
    let critical =
      if event_type == trace_severity_critical
      then u64 (e.stats.critical_events + 1)
      else e.stats.critical_events in
    if leb trace_max_events e.write_index then (eax_minus_one, e) else (
      0,
      record e {
        events = λ i. if i == e.write_index then slot else e.events i;
        write_index = u64 (e.write_index + 1);
        stats = record e.stats {
          event_count = u64 (e.stats.event_count + 1);
          critical_events = critical;
        };
      },
    )

-- `.compare_loop` from an index on, with `rcx` bytes left and the differences so far in `bl`.
unfoldable pub compare_loop : Bytes → Bytes → ℕ → ℕ → ℕ → ℕ
compare_loop a b i zero bl = bl
compare_loop a b i (suc rcx) bl = compare_loop a b (i + 1) rcx (bit_or bl (bit_xor (a i) (b i)))

unfoldable pub compare_memory : Bytes → Bytes → ℕ → ℕ
unfolding compare_loop
compare_memory a b length = if compare_loop a b 0 length 0 == 0 then 1 else 0

-- `.find_loop`
abbrev pub find_entry : List IntegrityEntry → ℕ → Option IntegrityEntry
find_entry [] tag = none
find_entry (entry ∷ entries) tag = if entry.tag == tag then some entry else find_entry entries tag

-- What stands at an address.
abbrev pub at_address : (ℕ → Bytes) → ℕ → Option Bytes
at_address memory address = if address == 0 then none else some (memory address)

-- The hash buffer after a hash.
abbrev pub buffer_of : Option Bytes → Bytes
buffer_of none = zeros
buffer_of (some a) = a

module _ (memory : ℕ → Bytes) where
  -- `.found` to `.modified`: the result of the hash is not tested.
  check_entry : Option IntegrityEntry → TraceEngine → ℕ × TraceEngine
  unfolding compare_memory
  check_entry none e = (1, e)
  check_entry (some entry) e =
      let (rax, hashed) =
        simd_hash_blocks (at_address memory entry.address) entry.size
          (some e.current_hash_buffer) in
      (
        compare_memory (buffer_of hashed) entry.hash 32,
        record e { current_hash_buffer = buffer_of hashed },
      )

  unfoldable pub check_region_integrity : ℕ → TraceEngine → ℕ × TraceEngine
  unfolding check_entry
  check_region_integrity tag e = check_entry (find_entry e.baseline tag) e

  -- `.idt_compromised` and its two kin.
  compromised : ℕ → ℕ → TraceEngine → ℕ × TraceEngine
  unfolding trace_log_event
  compromised tsc code e =
      let (rax, logged) = trace_log_event tsc trace_event_integrity_fail code e in
      (
        eax_minus_one,
        record logged {
          stats = record logged.stats {
            integrity_failures = u64 (logged.stats.integrity_failures + 1);
          };
        },
      )

  unfoldable pub trace_check_integrity : ℕ → TraceEngine → ℕ × TraceEngine
  unfolding check_region_integrity compromised
  trace_check_integrity tsc e =
      let counted : TraceEngine = record e {
        stats = record e.stats { integrity_checks = u64 (e.stats.integrity_checks + 1) };
      } in
      let (idt, e1) = check_region_integrity idt_tag counted in
      let (gdt, e2) = check_region_integrity gdt_tag e1 in
      let (sysc, e3) = check_region_integrity sysc_tag e2 in
      if idt == 0
      then compromised tsc 1 e1
      else if gdt == 0
      then compromised tsc 2 e2
      else if sysc == 0
      then compromised tsc 3 e3
      else (0, e3)

with_head : Watchpoint → Option (List Watchpoint) → Option (List Watchpoint)
with_head v none = none
with_head v (some rest) = some (v ∷ rest)

-- `.find_free` and `.found_free`: the first watchpoint whose address is 0 is taken.
unfoldable pub take_watchpoint : List Watchpoint → Watchpoint → Option (List Watchpoint)
unfolding with_head
take_watchpoint [] w = none
take_watchpoint (v ∷ vs) w =
    let rest = take_watchpoint vs w in if v.address == 0 then some (w ∷ vs) else with_head v rest

store_watchpoints : TraceEngine → Option (List Watchpoint) → ℕ × TraceEngine
store_watchpoints e none = (eax_minus_one, e)
store_watchpoints e (some ws) = (0, record e { watchpoints = ws })

unfoldable pub trace_set_watchpoint : ℕ → ℕ → ℕ → TraceEngine → ℕ × TraceEngine
unfolding take_watchpoint store_watchpoints
trace_set_watchpoint address size kind e =
    if size == 1 || size == 2 || size == 4 || size == 8
    then store_watchpoints e
        (take_watchpoint e.watchpoints (record { address = address; size = size; kind = kind }))
    else (eax_minus_one, e)

unfoldable pub trace_get_statistics : TraceEngine → ℕ × TraceStatistics
trace_get_statistics e = (0, e.stats)
