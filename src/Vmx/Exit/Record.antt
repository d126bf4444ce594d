-- ===== src/Vmx/Exit/Record.antt =====
-- What a dispatched VM exit writes to the trace.
use kernova_tee.Prelude.{
  ℕ, List, [], ◌∷◌, ◌==◌, if◌then◌else◌, bit_and, ◌>>>◌, Bytes, Bool-cases, inl, inr, if_both,
}
use kernova_tee.Trace.{TraceEngine, TraceEvent, trace_check_integrity}
use kernova_tee.Trace.Blind.{
  Reachable, called, run, log, check, check_integrity-blind, Reachable-IsBlind,
}
use kernova_tee.Trace.Buffer.{Holds, Request, append_all, trace_log_event-append}
use kernova_tee.Vmx.Exit.{
  ExitInstructions, ExitState, event_cr0_write, event_cr4_write, event_lstar_write,
  event_star_write, event_sfmask_write, log_event, vmcs_read64, vmcs_write64, intercept_cr_access,
  intercept_msr_write, store_cpuid, intercept_cpuid, intercept_io_instruction, vmexit_dispatch,
}

-- An engine that has been set up, and the log that it holds.
unfoldable pub IsRecorded : TraceEngine → List TraceEvent → Type 0
IsRecorded e events = Reachable e × Holds e events

module _ {M : Type 0} (cpu : ExitInstructions M) (rodata : ℕ) where
  abbrev pub cr_event : ℕ → M → List Request
  cr_event r14 m =
      if bit_and r14 0xf == 0
      then (if bit_and r14 0x30 >>> 4 == 0
          then (cpu.rdtsc (cpu.vmcs.vmread r14 m).1, event_cr0_write rodata, r14) ∷ []
          else [])
      else if bit_and r14 0xf == 4
      then (cpu.rdtsc m, event_cr4_write rodata, r14) ∷ []
      else []

  abbrev pub msr_event : ℕ → ℕ → M → List Request
  msr_event rax rsi m =
      let later = cpu.rdtsc (cpu.vmcs.vmread rax m).1 in
      if rax == 0xc000_0082
      then (later, event_lstar_write rodata, 0xc000_0082) ∷ []
      else if rax == 0xc000_0081
      then (later, event_star_write rodata, rsi) ∷ []
      else if rax == 0xc000_0084
      then (later, event_sfmask_write rodata, rsi) ∷ []
      else []

  -- The event of an exit with the reason `rdi`, the number of the MSR in `rax` and the exit qualification in
  -- `r14`: a write to CR0, any access to CR4, or a write to one of the three MSRs of the syscalls.
  abbrev pub intercepted : ℕ → ℕ → ℕ → ℕ → M → List Request
  intercepted rdi rax rsi r14 m =
      if rdi == 28 then cr_event r14 m else if rdi == 32 then msr_event rax rsi m else []

module _ {M : Type 0} (cpu : ExitInstructions M) (memory : ℕ → Bytes) (rodata : ℕ) where
  -- One event is logged.
  log_event-IsRecorded :
      (rdi rsi : ℕ) (s : ExitState M) (before : List TraceEvent)
      → IsRecorded s.engine before
      → IsRecorded
          (log_event cpu rdi rsi s).engine
          (append_all ((cpu.rdtsc s.machine, rdi, rsi) ∷ []) before)
  unfolding IsRecorded append_all run
  log_event-IsRecorded rdi rsi s before (r, h) = (
    called (log (cpu.rdtsc s.machine) rdi rsi) r,
    (trace_log_event-append (cpu.rdtsc s.machine) rdi rsi s.engine before h).1,
  )

  -- An integrity check writes nothing to it.
  check-IsRecorded :
      (tsc : ℕ) (e : TraceEngine) (before : List TraceEvent)
      → IsRecorded e before
      → IsRecorded (trace_check_integrity memory tsc e).1 before
  unfolding IsRecorded run Holds
  check-IsRecorded tsc e before (r, h) = (
    called (check memory tsc) r,
    rw (check_integrity-blind memory tsc e (Reachable-IsBlind e r)) h,
  )

  cr-IsRecorded :
      (r14 : ℕ) (s : ExitState M) (before : List TraceEvent)
      → IsRecorded s.engine before
      → IsRecorded
          (intercept_cr_access cpu rodata r14 s).1.engine
          (append_all (cr_event cpu rodata r14 s.machine) before)
  unfolding intercept_cr_access vmcs_read64 append_all
  cr-IsRecorded r14 s before h = elim (Bool-cases (bit_and r14 0xf == 0)) [
    | inl cr0 ↦ elim (Bool-cases (bit_and r14 0x30 >>> 4 == 0)) [
      | inl write ↦ rw (cr0, write) (log_event-IsRecorded (event_cr0_write rodata) r14 _ before h)
      | inr other ↦ rw (cr0, other) h
    ]
    | inr other ↦ elim (Bool-cases (bit_and r14 0xf == 4)) [
      | inl cr4 ↦ rw (other, cr4) (log_event-IsRecorded (event_cr4_write rodata) r14 s before h)
      | inr neither ↦ rw (other, neither) h
    ]
  ]

  msr-IsRecorded :
      (rax rsi : ℕ) (s : ExitState M) (before : List TraceEvent)
      → IsRecorded s.engine before
      → IsRecorded
          (intercept_msr_write cpu memory rodata rax rsi s).1.engine
          (append_all (msr_event cpu rodata rax rsi s.machine) before)
  unfolding intercept_msr_write vmcs_read64 append_all
  msr-IsRecorded rax rsi s before h = elim (Bool-cases (rax == 0xc000_0082)) [
    | inl lstar ↦
        rw (lstar)
          (check-IsRecorded _ _ _ (log_event-IsRecorded (event_lstar_write rodata) _ _ before h))
    | inr a ↦ elim (Bool-cases (rax == 0xc000_0081)) [
      | inl star ↦ rw (a, star) (log_event-IsRecorded (event_star_write rodata) rsi _ before h)
      | inr b ↦ elim (Bool-cases (rax == 0xc000_0084)) [
        | inl mask ↦
            rw (a, b, mask) (log_event-IsRecorded (event_sfmask_write rodata) rsi _ before h)
        | inr c ↦ rw (a, b, c) h
      ]
    ]
  ]

  -- The trace engine has been set up and holds a log of events. After `vmexit_dispatch` it is still a
  -- state that the engine can be in, and holds that log with the exit's event added, if the exit has
  -- one and there is room: for the reason 28 a write to CR0 or any access to CR4, for the reason 32 a
  -- number in `rax` that is IA32_LSTAR, IA32_STAR or IA32_SF_MASK, and for every other reason none.
  pub vmexit_dispatch-append :
      (rdi rax rsi r14 : ℕ) (s : ExitState M) (before : List TraceEvent)
      → IsRecorded s.engine before
      → IsRecorded
          (vmexit_dispatch cpu memory rodata rdi rax rsi r14 s).1.engine
          (append_all (intercepted cpu rodata rdi rax rsi r14 s.machine) before)
  unfolding vmexit_dispatch intercept_cpuid store_cpuid vmcs_write64 vmcs_read64
      intercept_io_instruction append_all
  vmexit_dispatch-append rdi rax rsi r14 s before h =
      let kept : ℕ × ExitState M → Type 0 = λ p. IsRecorded p.1.engine before in
      elim (Bool-cases (rdi == 28)) [
        | inl cr ↦ rw (cr) (cr-IsRecorded r14 s before h)
        | inr a ↦ elim (Bool-cases (rdi == 32)) [
          | inl msr ↦ rw (a, msr) (msr-IsRecorded rax rsi s before h)
          | inr b ↦
              rw (a, b)
                (if_both kept (rdi == 10) (if_both kept (rax == 1) h h) (
                  if_both kept (rdi == 30) h
                    (if_both kept (rdi == 18) h (if_both kept (rdi == 12) h h))))
        ]
      ]
