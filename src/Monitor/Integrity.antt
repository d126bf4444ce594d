-- ===== src/Monitor/Integrity.antt =====
-- What an integrity check counts.
use kernova_tee.Prelude.{
  ℕ, suc, zero, ◌+◌, ◌%◌, ◌^◌, ◌<◌, ◌≡◌, refl, sym, inl, inr, true, false, arith, pos, is_zero,
  minus_two, Bool-cases, if◌then◌else◌,
}
use kernova_tee.Host.{Host}
use kernova_tee.Globals.{Globals}
use kernova_tee.Monitor.{check_integrity}

-- `n` integrity checks in a row.
abbrev pub check_repeatedly : {M : Type 0} → Host M → ℕ → Globals M → Globals M
check_repeatedly host zero g = g
check_repeatedly host (suc n) g = check_repeatedly host n (check_integrity host g).1

-- The number of the next `n` checks that the tracer fails, from a machine state on.
abbrev pub failures : {M : Type 0} → Host M → ℕ → M → ℕ
failures host zero m = 0
failures host (suc n) m =
    let (r, m') = host.trace_check_integrity m in
    let rest = failures host n m' in if is_zero r then rest else 1 + rest

-- The machine after `n` checks by the tracer.
abbrev pub after_checks : {M : Type 0} → Host M → ℕ → M → M
after_checks host zero m = m
after_checks host (suc n) m = after_checks host n (host.trace_check_integrity m).1

-- What `n` checks leave: a counter that has grown by the failures, modulo 2^64.
abbrev pub checked : {M : Type 0} → Host M → ℕ → Globals M → Globals M
checked host n g = record g {
  machine = after_checks host n g.machine;
  hv = record g.hv {
    integrity_violations = (g.hv.integrity_violations + failures host n g.machine) % 2 ^ 64;
  };
}

count_zero : (v : ℕ) → v < 2 ^ 64 → (v + 0) % 2 ^ 64 ≡ v
count_zero v h = omega arith

count_suc : (v k : ℕ) → ((v + 1) % 2 ^ 64 + k) % 2 ^ 64 ≡ (v + (1 + k)) % 2 ^ 64
count_suc v k = omega arith

module _ {M : Type 0} (host : Host M) where
  check_clean :
      (g : Globals M)
      → g.hv.trace_enabled ≡ true
      → is_zero (host.trace_check_integrity g.machine).0 ≡ true
      → check_integrity host g
        ≡ (pos 0, record g { machine = (host.trace_check_integrity g.machine).1 })
  unfolding check_integrity
  check_clean g on clean = rw (on, clean)

  check_violated :
      (g : Globals M)
      → g.hv.trace_enabled ≡ true
      → is_zero (host.trace_check_integrity g.machine).0 ≡ false
      → check_integrity host g ≡ (
        minus_two,
        record g {
          machine = (host.trace_check_integrity g.machine).1;
          hv = record g.hv { integrity_violations = (g.hv.integrity_violations + 1) % 2 ^ 64 };
        },
      )
  unfolding check_integrity
  check_violated g on bad = rw (on, bad)

  -- Where tracing is on and the counter of violations fits in 64 bits, `n` integrity checks change only
  -- the machine, which is what the tracer's own checks make of it, and that counter, which grows by the
  -- number of checks that the tracer fails, modulo 2^64.
  pub violations_lem :
      (n : ℕ) (g : Globals M)
      → g.hv.trace_enabled ≡ true
      → g.hv.integrity_violations < 2 ^ 64
      → check_repeatedly host n g ≡ checked host n g
  violations_lem zero g on fits = let h = count_zero g.hv.integrity_violations fits in rw h refl
  violations_lem (suc n) g on fits =
      elim (Bool-cases (is_zero (host.trace_check_integrity g.machine).0)) [
        | inl clean ↦
            rw (check_clean g on clean, clean)
              (violations_lem n (record g { machine = (host.trace_check_integrity g.machine).1 }) on
                fits)
        | inr bad ↦
            let m = (host.trace_check_integrity g.machine).1 in
            let v = g.hv.integrity_violations in
            rw (check_violated g on bad, bad, sym (count_suc v (failures host n m)))
              (violations_lem n
                (record g {
                  machine = m;
                  hv = record g.hv { integrity_violations = (v + 1) % 2 ^ 64 };
                })
                on (omega arith))
      ]
