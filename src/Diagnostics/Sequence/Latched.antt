-- ===== src/Diagnostics/Sequence/Latched.antt =====
-- The observations of the probe, and its stop.
use shiroha_quiz.Base.{
  ◌+◌, ◌-◌, ◌%◌, ◌^◌, ◌≡◌, refl, inl, inr, Bool, true, false, not, ◌||◌, ltb, leb, ◌==◌, if-both,
  codes, Bytes, bytes_eq,
}
use shiroha_quiz.Diagnostics.Native.{inc}
use shiroha_quiz.Diagnostics.Budget.{
  Ledger, Clock, no_clock, clock_fails, now_ms, Sample, no_sampler, sampler_fails, reading,
  check_time, check_clock, over_limit, resources, take_sample, judge_sample, observe, stop,
}
use shiroha_quiz.Diagnostics.Budget.Counters.{counters, counters-observe}
use shiroha_quiz.Diagnostics.Buffers.{Pool, with_ledger}
use shiroha_quiz.Diagnostics.Buffers.Pooled.{IsPooled-quiet}
use shiroha_quiz.Diagnostics.Buffers.Kept.{IsKept}

-- A ledger that is stopped stays stopped.
check_clock-stopped :
    (clock : Clock) (step : Bytes) (l : Ledger)
    → l.stopped ≡ true
    → (check_clock clock step l).1.stopped ≡ true
unfolding check_clock check_time stop
check_clock-stopped no_clock step l e = e
check_clock-stopped clock_fails step l e = refl
check_clock-stopped (now_ms now) step l e =
    let Goal = λ (r : Bool × Ledger). r.1.stopped ≡ true in
    let elapsed = (now + 2 ^ 64 - l.start_ms) % 2 ^ 64 in
    if-both Goal (not l.clock_initialized) (λ f. e)
      λ f.
        if-both Goal (ltb now l.last_ms) (λ g. refl)
          λ g. if-both Goal (leb l.max_elapsed_ms elapsed) (λ h. refl) (λ h. e)

take_sample-stopped :
    (sample : Sample) (l : Ledger) → l.stopped ≡ true → (take_sample sample l).1.stopped ≡ true
unfolding resources stop
take_sample-stopped no_sampler l e = e
take_sample-stopped sampler_fails l e = e
take_sample-stopped (reading working commit handles) l e =
    let Goal = λ (r : Bool × Ledger). r.1.stopped ≡ true in
    if-both Goal (working == 0 || (commit == 0 || handles == 0)) (λ f. refl)
      λ f.
        if-both Goal
          (over_limit l.working_set_limit_bytes working
            || (over_limit l.commit_limit_bytes commit || over_limit l.handle_limit handles))
          (λ g. refl) (λ g. e)

judge_sample-stopped : (r : Bool × Ledger) → r.1.stopped ≡ true → (judge_sample r).1.stopped ≡ true
unfolding judge_sample stop
judge_sample-stopped (true, l) e = e
judge_sample-stopped (false, l) e =
    if-both (λ (r : Ledger). r.stopped ≡ true) (bytes_eq l.failure_code (codes "BUDGET_EXCEEDED"))
      (λ f. e) (λ f. refl)

observe-stopped :
    (clock : Clock) (sample : Sample) (stage : Bytes) (l : Ledger)
    → l.stopped ≡ true
    → (observe clock sample stage l).1.stopped ≡ true
unfolding observe
observe-stopped clock sample stage l e =
    let l' = (check_clock clock stage l).1 in
    let fresh = check_clock-stopped clock stage l e in
    if-both (λ (r : Bool × Ledger). r.1.stopped ≡ true) (not (check_clock clock stage l).0)
      (λ f. fresh)
      λ f.
        (let l'' = record l' { observation_attempts = inc l'.observation_attempts } in
          judge_sample-stopped (take_sample sample l'') (take_sample-stopped sample l'' fresh))

pub observe-IsKept :
    (clock : Clock) (sample : Sample) (stage : Bytes) (p : Pool)
    → IsKept p
    → IsKept (with_ledger p (observe clock sample stage p.ledger).1)
observe-IsKept clock sample stage p h =
    let l = (observe clock sample stage p.ledger).1 in
    let same = counters-observe clock sample stage p.ledger in
    IsPooled-quiet p.slots (counters p.ledger) p.ledger.stopped h (counters l) l.stopped same
      (elim h.latched [
        | inl z ↦ inl z
        | inr s ↦ inr (observe-stopped clock sample stage p.ledger s)
      ])
