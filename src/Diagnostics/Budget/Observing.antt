-- ===== src/Diagnostics/Budget/Observing.antt =====
-- windows/external_native/diagnostics/l1_crypto_probe.h, the clock and the samples of `L1CryptoLedger`.
use shiroha_quiz.Base.{
  ℕ, ◌+◌, ◌-◌, ◌%◌, ◌^◌, Bool, true, false, not, ◌&&◌, ◌||◌, ltb, leb, ◌==◌, if◌then◌else◌, codes,
  Bytes, bytes_eq,
}
use shiroha_quiz.Diagnostics.Native.{inc}
use shiroha_quiz.Diagnostics.Budget.State.{Ledger, minus_one, stop}

-- What `clock_ms` answers: there is no clock, it fails, or it tells the time.
pub data Clock : Type 0 where
  no_clock clock_fails : Clock
  now_ms : ℕ → Clock

unfoldable pub bind_launch_origin : ℕ → Ledger → Ledger
bind_launch_origin launch l = record l {
  clock_initialized = true;
  start_ms = launch;
  last_ms = launch;
  elapsed_ms = 0;
}

-- The times are of 64 bits; `now` is not before `last_ms`, so that the difference does not wrap.
unfoldable pub check_time : ℕ → Bytes → Ledger → Bool × Ledger
unfolding stop
check_time now step l =
    if not l.clock_initialized
    then (
      true,
      record l { clock_initialized = true; start_ms = now; last_ms = now; elapsed_ms = 0 },
    )
    else if ltb now l.last_ms
    then (false, stop step minus_one (codes "MEASUREMENT_UNAVAILABLE") l)
    else (let elapsed = (now + 2 ^ 64 - l.start_ms) % 2 ^ 64 in
        let l' = record l { last_ms = now; elapsed_ms = elapsed } in
        if leb l.max_elapsed_ms elapsed
        then (false, stop (codes "deadline_exceeded") minus_one (codes "BUDGET_EXCEEDED") l')
        else (not l.stopped, l'))

unfoldable pub check_clock : Clock → Bytes → Ledger → Bool × Ledger
unfolding check_time stop
check_clock no_clock step l = (not l.stopped, l)
check_clock clock_fails step l = (false, stop step minus_one (codes "MEASUREMENT_UNAVAILABLE") l)
check_clock (now_ms now) step l = check_time now step l

abbrev larger : ℕ → ℕ → ℕ
larger a b = if ltb b a then a else b

abbrev pub over_limit : ℕ → ℕ → Bool
over_limit limit value = ltb 0 limit && ltb limit value

unfoldable pub resources : ℕ → ℕ → ℕ → Ledger → Bool × Ledger
unfolding stop
resources working commit handles l =
    if working == 0 || (commit == 0 || handles == 0)
    then (
      false,
      stop (codes "resource_observation_invalid") minus_one (codes "MEASUREMENT_UNAVAILABLE") l,
    )
    else (let l' = record l {
      peak_working_set = larger working l.peak_working_set;
      peak_commit = larger commit l.peak_commit;
      handles_first = if l.samples == 0 then handles else l.handles_first;
      samples = inc l.samples;
      handles_last = handles;
      handles_max_sampled = larger handles l.handles_max_sampled;
    } in
        if over_limit l.working_set_limit_bytes working
          || (over_limit l.commit_limit_bytes commit || over_limit l.handle_limit handles)
        then (false, stop (codes "resource_budget_exceeded") minus_one (codes "BUDGET_EXCEEDED") l')
        else (true, l'))

-- What `sample` does: there is no sampler, it fails without a reading, or it hands its reading to
-- `resources`.
pub data Sample : Type 0 where
  no_sampler sampler_fails : Sample
  reading : ℕ → ℕ → ℕ → Sample

abbrev pub take_sample : Sample → Ledger → Bool × Ledger
take_sample no_sampler l = (false, l)
take_sample sampler_fails l = (false, l)
take_sample (reading working commit handles) l = resources working commit handles l

-- `observe` behind its clock.
unfoldable pub judge_sample : Bool × Ledger → Bool × Ledger
unfolding stop
judge_sample (true, l) = (not l.stopped, l)
judge_sample (false, l) =
    let l' = record l { observation_failures = inc l.observation_failures } in
    (
      false,
      if bytes_eq l'.failure_code (codes "BUDGET_EXCEEDED")
          then l'
          else stop (codes "resource_observation_failed") minus_one
              (codes "MEASUREMENT_UNAVAILABLE") l',
    )

unfoldable pub observe : Clock → Sample → Bytes → Ledger → Bool × Ledger
unfolding check_clock judge_sample resources
observe clock sample stage l =
    let (fresh, l') = check_clock clock stage l in
    if not fresh
    then (false, l')
    else judge_sample
        (take_sample sample (record l' { observation_attempts = inc l'.observation_attempts }))
