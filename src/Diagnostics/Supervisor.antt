-- ===== src/Diagnostics/Supervisor.antt =====
-- windows/external_native/diagnostics/l1_crypto_admission.h, `OfflineSupervisor`: what an independent
-- observer tells of one run of the probe, and its verdict. The cell of the grant is a parameter of
-- `admit_dual_clock`.
mod State
mod Settling
pub mod Runs
mod Quiet
pub mod Honest
pub mod Kept
pub mod Ends
pub mod Polled
pub mod Granted
mod Tests
unfoldable pub use State.*
unfoldable pub use Settling.*
use shiroha_quiz.Base.{
  ℕ, ◌-◌, Bool, true, false, not, ◌&&◌, ◌||◌, List, [], ◌∷◌, ltb, leb, ◌==◌, if◌then◌else◌,
  is_empty, length, Bytes, replicate,
}
use shiroha_quiz.Diagnostics.Native.{
  CallCounts, no_counts, NativeObservation, no_observation, native_complete,
}
use shiroha_quiz.Diagnostics.Budget.{Ledger}
use shiroha_quiz.Diagnostics.Grants.{
  GrantTarget, new_target, safe_id, is_admission_only, out_of_window,
}

abbrev pub identified : GrantTarget → Bytes → Evidence → Evidence
identified t trial_id e = record e {
  batch_id = t.batch_id;
  trial_id = trial_id;
  source_sha = t.source_sha;
  base_sha = t.base_sha;
  artifact_sha256 = t.exe_sha256;
  environment_id = t.device_id;
  reviewer_id = t.reviewer_id;
  verifier_id = t.verifier_id;
  review_sha256 = t.review_sha256;
  verification_sha256 = t.verification_sha256;
}

-- `admit_dual_clock`, with `consume`, the operation of the cell.
module _ {C : Type 0} (consume : GrantTarget → ℕ → C → Bool × C) where
  unfoldable pub admit_consumed :
      GrantTarget → ℕ → Bytes → Bool × C → Supervisor → Bool × (C × Supervisor)
  unfolding stop
  admit_consumed observed mono trial_id (false, c) s = (false, (c, stop admission blocked s))
  admit_consumed observed mono trial_id (true, c) s = (
    true,
    (
      c,
      record s {
        target = observed;
        last_ms = mono;
        evidence = identified observed trial_id s.evidence;
        state = admitted;
      },
    ),
  )

  unfoldable pub admit_dual_clock :
      GrantTarget → ℕ → ℕ → Bytes → C → Supervisor → Bool × (C × Supervisor)
  unfolding stop safe_id admit_consumed
  admit_dual_clock observed utc mono trial_id c s =
      if not (is_not_started s.state)
      then (false, (c, s))
      else if not (safe_id trial_id)
      then (false, (c, stop admission blocked s))
      else admit_consumed observed mono trial_id (consume observed utc c) s

abbrev pub with_worker : WorkerState → Supervisor → Supervisor
with_worker w s = record s { evidence = record (s.evidence) { worker_state = w } }

unfoldable pub begin_timed : ℕ → ℕ → Bool × Supervisor → Bool × Supervisor
unfolding stop
begin_timed utc mono (false, s) = (false, s)
begin_timed utc mono (true, s) =
    let s' = record s {
      evidence = record (s.evidence) { launch_attempt_ms = mono; worker_state = worker_attempted };
      state = start_attempted;
      started = true;
    } in
    if out_of_window s.target utc
    then (false, with_worker start_failed (stop launch blocked s'))
    else (true, s')

unfoldable pub begin_launch_attempt_dual_clock : ℕ → ℕ → Supervisor → Bool × Supervisor
unfolding time begin_timed
begin_launch_attempt_dual_clock utc mono s =
    if not (is_admitted s.state) then (false, s) else begin_timed utc mono (time mono s)

unfoldable pub confirmed : WorkerState → Supervisor → Bool × Supervisor
unfolding stop
confirmed worker_unknown s =
    let s' = with_worker worker_unknown (stop launch settlement_unknown s) in
    (false, record s' { evidence = record (s'.evidence) { verdict = unknown } })
confirmed worker_running s = (true, with_worker worker_running (record s { state = running }))
confirmed w s = (false, with_worker start_failed (stop launch blocked s))

unfoldable pub confirm_launch : WorkerState → Supervisor → Bool × Supervisor
unfolding confirmed
confirm_launch result s =
    if not (is_start_attempted s.state) then (false, s) else confirmed result s

-- `poll` where the monitor is healthy, behind the clock. It has not gone back since the launch attempt,
-- so that the difference does not wrap.
unfoldable pub poll_timed : ℕ → Bool × Supervisor → Bool × Supervisor
unfolding stop
poll_timed now (false, s) = (false, stop measurement stop_requested s)
poll_timed now (true, s) =
    if s.started && leb s.target.max_execution_ms (now - s.evidence.launch_attempt_ms)
    then (
      false,
      stop deadline deadline_exceeded
          (record s { evidence = record (s.evidence) { deadline_passed = true } }),
    )
    else (none_yet s.evidence.first_failure, s)

unfoldable pub poll : ℕ → Bool → Supervisor → Bool × Supervisor
unfolding supervisor_terminal stop time poll_timed
poll now healthy s =
    if supervisor_terminal s.state || is_not_started s.state
    then (false, s)
    else if not healthy
    then (false, stop measurement stop_requested s)
    else poll_timed now (time now s)

abbrev pub is_running : SupervisorState → Bool
is_running running = true
is_running s = false

abbrev pub still_open : Bool × Supervisor → Bool × Supervisor
still_open (false, s) = (false, s)
still_open (true, s) = (is_running s.state && none_yet s.evidence.first_failure, s)

unfoldable pub admission_open : ℕ → Supervisor → Bool × Supervisor
unfolding poll
admission_open now s = still_open (poll now true s)

abbrev newest : List ResourceSample → ResourceSample → ResourceSample
newest [] d = d
newest (x ∷ xs) d = x

-- Whether a sample may follow those taken so far.
unfoldable pub sample_fits : Supervisor → ResourceSample → Bool
unfolding is_admission_only
sample_fits s x =
    let taken = length s.evidence.samples in
    let expected = if is_admission_only s.target then 0 else if taken == 17 then 16 else taken in
    let before = newest s.evidence.samples x in
    not (leb 18 taken)
    && (not (x.peak_working_set == 0)
        && (not (x.peak_commit == 0)
            && (not (x.handles == 0)
                && (x.completed_calls == expected
                    && (leb before.peak_working_set x.peak_working_set
                        && leb before.peak_commit x.peak_commit)))))

abbrev pub over_target : GrantTarget → ResourceSample → Bool
over_target t x =
    ltb t.working_set_bytes x.peak_working_set
    || (ltb t.commit_bytes x.peak_commit || ltb t.handles x.handles)

unfoldable pub sample_polled : ResourceSample → Bool × Supervisor → Bool × Supervisor
unfolding stop sample_fits
sample_polled x (false, s) = (false, s)
sample_polled x (true, s) =
    if not (sample_fits s x)
    then (false, stop measurement stop_requested s)
    else (let s' = record s {
      evidence = record (s.evidence) { samples = x ∷ s.evidence.samples };
    } in
        if over_target s.target x then (false, stop budget stop_requested s') else (true, s'))

unfoldable pub sample : ResourceSample → Bool → Supervisor → Bool × Supervisor
unfolding poll sample_polled
sample x measured s =
    if not (is_open s.state) then (false, s) else sample_polled x (poll x.observed_at_ms measured s)

unfoldable pub worker_failed : Supervisor → Supervisor
unfolding stop
worker_failed s = stop worker stop_requested s

unfoldable pub refuse : StopReason → Supervisor → Supervisor
unfolding stop
refuse admission s = stop admission blocked s
refuse launch s = stop launch blocked s
refuse r s = s

unfoldable pub begin_settlement : Supervisor → Supervisor
unfolding supervisor_terminal
begin_settlement s =
    if s.started && not (supervisor_terminal s.state) then record s { state = settling } else s

unfoldable pub exit_timed : ℕ → Bool × Supervisor → Supervisor
unfolding begin_settlement
exit_timed now (false, s) = s
exit_timed now (true, s) = begin_settlement (record s {
  evidence = record (s.evidence) {
    process_exit_observed = true;
    worker_state = exit_observed;
    process_end_ms = now;
  };
})

unfoldable pub observe_worker_exit : ℕ → Supervisor → Supervisor
unfolding supervisor_terminal time exit_timed
observe_worker_exit now s =
    if supervisor_terminal s.state || (not s.started || s.evidence.process_exit_observed)
    then s
    else exit_timed now (time now s)

abbrev pub with_verdict : OfflineVerdict → Supervisor → Supervisor
with_verdict v s = record s { evidence = record (s.evidence) { verdict = v } }

-- What the observer has seen of the end.
abbrev pub recorded : ℕ → Bool → Ledger → NativeObservation → Evidence → Evidence
recorded now observed_exit l o e =
    let seen = e.process_exit_observed || observed_exit in
    record e {
      abi = l.abi_calls;
      native = o;
      buffers_acquired = l.buffers_allocated;
      buffers_live = l.buffers_live;
      process_exit_observed = seen;
      process_end_ms =
          if observed_exit && not e.process_exit_observed then now else e.process_end_ms;
      worker_state = if seen then exit_observed else worker_unknown;
      completed_native_calls = l.completed;
      settlement_incomplete = is_unresolved seen l o;
    }

-- `settle` where the state is not final; behind its `poll`.
unfoldable pub judge : Ledger → NativeObservation → Supervisor → Supervisor
unfolding stop is_exact
judge l o s =
    if s.evidence.settlement_incomplete
    then with_verdict unknown (stop settlement settlement_unknown s)
    else (let done = record s { state = complete } in
        if is_measurement s.evidence.first_failure
        then with_verdict inconclusive done
        else if not (none_yet s.evidence.first_failure)
            || (not (is_exact s.target l o) || not (length s.evidence.samples == 18))
        then with_verdict failed done
        else with_verdict passed done)

unfoldable pub settle : ℕ → Bool → Ledger → NativeObservation → Supervisor → Supervisor
unfolding supervisor_terminal poll judge is_unresolved
settle now observed_exit l o s =
    if not s.started || supervisor_terminal s.state
    then s
    else (let s' = (poll now true s).1 in
        judge l o (record s' { evidence = recorded now observed_exit l o s'.evidence }))
