-- ===== src/Diagnostics/Supervisor/Polled.antt =====
-- When a poll of the observer lets work go on, over everything that it may be told.
mod Noted
use shiroha_quiz.Base.{
  ℕ, ◌+◌, ◌<◌, ◌≤◌, ◌≡◌, refl, Bool, true, false, not, ◌&&◌, ◌||◌, ◌⊎◌, inl, inr, List, [], ◌∷◌,
  ◌==◌, leb, ltb, ◌-◌, if-both, not-false, and-true_left, length, Bytes,
}
use shiroha_quiz.Diagnostics.Native.{NativeObservation}
use shiroha_quiz.Diagnostics.Budget.{Ledger}
use shiroha_quiz.Diagnostics.Grants.{GrantTarget, safe_id, out_of_window}
use shiroha_quiz.Diagnostics.Supervisor.{
  SupervisorState, complete, settlement_unknown, blocked, not_started, admitted, start_attempted,
  running, settling, stop_requested, deadline_exceeded, supervisor_terminal, StopReason, no_reason,
  admission, launch, deadline, measurement, budget, worker, settlement, WorkerState,
  worker_not_started, worker_attempted, start_failed, worker_running, exit_observed, worker_unknown,
  ResourceSample, Supervisor, new_supervisor, is_not_started, is_admitted, is_start_attempted,
  is_open, none_yet, first_of, is_measurement, over_target, sample_fits, is_exact, recorded,
  with_worker, stop, time, admit_consumed, admit_dual_clock, begin_timed,
  begin_launch_attempt_dual_clock, confirmed, confirm_launch, poll_timed, poll, still_open,
  admission_open, sample_polled, sample, worker_failed, refuse, begin_settlement, exit_timed,
  observe_worker_exit, judge, settle,
}
use shiroha_quiz.Diagnostics.Supervisor.Runs.{
  Event, admits, begins, confirms, polls, opens, samples, fails, refuses, exits, settles_from,
  settles, tell, tell_all,
}
use shiroha_quiz.Diagnostics.Supervisor.Ends.{poll-true}
use shiroha_quiz.Diagnostics.Supervisor.Polled.Noted.{
  is_launched, is_halted, IsNoted, idle-IsNoted, stop-IsNoted, time-IsNoted, poll-IsNoted,
  still_open-IsNoted, begin_launch-IsNoted, confirm_launch-IsNoted,
}

sample_polled-IsNoted :
    (x : ResourceSample) (r : Bool × Supervisor) → IsNoted r.1 → IsNoted (sample_polled x r).1
unfolding sample_polled
sample_polled-IsNoted x (false, s) h = h
sample_polled-IsNoted x (true, s) h =
    let Goal = λ (r : Bool × Supervisor). IsNoted r.1 in
    let more = record s { evidence = record (s.evidence) { samples = x ∷ s.evidence.samples } } in
    let same : IsNoted more = record { noted = h.noted; marked = h.marked } in
    if-both Goal (not (sample_fits s x))
      (λ e. stop-IsNoted measurement stop_requested s refl refl h)
      λ e.
        if-both Goal (over_target s.target x)
          (λ f. stop-IsNoted budget stop_requested more refl refl same) (λ f. same)

sample-IsNoted :
    (x : ResourceSample) (measured : Bool) (s : Supervisor)
    → IsNoted s
    → IsNoted (sample x measured s).1
unfolding sample
sample-IsNoted x measured s h =
    if-both (λ (r : Bool × Supervisor). IsNoted r.1) (not (is_open s.state)) (λ e. h)
      (λ e.
        sample_polled-IsNoted x (poll x.observed_at_ms measured s)
          (poll-IsNoted x.observed_at_ms measured s h))

refuse-IsNoted : (why : StopReason) (s : Supervisor) → IsNoted s → IsNoted (refuse why s)
unfolding refuse
refuse-IsNoted no_reason s h = h
refuse-IsNoted admission s h = stop-IsNoted admission blocked s refl refl h
refuse-IsNoted launch s h = stop-IsNoted launch blocked s refl refl h
refuse-IsNoted deadline s h = h
refuse-IsNoted measurement s h = h
refuse-IsNoted budget s h = h
refuse-IsNoted worker s h = h
refuse-IsNoted settlement s h = h

begin_settlement-IsNoted : (s : Supervisor) → IsNoted s → IsNoted (begin_settlement s)
unfolding begin_settlement
begin_settlement-IsNoted s h =
    if-both IsNoted (s.started && not (supervisor_terminal s.state))
      (λ e. record {
        noted = λ f. absurd (cc f);
        marked = λ f. and-true_left s.started (not (supervisor_terminal s.state)) e;
      })
      (λ e. h)

exit_timed-IsNoted : (now : ℕ) (r : Bool × Supervisor) → IsNoted r.1 → IsNoted (exit_timed now r)
unfolding exit_timed
exit_timed-IsNoted now (false, s) h = h
exit_timed-IsNoted now (true, s) h =
    let k = begin_settlement-IsNoted _ (record { noted = h.noted; marked = h.marked }) in
    record { noted = k.noted; marked = k.marked }

exit-IsNoted : (now : ℕ) (s : Supervisor) → IsNoted s → IsNoted (observe_worker_exit now s)
unfolding observe_worker_exit
exit-IsNoted now s h =
    if-both IsNoted
      (supervisor_terminal s.state || (not s.started || s.evidence.process_exit_observed)) (λ e. h)
      (λ e. exit_timed-IsNoted now (time now s) (time-IsNoted now s h))

judge-IsNoted :
    (l : Ledger) (o : NativeObservation) (s : Supervisor) → IsNoted s → IsNoted (judge l o s)
unfolding judge
judge-IsNoted l o s h =
    let first = s.evidence.first_failure in
    if-both IsNoted s.evidence.settlement_incomplete
      (λ e.
        let k = stop-IsNoted settlement settlement_unknown s refl refl h in
        record { noted = k.noted; marked = k.marked })
      λ e.
        if-both IsNoted (is_measurement first) (λ f. idle-IsNoted _ refl refl)
          λ f.
            if-both IsNoted
              (not (none_yet first)
                || (not (is_exact s.target l o) || not (length s.evidence.samples == 18)))
              (λ g. idle-IsNoted _ refl refl) (λ g. idle-IsNoted _ refl refl)

settle-IsNoted :
    (now : ℕ) (seen : Bool) (l : Ledger) (o : NativeObservation) (s : Supervisor)
    → IsNoted s
    → IsNoted (settle now seen l o s)
unfolding settle
settle-IsNoted now seen l o s h =
    let k = poll-IsNoted now true s h in
    if-both IsNoted (not s.started || supervisor_terminal s.state) (λ e. h)
      (λ e. judge-IsNoted l o _ (record { noted = k.noted; marked = k.marked }))

-- What a poll has found that lets work go on.
pub record IsLive (now : ℕ) (healthy : Bool) (s : Supervisor) : Type 0 where
  pub watched : healthy ≡ true
  pub forward : s.last_ms ≤ now
  pub unfailed : none_yet s.evidence.first_failure ≡ true
  pub phase :
      (is_admitted s.state ≡ true)
      ⊎ ((is_launched s.state ≡ true)
          × ((s.started ≡ true) × (now < s.evidence.launch_attempt_ms + s.target.max_execution_ms)))

phases :
    (st : SupervisorState)
    → supervisor_terminal st ≡ false
    → is_not_started st ≡ false
    → is_halted st ≡ false
    → (is_admitted st ≡ true) ⊎ (is_launched st ≡ true)
unfolding supervisor_terminal
phases not_started t n h = absurd (cc n)
phases admitted t n h = inl refl
phases start_attempted t n h = inr refl
phases running t n h = inr refl
phases settling t n h = inr refl
phases stop_requested t n h = absurd (cc h)
phases deadline_exceeded t n h = absurd (cc h)
phases complete t n h = absurd (cc t)
phases settlement_unknown t n h = absurd (cc t)
phases blocked t n h = absurd (cc t)

refuted : (b c : Bool) → (b ≡ true → c ≡ false) → c ≡ true → b ≡ false
refuted true c f e = absurd (cc (f refl, e))
refuted false c f e = refl

noted-IsLive :
    (now : ℕ) (healthy : Bool) (s : Supervisor)
    → IsNoted s
    → (poll now healthy s).0 ≡ true
    → IsLive now healthy s
noted-IsLive now healthy s h e =
    let ((final, (fresh, watched)), (later, (none, early))) = poll-true now healthy s e in
    record {
      watched = watched;
      forward = later;
      unfailed = none;
      phase = elim (phases s.state final fresh (refuted (is_halted s.state) _ h.noted none)) [
        | inl a ↦ inl a
        | inr b ↦ inr (b, (h.marked b, early (h.marked b)))
      ];
    }

module _ {C : Type 0} (consume : GrantTarget → ℕ → C → Bool × C) where
  admit_consumed-IsNoted :
      (t : GrantTarget) (mono : ℕ) (trial_id : Bytes) (r : Bool × C) (s : Supervisor)
      → IsNoted s
      → IsNoted (admit_consumed consume t mono trial_id r s).1.1
  unfolding admit_consumed
  admit_consumed-IsNoted t mono trial_id (false, c) s h =
      stop-IsNoted admission blocked s refl refl h
  admit_consumed-IsNoted t mono trial_id (true, c) s h = idle-IsNoted _ refl refl

  admit-IsNoted :
      (t : GrantTarget) (utc mono : ℕ) (trial_id : Bytes) (c : C) (s : Supervisor)
      → IsNoted s
      → IsNoted (admit_dual_clock consume t utc mono trial_id c s).1.1
  unfolding admit_dual_clock
  admit-IsNoted t utc mono trial_id c s h =
      let Goal = λ (r : Bool × (C × Supervisor)). IsNoted r.1.1 in
      if-both Goal (not (is_not_started s.state)) (λ e. h)
        λ e.
          if-both Goal (not (safe_id trial_id)) (λ f. stop-IsNoted admission blocked s refl refl h)
            (λ f. admit_consumed-IsNoted t mono trial_id (consume t utc c) s h)

  tell-IsNoted :
      (e : Event) (c : C) (s : Supervisor) → IsNoted s → IsNoted (tell consume e (c, s)).1
  unfolding tell worker_failed admission_open
  tell-IsNoted (admits t utc mono trial_id) c s h = admit-IsNoted t utc mono trial_id c s h
  tell-IsNoted (begins utc mono) c s h = begin_launch-IsNoted utc mono s h
  tell-IsNoted (confirms w) c s h = confirm_launch-IsNoted w s h
  tell-IsNoted (polls now healthy) c s h = poll-IsNoted now healthy s h
  tell-IsNoted (opens now) c s h = still_open-IsNoted (poll now true s) (poll-IsNoted now true s h)
  tell-IsNoted (samples x measured) c s h = sample-IsNoted x measured s h
  tell-IsNoted fails c s h = stop-IsNoted worker stop_requested s refl refl h
  tell-IsNoted (refuses why) c s h = refuse-IsNoted why s h
  tell-IsNoted (exits now) c s h = exit-IsNoted now s h
  tell-IsNoted settles_from c s h = begin_settlement-IsNoted s h
  tell-IsNoted (settles now seen l o) c s h = settle-IsNoted now seen l o s h

  tell_all-IsNoted :
      (es : List Event) (c : C) (s : Supervisor)
      → IsNoted s
      → IsNoted (tell_all consume es (c, s)).1
  unfolding tell_all
  tell_all-IsNoted [] c s h = h
  tell_all-IsNoted (e ∷ es) c s h =
      let w = tell consume e (c, s) in tell_all-IsNoted es w.0 w.1 (tell-IsNoted e c s h)

  -- Whatever the observer has told a new supervisor, a poll lets work go on only with a healthy monitor and
  -- a clock that has not gone back, where no failure was noted, and where the run is admitted and waits
  -- for its launch, or is launched, not stopped, and before its deadline, counted from the launch attempt.
  pub tell_all-IsLive :
      (es : List Event) (c : C) (now : ℕ) (healthy : Bool)
      → (poll now healthy (tell_all consume es (c, new_supervisor)).1).0 ≡ true
      → IsLive now healthy (tell_all consume es (c, new_supervisor)).1
  tell_all-IsLive es c now healthy =
      noted-IsLive now healthy (tell_all consume es (c, new_supervisor)).1
        (tell_all-IsNoted es c new_supervisor (idle-IsNoted new_supervisor refl refl))
