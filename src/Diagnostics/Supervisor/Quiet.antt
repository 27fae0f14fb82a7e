-- ===== src/Diagnostics/Supervisor/Quiet.antt =====
-- What the operations of the observer leave of its evidence.
mod Steady
unfoldable pub use Steady.*
use shiroha_quiz.Base.{
  ℕ, ◌-◌, ◌≡◌, refl, ap, ◌∙◌, Bool, true, false, not, not-false, ◌&&◌, ◌||◌, ltb, leb, if-both,
  Bytes,
}
use shiroha_quiz.Diagnostics.Grants.{GrantTarget, safe_id, out_of_window}
use shiroha_quiz.Diagnostics.Supervisor.{
  SupervisorState, blocked, start_attempted, stop_requested, deadline_exceeded, supervisor_terminal,
  StopReason, no_reason, admission, launch, deadline, measurement, budget, worker, settlement,
  worker_attempted, exit_observed, Supervisor, is_not_started, is_admitted, none_yet, first_of,
  stop, time, admit_consumed, admit_dual_clock, begin_timed, begin_launch_attempt_dual_clock,
  poll_timed, poll, admission_open, refuse, begin_settlement, exit_timed, observe_worker_exit,
  still_open,
}

time-IsSteady : (now : ℕ) (s : Supervisor) → IsSteady s (time now s).1
unfolding time
time-IsSteady now s =
    if-both (λ (r : Bool × Supervisor). IsSteady s r.1) (ltb now s.last_ms)
      (λ e. stop-IsSteady measurement stop_requested s refl) (λ e. seen_at-IsSteady now s)

abbrev late : Supervisor → Supervisor
late s = record s { evidence = record (s.evidence) { deadline_passed = true } }

poll_timed-IsSteady : (now : ℕ) (r : Bool × Supervisor) → IsSteady r.1 (poll_timed now r).1
unfolding poll_timed
poll_timed-IsSteady now (false, s) = stop-IsSteady measurement stop_requested s refl
poll_timed-IsSteady now (true, s) =
    if-both (λ (r : Bool × Supervisor). IsSteady s r.1)
      (s.started && leb s.target.max_execution_ms (now - s.evidence.launch_attempt_ms))
      (λ e.
        let h = stop-IsSteady deadline deadline_exceeded (late s) refl in
        record {
          quiet = record {
            verdict = h.quiet.verdict;
            samples = h.quiet.samples;
            latched = h.quiet.latched;
          };
          bound = record { target = h.bound.target; shut = h.bound.shut };
        })
      (λ e. IsSteady-refl s)

pub poll-IsSteady : (now : ℕ) (healthy : Bool) (s : Supervisor) → IsSteady s (poll now healthy s).1
unfolding poll
poll-IsSteady now healthy s =
    let Goal = λ (r : Bool × Supervisor). IsSteady s r.1 in
    if-both Goal (supervisor_terminal s.state || is_not_started s.state) (λ e. IsSteady-refl s)
      λ e.
        if-both Goal (not healthy) (λ f. stop-IsSteady measurement stop_requested s refl)
          λ f.
            IsSteady-trans s (time now s).1 (poll_timed now (time now s)).1 (time-IsSteady now s)
              (poll_timed-IsSteady now (time now s))

still_open-IsSteady :
    (s : Supervisor) (r : Bool × Supervisor) → IsSteady s r.1 → IsSteady s (still_open r).1
still_open-IsSteady s (false, t) h = h
still_open-IsSteady s (true, t) h = h

pub admission_open-IsSteady : (now : ℕ) (s : Supervisor) → IsSteady s (admission_open now s).1
unfolding admission_open
admission_open-IsSteady now s = still_open-IsSteady s (poll now true s) (poll-IsSteady now true s)

-- An admission binds a new target.
admit_consumed-IsQuiet :
    {C : Type 0} (consume : GrantTarget → ℕ → C → Bool × C) (t : GrantTarget) (mono : ℕ)
    (trial_id : Bytes) (r : Bool × C) (s : Supervisor)
    → IsQuiet s (admit_consumed consume t mono trial_id r s).1.1
unfolding admit_consumed
admit_consumed-IsQuiet consume t mono trial_id (false, c) s =
    (stop-IsSteady admission blocked s refl).quiet
admit_consumed-IsQuiet consume t mono trial_id (true, c) s = record {
  verdict = refl;
  samples = refl;
  latched = λ e. refl;
}

pub admit-IsQuiet :
    {C : Type 0} (consume : GrantTarget → ℕ → C → Bool × C) (t : GrantTarget) (utc mono : ℕ)
    (trial_id : Bytes) (c : C) (s : Supervisor)
    → IsQuiet s (admit_dual_clock consume t utc mono trial_id c s).1.1
unfolding admit_dual_clock
admit-IsQuiet {C} consume t utc mono trial_id c s =
    let Goal = λ (r : Bool × (C × Supervisor)). IsQuiet s r.1.1 in
    if-both Goal (not (is_not_started s.state)) (λ e. IsQuiet-refl s)
      λ e.
        if-both Goal (not (safe_id trial_id)) (λ f. (stop-IsSteady admission blocked s refl).quiet)
          (λ f. admit_consumed-IsQuiet consume t mono trial_id (consume t utc c) s)

abbrev attempting : ℕ → Supervisor → Supervisor
attempting mono s = record s {
  evidence = record (s.evidence) { launch_attempt_ms = mono; worker_state = worker_attempted };
  state = start_attempted;
  started = true;
}

-- A launch is attempted where it may be.
begin_timed-IsSteady :
    (utc mono : ℕ) (s : Supervisor) (r : Bool × Supervisor)
    → opened s ≡ true
    → IsSteady s r.1
    → IsSteady s (begin_timed utc mono r).1
unfolding begin_timed
begin_timed-IsSteady utc mono s (false, t) e h = h
begin_timed-IsSteady utc mono s (true, t) e h =
    if-both (λ (r : Bool × Supervisor). IsSteady s r.1) (out_of_window t.target utc)
      (λ f.
        let k = stop-IsSteady launch blocked (attempting mono t) refl in
        record {
          quiet = record {
            verdict = k.quiet.verdict ∙ h.quiet.verdict;
            samples = k.quiet.samples ∙ h.quiet.samples;
            latched =
                λ g. k.quiet.latched (ap none_yet (h.quiet.latched g) ∙ g) ∙ h.quiet.latched g;
          };
          bound = record { target = k.bound.target ∙ h.bound.target; shut = λ g. e };
        })
      (λ f. record {
        quiet = record {
          verdict = h.quiet.verdict;
          samples = h.quiet.samples;
          latched = h.quiet.latched;
        };
        bound = record { target = h.bound.target; shut = λ g. e };
      })

either : (b c : Bool) → c ≡ true → (b || c) ≡ true
either true c e = refl
either false c e = e

pub begin_launch-IsSteady :
    (utc mono : ℕ) (s : Supervisor) → IsSteady s (begin_launch_attempt_dual_clock utc mono s).1
unfolding begin_launch_attempt_dual_clock
begin_launch-IsSteady utc mono s =
    if-both (λ (r : Bool × Supervisor). IsSteady s r.1) (not (is_admitted s.state))
      (λ e. IsSteady-refl s)
      (λ e.
        begin_timed-IsSteady utc mono s (time mono s)
          (either s.started (is_admitted s.state) (not-false (is_admitted s.state) e))
          (time-IsSteady mono s))

pub refuse-IsSteady : (why : StopReason) (s : Supervisor) → IsSteady s (refuse why s)
unfolding refuse
refuse-IsSteady no_reason s = IsSteady-refl s
refuse-IsSteady admission s = stop-IsSteady admission blocked s refl
refuse-IsSteady launch s = stop-IsSteady launch blocked s refl
refuse-IsSteady deadline s = IsSteady-refl s
refuse-IsSteady measurement s = IsSteady-refl s
refuse-IsSteady budget s = IsSteady-refl s
refuse-IsSteady worker s = IsSteady-refl s
refuse-IsSteady settlement s = IsSteady-refl s

pub begin_settlement-IsSteady : (s : Supervisor) → IsSteady s (begin_settlement s)
unfolding begin_settlement
begin_settlement-IsSteady s =
    if-both (IsSteady s) (s.started && not (supervisor_terminal s.state))
      (λ e. record {
        quiet = record { verdict = refl; samples = refl; latched = λ f. refl };
        bound = record { target = refl; shut = closes s.started (is_admitted s.state) false refl };
      })
      (λ e. IsSteady-refl s)

abbrev exited : ℕ → Supervisor → Supervisor
exited now s = record s {
  evidence = record (s.evidence) {
    process_exit_observed = true;
    worker_state = exit_observed;
    process_end_ms = now;
  };
}

exit_timed-IsSteady : (now : ℕ) (r : Bool × Supervisor) → IsSteady r.1 (exit_timed now r)
unfolding exit_timed
exit_timed-IsSteady now (false, s) = IsSteady-refl s
exit_timed-IsSteady now (true, s) =
    let h = begin_settlement-IsSteady (exited now s) in
    record {
      quiet = record {
        verdict = h.quiet.verdict;
        samples = h.quiet.samples;
        latched = h.quiet.latched;
      };
      bound = record { target = h.bound.target; shut = h.bound.shut };
    }

pub exit-IsSteady : (now : ℕ) (s : Supervisor) → IsSteady s (observe_worker_exit now s)
unfolding observe_worker_exit
exit-IsSteady now s =
    if-both (IsSteady s)
      (supervisor_terminal s.state || (not s.started || s.evidence.process_exit_observed))
      (λ e. IsSteady-refl s)
      (λ e.
        IsSteady-trans s (time now s).1 _ (time-IsSteady now s)
          (exit_timed-IsSteady now (time now s)))
