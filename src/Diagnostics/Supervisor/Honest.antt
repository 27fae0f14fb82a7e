-- ===== src/Diagnostics/Supervisor/Honest.antt =====
-- The verdict of the observer: what a run that passes has shown.
mod Judged
unfoldable pub use Judged.*
use shiroha_quiz.Base.{
  ℕ, ◌-◌, ◌≡◌, inl, inr, refl, ◌∙◌, Bool, true, false, not, ◌&&◌, ◌||◌, List, [], ◌∷◌, ltb, leb,
  ◌==◌, if-both, Bool-cases, or-false_left, or-false_right, not-false, ==-not-false, and-true_right,
  length,
}
use shiroha_quiz.Diagnostics.Native.{NativeObservation}
use shiroha_quiz.Diagnostics.Budget.{Ledger}
use shiroha_quiz.Diagnostics.Grants.{GrantTarget}
use shiroha_quiz.Diagnostics.Supervisor.{
  with_worker, SupervisorState, complete, stop_requested, supervisor_terminal, not_run, passed,
  StopReason, launch, measurement, budget, worker, WorkerState, worker_unknown, worker_running,
  worker_not_started, worker_attempted, start_failed, exit_observed, ResourceSample, Supervisor,
  new_supervisor, is_start_attempted, is_open, none_yet, stop, time, poll_timed, is_not_started,
  deadline, deadline_exceeded, confirmed, confirm_launch, poll, sample_fits, over_target,
  sample_polled, sample, worker_failed, blocked, judge, settle, is_exact, is_unresolved,
  is_measurement, recorded, any_unsettled, as_granted,
}
use shiroha_quiz.Diagnostics.Supervisor.Runs.{
  Event, admits, begins, confirms, polls, opens, samples, fails, refuses, exits, settles_from,
  settles, tell, tell_all, tell-terminal,
}
use shiroha_quiz.Diagnostics.Supervisor.Quiet.{
  IsQuiet, stop-IsSteady, poll-IsSteady, admission_open-IsSteady, admit-IsQuiet,
  begin_launch-IsSteady, refuse-IsSteady, begin_settlement-IsSteady, exit-IsSteady,
}

-- A stop that is not final leaves the run open.
stop-open :
    (why : StopReason) (st : SupervisorState) (s : Supervisor)
    → supervisor_terminal st ≡ false
    → supervisor_terminal s.state ≡ false
    → supervisor_terminal (stop why st s).state ≡ false
unfolding stop
stop-open why st s e going =
    if-both (λ (t : Supervisor). supervisor_terminal t.state ≡ false) (supervisor_terminal s.state)
      (λ f. going) (λ f. e)

time-open :
    (now : ℕ) (s : Supervisor)
    → supervisor_terminal s.state ≡ false
    → supervisor_terminal (time now s).1.state ≡ false
unfolding time supervisor_terminal
time-open now s going =
    if-both (λ (r : Bool × Supervisor). supervisor_terminal r.1.state ≡ false) (ltb now s.last_ms)
      (λ e. stop-open measurement stop_requested s refl going) (λ e. going)

poll_timed-open :
    (now : ℕ) (r : Bool × Supervisor)
    → supervisor_terminal r.1.state ≡ false
    → supervisor_terminal (poll_timed now r).1.state ≡ false
unfolding poll_timed supervisor_terminal
poll_timed-open now (false, s) going = stop-open measurement stop_requested s refl going
poll_timed-open now (true, s) going =
    if-both (λ (r : Bool × Supervisor). supervisor_terminal r.1.state ≡ false)
      (s.started && leb s.target.max_execution_ms (now - s.evidence.launch_attempt_ms))
      (λ e.
        stop-open deadline deadline_exceeded
          (record s { evidence = record (s.evidence) { deadline_passed = true } }) refl going)
      (λ e. going)

poll-open :
    (now : ℕ) (healthy : Bool) (s : Supervisor)
    → supervisor_terminal s.state ≡ false
    → supervisor_terminal (poll now healthy s).1.state ≡ false
unfolding poll supervisor_terminal
poll-open now healthy s going =
    let Goal = λ (r : Bool × Supervisor). supervisor_terminal r.1.state ≡ false in
    if-both Goal (supervisor_terminal s.state || is_not_started s.state) (λ e. going)
      λ e.
        if-both Goal (not healthy) (λ f. stop-open measurement stop_requested s refl going)
          (λ f. poll_timed-open now (time now s) (time-open now s going))

settle-IsHonest :
    (now : ℕ) (seen : Bool) (l : Ledger) (o : NativeObservation) (s : Supervisor)
    → s.evidence.verdict ≡ not_run
    → IsHonest (settle now seen l o s)
unfolding settle
settle-IsHonest now seen l o s v =
    if-both IsHonest (not s.started || supervisor_terminal s.state) (λ e. unjudged v)
      λ e.
        judge-IsHonest now seen l o (poll now true s).1
          (poll-open now true s (or-false_right (not s.started) (supervisor_terminal s.state) e))

sample_polled-verdict :
    (x : ResourceSample) (r : Bool × Supervisor)
    → (sample_polled x r).1.evidence.verdict ≡ r.1.evidence.verdict
unfolding sample_polled
sample_polled-verdict x (false, s) = refl
sample_polled-verdict x (true, s) =
    let Goal = λ (r : Bool × Supervisor). r.1.evidence.verdict ≡ s.evidence.verdict in
    if-both Goal (not (sample_fits s x))
      (λ e. (stop-IsSteady measurement stop_requested s refl).quiet.verdict)
      λ e.
        if-both Goal (over_target s.target x)
          (λ f.
            (stop-IsSteady budget stop_requested
              (record s { evidence = record (s.evidence) { samples = x ∷ s.evidence.samples } })
              refl).quiet.verdict)
          (λ f. refl)

sample-verdict :
    (x : ResourceSample) (measured : Bool) (s : Supervisor)
    → (sample x measured s).1.evidence.verdict ≡ s.evidence.verdict
unfolding sample
sample-verdict x measured s =
    if-both (λ (r : Bool × Supervisor). r.1.evidence.verdict ≡ s.evidence.verdict)
      (not (is_open s.state)) (λ e. refl)
      (λ e.
        sample_polled-verdict x (poll x.observed_at_ms measured s)
        ∙ (poll-IsSteady x.observed_at_ms measured s).quiet.verdict)

failed_launch-IsHonest :
    (s : Supervisor)
    → s.evidence.verdict ≡ not_run
    → IsHonest (with_worker start_failed (stop launch blocked s))
failed_launch-IsHonest s v = unjudged ((stop-IsSteady launch blocked s refl).quiet.verdict ∙ v)

confirmed-IsHonest :
    (w : WorkerState) (s : Supervisor)
    → s.evidence.verdict ≡ not_run
    → supervisor_terminal s.state ≡ false
    → IsHonest (confirmed w s).1
unfolding confirmed stop supervisor_terminal
confirmed-IsHonest worker_unknown s v going = rw going (judged refl (λ e. absurd (cc e)))
confirmed-IsHonest worker_running s v going = unjudged v
confirmed-IsHonest worker_not_started s v going = failed_launch-IsHonest s v
confirmed-IsHonest worker_attempted s v going = failed_launch-IsHonest s v
confirmed-IsHonest start_failed s v going = failed_launch-IsHonest s v
confirmed-IsHonest exit_observed s v going = failed_launch-IsHonest s v

confirm_launch-IsHonest :
    (w : WorkerState) (s : Supervisor)
    → s.evidence.verdict ≡ not_run
    → supervisor_terminal s.state ≡ false
    → IsHonest (confirm_launch w s).1
unfolding confirm_launch
confirm_launch-IsHonest w s v going =
    if-both (λ (r : Bool × Supervisor). IsHonest r.1) (not (is_start_attempted s.state))
      (λ e. unjudged v) (λ e. confirmed-IsHonest w s v going)

quiet : (s s' : Supervisor) → s.evidence.verdict ≡ not_run → IsQuiet s s' → IsHonest s'
quiet s s' v q = unjudged (q.verdict ∙ v)

unjudged_yet :
    (s : Supervisor)
    → IsHonest s
    → supervisor_terminal s.state ≡ false
    → s.evidence.verdict ≡ not_run
unjudged_yet s (unjudged v) going = v
unjudged_yet s (judged e p) going = absurd (cc (e, going))

module _ {C : Type 0} (consume : GrantTarget → ℕ → C → Bool × C) where
  told :
      (e : Event) (c : C) (s : Supervisor)
      → s.evidence.verdict ≡ not_run
      → supervisor_terminal s.state ≡ false
      → IsHonest (tell consume e (c, s)).1
  unfolding tell worker_failed
  told (admits t utc mono trial_id) c s v going =
      quiet s _ v (admit-IsQuiet consume t utc mono trial_id c s)
  told (begins utc mono) c s v going = quiet s _ v (begin_launch-IsSteady utc mono s).quiet
  told (confirms w) c s v going = confirm_launch-IsHonest w s v going
  told (polls now healthy) c s v going = quiet s _ v (poll-IsSteady now healthy s).quiet
  told (opens now) c s v going = quiet s _ v (admission_open-IsSteady now s).quiet
  told (samples x measured) c s v going = unjudged (sample-verdict x measured s ∙ v)
  told fails c s v going = quiet s _ v (stop-IsSteady worker stop_requested s refl).quiet
  told (refuses why) c s v going = quiet s _ v (refuse-IsSteady why s).quiet
  told (exits now) c s v going = quiet s _ v (exit-IsSteady now s).quiet
  told settles_from c s v going = quiet s _ v (begin_settlement-IsSteady s).quiet
  told (settles now seen l o) c s v going = settle-IsHonest now seen l o s v

  tell-IsHonest :
      (e : Event) (c : C) (s : Supervisor) → IsHonest s → IsHonest (tell consume e (c, s)).1
  tell-IsHonest e c s h = elim (Bool-cases (supervisor_terminal s.state)) [
    | inl f ↦ rw (tell-terminal consume e c s f) h
    | inr f ↦ told e c s (unjudged_yet s h f) f
  ]

  tell_all-IsHonest :
      (es : List Event) (c : C) (s : Supervisor)
      → IsHonest s
      → IsHonest (tell_all consume es (c, s)).1
  unfolding tell_all
  tell_all-IsHonest [] c s h = h
  tell_all-IsHonest (e ∷ es) c s h =
      let w = tell consume e (c, s) in tell_all-IsHonest es w.0 w.1 (tell-IsHonest e c s h)

  passes : (s : Supervisor) → IsHonest s → s.evidence.verdict ≡ passed → IsPassed s
  passes s (unjudged v) e = absurd (cc (v, e))
  passes s (judged f p) e = p e

  -- Whatever the observer tells a new supervisor, in any order, the verdict is PASS only where the run is
  -- complete, no failure was noted, all 18 samples were taken, the exit of the process was seen, every
  -- category was called exactly as often as it was granted, and every call and resource is settled.
  pub tell_all-passed :
      (es : List Event) (c : C)
      → (tell_all consume es (c, new_supervisor)).1.evidence.verdict ≡ passed
      → IsPassed (tell_all consume es (c, new_supervisor)).1
  tell_all-passed es c =
      let w = tell_all consume es (c, new_supervisor) in
      passes w.1 (tell_all-IsHonest es c new_supervisor (unjudged refl))
