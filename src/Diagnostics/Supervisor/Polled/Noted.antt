-- ===== src/Diagnostics/Supervisor/Polled/Noted.antt =====
-- The reason of a stop and the mark of a launch, over the operations of the observer.
use shiroha_quiz.Base.{
  ℕ, ◌≡◌, refl, Bool, true, false, not, ◌&&◌, ◌||◌, leb, ltb, ◌-◌, if-both, not-false,
}
use shiroha_quiz.Diagnostics.Grants.{out_of_window}
use shiroha_quiz.Diagnostics.Supervisor.{
  SupervisorState, complete, settlement_unknown, blocked, not_started, admitted, start_attempted,
  running, settling, stop_requested, deadline_exceeded, supervisor_terminal, StopReason, no_reason,
  admission, launch, deadline, measurement, budget, worker, settlement, WorkerState,
  worker_not_started, worker_attempted, start_failed, worker_running, exit_observed, worker_unknown,
  Supervisor, is_not_started, is_admitted, is_start_attempted, none_yet, first_of, with_worker,
  stop, time, begin_timed, begin_launch_attempt_dual_clock, confirmed, confirm_launch, poll_timed,
  poll, still_open,
}

-- A launch was attempted, and the run is not stopped.
abbrev pub is_launched : SupervisorState → Bool
is_launched start_attempted = true
is_launched running = true
is_launched settling = true
is_launched s = false

abbrev pub is_halted : SupervisorState → Bool
is_halted stop_requested = true
is_halted deadline_exceeded = true
is_halted s = false

-- A run that is stopped has noted why, and one that is launched is marked as started.
pub record IsNoted (s : Supervisor) : Type 0 where
  pub noted : is_halted s.state ≡ true → none_yet s.evidence.first_failure ≡ false
  pub marked : is_launched s.state ≡ true → s.started ≡ true

-- A state that is neither.
pub idle-IsNoted :
    (s : Supervisor) → is_halted s.state ≡ false → is_launched s.state ≡ false → IsNoted s
idle-IsNoted s h l = record { noted = λ e. absurd (cc (e, h)); marked = λ e. absurd (cc (e, l)) }

first_of-noted : (r why : StopReason) → none_yet why ≡ false → none_yet (first_of r why) ≡ false
first_of-noted no_reason why e = e
first_of-noted admission why e = refl
first_of-noted launch why e = refl
first_of-noted deadline why e = refl
first_of-noted measurement why e = refl
first_of-noted budget why e = refl
first_of-noted worker why e = refl
first_of-noted settlement why e = refl

-- A stop notes its reason.
pub stop-IsNoted :
    (why : StopReason) (st : SupervisorState) (s : Supervisor)
    → none_yet why ≡ false
    → is_launched st ≡ false
    → IsNoted s
    → IsNoted (stop why st s)
unfolding stop
stop-IsNoted why st s e l h =
    if-both IsNoted (supervisor_terminal s.state) (λ f. h)
      (λ f. record {
        noted = λ g. first_of-noted s.evidence.first_failure why e;
        marked = λ g. absurd (cc (g, l));
      })

pub time-IsNoted : (now : ℕ) (s : Supervisor) → IsNoted s → IsNoted (time now s).1
unfolding time
time-IsNoted now s h =
    if-both (λ (r : Bool × Supervisor). IsNoted r.1) (ltb now s.last_ms)
      (λ e. stop-IsNoted measurement stop_requested s refl refl h)
      (λ e. record { noted = h.noted; marked = h.marked })

poll_timed-IsNoted : (now : ℕ) (r : Bool × Supervisor) → IsNoted r.1 → IsNoted (poll_timed now r).1
unfolding poll_timed
poll_timed-IsNoted now (false, s) h = stop-IsNoted measurement stop_requested s refl refl h
poll_timed-IsNoted now (true, s) h =
    if-both (λ (r : Bool × Supervisor). IsNoted r.1)
      (s.started && leb s.target.max_execution_ms (now - s.evidence.launch_attempt_ms))
      (λ e.
        stop-IsNoted deadline deadline_exceeded _ refl refl
          (record { noted = h.noted; marked = h.marked }))
      (λ e. h)

pub poll-IsNoted :
    (now : ℕ) (healthy : Bool) (s : Supervisor) → IsNoted s → IsNoted (poll now healthy s).1
unfolding poll
poll-IsNoted now healthy s h =
    let Goal = λ (r : Bool × Supervisor). IsNoted r.1 in
    if-both Goal (supervisor_terminal s.state || is_not_started s.state) (λ e. h)
      λ e.
        if-both Goal (not healthy) (λ f. stop-IsNoted measurement stop_requested s refl refl h)
          (λ f. poll_timed-IsNoted now (time now s) (time-IsNoted now s h))

pub still_open-IsNoted : (r : Bool × Supervisor) → IsNoted r.1 → IsNoted (still_open r).1
still_open-IsNoted (false, s) h = h
still_open-IsNoted (true, s) h = h

abbrev attempting : ℕ → Supervisor → Supervisor
attempting mono s = record s {
  evidence = record (s.evidence) { launch_attempt_ms = mono; worker_state = worker_attempted };
  state = start_attempted;
  started = true;
}

begin_timed-IsNoted :
    (utc mono : ℕ) (r : Bool × Supervisor) → IsNoted r.1 → IsNoted (begin_timed utc mono r).1
unfolding begin_timed
begin_timed-IsNoted utc mono (false, s) h = h
begin_timed-IsNoted utc mono (true, s) h =
    if-both (λ (r : Bool × Supervisor). IsNoted r.1) (out_of_window s.target utc)
      (λ e.
        let k =
          stop-IsNoted launch blocked (attempting mono s) refl refl
            (record { noted = λ f. absurd (cc f); marked = λ f. refl }) in
        record { noted = k.noted; marked = k.marked })
      (λ e. record { noted = λ f. absurd (cc f); marked = λ f. refl })

pub begin_launch-IsNoted :
    (utc mono : ℕ) (s : Supervisor)
    → IsNoted s
    → IsNoted (begin_launch_attempt_dual_clock utc mono s).1
unfolding begin_launch_attempt_dual_clock
begin_launch-IsNoted utc mono s h =
    if-both (λ (r : Bool × Supervisor). IsNoted r.1) (not (is_admitted s.state)) (λ e. h)
      (λ e. begin_timed-IsNoted utc mono (time mono s) (time-IsNoted mono s h))

failed_launch-IsNoted :
    (s : Supervisor) → IsNoted s → IsNoted (with_worker start_failed (stop launch blocked s))
failed_launch-IsNoted s h =
    let k = stop-IsNoted launch blocked s refl refl h in
    record { noted = k.noted; marked = k.marked }

confirmed-IsNoted :
    (w : WorkerState) (s : Supervisor) → s.started ≡ true → IsNoted s → IsNoted (confirmed w s).1
unfolding confirmed
confirmed-IsNoted worker_unknown s b h =
    let k = stop-IsNoted launch settlement_unknown s refl refl h in
    record { noted = k.noted; marked = k.marked }
confirmed-IsNoted worker_running s b h = record { noted = λ e. absurd (cc e); marked = λ e. b }
confirmed-IsNoted worker_not_started s b h = failed_launch-IsNoted s h
confirmed-IsNoted worker_attempted s b h = failed_launch-IsNoted s h
confirmed-IsNoted start_failed s b h = failed_launch-IsNoted s h
confirmed-IsNoted exit_observed s b h = failed_launch-IsNoted s h

launched_attempt : (st : SupervisorState) → is_start_attempted st ≡ true → is_launched st ≡ true
launched_attempt start_attempted e = refl
launched_attempt not_started e = absurd (cc e)
launched_attempt admitted e = absurd (cc e)
launched_attempt running e = refl
launched_attempt settling e = refl
launched_attempt stop_requested e = absurd (cc e)
launched_attempt deadline_exceeded e = absurd (cc e)
launched_attempt complete e = absurd (cc e)
launched_attempt settlement_unknown e = absurd (cc e)
launched_attempt blocked e = absurd (cc e)

pub confirm_launch-IsNoted :
    (w : WorkerState) (s : Supervisor) → IsNoted s → IsNoted (confirm_launch w s).1
unfolding confirm_launch
confirm_launch-IsNoted w s h =
    if-both (λ (r : Bool × Supervisor). IsNoted r.1) (not (is_start_attempted s.state)) (λ e. h)
      (λ e. confirmed-IsNoted w s (h.marked (launched_attempt s.state (not-false _ e))) h)
