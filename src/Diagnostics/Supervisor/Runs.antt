-- ===== src/Diagnostics/Supervisor/Runs.antt =====
-- What the observer tells, in any order, and the final states.
use shiroha_quiz.Base.{
  arith, ℕ, ◌≡◌, refl, ap, Bool, true, false, not, ◌&&◌, ◌||◌, List, [], ◌∷◌, if-both,
  or-false_right, Bytes,
}
use shiroha_quiz.Diagnostics.Native.{NativeObservation}
use shiroha_quiz.Diagnostics.Budget.{Ledger}
use shiroha_quiz.Diagnostics.Grants.{GrantTarget}
use shiroha_quiz.Diagnostics.Supervisor.{
  SupervisorState, complete, settlement_unknown, blocked, not_started, admitted, start_attempted,
  running, settling, stop_requested, deadline_exceeded, supervisor_terminal, StopReason, no_reason,
  admission, launch, deadline, measurement, budget, worker, settlement, WorkerState, ResourceSample,
  Supervisor, is_not_started, is_admitted, is_start_attempted, is_open, stop, admit_dual_clock,
  begin_launch_attempt_dual_clock, confirm_launch, poll, admission_open, sample, worker_failed,
  refuse, begin_settlement, observe_worker_exit, settle,
}

pub data Event : Type 0 where
  admits : GrantTarget → ℕ → ℕ → Bytes → Event
  begins : ℕ → ℕ → Event
  confirms : WorkerState → Event
  polls : ℕ → Bool → Event
  opens : ℕ → Event
  samples : ResourceSample → Bool → Event
  fails : Event
  refuses : StopReason → Event
  exits : ℕ → Event
  settles_from : Event
  settles : ℕ → Bool → Ledger → NativeObservation → Event

module _ {C : Type 0} (consume : GrantTarget → ℕ → C → Bool × C) where
  unfoldable pub tell : Event → C × Supervisor → C × Supervisor
  tell (admits t utc mono trial_id) (c, s) = (admit_dual_clock consume t utc mono trial_id c s).1
  tell (begins utc mono) (c, s) = (c, (begin_launch_attempt_dual_clock utc mono s).1)
  tell (confirms w) (c, s) = (c, (confirm_launch w s).1)
  tell (polls now healthy) (c, s) = (c, (poll now healthy s).1)
  tell (opens now) (c, s) = (c, (admission_open now s).1)
  tell (samples x measured) (c, s) = (c, (sample x measured s).1)
  tell fails (c, s) = (c, worker_failed s)
  tell (refuses why) (c, s) = (c, refuse why s)
  tell (exits now) (c, s) = (c, observe_worker_exit now s)
  tell settles_from (c, s) = (c, begin_settlement s)
  tell (settles now seen l o) (c, s) = (c, settle now seen l o s)

  unfoldable pub tell_all : List Event → C × Supervisor → C × Supervisor
  tell_all [] w = w
  tell_all (e ∷ es) w = tell_all es (tell e w)

-- In a final state the tests that lead on fail.
terminal-closed :
    (st : SupervisorState)
    → supervisor_terminal st ≡ true
    → (is_not_started st ≡ false)
      × ((is_admitted st ≡ false) × ((is_start_attempted st ≡ false) × (is_open st ≡ false)))
unfolding supervisor_terminal
terminal-closed not_started h = absurd (cc h)
terminal-closed admitted h = absurd (cc h)
terminal-closed start_attempted h = absurd (cc h)
terminal-closed running h = absurd (cc h)
terminal-closed settling h = absurd (cc h)
terminal-closed stop_requested h = absurd (cc h)
terminal-closed deadline_exceeded h = absurd (cc h)
terminal-closed complete h = (refl, (refl, (refl, refl)))
terminal-closed settlement_unknown h = (refl, (refl, (refl, refl)))
terminal-closed blocked h = (refl, (refl, (refl, refl)))

module _ (s : Supervisor) (h : supervisor_terminal s.state ≡ true) where
  stop-terminal : (why : StopReason) (st : SupervisorState) → stop why st s ≡ s
  unfolding stop
  stop-terminal why st = rw h refl

  poll-terminal : (now : ℕ) (healthy : Bool) → (poll now healthy s).1 ≡ s
  unfolding poll
  poll-terminal now healthy = rw h refl

  refuse-terminal : (why : StopReason) → refuse why s ≡ s
  unfolding refuse
  refuse-terminal no_reason = refl
  refuse-terminal admission = stop-terminal admission blocked
  refuse-terminal launch = stop-terminal launch blocked
  refuse-terminal deadline = refl
  refuse-terminal measurement = refl
  refuse-terminal budget = refl
  refuse-terminal worker = refl
  refuse-terminal settlement = refl

  admission_open-terminal : (now : ℕ) → (admission_open now s).1 ≡ s
  unfolding admission_open poll
  admission_open-terminal now = rw h refl

  begin_launch-terminal : (utc mono : ℕ) → (begin_launch_attempt_dual_clock utc mono s).1 ≡ s
  unfolding begin_launch_attempt_dual_clock
  begin_launch-terminal utc mono = rw ((terminal-closed s.state h).1.0) refl

  confirm_launch-terminal : (w : WorkerState) → (confirm_launch w s).1 ≡ s
  unfolding confirm_launch
  confirm_launch-terminal w = rw ((terminal-closed s.state h).1.1.0) refl

  sample-terminal : (x : ResourceSample) (measured : Bool) → (sample x measured s).1 ≡ s
  unfolding sample
  sample-terminal x measured = rw ((terminal-closed s.state h).1.1.1) refl

  exit-terminal : (now : ℕ) → observe_worker_exit now s ≡ s
  unfolding observe_worker_exit
  exit-terminal now = rw h refl

  begin_settlement-terminal : begin_settlement s ≡ s
  unfolding begin_settlement
  begin_settlement-terminal =
      if-both (λ x. x ≡ s) (s.started && not (supervisor_terminal s.state))
        (λ e. absurd (ground (arith, e, h))) (λ e. refl)

  settle-terminal :
      (now : ℕ) (seen : Bool) (l : Ledger) (o : NativeObservation) → settle now seen l o s ≡ s
  unfolding settle
  settle-terminal now seen l o =
      if-both (λ x. x ≡ s) (not s.started || supervisor_terminal s.state) (λ e. refl)
        λ e. absurd (cc (or-false_right (not s.started) (supervisor_terminal s.state) e, h))

  admit-terminal :
      {C : Type 0} (consume : GrantTarget → ℕ → C → Bool × C) (t : GrantTarget) (utc mono : ℕ)
      (trial_id : Bytes) (c : C)
      → (admit_dual_clock consume t utc mono trial_id c s).1 ≡ (c, s)
  unfolding admit_dual_clock
  admit-terminal consume t utc mono trial_id c = rw ((terminal-closed s.state h).0) refl

module _ {C : Type 0} (consume : GrantTarget → ℕ → C → Bool × C) where
  pub tell-terminal :
      (e : Event) (c : C) (s : Supervisor)
      → supervisor_terminal s.state ≡ true
      → tell consume e (c, s) ≡ (c, s)
  unfolding tell worker_failed
  tell-terminal (admits t utc mono trial_id) c s h =
      admit-terminal s h consume t utc mono trial_id c
  tell-terminal (begins utc mono) c s h = ap (λ x. (c, x)) (begin_launch-terminal s h utc mono)
  tell-terminal (confirms w) c s h = ap (λ x. (c, x)) (confirm_launch-terminal s h w)
  tell-terminal (polls now healthy) c s h = ap (λ x. (c, x)) (poll-terminal s h now healthy)
  tell-terminal (opens now) c s h = ap (λ x. (c, x)) (admission_open-terminal s h now)
  tell-terminal (samples x measured) c s h = ap (λ y. (c, y)) (sample-terminal s h x measured)
  tell-terminal fails c s h = ap (λ x. (c, x)) (stop-terminal s h worker stop_requested)
  tell-terminal (refuses why) c s h = ap (λ x. (c, x)) (refuse-terminal s h why)
  tell-terminal (exits now) c s h = ap (λ x. (c, x)) (exit-terminal s h now)
  tell-terminal settles_from c s h = ap (λ x. (c, x)) (begin_settlement-terminal s h)
  tell-terminal (settles now seen l o) c s h = ap (λ x. (c, x)) (settle-terminal s h now seen l o)

  -- Once the state is final, whatever the observer tells changes nothing: not the verdict, the evidence,
  -- the first failure or the grant.
  pub tell_all-terminal :
      (es : List Event) (c : C) (s : Supervisor)
      → supervisor_terminal s.state ≡ true
      → tell_all consume es (c, s) ≡ (c, s)
  unfolding tell_all
  tell_all-terminal [] c s h = refl
  tell_all-terminal (e ∷ es) c s h = rw (tell-terminal e c s h) (tell_all-terminal es c s h)
