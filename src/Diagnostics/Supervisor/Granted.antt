-- ===== src/Diagnostics/Supervisor/Granted.antt =====
-- The supervisor together with the cell that it consumes.
use shiroha_quiz.Base.{
  ℕ, ◌≡◌, refl, ap, ◌∙◌, Bool, true, false, not, ◌||◌, List, [], ◌∷◌, ◌==◌, if-both, length, Bytes,
}
use shiroha_quiz.Diagnostics.Native.{NativeObservation}
use shiroha_quiz.Diagnostics.Budget.{Ledger}
use shiroha_quiz.Diagnostics.Grants.{GrantTarget, valid, safe_id}
use shiroha_quiz.Diagnostics.Supervisor.{
  blocked, stop_requested, settlement_unknown, supervisor_terminal, admission, launch, measurement,
  budget, worker, settlement, WorkerState, worker_not_started, worker_attempted, start_failed,
  worker_running, exit_observed, worker_unknown, ResourceSample, Supervisor, new_supervisor,
  is_not_started, is_admitted, is_start_attempted, is_open, none_yet, is_measurement, over_target,
  sample_fits, is_exact, recorded, with_worker, admit_consumed, admit_dual_clock, confirmed,
  confirm_launch, poll, sample_polled, sample, worker_failed, judge, settle,
}
use shiroha_quiz.Diagnostics.Supervisor.Quiet.{
  IsBound, IsBound-refl, IsBound-trans, opened, closes, stop-IsSteady, poll-IsSteady,
  admission_open-IsSteady, begin_launch-IsSteady, refuse-IsSteady, begin_settlement-IsSteady,
  exit-IsSteady,
}
use shiroha_quiz.Diagnostics.Supervisor.Runs.{
  Event, admits, begins, confirms, polls, opens, samples, fails, refuses, exits, settles_from,
  settles, tell, tell_all,
}

failed_launch-IsBound : (s t : Supervisor) → IsBound s t → IsBound s (with_worker start_failed t)
failed_launch-IsBound s t h = record { target = h.target; shut = h.shut }

confirmed-IsBound : (w : WorkerState) (s : Supervisor) → IsBound s (confirmed w s).1
unfolding confirmed
confirmed-IsBound worker_unknown s =
    let b = (stop-IsSteady launch settlement_unknown s refl).bound in
    record { target = b.target; shut = b.shut }
confirmed-IsBound worker_running s = record {
  target = refl;
  shut = closes s.started (is_admitted s.state) false refl;
}
confirmed-IsBound worker_not_started s =
    failed_launch-IsBound s _ (stop-IsSteady launch blocked s refl).bound
confirmed-IsBound worker_attempted s =
    failed_launch-IsBound s _ (stop-IsSteady launch blocked s refl).bound
confirmed-IsBound start_failed s =
    failed_launch-IsBound s _ (stop-IsSteady launch blocked s refl).bound
confirmed-IsBound exit_observed s =
    failed_launch-IsBound s _ (stop-IsSteady launch blocked s refl).bound

confirm_launch-IsBound : (w : WorkerState) (s : Supervisor) → IsBound s (confirm_launch w s).1
unfolding confirm_launch
confirm_launch-IsBound w s =
    if-both (λ (r : Bool × Supervisor). IsBound s r.1) (not (is_start_attempted s.state))
      (λ e. IsBound-refl s) (λ e. confirmed-IsBound w s)

sample_polled-IsBound :
    (x : ResourceSample) (r : Bool × Supervisor) → IsBound r.1 (sample_polled x r).1
unfolding sample_polled
sample_polled-IsBound x (false, s) = IsBound-refl s
sample_polled-IsBound x (true, s) =
    let Goal = λ (r : Bool × Supervisor). IsBound s r.1 in
    let more = record s { evidence = record (s.evidence) { samples = x ∷ s.evidence.samples } } in
    if-both Goal (not (sample_fits s x))
      (λ e. (stop-IsSteady measurement stop_requested s refl).bound)
      λ e.
        if-both Goal (over_target s.target x)
          (λ f.
            (let b = (stop-IsSteady budget stop_requested more refl).bound in
              record { target = b.target; shut = b.shut }))
          (λ f. record { target = refl; shut = λ g. g })

sample-IsBound :
    (x : ResourceSample) (measured : Bool) (s : Supervisor) → IsBound s (sample x measured s).1
unfolding sample
sample-IsBound x measured s =
    let r = poll x.observed_at_ms measured s in
    if-both (λ (r : Bool × Supervisor). IsBound s r.1) (not (is_open s.state)) (λ e. IsBound-refl s)
      (λ e.
        IsBound-trans s r.1 _ (poll-IsSteady x.observed_at_ms measured s).bound
          (sample_polled-IsBound x r))

judge-IsBound : (l : Ledger) (o : NativeObservation) (s : Supervisor) → IsBound s (judge l o s)
unfolding judge
judge-IsBound l o s =
    let first = s.evidence.first_failure in
    let done = closes s.started (is_admitted s.state) false refl in
    if-both (IsBound s) s.evidence.settlement_incomplete
      (λ e.
        let b = (stop-IsSteady settlement settlement_unknown s refl).bound in
        record { target = b.target; shut = b.shut })
      λ e.
        if-both (IsBound s) (is_measurement first) (λ f. record { target = refl; shut = done })
          λ f.
            if-both (IsBound s)
              (not (none_yet first)
                || (not (is_exact s.target l o) || not (length s.evidence.samples == 18)))
              (λ g. record { target = refl; shut = done })
              (λ g. record { target = refl; shut = done })

settle-IsBound :
    (now : ℕ) (seen : Bool) (l : Ledger) (o : NativeObservation) (s : Supervisor)
    → IsBound s (settle now seen l o s)
unfolding settle
settle-IsBound now seen l o s =
    let s' = (poll now true s).1 in
    if-both (IsBound s) (not s.started || supervisor_terminal s.state) (λ e. IsBound-refl s)
      λ e.
        let b = judge-IsBound l o (record s' { evidence = recorded now seen l o s'.evidence }) in
        IsBound-trans s s' _ (poll-IsSteady now true s).bound
          (record { target = b.target; shut = b.shut })

-- A run that may be launched has a valid target.
abbrev IsGranted : Supervisor → Type 0
IsGranted s = opened s ≡ true → valid s.target ≡ true

bound-IsGranted : (s s' : Supervisor) → IsGranted s → IsBound s s' → IsGranted s'
bound-IsGranted s s' h b e = ap valid b.target ∙ h (b.shut e)

-- A cell whose consumption succeeds on valid targets only, as `consume-true` shows of the cell above.
module _ {C : Type 0} (consume : GrantTarget → ℕ → C → Bool × C)
    (lawful : (t : GrantTarget) (now : ℕ) (c : C)
      → (consume t now c).0 ≡ true
      → valid t ≡ true) where
  admit_consumed-IsGranted :
      (t : GrantTarget) (mono : ℕ) (trial_id : Bytes) (r : Bool × C) (s : Supervisor)
      → (r.0 ≡ true → valid t ≡ true)
      → IsGranted s
      → IsGranted (admit_consumed consume t mono trial_id r s).1.1
  unfolding admit_consumed
  admit_consumed-IsGranted t mono trial_id (false, c) s law h =
      bound-IsGranted s _ h (stop-IsSteady admission blocked s refl).bound
  admit_consumed-IsGranted t mono trial_id (true, c) s law h = λ e. law refl

  admit-IsGranted :
      (t : GrantTarget) (utc mono : ℕ) (trial_id : Bytes) (c : C) (s : Supervisor)
      → IsGranted s
      → IsGranted (admit_dual_clock consume t utc mono trial_id c s).1.1
  unfolding admit_dual_clock
  admit-IsGranted t utc mono trial_id c s h =
      let Goal = λ (r : Bool × (C × Supervisor)). IsGranted r.1.1 in
      if-both Goal (not (is_not_started s.state)) (λ e. h)
        λ e.
          if-both Goal (not (safe_id trial_id))
            (λ f. bound-IsGranted s _ h (stop-IsSteady admission blocked s refl).bound)
            (λ f. admit_consumed-IsGranted t mono trial_id (consume t utc c) s (lawful t utc c) h)

  tell-IsGranted :
      (e : Event) (c : C) (s : Supervisor) → IsGranted s → IsGranted (tell consume e (c, s)).1
  unfolding tell worker_failed
  tell-IsGranted (admits t utc mono trial_id) c s h = admit-IsGranted t utc mono trial_id c s h
  tell-IsGranted (begins utc mono) c s h =
      bound-IsGranted s _ h (begin_launch-IsSteady utc mono s).bound
  tell-IsGranted (confirms w) c s h = bound-IsGranted s _ h (confirm_launch-IsBound w s)
  tell-IsGranted (polls now healthy) c s h =
      bound-IsGranted s _ h (poll-IsSteady now healthy s).bound
  tell-IsGranted (opens now) c s h = bound-IsGranted s _ h (admission_open-IsSteady now s).bound
  tell-IsGranted (samples x measured) c s h = bound-IsGranted s _ h (sample-IsBound x measured s)
  tell-IsGranted fails c s h =
      bound-IsGranted s _ h (stop-IsSteady worker stop_requested s refl).bound
  tell-IsGranted (refuses why) c s h = bound-IsGranted s _ h (refuse-IsSteady why s).bound
  tell-IsGranted (exits now) c s h = bound-IsGranted s _ h (exit-IsSteady now s).bound
  tell-IsGranted settles_from c s h = bound-IsGranted s _ h (begin_settlement-IsSteady s).bound
  tell-IsGranted (settles now seen l o) c s h =
      bound-IsGranted s _ h (settle-IsBound now seen l o s)

  tell_all-IsGranted :
      (es : List Event) (c : C) (s : Supervisor)
      → IsGranted s
      → IsGranted (tell_all consume es (c, s)).1
  unfolding tell_all
  tell_all-IsGranted [] c s h = h
  tell_all-IsGranted (e ∷ es) c s h =
      let w = tell consume e (c, s) in tell_all-IsGranted es w.0 w.1 (tell-IsGranted e c s h)

  -- Where a cell grants valid targets only, no sequence of events launches a new supervisor on another
  -- target.
  pub tell_all-started :
      (es : List Event) (c : C)
      → (tell_all consume es (c, new_supervisor)).1.started ≡ true
      → valid (tell_all consume es (c, new_supervisor)).1.target ≡ true
  tell_all-started es c e =
      let s = (tell_all consume es (c, new_supervisor)).1 in
      tell_all-IsGranted es c new_supervisor (λ f. absurd (cc f))
        (first s.started (is_admitted s.state) e)
    where
      first : (b c : Bool) → b ≡ true → (b || c) ≡ true
      first true c e = refl
      first false c e = absurd (cc e)
