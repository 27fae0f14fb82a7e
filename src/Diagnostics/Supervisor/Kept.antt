-- ===== src/Diagnostics/Supervisor/Kept.antt =====
-- The first failure and the samples, over every operation of the observer.
use shiroha_quiz.Base.{
  arith, ℕ, ◌≤◌, ◌<◌, ◌≡◌, refl, ap, ◌∙◌, Bool, true, false, not, ◌&&◌, ◌||◌, List, [], ◌∷◌, leb,
  ◌==◌, if◌then◌else◌, if-both, not-false, and-true_left, and-true_right, length,
}
use shiroha_quiz.Diagnostics.Native.{NativeObservation}
use shiroha_quiz.Diagnostics.Budget.{Ledger}
use shiroha_quiz.Diagnostics.Grants.{GrantTarget, is_admission_only}
use shiroha_quiz.Diagnostics.Supervisor.{
  with_worker, SupervisorState, settlement_unknown, blocked, stop_requested, supervisor_terminal,
  StopReason, launch, measurement, budget, worker, settlement, WorkerState, worker_unknown,
  worker_running, worker_not_started, worker_attempted, start_failed, exit_observed, ResourceSample,
  Supervisor, new_supervisor, is_start_attempted, is_admitted, is_open, none_yet, stop, confirmed,
  confirm_launch, poll, sample_fits, over_target, newest, sample_polled, sample, worker_failed,
  judge, settle, is_exact, is_measurement, recorded,
}
use shiroha_quiz.Diagnostics.Supervisor.Runs.{
  Event, admits, begins, confirms, polls, opens, samples, fails, refuses, exits, settles_from,
  settles, tell, tell_all,
}
use shiroha_quiz.Diagnostics.Supervisor.Quiet.{
  IsQuiet, IsQuiet-refl, stop-IsSteady, poll-IsSteady, admission_open-IsSteady, admit-IsQuiet,
  begin_launch-IsSteady, refuse-IsSteady, begin_settlement-IsSteady, exit-IsSteady,
}

-- The newest sample follows those before it: fewer than 18, with peaks no greater and as many calls.
pub record IsNext (x : ResourceSample) (xs : List ResourceSample) : Type 0 where
  pub few : length xs < 18
  pub working : (newest xs x).peak_working_set ≤ x.peak_working_set
  pub commit : (newest xs x).peak_commit ≤ x.peak_commit
  pub measured : (0 < x.peak_working_set) × ((0 < x.peak_commit) × (0 < x.handles))
  pub calls : x.completed_calls ≤ length xs

abbrev pub AllNext : List ResourceSample → Type 0
AllNext [] = Unit
AllNext (x ∷ xs) = IsNext x xs × AllNext xs

AllNext-length : (xs : List ResourceSample) → AllNext xs → length xs ≤ 18
AllNext-length [] h = omega arith
AllNext-length (x ∷ xs) h = omega (arith, h.0.few)

-- What an operation leaves of the first failure and adds to the samples.
record IsKeeping (s s' : Supervisor) : Type 0 where
  latched :
      none_yet s.evidence.first_failure ≡ false
      → s'.evidence.first_failure ≡ s.evidence.first_failure
  sampled : AllNext s.evidence.samples → AllNext s'.evidence.samples

IsQuiet-IsKeeping : (s s' : Supervisor) → IsQuiet s s' → IsKeeping s s'
IsQuiet-IsKeeping s s' q = record { latched = q.latched; sampled = λ h. rw q.samples h }

IsKeeping-trans : (r s t : Supervisor) → IsKeeping r s → IsKeeping s t → IsKeeping r t
IsKeeping-trans r s t g h = record {
  latched = λ e. h.latched (ap none_yet (g.latched e) ∙ e) ∙ g.latched e;
  sampled = λ e. h.sampled (g.sampled e);
}

stop-IsKeeping :
    (why : StopReason) (st : SupervisorState) (s : Supervisor)
    → is_admitted st ≡ false
    → IsKeeping s (stop why st s)
stop-IsKeeping why st s e = IsQuiet-IsKeeping s (stop why st s) (stop-IsSteady why st s e).quiet

expected-le : (only : Bool) (n : ℕ) → (if only then 0 else if n == 17 then 16 else n) ≤ n
expected-le only n =
    if-both (λ x. x ≤ n) only (λ e. omega arith)
      (λ e. if-both (λ x. x ≤ n) (n == 17) (λ f. ground (arith, f)) (λ f. omega arith))

positive : (n : ℕ) → not (n == 0) ≡ true → 0 < n
positive n e = ground (arith, e)

le_lem : (m n : ℕ) → leb m n ≡ true → m ≤ n
le_lem m n e = ground (arith, e)

below_18 : (n : ℕ) → not (leb 18 n) ≡ true → n < 18
below_18 n e = ground (arith, e)

matched : (m n k : ℕ) → (m == n) ≡ true → n ≤ k → m ≤ k
matched m n k e h = ground (arith, e, h)

sample_fits-IsNext :
    (s : Supervisor) (x : ResourceSample) → sample_fits s x ≡ true → IsNext x s.evidence.samples
unfolding sample_fits
sample_fits-IsNext s x e =
    let xs = s.evidence.samples in
    let taken = length xs in
    let expected = if is_admission_only s.target then 0 else if taken == 17 then 16 else taken in
    let before = newest xs x in
    let peaks =
      leb before.peak_working_set x.peak_working_set && leb before.peak_commit x.peak_commit in
    let r4 = x.completed_calls == expected && peaks in
    let r3 = not (x.handles == 0) && r4 in
    let r2 = not (x.peak_commit == 0) && r3 in
    let r1 = not (x.peak_working_set == 0) && r2 in
    let e1 = and-true_right (not (leb 18 taken)) r1 e in
    let e2 = and-true_right (not (x.peak_working_set == 0)) r2 e1 in
    let e3 = and-true_right (not (x.peak_commit == 0)) r3 e2 in
    let e4 = and-true_right (not (x.handles == 0)) r4 e3 in
    let e5 = and-true_right (x.completed_calls == expected) peaks e4 in
    record {
      few = below_18 taken (and-true_left (not (leb 18 taken)) r1 e);
      working = le_lem _ _ (
          and-true_left (leb before.peak_working_set x.peak_working_set)
            (leb before.peak_commit x.peak_commit) e5);
      commit = le_lem _ _ (
          and-true_right (leb before.peak_working_set x.peak_working_set)
            (leb before.peak_commit x.peak_commit) e5);
      measured = (
        positive x.peak_working_set (and-true_left (not (x.peak_working_set == 0)) r2 e1),
        (
          positive x.peak_commit (and-true_left (not (x.peak_commit == 0)) r3 e2),
          positive x.handles (and-true_left (not (x.handles == 0)) r4 e3),
        ),
      );
      calls =
          matched x.completed_calls expected taken
            (and-true_left (x.completed_calls == expected) peaks e4)
            (expected-le (is_admission_only s.target) taken);
    }

sample_polled-IsKeeping :
    (x : ResourceSample) (r : Bool × Supervisor) → IsKeeping r.1 (sample_polled x r).1
unfolding sample_polled
sample_polled-IsKeeping x (false, s) = IsQuiet-IsKeeping s s (IsQuiet-refl s)
sample_polled-IsKeeping x (true, s) =
    let Goal = λ (r : Bool × Supervisor). IsKeeping s r.1 in
    let more = record s { evidence = record (s.evidence) { samples = x ∷ s.evidence.samples } } in
    if-both Goal (not (sample_fits s x)) (λ e. stop-IsKeeping measurement stop_requested s refl)
      λ e.
        let taken : IsKeeping s more = record {
          latched = λ f. refl;
          sampled = λ h. (sample_fits-IsNext s x (not-false (sample_fits s x) e), h);
        } in
        if-both Goal (over_target s.target x)
          (λ f. IsKeeping-trans s more _ taken (stop-IsKeeping budget stop_requested more refl))
          (λ f. taken)

sample-IsKeeping :
    (x : ResourceSample) (measured : Bool) (s : Supervisor) → IsKeeping s (sample x measured s).1
unfolding sample
sample-IsKeeping x measured s =
    let r = poll x.observed_at_ms measured s in
    if-both (λ (r : Bool × Supervisor). IsKeeping s r.1) (not (is_open s.state))
      (λ e. IsQuiet-IsKeeping s s (IsQuiet-refl s))
      (λ e.
        IsKeeping-trans s r.1 _
          (IsQuiet-IsKeeping s r.1 (poll-IsSteady x.observed_at_ms measured s).quiet)
          (sample_polled-IsKeeping x r))

-- The state of the worker is neither a failure nor a sample.
failed_launch-IsKeeping :
    (s : Supervisor) → IsKeeping s (with_worker start_failed (stop launch blocked s))
failed_launch-IsKeeping s =
    let k = stop-IsKeeping launch blocked s refl in
    record { latched = k.latched; sampled = k.sampled }

confirmed-IsKeeping : (w : WorkerState) (s : Supervisor) → IsKeeping s (confirmed w s).1
unfolding confirmed
confirmed-IsKeeping worker_unknown s =
    let k = stop-IsKeeping launch settlement_unknown s refl in
    record { latched = k.latched; sampled = k.sampled }
confirmed-IsKeeping worker_running s = record { latched = λ e. refl; sampled = λ h. h }
confirmed-IsKeeping worker_not_started s = failed_launch-IsKeeping s
confirmed-IsKeeping worker_attempted s = failed_launch-IsKeeping s
confirmed-IsKeeping start_failed s = failed_launch-IsKeeping s
confirmed-IsKeeping exit_observed s = failed_launch-IsKeeping s

confirm_launch-IsKeeping : (w : WorkerState) (s : Supervisor) → IsKeeping s (confirm_launch w s).1
unfolding confirm_launch
confirm_launch-IsKeeping w s =
    if-both (λ (r : Bool × Supervisor). IsKeeping s r.1) (not (is_start_attempted s.state))
      (λ e. IsQuiet-IsKeeping s s (IsQuiet-refl s)) (λ e. confirmed-IsKeeping w s)

judge-IsKeeping : (l : Ledger) (o : NativeObservation) (s : Supervisor) → IsKeeping s (judge l o s)
unfolding judge
judge-IsKeeping l o s =
    let first = s.evidence.first_failure in
    if-both (IsKeeping s) s.evidence.settlement_incomplete
      (λ e.
        let k = stop-IsKeeping settlement settlement_unknown s refl in
        record { latched = k.latched; sampled = k.sampled })
      λ e.
        if-both (IsKeeping s) (is_measurement first)
          (λ f. record { latched = λ g. refl; sampled = λ h. h })
          λ f.
            if-both (IsKeeping s)
              (not (none_yet first)
                || (not (is_exact s.target l o) || not (length s.evidence.samples == 18)))
              (λ g. record { latched = λ i. refl; sampled = λ h. h })
              (λ g. record { latched = λ i. refl; sampled = λ h. h })

settle-IsKeeping :
    (now : ℕ) (seen : Bool) (l : Ledger) (o : NativeObservation) (s : Supervisor)
    → IsKeeping s (settle now seen l o s)
unfolding settle
settle-IsKeeping now seen l o s =
    let s' = (poll now true s).1 in
    let noted = record s' { evidence = recorded now seen l o s'.evidence } in
    if-both (IsKeeping s) (not s.started || supervisor_terminal s.state)
      (λ e. IsQuiet-IsKeeping s s (IsQuiet-refl s))
      λ e.
        let k = judge-IsKeeping l o noted in
        IsKeeping-trans s s' _ (IsQuiet-IsKeeping s s' (poll-IsSteady now true s).quiet)
          (record { latched = k.latched; sampled = k.sampled })

module _ {C : Type 0} (consume : GrantTarget → ℕ → C → Bool × C) where
  tell-IsKeeping : (e : Event) (c : C) (s : Supervisor) → IsKeeping s (tell consume e (c, s)).1
  unfolding tell worker_failed
  tell-IsKeeping (admits t utc mono trial_id) c s =
      IsQuiet-IsKeeping s _ (admit-IsQuiet consume t utc mono trial_id c s)
  tell-IsKeeping (begins utc mono) c s =
      IsQuiet-IsKeeping s _ (begin_launch-IsSteady utc mono s).quiet
  tell-IsKeeping (confirms w) c s = confirm_launch-IsKeeping w s
  tell-IsKeeping (polls now healthy) c s = IsQuiet-IsKeeping s _ (poll-IsSteady now healthy s).quiet
  tell-IsKeeping (opens now) c s = IsQuiet-IsKeeping s _ (admission_open-IsSteady now s).quiet
  tell-IsKeeping (samples x measured) c s = sample-IsKeeping x measured s
  tell-IsKeeping fails c s = stop-IsKeeping worker stop_requested s refl
  tell-IsKeeping (refuses why) c s = IsQuiet-IsKeeping s _ (refuse-IsSteady why s).quiet
  tell-IsKeeping (exits now) c s = IsQuiet-IsKeeping s _ (exit-IsSteady now s).quiet
  tell-IsKeeping settles_from c s = IsQuiet-IsKeeping s _ (begin_settlement-IsSteady s).quiet
  tell-IsKeeping (settles now seen l o) c s = settle-IsKeeping now seen l o s

  tell_all-IsKeeping :
      (es : List Event) (c : C) (s : Supervisor) → IsKeeping s (tell_all consume es (c, s)).1
  unfolding tell_all
  tell_all-IsKeeping [] c s = IsQuiet-IsKeeping s s (IsQuiet-refl s)
  tell_all-IsKeeping (e ∷ es) c s =
      let w = tell consume e (c, s) in
      IsKeeping-trans s w.1 _ (tell-IsKeeping e c s) (tell_all-IsKeeping es w.0 w.1)

  -- A failure that was noted stays the first, whatever the observer tells after it.
  pub tell_all-latched :
      (es : List Event) (c : C) (s : Supervisor)
      → none_yet s.evidence.first_failure ≡ false
      → (tell_all consume es (c, s)).1.evidence.first_failure ≡ s.evidence.first_failure
  tell_all-latched es c s = (tell_all-IsKeeping es c s).latched

  -- Whatever the observer tells a new supervisor, it holds at most 18 samples, each measured, with peaks
  -- that never fall and no more calls than samples before it.
  pub tell_all-AllNext :
      (es : List Event) (c : C)
      → (length (tell_all consume es (c, new_supervisor)).1.evidence.samples ≤ 18)
        × AllNext (tell_all consume es (c, new_supervisor)).1.evidence.samples
  tell_all-AllNext es c =
      let h = (tell_all-IsKeeping es c new_supervisor).sampled tt in (AllNext-length _ h, h)
