-- ===== src/Diagnostics/Supervisor/Ends.antt =====
-- The end of a run by its settlement, and what its polls test.
use shiroha_quiz.Base.{
  ℕ, ◌+◌, ◌-◌, ◌<◌, ◌≤◌, ◌≡◌, refl, Bool, true, false, not, ◌&&◌, ◌||◌, ltb, leb, ◌==◌, if-both,
  or-false_left, or-false_right, not-false, sym, ap, ◌∙◌, length, arith,
}
use shiroha_quiz.Diagnostics.Native.{NativeObservation}
use shiroha_quiz.Diagnostics.Budget.{Ledger}
use shiroha_quiz.Diagnostics.Supervisor.{
  Supervisor, SupervisorState, StopReason, supervisor_terminal, settlement_unknown, settlement,
  stop, none_yet, is_measurement, is_exact, judge, time, poll_timed, poll, is_not_started, settle,
  recorded,
}

stop-final :
    (why : StopReason) (st : SupervisorState) (s : Supervisor)
    → supervisor_terminal st ≡ true
    → supervisor_terminal (stop why st s).state ≡ true
unfolding stop
stop-final why st s h =
    if-both (λ (t : Supervisor). supervisor_terminal t.state ≡ true) (supervisor_terminal s.state)
      (λ e. e) (λ e. h)

judge-final :
    (l : Ledger) (o : NativeObservation) (s : Supervisor)
    → supervisor_terminal (judge l o s).state ≡ true
unfolding judge supervisor_terminal
judge-final l o s =
    let Goal = λ (t : Supervisor). supervisor_terminal t.state ≡ true in
    let first = s.evidence.first_failure in
    if-both Goal s.evidence.settlement_incomplete
      (λ e. stop-final settlement settlement_unknown s refl)
      λ e.
        if-both Goal (is_measurement first) (λ f. refl)
          λ f.
            if-both Goal
              (not (none_yet first)
                || (not (is_exact s.target l o) || not (length s.evidence.samples == 18)))
              (λ g. refl) (λ g. refl)

-- However a run went that was launched, and whatever its ledger and its observation are, settling it ends
-- it: the state is final.
pub settle-final :
    (now : ℕ) (seen : Bool) (l : Ledger) (o : NativeObservation) (s : Supervisor)
    → s.started ≡ true
    → supervisor_terminal (settle now seen l o s).state ≡ true
unfolding settle
settle-final now seen l o s started =
    let s' = (poll now true s).1 in
    if-both (λ (t : Supervisor). supervisor_terminal t.state ≡ true)
      (not s.started || supervisor_terminal s.state)
      (λ e. done s.started (supervisor_terminal s.state) started e)
      (λ e. judge-final l o (record s' { evidence = recorded now seen l o s'.evidence }))
  where
    done : (a b : Bool) → a ≡ true → (not a || b) ≡ true → b ≡ true
    done true b h e = e
    done false b h e = absurd (cc h)

poll_timed-true :
    (now : ℕ) (r : Bool × Supervisor)
    → (poll_timed now r).0 ≡ true
    → (r.0 ≡ true)
      × ((none_yet r.1.evidence.first_failure ≡ true)
          × ((r.1.started && leb r.1.target.max_execution_ms (now - r.1.evidence.launch_attempt_ms))
              ≡ false))
unfolding poll_timed
poll_timed-true now (false, s) h = absurd (cc h)
poll_timed-true now (true, s) h =
    if-both
      (λ (r : Bool × Supervisor).
        r.0 ≡ true
        → (true ≡ true)
          × ((none_yet s.evidence.first_failure ≡ true)
              × ((s.started && leb s.target.max_execution_ms (now - s.evidence.launch_attempt_ms))
                  ≡ false)))
      (s.started && leb s.target.max_execution_ms (now - s.evidence.launch_attempt_ms))
      (λ e f. absurd (cc f)) (λ e f. (refl, (f, e))) h

time-true :
    (now : ℕ) (s : Supervisor)
    → (time now s).0 ≡ true
    → (s.last_ms ≤ now) × ((time now s).1 ≡ record s { last_ms = now })
unfolding time
time-true now s =
    if-both
      (λ (r : Bool × Supervisor).
        r.0 ≡ true → (s.last_ms ≤ now) × (r.1 ≡ record s { last_ms = now }))
      (ltb now s.last_ms) (λ e f. absurd (cc f)) (λ e f. (ground (arith, e), refl))

before_deadline :
    (b : Bool) (most now from : ℕ)
    → (b && leb most (now - from)) ≡ false
    → b ≡ true
    → now < from + most
before_deadline true most now from e h = ground (arith, e)
before_deadline false most now from e h = absurd (cc h)

-- The tests that a poll has passed which lets work go on.
pub poll-true :
    (now : ℕ) (healthy : Bool) (s : Supervisor)
    → (poll now healthy s).0 ≡ true
    → ((supervisor_terminal s.state ≡ false)
        × ((is_not_started s.state ≡ false) × (healthy ≡ true)))
      × ((s.last_ms ≤ now)
          × ((none_yet s.evidence.first_failure ≡ true)
              × (s.started ≡ true
                  → now < s.evidence.launch_attempt_ms + s.target.max_execution_ms)))
unfolding poll
poll-true now healthy s =
    let Goal = λ (r : Bool × Supervisor).
      r.0 ≡ true
      → ((supervisor_terminal s.state ≡ false)
          × ((is_not_started s.state ≡ false) × (healthy ≡ true)))
        × ((s.last_ms ≤ now)
            × ((none_yet s.evidence.first_failure ≡ true)
                × (s.started ≡ true
                    → now < s.evidence.launch_attempt_ms + s.target.max_execution_ms))) in
    if-both Goal (supervisor_terminal s.state || is_not_started s.state) (λ a e. absurd (cc e))
      λ a.
        if-both Goal (not healthy) (λ b e. absurd (cc e))
          λ b e.
            let (told, (none, late)) = poll_timed-true now (time now s) e in
            let (later, same) = time-true now s told in
            (
              (
                or-false_left (supervisor_terminal s.state) (is_not_started s.state) a,
                (
                  or-false_right (supervisor_terminal s.state) (is_not_started s.state) a,
                  not-false healthy b,
                ),
              ),
              (
                later,
                (
                  ap (λ (t : Supervisor). none_yet t.evidence.first_failure) (sym same) ∙ none,
                  before_deadline s.started s.target.max_execution_ms now
                      s.evidence.launch_attempt_ms
                      (ap
                          (λ (t : Supervisor).
                            t.started
                            && leb t.target.max_execution_ms (now - t.evidence.launch_attempt_ms))
                          (sym same)
                        ∙ late),
                ),
              ),
            )
