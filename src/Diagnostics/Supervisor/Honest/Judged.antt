-- ===== src/Diagnostics/Supervisor/Honest/Judged.antt =====
-- What a supervisor that judges a run as passed has found.
use shiroha_quiz.Base.{
  ℕ, ◌≡◌, refl, Bool, true, false, not, ◌||◌, ◌==◌, if-both, or-false_left, or-false_right,
  not-false, ==-not-false, and-true_right, length,
}
use shiroha_quiz.Diagnostics.Native.{NativeObservation}
use shiroha_quiz.Diagnostics.Budget.{Ledger}
use shiroha_quiz.Diagnostics.Grants.{GrantTarget}
use shiroha_quiz.Diagnostics.Supervisor.{
  complete, supervisor_terminal, not_run, passed, Supervisor, none_yet, stop, judge, is_exact,
  is_unresolved, is_measurement, recorded, any_unsettled, as_granted,
}

-- What the observer has of a run that passes.
pub record IsPassed (s : Supervisor) : Type 0 where
  pub finished : s.state ≡ complete
  pub no_failure : none_yet s.evidence.first_failure ≡ true
  pub sampled : length s.evidence.samples ≡ 18
  pub exit_seen : s.evidence.process_exit_observed ≡ true
  pub settled : any_unsettled s.evidence.abi ≡ false
  pub native_settled : any_unsettled s.evidence.native.calls ≡ false
  pub granted : as_granted s.evidence.abi s.target.granted ≡ true
  pub none_live : s.evidence.buffers_live ≡ 0
  pub custody : s.evidence.native.acquired ≡ s.evidence.native.released
  pub none_owned : s.evidence.native.still_owned ≡ 0

-- There is no verdict before a final state, and a pass rests on evidence.
pub data IsHonest (s : Supervisor) : Type 0 where
  unjudged : s.evidence.verdict ≡ not_run → IsHonest s
  judged :
      supervisor_terminal s.state ≡ true → (s.evidence.verdict ≡ passed → IsPassed s) → IsHonest s

-- What follows where nothing is unresolved.
record IsResolved (seen : Bool) (l : Ledger) (o : NativeObservation) : Type 0 where
  exit_seen : seen ≡ true
  none_owned : o.still_owned ≡ 0
  custody : o.acquired ≡ o.released
  native_settled : any_unsettled o.calls ≡ false
  settled : any_unsettled l.abi_calls ≡ false
  none_live : l.buffers_live ≡ 0

is_unresolved-false :
    (seen : Bool) (l : Ledger) (o : NativeObservation)
    → is_unresolved seen l o ≡ false
    → IsResolved seen l o
unfolding is_unresolved
is_unresolved-false seen l o e =
    let r9 = not (l.buffers_live == 0) || not (l.releases_unknown == 0) in
    let r8 = any_unsettled l.abi_calls || r9 in
    let r7 = any_unsettled o.calls || r8 in
    let r6 = l.settlement_unknown || r7 in
    let r5 = not (o.acquired == o.released) || r6 in
    let r4 = not (o.quarantined == 0) || r5 in
    let r3 = not (o.still_owned == 0) || r4 in
    let e2 = or-false_right (not seen) (o.unknown || r3) e in
    let e3 = or-false_right o.unknown r3 e2 in
    let e4 = or-false_right (not (o.still_owned == 0)) r4 e3 in
    let e5 = or-false_right (not (o.quarantined == 0)) r5 e4 in
    let e6 = or-false_right (not (o.acquired == o.released)) r6 e5 in
    let e7 = or-false_right l.settlement_unknown r7 e6 in
    let e8 = or-false_right (any_unsettled o.calls) r8 e7 in
    let e9 = or-false_right (any_unsettled l.abi_calls) r9 e8 in
    record {
      exit_seen = not-false seen (or-false_left (not seen) (o.unknown || r3) e);
      none_owned = ==-not-false o.still_owned 0 (or-false_left (not (o.still_owned == 0)) r4 e3);
      custody =
          ==-not-false o.acquired o.released (or-false_left (not (o.acquired == o.released)) r6 e5);
      native_settled = or-false_left (any_unsettled o.calls) r8 e7;
      settled = or-false_left (any_unsettled l.abi_calls) r9 e8;
      none_live =
          ==-not-false l.buffers_live 0
            (or-false_left (not (l.buffers_live == 0)) (not (l.releases_unknown == 0)) e9);
    }

is_exact-granted :
    (t : GrantTarget) (l : Ledger) (o : NativeObservation)
    → is_exact t l o ≡ true
    → as_granted l.abi_calls t.granted ≡ true
unfolding is_exact
is_exact-granted t l o e = and-true_right _ _ e

pub judge-IsHonest :
    (now : ℕ) (exited : Bool) (l : Ledger) (o : NativeObservation) (s : Supervisor)
    → supervisor_terminal s.state ≡ false
    → IsHonest (judge l o (record s { evidence = recorded now exited l o s.evidence }))
unfolding judge stop supervisor_terminal
judge-IsHonest now exited l o s going =
    let seen = s.evidence.process_exit_observed || exited in
    let first = s.evidence.first_failure in
    if-both IsHonest (is_unresolved seen l o) (λ e. rw going (judged refl (λ v. absurd (cc v))))
      λ e.
        if-both IsHonest (is_measurement first) (λ f. judged refl (λ v. absurd (cc v)))
          λ f.
            let bad = not (is_exact s.target l o) in
            let short = not (length s.evidence.samples == 18) in
            if-both IsHonest (not (none_yet first) || (bad || short))
              (λ g. judged refl (λ v. absurd (cc v)))
              λ g.
                let resolved = is_unresolved-false seen l o e in
                let rest = or-false_right (not (none_yet first)) (bad || short) g in
                judged refl λ v. record {
                  finished = refl;
                  no_failure =
                      not-false (none_yet first)
                        (or-false_left (not (none_yet first)) (bad || short) g);
                  sampled =
                      ==-not-false (length s.evidence.samples) 18 (or-false_right bad short rest);
                  exit_seen = resolved.exit_seen;
                  settled = resolved.settled;
                  native_settled = resolved.native_settled;
                  granted =
                      is_exact-granted s.target l o
                        (not-false (is_exact s.target l o) (or-false_left bad short rest));
                  none_live = resolved.none_live;
                  custody = resolved.custody;
                  none_owned = resolved.none_owned;
                }
