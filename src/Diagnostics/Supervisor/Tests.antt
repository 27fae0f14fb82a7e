-- ===== src/Diagnostics/Supervisor/Tests.antt =====
-- Concrete inputs of the theorems on the grant of a run and on its supervisor.
use shiroha_quiz.Base.{
  ℕ, ◌+◌, ◌≡◌, ◌≤◌, ◌++◌, length, List, Bytes, refl, Bool, true, false, [], ◌∷◌, codes, replicate,
}
use shiroha_quiz.Diagnostics.Native.{no_observation}
use shiroha_quiz.Diagnostics.Budget.{new_ledger}
use shiroha_quiz.Diagnostics.Grants.{GrantTarget, new_target, Cell, new_cell, issue, consume, valid}
use shiroha_quiz.Diagnostics.Grants.Once.{
  IsOnce, issues, consumes, ask_all, new_trial, new_trial-IsOnce,
}
use shiroha_quiz.Diagnostics.Supervisor.{
  settle, observe_worker_exit, sample, confirm_launch, begin_launch_attempt_dual_clock,
  admit_dual_clock, Supervisor, new_supervisor, blocked, supervisor_terminal, passed, admission,
  worker_running, poll,
}
use shiroha_quiz.Diagnostics.Supervisor.Runs.{
  Event, admits, begins, confirms, samples, exits, settles, polls, tell, tell_all,
  tell_all-terminal,
}
use shiroha_quiz.Diagnostics.Grants.Refined.{view, replies, answers, replies-answers}
use shiroha_quiz.Diagnostics.Grants.Issued.{consume-true}
use shiroha_quiz.Diagnostics.Supervisor.Polled.{IsLive, tell_all-IsLive}
use shiroha_quiz.Diagnostics.Supervisor.Ends.{settle-final}
use shiroha_quiz.Diagnostics.Supervisor.Granted.{tell_all-started}
use shiroha_quiz.Diagnostics.Supervisor.Honest.{IsPassed, tell_all-passed}
use shiroha_quiz.Diagnostics.Supervisor.Kept.{AllNext, tell_all-latched, tell_all-AllNext}

-- A target that is approved, with a window of a minute.
abbrev digest : Bytes
digest = replicate 64 97

abbrev approved : GrantTarget
approved = record new_target {
  batch_id = codes "b";
  device_id = codes "d";
  account_identity_sha256 = digest;
  source_sha = replicate 40 97;
  base_sha = replicate 40 98;
  exe_sha256 = digest;
  dependency_manifest_sha256 = digest;
  compiler_id = codes "c";
  os_id = codes "o";
  toolchain_manifest_sha256 = digest;
  stop_owner = codes "s";
  recovery_owner = codes "r";
  evidence_owner = codes "e";
  evidence_scope_id = codes "i";
  reviewer_id = codes "v";
  verifier_id = codes "w";
  review_sha256 = digest;
  verification_sha256 = digest;
  user_approval_id = codes "u";
  user_scope = codes "L1-ADMISSION";
  non_elevated = true;
  reviewer_approved = true;
  verifier_approved = true;
  evidence_output_approved = true;
  user_approved = true;
  working_set_bytes = 1000;
  commit_bytes = 1000;
  handles = 10;
  window_start_ms = 5;
  window_end_ms = 60005;
  granted = replicate 7 0;
}

new_trial-IsOnce_example : IsOnce (
    ask_all
      (issues approved ∷ consumes approved 10 false ∷ consumes approved 11 false ∷ [])
      new_trial)
new_trial-IsOnce_example =
    new_trial-IsOnce
      (issues approved ∷ consumes approved 10 false ∷ consumes approved 11 false ∷ [])

abbrev issued_cell : Cell
issued_cell = (issue approved new_cell).1

abbrev spend : GrantTarget → ℕ → Cell → Bool × Cell
spend t now c = consume t now false c

-- A run that only passes its admission: 18 samples, an exit, and an empty ledger.
abbrev measured : ℕ → Event
measured n =
    samples
      (record {
        observed_at_ms = 20 + n;
        peak_working_set = 100;
        peak_commit = 100;
        handles = 5;
        completed_calls = 0;
      })
      true

abbrev measured_all : List Event
measured_all =
    measured 0
    ∷ measured 1
    ∷ measured 2
    ∷ measured 3
    ∷ measured 4
    ∷ measured 5
    ∷ measured 6
    ∷ measured 7
    ∷ measured 8
    ∷ measured 9
    ∷ measured 10
    ∷ measured 11
    ∷ measured 12
    ∷ measured 13
    ∷ measured 14
    ∷ measured 15
    ∷ measured 16
    ∷ measured 17
    ∷ []

abbrev watched : List Event
watched =
    admits approved 10 10 (codes "t") ∷ begins 11 11 ∷ confirms worker_running ∷ measured_all
    ++ exits 50 ∷ settles 60 true (record new_ledger { samples = 18 }) no_observation ∷ []

watched-passes : (tell_all spend watched (issued_cell, new_supervisor)).1.evidence.verdict ≡ passed
unfolding tell_all issue tell settle observe_worker_exit sample confirm_launch
    begin_launch_attempt_dual_clock admit_dual_clock consume
watched-passes = refl

tell_all-passed_example : IsPassed (tell_all spend watched (issued_cell, new_supervisor)).1
tell_all-passed_example = tell_all-passed spend watched issued_cell watched-passes

tell_all-AllNext_example :
    (length (tell_all spend watched (issued_cell, new_supervisor)).1.evidence.samples ≤ 18)
    × AllNext (tell_all spend watched (issued_cell, new_supervisor)).1.evidence.samples
tell_all-AllNext_example = tell_all-AllNext spend watched issued_cell

abbrev refused : Supervisor
refused = record new_supervisor {
  state = blocked;
  evidence = record (new_supervisor.evidence) { first_failure = admission };
}

refused-terminal : supervisor_terminal refused.state ≡ true
unfolding supervisor_terminal
refused-terminal = refl

tell_all-terminal_example :
    tell_all spend (admits approved 10 10 (codes "t") ∷ exits 20 ∷ []) (issued_cell, refused)
    ≡ (issued_cell, refused)
tell_all-terminal_example =
    tell_all-terminal spend (admits approved 10 10 (codes "t") ∷ exits 20 ∷ []) issued_cell refused
      refused-terminal

tell_all-latched_example :
    (tell_all spend (polls 3 true ∷ exits 20 ∷ []) (issued_cell, refused)).1.evidence.first_failure
    ≡ admission
tell_all-latched_example =
    tell_all-latched spend (polls 3 true ∷ exits 20 ∷ []) issued_cell refused refl

replies-answers_example :
    replies
      (issues approved ∷ consumes approved 10 false ∷ consumes approved 11 false ∷ [])
      new_cell
    ≡ answers
        (issues approved ∷ consumes approved 10 false ∷ consumes approved 11 false ∷ [])
        (view new_cell)
replies-answers_example =
    replies-answers (issues approved ∷ consumes approved 10 false ∷ consumes approved 11 false ∷ [])
      new_cell

-- A launched run that is not over.
abbrev launched_run : Supervisor
launched_run =
    (tell_all spend
      (admits approved 10 10 (codes "t") ∷ begins 11 11 ∷ confirms worker_running ∷ [])
      (issued_cell, new_supervisor)).1

launched_run-started : launched_run.started ≡ true
unfolding tell_all tell issue consume admit_dual_clock begin_launch_attempt_dual_clock
    confirm_launch
launched_run-started = refl

tell_all-started_example : valid launched_run.target ≡ true
tell_all-started_example =
    tell_all-started spend (λ t now c e. (consume-true t now false c e).1.0)
      (admits approved 10 10 (codes "t") ∷ begins 11 11 ∷ confirms worker_running ∷ []) issued_cell
      launched_run-started

settle-final_example :
    supervisor_terminal (settle 9 false new_ledger no_observation launched_run).state ≡ true
settle-final_example =
    settle-final 9 false new_ledger no_observation launched_run launched_run-started

launched_run-polls : (poll 30010 true launched_run).0 ≡ true
unfolding tell_all tell issue consume admit_dual_clock begin_launch_attempt_dual_clock
    confirm_launch poll
launched_run-polls = refl

tell_all-IsLive_example : IsLive 30010 true launched_run
tell_all-IsLive_example =
    tell_all-IsLive spend
      (admits approved 10 10 (codes "t") ∷ begins 11 11 ∷ confirms worker_running ∷ []) issued_cell
      30010 true launched_run-polls
