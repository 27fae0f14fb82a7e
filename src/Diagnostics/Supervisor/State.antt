-- ===== src/Diagnostics/Supervisor/State.antt =====
-- windows/external_native/diagnostics/l1_crypto_admission.h, the fields and the states of
-- `OfflineSupervisor`, its stop and its clock. The samples are those taken so far, the newest first.
use shiroha_quiz.Base.{ℕ, Bool, true, false, List, [], ltb, if◌then◌else◌, Bytes, replicate}
use shiroha_quiz.Diagnostics.Native.{CallCounts, no_counts, NativeObservation, no_observation}
use shiroha_quiz.Diagnostics.Grants.{GrantTarget, new_target}

pub data SupervisorState : Type 0 where
  not_started admitted start_attempted running settling : SupervisorState
  complete stop_requested deadline_exceeded settlement_unknown blocked : SupervisorState

unfoldable pub supervisor_terminal : SupervisorState → Bool
supervisor_terminal complete = true
supervisor_terminal settlement_unknown = true
supervisor_terminal blocked = true
supervisor_terminal s = false

pub data OfflineVerdict : Type 0 where
  not_run passed failed unknown inconclusive : OfflineVerdict

pub data StopReason : Type 0 where
  no_reason admission launch deadline measurement budget worker settlement : StopReason

pub data WorkerState : Type 0 where
  worker_not_started worker_attempted start_failed worker_running exit_observed worker_unknown :
      WorkerState

pub record ResourceSample : Type 0 where
  pub observed_at_ms : ℕ
  pub peak_working_set : ℕ
  pub peak_commit : ℕ
  pub handles : ℕ
  pub completed_calls : ℕ

pub record Evidence : Type 0 where
  pub batch_id : Bytes
  pub trial_id : Bytes
  pub source_sha : Bytes
  pub base_sha : Bytes
  pub artifact_sha256 : Bytes
  pub environment_id : Bytes
  pub reviewer_id : Bytes
  pub verifier_id : Bytes
  pub review_sha256 : Bytes
  pub verification_sha256 : Bytes
  pub abi : List CallCounts
  pub native : NativeObservation
  pub buffers_acquired : ℕ
  pub buffers_live : ℕ
  pub samples : List ResourceSample
  pub worker_state : WorkerState
  pub completed_native_calls : ℕ
  pub launch_attempt_ms : ℕ
  pub process_end_ms : ℕ
  pub process_exit_observed : Bool
  pub deadline_passed : Bool
  pub settlement_incomplete : Bool
  pub first_failure : StopReason
  pub verdict : OfflineVerdict

abbrev new_evidence : Evidence
new_evidence = record {
  batch_id = [];
  trial_id = [];
  source_sha = [];
  base_sha = [];
  artifact_sha256 = [];
  environment_id = [];
  reviewer_id = [];
  verifier_id = [];
  review_sha256 = [];
  verification_sha256 = [];
  abi = replicate 7 no_counts;
  native = no_observation;
  buffers_acquired = 0;
  buffers_live = 0;
  samples = [];
  worker_state = worker_not_started;
  completed_native_calls = 0;
  launch_attempt_ms = 0;
  process_end_ms = 0;
  process_exit_observed = false;
  deadline_passed = false;
  settlement_incomplete = true;
  first_failure = no_reason;
  verdict = not_run;
}

pub record Supervisor : Type 0 where
  pub target : GrantTarget
  pub evidence : Evidence
  pub state : SupervisorState
  pub last_ms : ℕ
  pub started : Bool

abbrev pub new_supervisor : Supervisor
new_supervisor = record {
  target = new_target;
  evidence = new_evidence;
  state = not_started;
  last_ms = 0;
  started = false;
}

abbrev pub is_not_started : SupervisorState → Bool
is_not_started not_started = true
is_not_started s = false

abbrev pub is_admitted : SupervisorState → Bool
is_admitted admitted = true
is_admitted s = false

abbrev pub is_start_attempted : SupervisorState → Bool
is_start_attempted start_attempted = true
is_start_attempted s = false

abbrev pub is_open : SupervisorState → Bool
is_open running = true
is_open settling = true
is_open s = false

abbrev pub none_yet : StopReason → Bool
none_yet no_reason = true
none_yet r = false

abbrev pub first_of : StopReason → StopReason → StopReason
first_of no_reason why = why
first_of r why = r

-- `stop`: the first reason is kept, and a final state stays.
unfoldable pub stop : StopReason → SupervisorState → Supervisor → Supervisor
unfolding supervisor_terminal
stop reason state s = if supervisor_terminal s.state then s else record s {
  evidence = record (s.evidence) { first_failure = first_of s.evidence.first_failure reason };
  state = state;
}

unfoldable pub time : ℕ → Supervisor → Bool × Supervisor
unfolding stop
time now s =
    if ltb now s.last_ms
    then (false, stop measurement stop_requested s)
    else (true, record s { last_ms = now })
