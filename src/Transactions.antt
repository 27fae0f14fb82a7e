-- ===== src/Transactions.antt =====
-- One store transaction of an owner: `begin`, `commit` and `abort` of
-- windows/external_native/association_files.cpp, with the six calls that lead to them. The kinds are
-- 1 (issuer) and 2 (server) and 3 (associations) of the app, and 4 (client) of the bridge.
mod Shared
mod Begun
mod Published
pub mod Steps
pub mod Balance
pub mod Tickets
pub mod Decided
unfoldable pub use Shared.*
unfoldable pub use Begun.*
unfoldable pub use Published.*
use shiroha_quiz.Base.{
  ℕ, ◌+◌, Bool, true, false, not, ◌&&◌, ◌||◌, Option, none, some, List, [], ◌∷◌, ◌++◌, ltb, leb,
  ◌==◌, if◌then◌else◌, is_empty, length, all, codes, Bytes,
}
use shiroha_quiz.Status.{
  Status, ok, is_ok, invalid_input, abi_mismatch, resource_limit, unavailable, data_corrupt,
  missing, commit_unknown, abi_version, app, bridge, int64_max, max_bytes,
}
use shiroha_quiz.Memory.{Memory, span, count, overlap, clear, copy, store, read}
use shiroha_quiz.Objects.{Sid, ObjectInfo, object_valid}
use shiroha_quiz.Machine.{
  Handle, usable, is_null, not_null, Call, close, inspect, read_file, temporary_count, random_name,
  temporary_create, write_file, flush_file, replace_file, credential_replace, Outcome, returned,
  Environment, Lease, Context, Observation, no_observation, CommitStage, prepare, target_close,
  rename, published_close, published_validate, complete, CommitDiagnostic, no_detail, Locals,
  Raised, failed, bad_alloc, exception, Result, done, raised, Action, pure, raise, fail, ◌>>=◌,
  ◌>>◌, require, get_lease, get_locals, change_lease, change_locals, change_memory, settle, attempt,
  raised_status, ask, perform, observe, open_at, close_if,
}
use shiroha_quiz.Leases.{
  check, finish, target_current, open_target, target_place, temporary_place, directory,
  has_all_pins, quarantine_unless, same,
}
use shiroha_quiz.Owners.{World, find, run_in, run_with}

module _ (env : Environment) where
  abbrev pub is_exception {ℓ} : {A : Type ℓ} → Result A → Bool
  is_exception (done a) = false
  is_exception (raised (failed s)) = false
  is_exception (raised bad_alloc) = true
  is_exception (raised exception) = true

  -- The catch clauses of `commit`.
  abbrev pub commit_status : Bool → Result (Unit {0}) → Status
  commit_status replacing (done u) = ok
  commit_status replacing (raised (failed s)) = s
  commit_status replacing (raised bad_alloc) = if replacing then commit_unknown else resource_limit
  commit_status replacing (raised exception) = if replacing then commit_unknown else unavailable

  abbrev pub complete_detail : Bool → Lease → CommitDiagnostic → CommitDiagnostic
  complete_detail credential l d = record d {
    stage = complete;
    published = if credential then observation_of l else d.published;
  }

  -- `commit` behind its try block; the ticket is consumed whatever happened.
  pub commit_settle : Bool → Result (Unit {0}) → Action Status
  commit_settle credential result = do
    change_locals (λ v. record v { detail = record (v.detail) { exception = is_exception result } })
    locals ← get_locals
    finished ← finish env
    change_locals (λ v. record v { detail = record (v.detail) { finish_failed = not finished } })
    lease ← get_lease
    let late = if locals.replacing then commit_unknown else unavailable
    let status = if finished then commit_status locals.replacing result else late
    (if is_ok status
        then change_locals (λ v. record v { detail = complete_detail credential lease v.detail })
        else pure tt)
    pure status

  pub commit_lease : Bool → Bytes → Action Status
  commit_lease credential input = do
    result ← attempt (commit_try env input)
    commit_settle credential result

  abbrev pub ticket_matches : ℕ → Bool → Lease → Bool
  ticket_matches ticket credential l =
      not (ticket == 0)
      && (l.ticket == ticket && (if l.kind == 3 then not credential else credential))

  pub commit_found :
      ℕ → Bool → Bytes → Option (ℕ × Lease) → World → Status × CommitDiagnostic × World
  commit_found ticket credential input none w = (invalid_input, no_detail, w)
  commit_found ticket credential input (some (slot, l)) w =
      if not (ticket_matches ticket credential l)
      then (invalid_input, no_detail, w)
      else (let (s, v, w') = run_with (commit_lease credential input) slot l w in (s, v.detail, w'))

  -- `input` is the address of the bytes to publish.
  pub commit : ℕ → ℕ → ℕ → Bool → ℕ → ℕ → World → Status × CommitDiagnostic × World
  commit version owner ticket credential input length w =
      if not (version == abi_version)
      then (abi_mismatch, no_detail, w)
      else if not (span input length)
      then (invalid_input, no_detail, w)
      else commit_found ticket credential (read input length w.memory) (find owner w.owners) w

  pub abort_lease : Action Status
  abort_lease = do finished ← finish env; pure (if finished then ok else unavailable)

  pub abort_found : ℕ → Bool → Option (ℕ × Lease) → World → Status × World
  abort_found ticket credential none w = (invalid_input, w)
  abort_found ticket credential (some (slot, l)) w =
      if not (ticket_matches ticket credential l)
      then (invalid_input, w)
      else run_in abort_lease slot l w

  pub abort : ℕ → ℕ → ℕ → Bool → World → Status × World
  abort version owner ticket credential w =
      if not (version == abi_version)
      then (abi_mismatch, w)
      else abort_found ticket credential (find owner w.owners) w

  unfoldable pub association_begin : ℕ → ℕ → ℕ → ℕ → ℕ → ℕ → World → Status × Observation × World
  association_begin version owner output capacity written ticket w =
      begin env version owner 3 output capacity written ticket w

  unfoldable pub association_commit : ℕ → ℕ → ℕ → ℕ → ℕ → World → Status × CommitDiagnostic × World
  association_commit version owner ticket input length w =
      commit version owner ticket false input length w

  unfoldable pub association_abort : ℕ → ℕ → ℕ → World → Status × World
  association_abort version owner ticket w = abort version owner ticket false w

  -- Kind 3 stays out of the credential calls: it is passed on as no kind at all.
  unfoldable pub credential_begin : ℕ → ℕ → ℕ → ℕ → ℕ → ℕ → ℕ → World → Status × Observation × World
  credential_begin version owner kind output capacity written ticket w =
      begin env version owner (if kind == 3 then 0 else kind) output capacity written ticket w

  unfoldable pub credential_commit : ℕ → ℕ → ℕ → ℕ → ℕ → World → Status × CommitDiagnostic × World
  credential_commit version owner ticket input length w =
      commit version owner ticket true input length w

  unfoldable pub credential_abort : ℕ → ℕ → ℕ → World → Status × World
  credential_abort version owner ticket w = abort version owner ticket true w
