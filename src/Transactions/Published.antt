-- ===== src/Transactions/Published.antt =====
-- windows/external_native/association_files.cpp, the part of `commit` that may fail: a temporary file is written
-- and renamed.
use shiroha_quiz.Base.{
  true, false, not, ◌&&◌, ◌++◌, ltb, ◌==◌, if◌then◌else◌, is_empty, codes, Bytes,
}
use shiroha_quiz.Status.{resource_limit, unavailable, commit_unknown}
use shiroha_quiz.Objects.{Sid, ObjectInfo, object_valid}
use shiroha_quiz.Machine.{
  usable, not_null, Call, close, temporary_count, random_name, temporary_create, write_file,
  flush_file, replace_file, credential_replace, Environment, Lease, prepare, target_close, rename,
  published_close, published_validate, failed, bad_alloc, exception, Result, done, raised, Action,
  pure, raise, fail, ◌>>=◌, ◌>>◌, require, get_lease, change_lease, change_locals, settle, attempt,
  ask, perform, observe, open_at, close_if,
}
use shiroha_quiz.Leases.{
  check, target_current, target_place, temporary_place, directory, quarantine_unless, same,
}
use shiroha_quiz.Transactions.Shared.{set_stage, hex, in_directory}

module _ (env : Environment) where
  -- `commit` up to the name of the temporary file.
  unfoldable pub temporary_name : Action Bytes
  temporary_name = do
    lease ← get_lease
    leftovers ← ask env (temporary_count (directory lease).handle)
    settle leftovers.outcome
    require (ltb leftovers.number 32) resource_limit
    names ← ask env random_name
    settle names.outcome
    require (hex names.runtime 16 && hex names.random 8) unavailable
    change_lease (λ l. record l {
      runtime_id = if is_empty l.runtime_id then names.runtime else l.runtime_id;
    })
    current ← get_lease
    pure (codes "~tmp-" ++ (current.runtime_id ++ (codes "-" ++ names.random)))

  -- The temporary file, written and flushed; the result is its identity.
  unfoldable pub write_temporary : Bytes → Sid → Action ObjectInfo
  write_temporary input sid = do
    lease ← get_lease
    require (usable lease.temporary) unavailable
    temp ← observe env lease.temporary
    require (in_directory temp sid lease) unavailable
    perform env (write_file lease.temporary input)
    perform env (flush_file lease.temporary)
    pure temp

  -- A close of the target that fails is not retried, and the rename is not attempted.
  unfoldable pub close_target : Action (Unit {0})
  close_target = do
    lease ← get_lease
    (if not_null lease.target then set_stage target_close else pure tt)
    closed ← close_if env not_null close target_place
    change_lease (quarantine_unless closed)
    require closed unavailable

  abbrev pub replace_call : Lease → Call
  replace_call l =
      if l.kind == 3
      then replace_file l.temporary (directory l).handle (not l.missing)
      else credential_replace l.temporary (directory l).handle l.kind (not l.missing)

  -- Every failure behind the rename leaves the outcome unknown.
  abbrev pub or_unknown {ℓ} : {A : Type ℓ} → Result A → Action (Unit {0})
  or_unknown (done a) = pure tt
  or_unknown (raised (failed s)) = fail commit_unknown
  or_unknown (raised bad_alloc) = raise bad_alloc
  or_unknown (raised exception) = raise exception

  -- The rename itself.
  unfoldable pub publish : Action (Unit {0})
  publish = do
    change_locals (λ v. record v { replacing = true })
    set_stage rename
    lease ← get_lease
    renamed ← attempt (perform env (replace_call lease))
    or_unknown renamed

  -- The published name is closed, reopened and compared.
  unfoldable pub validate_published : ObjectInfo → Action (Unit {0})
  validate_published temp = do
    set_stage published_close
    closed ← close_if env (λ h. true) close temporary_place
    change_lease (quarantine_unless closed)
    require closed commit_unknown
    set_stage published_validate
    change_lease (λ l. record l { missing = false; target_identity = temp })
    validated ← attempt (do sid ← check env; target_current env sid)
    or_unknown validated

  -- The try block of `commit`.
  unfoldable pub commit_try : Bytes → Action (Unit {0})
  commit_try input = do
    set_stage prepare
    first ← check env
    target_current env first
    name ← temporary_name
    sid ← check env
    lease ← get_lease
    outcome ← open_at env temporary_place (temporary_create (directory lease).handle name sid)
    settle outcome
    temp ← write_temporary input sid
    last ← check env
    target_current env last
    held ← get_lease
    current ← observe env held.temporary
    require (object_valid current last false true true && same current temp) unavailable
    close_target
    publish
    validate_published temp
