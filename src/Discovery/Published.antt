-- ===== src/Discovery/Published.antt =====
-- windows/external_native/discovery_files.cpp, the publication of a file: a scratch file is written, and renamed
-- where the name is still what it was.
use shiroha_quiz.Base.{
  ℕ, Bool, true, false, ◌&&◌, ◌++◌, ltb, ◌==◌, if◌then◌else◌, is_empty, codes, Bytes,
}
use shiroha_quiz.Status.{resource_limit, unavailable, missing}
use shiroha_quiz.Objects.{Sid, ObjectInfo}
use shiroha_quiz.Machine.{
  is_null, temporary_count, random_name, temporary_create, write_file, flush_file,
  discovery_replace, Outcome, returned, Environment, Action, pure, fail, ◌>>=◌, ◌>>◌, require,
  get_lease, change_lease, change_locals, settle, attempt, held_at, ask, perform, open_at,
}
use shiroha_quiz.Leases.{observed_place}
use shiroha_quiz.Transactions.{hex}
use shiroha_quiz.Exchange.{file_place}
use shiroha_quiz.Discovery.Shared.{scratch_place, Found, rethrow, settle_closed, present, absent}
use shiroha_quiz.Discovery.Directory.{
  discovery_directory, close_local, inspect_file, open_discovery, inspect_same,
}

module _ (env : Environment) where
  -- The temporary file, written and flushed.
  unfoldable pub write_scratch : Bytes → Action ObjectInfo
  write_scratch input = do
    sid ← discovery_directory env
    lease ← get_lease
    leftovers ← ask env (temporary_count lease.discovery.handle)
    settle leftovers.outcome
    require (ltb leftovers.number 32) resource_limit
    names ← ask env random_name
    settle names.outcome
    require (hex names.runtime 16 && hex names.random 8) unavailable
    change_lease (λ l. record l {
      runtime_id = if is_empty l.runtime_id then names.runtime else l.runtime_id;
    })
    named ← get_lease
    outcome ← open_at env scratch_place (
        temporary_create named.discovery.handle
          (codes "~tmp-" ++ (named.runtime_id ++ (codes "-" ++ names.random))) sid)
    settle outcome
    temp ← inspect_file env sid scratch_place
    scratch ← held_at scratch_place
    perform env (write_file scratch input)
    perform env (flush_file scratch)
    inspect_same env sid scratch_place temp
    pure temp

  -- The name right before the rename: still missing, or still the same file.
  unfoldable pub recheck_absent : Outcome → Action (Unit {0})
  recheck_absent (returned missing) = do
    observed ← held_at observed_place
    require (is_null observed) unavailable
  recheck_absent (returned s) = fail unavailable
  recheck_absent outcome = settle outcome

  unfoldable pub recheck_name : Found → ℕ → Sid → Action (Unit {0})
  recheck_name absent kind sid = do
    outcome ← open_discovery env observed_place kind
    recheck_absent outcome
  recheck_name (present identity) kind sid = do
    outcome ← open_discovery env observed_place kind
    settle outcome
    inspect_same env sid observed_place identity

  unfoldable pub prepare_rename : Found → ℕ → Bytes → Action (ObjectInfo × Sid)
  prepare_rename found kind input = do
    temp ← write_scratch input
    sid ← discovery_directory env
    recheck_name found kind sid
    pure (temp, sid)

  unfoldable pub close_file : Bool → Action Bool
  close_file closed = if closed then close_local env file_place else pure false

  abbrev pub replaces : Found → Bool
  replaces absent = false
  replaces (present identity) = true

  unfoldable pub rename_scratch : Found → ℕ → Action (Unit {0})
  rename_scratch found kind = do
    change_locals (λ v. record v { replacing = true })
    scratch ← held_at scratch_place
    lease ← get_lease
    perform env (discovery_replace scratch lease.discovery.handle kind (replaces found))

  -- Prepare, close the target, rename, close the temporary file, and compare the published name.
  unfoldable pub publish_file : Found → ℕ → Bytes → Action (Unit {0})
  publish_file found kind input = do
    tried ← attempt (prepare_rename found kind input)
    prepared ← rethrow tried
    observed_closed ← close_local env observed_place
    target_closed ← close_file observed_closed
    renaming ← attempt (do
      (temp, sid) ← settle_closed target_closed prepared
      rename_scratch found kind
      pure (temp, sid))
    renamed ← rethrow renaming
    scratch_closed ← close_local env scratch_place
    (temp, sid) ← settle_closed scratch_closed renamed
    outcome ← open_discovery env file_place kind
    settle outcome
    inspect_same env sid file_place temp

  unfoldable pub publish_found : Found → ℕ → Bytes → Bool → Action (Unit {0})
  publish_found absent kind input publish =
      if publish then publish_file absent kind input else fail missing
  publish_found (present identity) kind input publish =
      if publish && kind == 1 then publish_file (present identity) kind input else pure tt
