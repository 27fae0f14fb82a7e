-- ===== src/Transactions/Begun.antt =====
-- windows/external_native/association_files.cpp, `begin`: what the store holds, and a ticket for a commit.
use shiroha_quiz.Base.{
  ℕ, Bool, true, false, not, ◌&&◌, ◌||◌, Option, none, some, ltb, leb, ◌==◌, if◌then◌else◌,
  is_empty, length,
}
use shiroha_quiz.Status.{
  Status, ok, invalid_input, abi_mismatch, resource_limit, unavailable, data_corrupt, missing,
  abi_version, app, bridge, int64_max, max_bytes,
}
use shiroha_quiz.Memory.{span, count, overlap, clear, copy, store}
use shiroha_quiz.Objects.{Sid}
use shiroha_quiz.Machine.{
  usable, is_null, inspect, read_file, Outcome, returned, Environment, Lease, Observation,
  no_observation, Result, done, raised, Action, pure, fail, ◌>>=◌, ◌>>◌, require, get_lease,
  change_lease, change_locals, change_memory, settle, attempt, raised_status, ask,
}
use shiroha_quiz.Leases.{check, finish, target_current, open_target, target_place, has_all_pins}
use shiroha_quiz.Owners.{World, find, run_with}
use shiroha_quiz.Transactions.Shared.{observation_of, in_directory, take_ticket}

module _ (env : Environment) where
  -- `begin` behind the opening call where the store exists: its bytes go to the caller.
  unfoldable pub begin_present : ℕ → ℕ → ℕ → Sid → Action Status
  begin_present output capacity written sid = do
    lease ← get_lease
    require (usable lease.target) unavailable
    answer ← ask env (inspect lease.target)
    change_lease (λ l. record l { target_identity = answer.info })
    settle answer.outcome
    require (in_directory answer.info sid lease) unavailable
    content ← ask env (read_file lease.target)
    settle content.outcome
    require (not (is_empty content.bytes) && leb (length content.bytes) max_bytes) data_corrupt
    require (leb (length content.bytes) capacity) resource_limit
    change_memory (λ m. store written (length content.bytes) (copy output content.bytes m))
    pure ok

  unfoldable pub begin_opened : ℕ → ℕ → ℕ → Sid → Outcome → Action Status
  begin_opened output capacity written sid (returned missing) = do
    change_lease (λ l. record l { missing = true })
    lease ← get_lease
    require (is_null lease.target) unavailable
    pure missing
  begin_opened output capacity written sid (returned ok) = do
    change_lease (λ l. record l { missing = false })
    begin_present output capacity written sid
  begin_opened output capacity written sid (returned s) = do
    change_lease (λ l. record l { missing = false })
    fail s
  begin_opened output capacity written sid outcome = do settle outcome; fail unavailable

  -- The try block of `begin`; its status is `ok` or `missing`.
  unfoldable pub begin_try : ℕ → ℕ → ℕ → ℕ → Action Status
  begin_try output capacity written ticket = do
    sid ← check env
    lease ← get_lease
    require (has_all_pins lease) unavailable
    outcome ← open_target env target_place sid
    original ← begin_opened output capacity written sid outcome
    sid ← check env
    target_current env sid
    current ← get_lease
    change_locals (λ v. record v { observation = observation_of current })
    issued ← take_ticket
    change_lease (λ l. record l { ticket = issued })
    change_memory (store ticket issued)
    pure original

  unfoldable pub begin_failed : ℕ → ℕ → ℕ → Status → Action Status
  begin_failed output capacity written status = do
    finished ← finish env
    change_memory (λ m. store written 0 (clear output capacity m))
    pure (if finished then status else unavailable)

  unfoldable pub begin_settle : ℕ → ℕ → ℕ → Result Status → Action Status
  begin_settle output capacity written (done original) = pure original
  begin_settle output capacity written (raised r) =
      begin_failed output capacity written (raised_status r)

  unfoldable pub begin_lease : ℕ → ℕ → ℕ → ℕ → ℕ → Action Status
  begin_lease kind output capacity written ticket = do
    change_lease (λ l. record l { kind = kind })
    result ← attempt (begin_try output capacity written ticket)
    begin_settle output capacity written result

  abbrev pub kind_allowed : ℕ → Lease → Bool
  kind_allowed kind l =
      (kind == 1 || (kind == 2 || (kind == 3 || kind == 4)))
      && l.role == (if kind == 4 then bridge else app)

  unfoldable pub begin_found :
      ℕ → ℕ → ℕ → ℕ → ℕ → Option (ℕ × Lease) → World → Status × Observation × World
  begin_found kind output capacity written ticket none w = (invalid_input, no_observation, w)
  begin_found kind output capacity written ticket (some (slot, l)) w =
      if not (kind_allowed kind l)
      then (if kind == 3 then unavailable else invalid_input, no_observation, w)
      else if not (l.ticket == 0) || ltb int64_max w.next_ticket
      then (resource_limit, no_observation, w)
      else (let (s, v, w') = run_with (begin_lease kind output capacity written ticket) slot l w in
          (s, v.observation, w'))

  unfoldable pub begin : ℕ → ℕ → ℕ → ℕ → ℕ → ℕ → ℕ → World → Status × Observation × World
  begin version owner kind output capacity written ticket w =
      if not (span output capacity)
        || (not (count written)
            || (not (count ticket)
                || (overlap output capacity written 8
                    || (overlap output capacity ticket 8 || overlap written 8 ticket 8))))
      then (invalid_input, no_observation, w)
      else (let cleared : World = record w {
        memory = store ticket 0 (store written 0 (clear output capacity w.memory));
      } in
          if not (version == abi_version)
          then (abi_mismatch, no_observation, cleared)
          else begin_found kind output capacity written ticket (find owner cleared.owners) cleared)
