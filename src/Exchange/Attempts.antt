-- ===== src/Exchange/Attempts.antt =====
-- windows/external_native/exchange_files.cpp, `exchange_operation` behind its checks: the attempt, and what it
-- keeps in the lease.
use shiroha_quiz.Base.{
  ℕ, ◌+◌, Bool, true, false, not, ◌&&◌, ◌||◌, ◌++◌, ◌==◌, if◌then◌else◌, length, Bytes, take,
  replicate,
}
use shiroha_quiz.Status.{Status, ok, is_ok, unavailable}
use shiroha_quiz.Memory.{copy, store}
use shiroha_quiz.Objects.{Sid, ObjectInfo, object_valid}
use shiroha_quiz.Machine.{
  null, usable, close, exchange_unlock, exchange_nonce, Environment, Result, done, raised, Action,
  pure, ◌>>=◌, ◌>>◌, require, get_lease, get_locals, change_lease, change_memory, settle, ask,
  observe, close_if,
}
use shiroha_quiz.Leases.{quarantine_unless, set_read, set_receipt}
use shiroha_quiz.Transactions.{take_ticket}
use shiroha_quiz.Exchange.Files.{filename, file_place, lock_place, pin_place, file_current}
use shiroha_quiz.Exchange.Directory.{
  exchange_directory, lock_exchange, count_entries, open_exchange, exchange_content,
}

module _ (env : Environment) where
  -- An independent identity pin, taken before the file is closed.
  unfoldable pub pin_file : Bytes → Sid → ObjectInfo → Action (Unit {0})
  pin_file name sid identity = do
    pin ← open_exchange env pin_place name 2 sid
    pinned ← observe env pin
    require (file_current pinned sid identity) unavailable

  unfoldable pub pin_kept : Bool → Bytes → Sid → ObjectInfo → Action (Unit {0})
  pin_kept kept name sid identity = if kept then pin_file name sid identity else pure tt

  unfoldable pub recheck_directory : Bool → Action (Unit {0})
  recheck_directory ticket = if ticket then (do last ← exchange_directory env; pure tt) else pure tt

  -- The 16 bytes of the array that the call fills.
  unfoldable pub fresh_nonce : Bool → Action Bytes
  fresh_nonce ticket =
      if ticket
      then (do
        answer ← ask env exchange_nonce
        settle answer.outcome
        pure (take 16 (answer.bytes ++ replicate 16 0)))
      else pure (replicate 16 0)

  -- The try block of `exchange_operation`; the result is the nonce and the identity of the file.
  unfoldable pub exchange_try : ℕ → Bytes → Bytes → ℕ → Bool → Bool → Action (Bytes × ObjectInfo)
  exchange_try kind id input capacity create ticket = do
    nonce ← fresh_nonce ticket
    locked ← lock_exchange env
    sid ← exchange_directory env
    count_entries env create
    file ← open_exchange env file_place (filename kind id) (if create then 0 else 1) sid
    identity ← observe env file
    lease ← get_lease
    require
        (object_valid identity sid false true true
          && identity.volume == lease.exchange.identity.volume)
        unavailable
    exchange_content env kind id input capacity create file
    after ← observe env file
    require (file_current after sid identity) unavailable
    sid ← exchange_directory env
    pin_kept (create || ticket) (filename kind id) sid identity
    recheck_directory ticket
    pure (nonce, identity)

  -- The file and the lock are released on every path.
  unfoldable pub release_file : Action Bool
  release_file = do
    file ← close_if env usable close file_place
    lock ← close_if env usable exchange_unlock lock_place
    change_lease (quarantine_unless (file && lock))
    pure (file && lock)

  -- The pin moves from the local variable to the receipt in slot `i`.
  unfoldable pub keep_receipt : ℕ → Bytes → ObjectInfo → ℕ → Action (Unit {0})
  keep_receipt i name identity token c = (
    done tt,
    record c {
      lease =
          set_receipt i
            (record { token = token; pin = c.locals.pin; identity = identity; name = name })
            c.lease;
      locals = record (c.locals) { pin = null };
    },
  )

  unfoldable pub keep_read : ℕ → Bytes → ObjectInfo → ℕ → Bytes → ℕ → Action (Unit {0})
  keep_read i name identity token nonce kind c = (
    done tt,
    record c {
      lease =
          set_read i
            (record {
              receipt = record {
                token = token;
                pin = c.locals.pin;
                identity = identity;
                name = name;
              };
              nonce = nonce;
              bytes = c.locals.bytes;
              kind = kind;
            })
            c.lease;
      locals = record (c.locals) { pin = null };
    },
  )

  -- A pin that is not kept.
  unfoldable pub drop_pin : Status → Action Status
  drop_pin status = do
    closed ← close_if env usable close pin_place
    change_lease (quarantine_unless closed)
    pure (if closed then status else unavailable)

  -- `exchange_operation` behind its try block. `receipt` and `ticket` are addresses, 0 for null.
  unfoldable pub exchange_done :
      ℕ → Bytes → ℕ → ℕ → ℕ → ℕ → Bool → ℕ → Result (Bytes × ObjectInfo) → Status → Action Status
  exchange_done kind name output written receipt ticket create slot (raised r) status =
      drop_pin status
  exchange_done kind name output written receipt ticket create slot (done (nonce, identity))
        status =
      if not (is_ok status)
      then drop_pin status
      else if create
      then (do
        token ← take_ticket
        keep_receipt slot name identity token
        change_memory (store receipt token)
        pure ok)
      else if not (ticket == 0)
      then (do
        token ← take_ticket
        locals ← get_locals
        keep_read slot name identity token nonce kind
        change_memory (λ m.
            copy (ticket + 8) nonce (
              store ticket token
                (store written (length locals.bytes) (copy output locals.bytes m))))
        pure ok)
      else (do
        final ← drop_pin ok
        locals ← get_locals
        (if is_ok final
            then change_memory
                (λ m. store written (length locals.bytes) (copy output locals.bytes m))
            else pure tt)
        pure final)
