-- ===== src/Exchange/Settling.antt =====
-- windows/external_native/exchange_files.cpp, `exchange_settle` and `exchange_cleanup`: the ends of a ticket and
-- of a receipt.
use shiroha_quiz.Base.{
  ℕ, ◌+◌, ◌%◌, Bool, true, false, not, ◌&&◌, ◌||◌, Option, none, some, [], ◌==◌, if◌then◌else◌,
  Bytes, bytes_eq, replicate,
}
use shiroha_quiz.Status.{
  Status, ok, invalid_input, abi_mismatch, unavailable, data_corrupt, commit_unknown,
}
use shiroha_quiz.Memory.{span, read, load}
use shiroha_quiz.Objects.{Sid, ObjectInfo}
use shiroha_quiz.Machine.{
  Handle, usable, not_null, close, exchange_unlock, exchange_delete, Environment, ExchangeReceipt,
  ExchangeRead, Lease, failed, bad_alloc, exception, Result, done, raised, Action, pure, ◌>>=◌,
  ◌>>◌, require, get_lease, get_locals, change_lease, change_locals, attempt, perform, observe,
  close_if,
}
use shiroha_quiz.Leases.{
  quarantine_unless, read_at, receipt_at, set_read, set_receipt, read_place, receipt_place,
}
use shiroha_quiz.Owners.{World, find, run_in}
use shiroha_quiz.Exchange.Files.{
  cap, file_place, lock_place, file_current, receipt_from, read_from, nonce_matches,
}
use shiroha_quiz.Exchange.Directory.{
  exchange_directory, lock_exchange, count_entries, open_exchange, read_content,
}

module _ (env : Environment) where
  -- The pin of a slot is still the object that was identified.
  unfoldable pub inspect_pinned : Handle → Sid → ObjectInfo → Action (Unit {0})
  inspect_pinned pin sid identity = do
    held ← observe env pin
    require (file_current held sid identity) unavailable

  -- The try block of `exchange_settle` where the ticket is consumed. `replacing` is
  -- `deletion_entered`.
  unfoldable pub consume_try : ExchangeRead → Action (Unit {0})
  consume_try slot = do
    locked ← lock_exchange env
    sid ← exchange_directory env
    count_entries env false
    inspect_pinned slot.pin sid slot.identity
    file ← open_exchange env file_place slot.name 4 sid
    inspect_pinned file sid slot.identity
    bytes ← read_content env file (cap slot.kind)
    require (bytes_eq bytes slot.bytes) data_corrupt
    inspect_pinned file sid slot.identity
    inspect_pinned slot.pin sid slot.identity
    last ← exchange_directory env
    change_locals (λ v. record v { replacing = true })
    perform env (exchange_delete file)

  -- `catch (...)`, also of an allocation failure.
  abbrev pub settle_status : Bool → Result (Unit {0}) → Status
  settle_status entered (done u) = ok
  settle_status entered (raised (failed s)) = s
  settle_status entered (raised bad_alloc) = if entered then commit_unknown else unavailable
  settle_status entered (raised exception) = if entered then commit_unknown else unavailable

  abbrev pub is_unknown : Status → Bool
  is_unknown commit_unknown = true
  is_unknown s = false

  unfoldable pub close_settled : ℕ → Action Bool
  close_settled i = do
    file ← close_if env usable close file_place
    pin ← close_if env not_null close (read_place i)
    change_lease (λ l. set_read i (record (read_at i l) { bytes = [] }) l)
    lock ← close_if env usable exchange_unlock lock_place
    change_lease (quarantine_unless (file && (pin && lock)))
    pure (file && (pin && lock))

  -- The ticket is retired before any attempt.
  abbrev pub retire_ticket : ExchangeRead → ExchangeRead
  retire_ticket r = record r { receipt = record (r.receipt) { token = 0 }; nonce = replicate 16 0 }

  unfoldable pub settle_lease : Bool → ℕ → Action Status
  settle_lease consume i = do
    change_lease (λ l. set_read i (retire_ticket (read_at i l)) l)
    lease ← get_lease
    result ← attempt (if consume then consume_try (read_at i lease) else pure tt)
    locals ← get_locals
    closed ← close_settled i
    let late = if locals.replacing then commit_unknown else unavailable
    let status = if closed then settle_status locals.replacing result else late
    (if is_unknown status then change_lease (λ l. record l { denied = true }) else pure tt)
    pure status

  unfoldable pub settle_slot : Bool → Bytes → Option ℕ → ℕ → Lease → World → Status × World
  settle_slot consume nonce none slot l w = (invalid_input, w)
  settle_slot consume nonce (some i) slot l w =
      if not (nonce_matches (read_at i l).nonce nonce)
      then (invalid_input, w)
      else run_in (settle_lease consume i) slot l w

  unfoldable pub settle_found : Bool → ℕ → Bytes → Option (ℕ × Lease) → World → Status × World
  settle_found consume serial nonce none w = (invalid_input, w)
  settle_found consume serial nonce (some (slot, l)) w =
      if serial == 0
      then (invalid_input, w)
      else if l.quarantined
      then (unavailable, w)
      else settle_slot consume nonce (read_from 0 serial l.exchange_reads) slot l w

  unfoldable pub exchange_settle : ℕ → ℕ → ℕ → Bool → World → Status × World
  exchange_settle version owner ticket consume w =
      if not (span ticket 24) || not (ticket % 8 == 0)
      then (invalid_input, w)
      else if not (version == 3)
      then (abi_mismatch, w)
      else settle_found consume (load ticket w.memory) (read (ticket + 8) 16 w.memory)
          (find owner w.owners) w

  unfoldable pub consume : ℕ → ℕ → ℕ → World → Status × World
  consume version owner ticket w = exchange_settle version owner ticket true w

  unfoldable pub release_read : ℕ → ℕ → ℕ → World → Status × World
  release_read version owner ticket w = exchange_settle version owner ticket false w

  -- The try block of `exchange_cleanup`.
  unfoldable pub cleanup_try : ExchangeReceipt → Action (Unit {0})
  cleanup_try slot = do
    sid ← lock_exchange env
    inspect_pinned slot.pin sid slot.identity
    file ← open_exchange env file_place slot.name 3 sid
    inspect_pinned file sid slot.identity
    last ← exchange_directory env
    perform env (exchange_delete file)

  unfoldable pub close_cleaned : ℕ → Action Bool
  close_cleaned i = do
    file ← close_if env usable close file_place
    pin ← close_if env not_null close (receipt_place i)
    lock ← close_if env usable exchange_unlock lock_place
    change_lease (quarantine_unless (file && (pin && lock)))
    pure (file && (pin && lock))

  -- One attempt, whatever comes of it.
  unfoldable pub cleanup_lease : ℕ → Action Status
  cleanup_lease i = do
    change_lease (λ l. set_receipt i (record (receipt_at i l) { token = 0 }) l)
    lease ← get_lease
    result ← attempt (cleanup_try (receipt_at i lease))
    closed ← close_cleaned i
    pure (if closed then settle_status false result else unavailable)

  unfoldable pub cleanup_slot : Option ℕ → ℕ → Lease → World → Status × World
  cleanup_slot none slot l w = (invalid_input, w)
  cleanup_slot (some i) slot l w = run_in (cleanup_lease i) slot l w

  unfoldable pub cleanup_found : ℕ → Option (ℕ × Lease) → World → Status × World
  cleanup_found receipt none w = (invalid_input, w)
  cleanup_found receipt (some (slot, l)) w =
      if receipt == 0
      then (invalid_input, w)
      else cleanup_slot (receipt_from 0 receipt l.exchange_receipts) slot l w

  unfoldable pub cleanup : ℕ → ℕ → ℕ → World → Status × World
  cleanup version owner receipt w =
      if not (version == 3)
      then (abi_mismatch, w)
      else cleanup_found receipt (find owner w.owners) w
