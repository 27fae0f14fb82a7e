-- ===== src/Exchange/Directory.antt =====
-- windows/external_native/exchange_files.cpp, the exchange directory and its lock, and files opened and read
-- in it.
use shiroha_quiz.Base.{
  ℕ, Bool, true, false, not, ◌&&◌, ◌||◌, ltb, leb, ◌==◌, if◌then◌else◌, length, codes, Bytes,
}
use shiroha_quiz.Status.{unavailable, data_corrupt}
use shiroha_quiz.Objects.{Sid}
use shiroha_quiz.Machine.{
  Handle, null, usable, is_null, not_null, Call, child, close, inspect, write_file, flush_file,
  exchange_lock, exchange_unlock, exchange_count, exchange_open, exchange_nonce, exchange_delete,
  Environment, Pin, no_pin, ExchangeReceipt, ExchangeRead, Lease, Context, Locals, Raised, failed,
  bad_alloc, exception, Result, done, raised, Action, pure, raise, fail, ◌>>=◌, ◌>>◌, require,
  get_lease, get_locals, change_lease, change_locals, change_memory, settle, attempt, status_of,
  Place, held_at, ask, perform, observe, open_at, close_if,
}
use shiroha_quiz.Machine
use shiroha_quiz.Leases.{check, exchange_place}
use shiroha_quiz.Exchange.Files.{deny_failed, cap, header, lock_place, pin_at, directory_current}

module _ (env : Environment) where
  -- The app created the directory; the bridge never creates or repairs it.
  unfoldable pub pin_exchange : Sid → Action (Unit {0})
  pin_exchange sid = do
    lease ← get_lease
    outcome ←
        open_at env exchange_place (child (pin_at 2 lease).handle (codes "exchange") true false sid)
    settle outcome
    held ← get_lease
    require (usable held.exchange.handle) unavailable
    answer ← ask env (inspect held.exchange.handle)
    change_lease (λ l. record l { exchange = record (l.exchange) { identity = answer.info } })
    settle answer.outcome

  unfoldable pub inspect_exchange : Sid → Action (Unit {0})
  inspect_exchange sid = do
    lease ← get_lease
    current ← observe env lease.exchange.handle
    require (directory_current 8 lease.exchange sid lease current) unavailable

  unfoldable pub exchange_directory : Action Sid
  exchange_directory = do
    sid ← check env
    lease ← get_lease
    (if is_null lease.exchange.handle then pin_exchange sid else pure tt)
    result ← attempt (inspect_exchange sid)
    deny_failed result
    pure sid

  -- The cross-process lock, and the directory once more.
  unfoldable pub lock_exchange : Action Sid
  lock_exchange = do
    sid ← exchange_directory
    lease ← get_lease
    outcome ← open_at env lock_place (exchange_lock lease.exchange.identity sid)
    settle outcome
    locals ← get_locals
    require (usable locals.lock) unavailable
    pure sid

  -- At most 32 entries, and room for one more where a file is created.
  unfoldable pub count_entries : Bool → Action (Unit {0})
  count_entries create = do
    lease ← get_lease
    answer ← ask env (exchange_count lease.exchange.handle)
    settle answer.outcome
    require (not (ltb 32 answer.number || create && answer.number == 32)) unavailable

  unfoldable pub open_exchange : Place → Bytes → ℕ → Sid → Action Handle
  open_exchange place name mode sid = do
    lease ← get_lease
    outcome ← open_at env place (exchange_open lease.exchange.handle name mode sid)
    settle outcome
    handle ← held_at place
    require (usable handle) unavailable
    pure handle

  unfoldable pub read_content : Handle → ℕ → Action Bytes
  read_content file limit = do
    answer ← ask env (Machine.exchange_read file limit)
    change_locals (λ v. record v { bytes = answer.bytes })
    settle answer.outcome
    pure answer.bytes

  unfoldable pub exchange_content : ℕ → Bytes → Bytes → ℕ → Bool → Handle → Action (Unit {0})
  exchange_content kind id input capacity create file =
      if create
      then (do perform env (write_file file input); perform env (flush_file file))
      else (do
        bytes ← read_content file (cap kind)
        require (header kind id bytes && leb (length bytes) capacity) data_corrupt)
