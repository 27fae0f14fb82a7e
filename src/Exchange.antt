-- ===== src/Exchange.antt =====
-- The exchange directory: windows/external_native/exchange_files.cpp. Kinds are 1 (submission),
-- 2 (challenge) and 3 (proof); a receipt is a creator's pin, a read ticket a reader's.
mod Files
mod Directory
mod Attempts
mod Settling
pub mod Steps
pub mod Naming
pub mod Balance
unfoldable pub use Files.*
unfoldable pub use Directory.*
unfoldable pub use Attempts.*
unfoldable pub use Settling.*
use shiroha_quiz.Base.{
  ℕ, zero, suc, ◌+◌, ◌/◌, ◌%◌, Bool, true, false, not, ◌&&◌, ◌||◌, Option, none, some, List, [],
  ◌∷◌, ◌++◌, ltb, leb, ◌==◌, if◌then◌else◌, is_empty, length, codes, Bytes, bytes_eq, take, drop,
  get_or, replicate,
}
use shiroha_quiz.Status.{
  Status, ok, is_ok, invalid_input, abi_mismatch, resource_limit, unavailable, data_corrupt,
  commit_unknown, app, bridge, int64_max,
}
use shiroha_quiz.Memory.{
  Memory, span, count, overlap, clear, copy, store, read, load, little_endian,
}
use shiroha_quiz.Objects.{Sid, ObjectInfo, no_info, object_valid}
use shiroha_quiz.Machine.{
  Handle, null, usable, is_null, not_null, Call, child, close, inspect, write_file, flush_file,
  exchange_lock, exchange_unlock, exchange_count, exchange_open, exchange_nonce, exchange_delete,
  Environment, Pin, no_pin, ExchangeReceipt, ExchangeRead, Lease, Context, Locals, Raised, failed,
  bad_alloc, exception, Result, done, raised, Action, pure, raise, fail, ◌>>=◌, ◌>>◌, require,
  get_lease, get_locals, change_lease, change_locals, change_memory, settle, attempt, status_of,
  Place, held_at, ask, perform, observe, open_at, close_if,
}
use shiroha_quiz.Machine
use shiroha_quiz.Leases.{
  check, exchange_place, quarantine_unless, same, read_at, receipt_at, set_read, set_receipt,
  read_place, receipt_place, pin_read,
}
use shiroha_quiz.Owners.{World, find, run_in}
use shiroha_quiz.Transactions.{take_ticket}

module _ (env : Environment) where
  pub exchange_lease : ℕ → Bytes → Bytes → ℕ → ℕ → ℕ → ℕ → ℕ → Bool → ℕ → Action Status
  exchange_lease kind id input output capacity written receipt ticket create slot = do
    result ← attempt (exchange_try env kind id input capacity create (not (ticket == 0)))
    released ← release_file env
    exchange_done env kind (filename kind id) output written receipt ticket create slot result
        (if released then status_of result else unavailable)

  -- Who may write a kind: the app the challenges, the bridge the rest.
  abbrev pub writer : ℕ → ℕ
  writer kind = if kind == 2 then app else bridge

  abbrev pub role_allowed : ℕ → Bool → Lease → Bool
  role_allowed kind create l = if create then l.role == writer kind else not (l.role == writer kind)

  -- The slot for the pin that the operation keeps, if it keeps one.
  abbrev pub pin_slot : Bool → ℕ → Lease → Option ℕ
  pin_slot create ticket l =
      if create
      then free_receipt_from 0 l.exchange_receipts
      else if not (ticket == 0)
      then free_read_from 0 l.exchange_reads
      else some 0

  pub exchange_slot :
      ℕ → Bytes → Bytes → ℕ → ℕ → ℕ → ℕ → ℕ → Bool → Option ℕ → ℕ → Lease → World → Status × World
  exchange_slot kind id input output capacity written receipt ticket create none owner_slot l w =
      (resource_limit, w)
  exchange_slot kind id input output capacity written receipt ticket create (some i) owner_slot l
        w =
      if (create || not (ticket == 0)) && ltb int64_max w.next_ticket
      then (resource_limit, w)
      else run_in (exchange_lease kind id input output capacity written receipt ticket create i)
          owner_slot l w

  pub exchange_found :
      ℕ → Bytes → Bytes → ℕ → ℕ → ℕ → ℕ → ℕ → Bool → Option (ℕ × Lease) → World → Status × World
  exchange_found kind id input output capacity written receipt ticket create none w =
      (invalid_input, w)
  exchange_found kind id input output capacity written receipt ticket create (some (slot, l)) w =
      if not (role_allowed kind create l)
      then (invalid_input, w)
      else exchange_slot kind id input output capacity written receipt ticket create
          (pin_slot create ticket l) slot l w

  pub exchange_operation : ℕ → ℕ → Bytes → Bytes → ℕ → ℕ → ℕ → ℕ → ℕ → Bool → World → Status × World
  exchange_operation owner kind id input output capacity written receipt ticket create w =
      exchange_found kind id input output capacity written receipt ticket create
        (find owner w.owners) w

  pub create : ℕ → ℕ → ℕ → ℕ → ℕ → ℕ → ℕ → World → Status × World
  create version owner kind id input length receipt w =
      if not (span id 16)
        || (not (span input length)
            || (not (count receipt)
                || (overlap id 16 input length
                    || (overlap id 16 receipt 8 || overlap input length receipt 8))))
      then (invalid_input, w)
      else (let cleared : World = record w { memory = store receipt 0 w.memory } in
          let name = read id 16 cleared.memory in
          let content = read input length cleared.memory in
          if not (version == 3)
          then (abi_mismatch, cleared)
          else if cap kind == 0 || not (header kind name content)
          then (invalid_input, cleared)
          else exchange_operation owner kind name content 0 0 0 receipt 0 true cleared)

  pub read_file : ℕ → ℕ → ℕ → ℕ → ℕ → ℕ → ℕ → World → Status × World
  read_file version owner kind id output capacity written w =
      if not (span id 16)
        || (not (span output capacity)
            || (not (count written)
                || (overlap id 16 output capacity
                    || (overlap id 16 written 8 || overlap output capacity written 8))))
      then (invalid_input, w)
      else (let cleared : World = record w {
        memory = store written 0 (clear output capacity w.memory);
      } in
          if not (version == 3)
          then (abi_mismatch, cleared)
          else if cap kind == 0 || not (capacity == cap kind)
          then (invalid_input, cleared)
          else exchange_operation owner kind (read id 16 cleared.memory) [] output capacity written
              0 0 false cleared)

  pub read_begin : ℕ → ℕ → ℕ → ℕ → ℕ → ℕ → ℕ → ℕ → World → Status × World
  read_begin version owner kind id output capacity written ticket w =
      if not (span id 16)
        || (not (span output capacity)
            || (not (count written)
                || (not (span ticket 24)
                    || (not (ticket % 8 == 0)
                        || (overlap id 16 output capacity
                            || (overlap id 16 written 8
                                || (overlap id 16 ticket 24
                                    || (overlap output capacity written 8
                                        || (overlap output capacity ticket 24
                                            || overlap written 8 ticket 24)))))))))
      then (invalid_input, w)
      else (let cleared : World = record w {
        memory = clear ticket 24 (store written 0 (clear output capacity w.memory));
      } in
          if not (version == 3)
          then (abi_mismatch, cleared)
          else if cap kind == 0 || not (capacity == cap kind)
          then (invalid_input, cleared)
          else exchange_operation owner kind (read id 16 cleared.memory) [] output capacity written
              0 ticket false cleared)
