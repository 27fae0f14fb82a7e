-- ===== src/Leases.antt =====
-- The steps that the operations on one owner share: `add`, `inspect_pins` and `release` of
-- windows/external_native/protected_objects.cpp, `check`, `finish` and `target_current` of
-- association_files.cpp.
pub mod Accounts
pub mod Stable
pub mod Covered
pub mod Steps
pub mod Release
pub mod Growth
pub mod Marked
pub mod Errors
pub mod Progress
mod Places
unfoldable pub use Places.*
use shiroha_quiz.Base.{
  ℕ, zero, suc, ◌+◌, Bool, true, false, not, ◌&&◌, ◌||◌, List, [], ◌∷◌, ◌++◌, ◌==◌, if◌then◌else◌,
  Bytes, map, replicate, length, get_or, set, reverse,
}
use shiroha_quiz.Status.{Status, is_ok, ok, unavailable, invalid_input, missing, app}
use shiroha_quiz.Objects.{Sid, ObjectInfo, no_info, object_valid, is_directory, safe_component}
use shiroha_quiz.Machine.{
  Handle, null, usable, is_null, Call, child, close, association_open, credential_open, Outcome,
  returned, Environment, Pin, no_pin, no_read, no_receipt, not_null, ask, Answer, inspect,
  ExchangeReceipt, ExchangeRead, Lease, Locals, Context, History, Raised, failed, bad_alloc,
  exception, Result, done, raised, Action, pure, raise, fail, ◌>>=◌, ◌>>◌, require, get_lease,
  get_locals, Event, change_lease, change_locals, settle, attempt, Place, observe, current_sid,
  open_at, close_if,
}

module _ (env : Environment) where
  unfoldable pub inspect_each : Sid → List Pin → Action (Unit {0})
  inspect_each sid [] = pure tt
  inspect_each sid (pin ∷ pins) = do
    current ← observe env pin.handle
    require (pin_current pin sid current) unavailable
    inspect_each sid pins

  unfoldable pub inspect_pins : Sid → Action (Unit {0})
  inspect_pins sid = do lease ← get_lease; inspect_each sid lease.pins

  unfoldable pub check : Action Sid
  check = do
    lease ← get_lease
    require (not (lease.denied || lease.quarantined)) unavailable
    change_lease (λ l. record l { denied = true })
    sid ← current_sid env
    inspect_pins sid
    change_lease (λ l. record l { denied = false })
    pure sid

  -- `status = ops_.inspect(pin.handle, pin.identity)` on the last pin.
  unfoldable pub inspect_last : Action ObjectInfo
  inspect_last = do
    lease ← get_lease
    answer ← ask env (inspect (last_pin lease.pins).handle)
    change_lease (λ l. record l { pins = set_last_identity answer.info l.pins })
    settle answer.outcome
    pure answer.info

  -- `initialize` is `mode_ == OpenMode::initialize`.
  unfoldable pub add : Bool → Handle → Bytes → Bool → Sid → Bool → Bool → Action (Unit {0})
  add initialize parent name directory sid dacl create = do
    require (safe_component name) invalid_input
    inspect_pins sid
    outcome ←
        open_at env (new_pin_place true dacl)
          (child parent name directory (create && initialize) sid)
    settle outcome
    lease ← get_lease
    require (usable (last_pin lease.pins).handle) unavailable
    info ← inspect_last
    require
        (object_valid info sid directory true dacl
          && info.volume == (first_pin lease.pins).identity.volume)
        unavailable

  -- A failed close is never retried: the handle is dropped either way.
  unfoldable pub finish : Action Bool
  finish = do
    temporary_closed ← close_if env usable close temporary_place
    target_closed ← close_if env usable close target_place
    change_lease (λ l. record l { ticket = 0 })
    change_lease (quarantine_unless (temporary_closed && target_closed))
    pure (temporary_closed && target_closed)

  -- The loops of `release` over the two arrays, with the number of slots left and the next index.
  unfoldable pub close_reads : ℕ → ℕ → Action Bool
  close_reads zero i = pure true
  close_reads (suc n) i = do
    closed ← close_if env not_null close (read_place i)
    change_lease (λ l. set_read i (retire_read (read_at i l)) l)
    rest ← close_reads n (i + 1)
    pure (closed && rest)

  unfoldable pub close_receipts : ℕ → ℕ → Action Bool
  close_receipts zero i = pure true
  close_receipts (suc n) i = do
    closed ← close_if env not_null close (receipt_place i)
    change_lease (λ l. set_receipt i (record (receipt_at i l) { token = 0 }) l)
    rest ← close_receipts n (i + 1)
    pure (closed && rest)

  -- One pin: its handle stays where the close failed.
  unfoldable pub close_pin : Pin → History → Pin × Bool × History
  close_pin p h =
      let answer = env h (close p.handle) in
      let event : Event = record { call = close p.handle; answer = answer } in
      if usable p.handle
      then (if answer.done then record p { handle = null } else p, answer.done, event ∷ h)
      else (p, true, h)

  -- The pins in the order in which they are closed.
  unfoldable pub close_pins : List Pin → History → List Pin × Bool × History
  close_pins [] h = ([], true, h)
  close_pins (p ∷ ps) h =
      let (q, closed, h') = close_pin p h in
      let (qs, rest, h'') = close_pins ps h' in (q ∷ qs, closed && rest, h'')

  -- Everything but the pins.
  unfoldable pub release_places : Action Bool
  release_places = do
    finished ← finish
    reads ← close_reads 32 0
    receipts ← close_receipts 32 0
    exchange ← close_if env usable close exchange_place
    discovery ← close_if env usable close discovery_place
    pure (finished && (reads && (receipts && (exchange && discovery))))

  -- The pins, the last one first; the argument says whether every close so far succeeded.
  unfoldable pub release_pins : Bool → Action Bool
  release_pins before c =
      let (pins, closed, h) = close_pins (reverse c.lease.pins) c.history in
      let all_closed = before && closed in
      (
        done all_closed,
        record c {
          lease = record (c.lease) {
            pins = reverse pins;
            denied = true;
            quarantined = not all_closed;
          };
          history = h;
        },
      )

  unfoldable pub release : Action Bool
  release = do closed ← release_places; release_pins closed

  pub open_target : Place → Sid → Action Outcome
  open_target place sid = do lease ← get_lease; open_at env place (target_call lease sid)

  -- The try block of `target_current`, behind the opening call.
  pub observe_target : Sid → Outcome → Action (Unit {0})
  observe_target sid (returned missing) = do lease ← get_lease; require lease.missing unavailable
  observe_target sid (returned ok) = do
    locals ← get_locals
    require (usable locals.observed) unavailable
    info ← observe env locals.observed
    lease ← get_lease
    require
        (not lease.missing
          && (object_valid info sid false true true && same info lease.target_identity))
        unavailable
  observe_target sid outcome = settle outcome

  -- An exception goes on; a failed close is a failure otherwise.
  pub current_result : Result (Unit {0}) → Bool → Action (Unit {0})
  current_result (raised bad_alloc) closed = raise bad_alloc
  current_result (raised exception) closed = raise exception
  current_result (raised (failed s)) closed = fail (if closed then s else unavailable)
  current_result (done u) closed = require closed unavailable

  pub target_current : Sid → Action (Unit {0})
  target_current sid = do
    lease ← get_lease
    require (has_all_pins lease) unavailable
    change_locals (λ v. record v { observed = null })
    result ← attempt (do outcome ← open_target observed_place sid; observe_target sid outcome)
    closed ← close_if env usable close observed_place
    change_lease (quarantine_unless closed)
    current_result result closed
