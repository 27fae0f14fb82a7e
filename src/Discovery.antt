-- ===== src/Discovery.antt =====
-- The discovery directory: windows/external_native/discovery_files.cpp. Kinds are 1 (endpoint.bin, the
-- only one that is replaced), 2 (anchor.der) and 3 (installation.id).
mod Shared
mod Directory
mod Published
pub mod Steps
pub mod Balance
pub mod Decided
pub mod Tests
unfoldable pub use Shared.*
unfoldable pub use Directory.*
unfoldable pub use Published.*
use shiroha_quiz.Base.{
  ℕ, ◌+◌, ◌%◌, Bool, true, false, not, ◌&&◌, ◌||◌, Option, none, some, List, [], ◌∷◌, ◌++◌, ltb,
  leb, ◌==◌, if◌then◌else◌, is_empty, length, codes, Bytes, bytes_eq,
}
use shiroha_quiz.Status.{
  Status, ok, is_ok, invalid_input, abi_mismatch, resource_limit, unavailable, data_corrupt,
  missing, commit_unknown, app,
}
use shiroha_quiz.Memory.{Memory, span, overlap, clear, copy, store, read}
use shiroha_quiz.Objects.{Sid, ObjectInfo, object_valid}
use shiroha_quiz.Machine.{
  Handle, null, usable, is_null, Call, child, close, inspect, temporary_count, random_name,
  temporary_create, write_file, flush_file, exchange_read, discovery_open, discovery_replace,
  Outcome, returned, Environment, Lease, Context, Locals, Raised, failed, bad_alloc, exception,
  Result, done, raised, Action, pure, raise, fail, ◌>>=◌, ◌>>◌, require, get_lease, get_locals,
  change_lease, change_locals, change_memory, settle, attempt, status_of, Place, held_at, ask,
  perform, observe, open_at, close_if,
}
use shiroha_quiz.Leases.{check, discovery_place, observed_place, quarantine_unless, same}
use shiroha_quiz.Owners.{World, find, run_in}
use shiroha_quiz.Transactions.{hex}
use shiroha_quiz.Exchange.{file_place, directory_current, pin_at, deny_failed}

module _ (env : Environment) where
  -- The try block of `discovery_operation`.
  pub discovery_try : ℕ → Bytes → Bool → Action (Unit {0})
  discovery_try kind input publish = do
    tried ← attempt (find_file env kind input publish)
    looked ← rethrow tried
    closed ← close_local env observed_place
    found ← settle_closed closed looked
    publish_found env found kind input publish
    last ← discovery_directory env
    pure tt

  -- The last three closes, each over the status so far.
  pub close_locals : Status → Action Status
  close_locals status = do
    observed ← close_local env observed_place
    file ← close_local env file_place
    scratch ← close_local env scratch_place
    pure (if observed && (file && scratch) then status else unavailable)

  -- An uncertain rename denies the lease; a read hands out its bytes only at the end.
  pub discovery_lease : ℕ → Bytes → ℕ → ℕ → Bool → Action Status
  discovery_lease kind input output written publish = do
    result ← attempt (discovery_try kind input publish)
    status ← close_locals (status_of result)
    locals ← get_locals
    (if locals.replacing && not (is_ok status)
        then (do change_lease (λ l. record l { denied = true }); pure commit_unknown)
        else (do
          (if not publish && is_ok status
              then change_memory
                  (λ m. store written (length locals.bytes) (copy output locals.bytes m))
              else pure tt)
          pure status))

  pub discovery_found : ℕ → Bytes → ℕ → ℕ → Bool → Option (ℕ × Lease) → World → Status × World
  discovery_found kind input output written publish none w = (invalid_input, w)
  discovery_found kind input output written publish (some (slot, l)) w =
      if publish && not (l.role == app)
      then (invalid_input, w)
      else if not (l.ticket == 0)
      then (resource_limit, w)
      else run_in (discovery_lease kind input output written publish) slot l w

  pub publish : ℕ → ℕ → ℕ → ℕ → ℕ → World → Status × World
  publish version owner kind input length w =
      if not (version == 3)
      then (abi_mismatch, w)
      else if cap kind == 0
          || (not (span input length)
              || (ltb (cap kind) length || not (kind == 2) && not (length == cap kind)))
      then (invalid_input, w)
      else discovery_found kind (read input length w.memory) 0 0 true (find owner w.owners) w

  pub read_file : ℕ → ℕ → ℕ → ℕ → ℕ → ℕ → World → Status × World
  read_file version owner kind output capacity written w =
      if not (span output capacity)
        || (not (span written 8) || (not (written % 8 == 0) || overlap output capacity written 8))
      then (invalid_input, w)
      else (let cleared : World = record w {
        memory = store written 0 (clear output capacity w.memory);
      } in
          if not (version == 3)
          then (abi_mismatch, cleared)
          else if cap kind == 0 || not (capacity == cap kind)
          then (invalid_input, cleared)
          else discovery_found kind [] output written false (find owner cleared.owners) cleared)
