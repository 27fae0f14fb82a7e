-- ===== src/Discovery/Directory.antt =====
-- windows/external_native/discovery_files.cpp, the discovery directory, and the file that is found in it.
use shiroha_quiz.Base.{
  ℕ, Bool, true, false, not, ◌&&◌, ◌||◌, leb, ◌==◌, if◌then◌else◌, is_empty, length, codes, Bytes,
  bytes_eq,
}
use shiroha_quiz.Status.{unavailable, data_corrupt, missing}
use shiroha_quiz.Objects.{Sid, ObjectInfo, object_valid}
use shiroha_quiz.Machine.{
  usable, is_null, child, close, inspect, exchange_read, discovery_open, Outcome, Environment,
  failed, Result, done, raised, Action, pure, raise, ◌>>=◌, ◌>>◌, require, get_lease, change_lease,
  change_locals, settle, attempt, Place, held_at, ask, observe, open_at, close_if,
}
use shiroha_quiz.Leases.{check, discovery_place, observed_place, quarantine_unless, same}
use shiroha_quiz.Exchange.{file_place, directory_current, pin_at, deny_failed}
use shiroha_quiz.Discovery.Shared.{cap, Found, present, absent}

module _ (env : Environment) where
  unfoldable pub pin_discovery : Sid → Action (Unit {0})
  pin_discovery sid = do
    lease ← get_lease
    outcome ←
        open_at env discovery_place
          (child (pin_at 2 lease).handle (codes "discovery") true false sid)
    settle outcome
    held ← get_lease
    require (usable held.discovery.handle) unavailable
    answer ← ask env (inspect held.discovery.handle)
    change_lease (λ l. record l { discovery = record (l.discovery) { identity = answer.info } })
    settle answer.outcome

  unfoldable pub inspect_discovery : Sid → Action (Unit {0})
  inspect_discovery sid = do
    lease ← get_lease
    (if is_null lease.discovery.handle then pin_discovery sid else pure tt)
    held ← get_lease
    current ← observe env held.discovery.handle
    require (directory_current 7 held.discovery sid held current) unavailable

  unfoldable pub discovery_directory : Action Sid
  discovery_directory = do
    sid ← check env
    result ← attempt (inspect_discovery sid)
    deny_failed result
    pure sid

  -- `close`: a failed close quarantines the lease.
  unfoldable pub close_local : Place → Action Bool
  close_local place = do
    closed ← close_if env usable close place
    change_lease (quarantine_unless closed)
    pure closed

  -- `inspect`: a usable handle of a valid file on the directory's volume.
  unfoldable pub inspect_file : Sid → Place → Action ObjectInfo
  inspect_file sid place = do
    handle ← held_at place
    require (usable handle) unavailable
    info ← observe env handle
    lease ← get_lease
    require
        (object_valid info sid false true true && info.volume == lease.discovery.identity.volume)
        unavailable
    pure info

  unfoldable pub open_discovery : Place → ℕ → Action Outcome
  open_discovery place kind = do
    lease ← get_lease
    open_at env place (discovery_open lease.discovery.handle kind)

  -- A fresh open of the name finds the same file.
  unfoldable pub inspect_same : Sid → Place → ObjectInfo → Action (Unit {0})
  inspect_same sid place identity = do
    info ← inspect_file sid place
    require (same identity info) unavailable

  -- What is published must be there already, but for an endpoint.
  unfoldable pub require_content : ℕ → Bytes → Bool → Bytes → Action (Unit {0})
  require_content kind input publish bytes =
      require (not publish || (kind == 1 || bytes_eq bytes input)) data_corrupt

  -- The file under the name, read and compared with a fresh open of the name.
  unfoldable pub read_present : ℕ → Bytes → Bool → Sid → Action ObjectInfo
  read_present kind input publish sid = do
    identity ← inspect_file sid file_place
    file ← held_at file_place
    answer ← ask env (exchange_read file (cap kind))
    change_locals (λ v. record v { bytes = answer.bytes })
    settle answer.outcome
    require (not (is_empty answer.bytes) && leb (length answer.bytes) (cap kind)) data_corrupt
    inspect_same sid file_place identity
    require_content kind input publish answer.bytes
    reopened ← open_discovery observed_place kind
    settle reopened
    inspect_same sid observed_place identity
    pure identity

  -- From the status of the directory and of the first opening of the name.
  unfoldable pub find_present : ℕ → Bytes → Bool → Result Sid → Action Found
  find_present kind input publish (done sid) = do
    identity ← read_present kind input publish sid
    pure (present identity)
  find_present kind input publish (raised (failed missing)) = do
    file ← held_at file_place
    require (is_null file) unavailable
    pure absent
  find_present kind input publish (raised r) = raise r

  unfoldable pub find_file : ℕ → Bytes → Bool → Action Found
  find_file kind input publish = do
    opened ← attempt (do
      sid ← discovery_directory
      outcome ← open_discovery file_place kind
      settle outcome
      pure sid)
    find_present kind input publish opened
