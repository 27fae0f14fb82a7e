-- ===== src/Transactions/Shared.antt =====
-- windows/external_native/association_files.cpp, what the members of a transaction share.
use shiroha_quiz.Base.{
  ℕ, ◌+◌, Bool, true, false, ◌&&◌, ◌||◌, leb, ◌==◌, if◌then◌else◌, length, all, Bytes,
}
use shiroha_quiz.Objects.{Sid, ObjectInfo, object_valid}
use shiroha_quiz.Machine.{Lease, Observation, CommitStage, done, Action, change_locals}
use shiroha_quiz.Leases.{directory}

abbrev pub set_stage : CommitStage → Action (Unit {0})
set_stage s = change_locals (λ v. record v { detail = record (v.detail) { stage = s } })

-- `observation`
abbrev pub observation_of : Lease → Observation
observation_of l = record {
  kind = l.kind;
  parent_volume = (directory l).identity.volume;
  parent_file = (directory l).identity.file;
  volume = if l.missing then 0 else l.target_identity.volume;
  file = if l.missing then 0 else l.target_identity.file;
  missing = l.missing;
}

abbrev pub is_hex_digit : ℕ → Bool
is_hex_digit c = leb 0x30 c && leb c 0x39 || leb 0x61 c && leb c 0x66

-- Lower-case hexadecimal digits, `n` of them.
unfoldable pub hex : Bytes → ℕ → Bool
hex s n = length s == n && all is_hex_digit s

-- A file is current: valid, and on the volume of the directory that holds it.
abbrev pub in_directory : ObjectInfo → Sid → Lease → Bool
in_directory info sid l =
    object_valid info sid false true true && info.volume == (directory l).identity.volume

-- `next_ticket_++`
unfoldable pub take_ticket : Action ℕ
take_ticket c = (done c.next_ticket, record c { next_ticket = c.next_ticket + 1 })
