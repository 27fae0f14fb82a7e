-- ===== src/Machine/State.antt =====
-- What ObjectOperations of windows/external_native/protected_objects.h answer, and the leases and local
-- variables of the operations on them.
use shiroha_quiz.Base.{ℕ, Bool, true, false, List, [], Bytes, replicate}
use shiroha_quiz.Status.{Status}
use shiroha_quiz.Memory.{Memory}
use shiroha_quiz.Objects.{Sid, ObjectInfo, no_info}

-- nullptr, INVALID_HANDLE_VALUE, or another value.
pub data Handle : Type 0 where
  null invalid : Handle
  os : ℕ → Handle

abbrev pub usable : Handle → Bool
usable null = false
usable invalid = false
usable (os n) = true

-- `if (h && …)`
abbrev pub not_null : Handle → Bool
not_null null = false
not_null invalid = true
not_null (os n) = true

abbrev pub is_null : Handle → Bool
is_null null = true
is_null invalid = false
is_null (os n) = false

-- One constructor for each member function of `ObjectOperations`, with its arguments.
pub data Call : Type 0 where
  user_sid local_directory random_name exchange_nonce : Call
  child : Handle → Bytes → Bool → Bool → Sid → Call
  inspect close read_file temporary_count flush_file : Handle → Call
  association_open : Handle → Sid → Call
  credential_open : Handle → ℕ → Sid → Call
  credential_replace discovery_replace : Handle → Handle → ℕ → Bool → Call
  temporary_create : Handle → Bytes → Sid → Call
  write_file : Handle → Bytes → Call
  replace_file : Handle → Handle → Bool → Call
  exchange_lock : ObjectInfo → Sid → Call
  exchange_unlock exchange_count exchange_delete : Handle → Call
  exchange_open : Handle → Bytes → ℕ → Sid → Call
  exchange_read : Handle → ℕ → Call
  discovery_open : Handle → ℕ → Call

-- How a call comes back.
pub data Outcome : Type 0 where
  returned : Status → Outcome
  throws_alloc throws : Outcome

-- The status with everything that a call may write: each call reads its own out-parameter, and
-- `done` is the result of the two calls that return bool.
pub record Answer : Type 0 where
  pub outcome : Outcome
  pub handle : Handle
  pub info : ObjectInfo
  pub bytes : Bytes
  pub number : ℕ
  pub runtime : Bytes
  pub random : Bytes
  pub done : Bool

pub record Event : Type 0 where
  pub call : Call
  pub answer : Answer

-- Newest first.
abbrev pub History : Type 0
History = List Event

abbrev pub Environment : Type 0
Environment = History → Call → Answer

pub record Pin : Type 0 where
  pub handle : Handle
  pub identity : ObjectInfo
  pub owner : Bool
  pub dacl : Bool

abbrev pub no_pin : Pin
no_pin = record { handle = null; identity = no_info; owner = false; dacl = false }

pub record ExchangeReceipt : Type 0 where
  pub token : ℕ
  pub pin : Handle
  pub identity : ObjectInfo
  pub name : Bytes

pub record ExchangeRead : Type 0 where
  pub receipt : ExchangeReceipt
  pub open receipt use *
  pub nonce : Bytes
  pub bytes : Bytes
  pub kind : ℕ

abbrev pub no_receipt : ExchangeReceipt
no_receipt = record { token = 0; pin = null; identity = no_info; name = [] }

abbrev pub no_read : ExchangeRead
no_read = record { receipt = no_receipt; nonce = replicate 16 0; bytes = []; kind = 0 }

pub record Lease : Type 0 where
  pub token : ℕ
  pub pins : List Pin
  pub denied : Bool
  pub quarantined : Bool
  pub role : ℕ
  pub kind : ℕ
  pub ticket : ℕ
  pub target : Handle
  pub temporary : Handle
  pub target_identity : ObjectInfo
  pub missing : Bool
  pub runtime_id : Bytes
  pub exchange : Pin
  pub discovery : Pin
  pub exchange_receipts : List ExchangeReceipt
  pub exchange_reads : List ExchangeRead

abbrev pub new_lease : ℕ → ℕ → Lease
new_lease token role = record {
  token = token;
  pins = [];
  denied = false;
  quarantined = false;
  role = role;
  kind = 3;
  ticket = 0;
  target = null;
  temporary = null;
  target_identity = no_info;
  missing = false;
  runtime_id = [];
  exchange = no_pin;
  discovery = no_pin;
  exchange_receipts = replicate 32 no_receipt;
  exchange_reads = replicate 32 no_read;
}

pub data CommitStage : Type 0 where
  admission prepare target_close rename published_close published_validate complete : CommitStage

-- Diagnostic output: which objects a transaction observed, and where it stopped.
pub record Observation : Type 0 where
  pub kind : ℕ
  pub parent_volume : ℕ
  pub parent_file : ℕ
  pub volume : ℕ
  pub file : ℕ
  pub missing : Bool

abbrev pub no_observation : Observation
no_observation = record {
  kind = 0;
  parent_volume = 0;
  parent_file = 0;
  volume = 0;
  file = 0;
  missing = false;
}

pub record CommitDiagnostic : Type 0 where
  pub stage : CommitStage
  pub exception : Bool
  pub finish_failed : Bool
  pub published : Observation

abbrev pub no_detail : CommitDiagnostic
no_detail = record {
  stage = admission;
  exception = false;
  finish_failed = false;
  published = no_observation;
}

-- The local variables of an operation that outlive an exception.
pub record Locals : Type 0 where
  pub observed : Handle
  pub file : Handle
  pub scratch : Handle
  pub lock : Handle
  pub pin : Handle
  pub replacing : Bool
  pub detail : CommitDiagnostic
  pub observation : Observation
  pub bytes : Bytes

abbrev pub no_locals : Locals
no_locals = record {
  observed = null;
  file = null;
  scratch = null;
  lock = null;
  pin = null;
  replacing = false;
  detail = no_detail;
  observation = no_observation;
  bytes = [];
}

-- What an operation on one lease reads and writes.
pub record Context : Type 0 where
  pub lease : Lease
  pub history : History
  pub memory : Memory
  pub next_ticket : ℕ
  pub locals : Locals
