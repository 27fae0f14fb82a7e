-- ===== src/Status.antt =====
-- windows/external_native/shiroha_external_native.h: the fixed status categories and limits.
use shiroha_quiz.Base.{ℕ, ◌-◌, ◌^◌, Bool, true, false}

-- An int32_t status; `other` is any value that the header does not name, as its 32 bits.
pub data Status : Type 0 where
  ok invalid_input abi_mismatch resource_limit unavailable data_corrupt : Status
  missing commit_unknown verification_rejected : Status
  other : ℕ → Status

abbrev pub is_ok : Status → Bool
is_ok ok = true
is_ok invalid_input = false
is_ok abi_mismatch = false
is_ok resource_limit = false
is_ok unavailable = false
is_ok data_corrupt = false
is_ok missing = false
is_ok commit_unknown = false
is_ok verification_rejected = false
is_ok (other n) = false

abbrev pub abi_version : ℕ
abi_version = 3

abbrev pub max_bytes : ℕ
max_bytes = 65536

-- The roles of an owner.
abbrev pub app : ℕ
app = 1

abbrev pub bridge : ℕ
bridge = 2

abbrev pub int64_max : ℕ
int64_max = 2 ^ 63 - 1

-- The greatest address, of a 64-bit process.
abbrev pub uintptr_max : ℕ
uintptr_max = 2 ^ 64 - 1
