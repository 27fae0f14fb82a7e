-- ===== src/Renames.antt =====
-- windows/external_native/association_rename.h, credential_rename.h, discovery_rename.h and
-- exchange_open_policy.h: what is passed to NtSetInformationFile, and how its answer is judged.
pub mod Settled
use shiroha_quiz.Base.{
  ℕ, ◌+◌, ◌*◌, Bool, true, false, not, ◌&&◌, ◌||◌, Option, none, some, List, [], ◌∷◌, ◌++◌, ◌==◌,
  if◌then◌else◌, length, codes, take, replicate, Bytes,
}
use shiroha_quiz.Status.{Status, ok, invalid_input, commit_unknown}
use shiroha_quiz.Machine.{Handle, usable}

-- FILE_RENAME_INFORMATION: the flag, the directory, the byte length of the name, and the units of the
-- array, which the name and zeros fill; `size` is what `sizeof` gives.
pub record RenameInformation : Type 0 where
  pub replace : Bool
  pub directory : Handle
  pub name_length : ℕ
  pub name : Bytes
  pub size : ℕ

-- The two status words of the system call. The second starts as a failure.
pub record Completion : Type 0 where
  pub status : ℕ
  pub written : Option ℕ

abbrev untouched : ℕ
untouched = 0xc0000001

abbrev block_status : Option ℕ → ℕ
block_status none = untouched
block_status (some s) = s

-- Only two zeros are a success.
unfoldable pub completion_status : Completion → Status
completion_status c = if c.status == 0 && block_status c.written == 0 then ok else commit_unknown

-- The array of `n` units.
abbrev padded : ℕ → Bytes → Bytes
padded n name = take n (name ++ replicate n 0)

abbrev pub credential_name : ℕ → Option Bytes
credential_name kind =
    if kind == 1
    then some (codes "issuer.bin")
    else if kind == 2
    then some (codes "server.bin")
    else if kind == 4
    then some (codes "client.bin")
    else none

abbrev pub discovery_name : ℕ → Option Bytes
discovery_name kind =
    if kind == 1
    then some (codes "endpoint.bin")
    else if kind == 2
    then some (codes "anchor.der")
    else if kind == 3
    then some (codes "installation.id")
    else none

abbrev pub Rename : Type 0
Rename = Handle → RenameInformation → Completion

-- `present` says that the function pointer is not null.
unfoldable pub rename_association : Bool → Rename → Handle → Handle → Bool → Status
unfolding completion_status
rename_association present call temporary directory existing =
    if not present || (not (usable temporary) || not (usable directory))
    then commit_unknown
    else completion_status (
        call temporary (record {
          replace = existing;
          directory = directory;
          name_length = 32;
          name = padded 17 (codes "associations.bin");
          size = 56;
        }))

pub rename_named : Bool → Rename → Handle → Handle → Bool → ℕ → ℕ → Option Bytes → Status
unfolding completion_status
rename_named present call temporary directory replace units size none = invalid_input
rename_named present call temporary directory replace units size (some name) =
    if not present || (not (usable temporary) || not (usable directory))
    then commit_unknown
    else completion_status (
        call temporary (record {
          replace = replace;
          directory = directory;
          name_length = length name * 2;
          name = padded units name;
          size = size;
        }))

unfoldable pub rename_credential : Bool → Rename → Handle → Handle → ℕ → Bool → Status
unfolding rename_named
rename_credential present call temporary directory kind existing =
    rename_named present call temporary directory existing 11 48 (credential_name kind)

-- Only an endpoint is replaced.
unfoldable pub rename_discovery : Bool → Rename → Handle → Handle → ℕ → Bool → Status
unfolding rename_named
rename_discovery present call temporary directory kind replace =
    if not (kind == 1) && replace
    then invalid_input
    else rename_named present call temporary directory replace 16 56 (discovery_name kind)

-- `exchange_access`: which rights a mode asks for, beside those to read the attributes and to wait.
pub record Access : Type 0 where
  pub reads : Bool
  pub writes : Bool
  pub deletes : Bool

abbrev pub exchange_access : ℕ → Access
exchange_access mode = record {
  reads = not (mode == 3);
  writes = mode == 0;
  deletes = mode == 3 || mode == 4;
}

-- `exchange_share`, beside reading: whether others may write and delete.
abbrev pub exchange_share : ℕ → Bool
exchange_share mode = mode == 2
