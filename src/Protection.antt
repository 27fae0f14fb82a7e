-- ===== src/Protection.antt =====
-- windows/external_native/native_core.h and native_core.cpp: DPAPI protection of a caller's bytes, and
-- the local application data path. The operations of Windows are parameters, with what they leave.
pub mod Outputs
pub mod Delivery
pub mod Blocks
use shiroha_quiz.Base.{
  ℕ, zero, suc, ◌+◌, ◌-◌, ◌/◌, ◌%◌, Bool, true, false, not, ◌&&◌, ◌||◌, Option, none, some, List,
  [], ◌∷◌, ltb, leb, ◌==◌, if◌then◌else◌, length, Bytes,
}
use shiroha_quiz.Status.{
  Status, ok, is_ok, invalid_input, abi_mismatch, resource_limit, unavailable, data_corrupt,
  abi_version, max_bytes, uintptr_max,
}
use shiroha_quiz.Memory.{Memory, span, count, overlap, clear, copy, store, load, read}

-- `protect` and `unprotect`: the BOOL, and the DATA_BLOB that is left, none where pbData is null.
pub record Blob : Type 0 where
  pub success : Bool
  pub pb_data : Option Bytes

-- A known folder: whether the HRESULT is a success, and the units up to the terminator, none where the
-- path is null.
pub record Folder : Type 0 where
  pub found : Bool
  pub path : Option Bytes

-- A status, the memory of the caller, and how often the result of the operation was freed.
pub record Outcome : Type 0 where
  pub status : Status
  pub memory : Memory
  pub freed : ℕ

unfoldable pub prepare : ℕ → ℕ → ℕ → ℕ → Memory → Status × Memory
prepare version output capacity written m =
    if not (count written)
    then (invalid_input, m)
    else if span output capacity && overlap output capacity written 8
    then (invalid_input, m)
    else if not (span output capacity)
    then (invalid_input, store written 0 m)
    else if not (version == 1) && (not (version == 2) && not (version == abi_version))
    then (abi_mismatch, clear output capacity (store written 0 m))
    else (ok, clear output capacity (store written 0 m))

-- The first branch of `transform`: the spans are unusable, and what can be cleared is.
unfoldable pub refuse : ℕ → ℕ → ℕ → ℕ → ℕ → Memory → Memory
refuse input length output capacity written m =
    let output_count_alias =
      span output capacity && (count written && overlap output capacity written 8) in
    let input_count_alias =
      span input length && (count written && overlap input length written 8) in
    let counted =
      if count written && (not input_count_alias && not output_count_alias)
      then store written 0 m
      else m in
    if span output capacity
      && (not output_count_alias
          && (not (span input length) || not (overlap input length output capacity)))
    then clear output capacity counted
    else counted

abbrev pub refused : ℕ → ℕ → ℕ → ℕ → ℕ → Bool
refused input length output capacity written =
    not (span input length)
    || (span output capacity && overlap input length output capacity
        || span written 8 && overlap input length written 8)

abbrev freed_blob : Option Bytes → ℕ
freed_blob none = 0
freed_blob (some bytes) = 1

-- What follows a successful operation.
unfoldable pub deliver_data : ℕ → ℕ → ℕ → Option Bytes → Memory → Status × Memory
deliver_data output capacity written none m = (data_corrupt, m)
deliver_data output capacity written (some bytes) m =
    if length bytes == 0
    then (data_corrupt, m)
    else if ltb capacity (length bytes)
    then (resource_limit, m)
    else (ok, store written (length bytes) (copy output bytes m))

unfoldable pub deliver : Bool → ℕ → ℕ → ℕ → Blob → Memory → Status × Memory
unfolding deliver_data
deliver decrypt output capacity written blob m =
    if not blob.success
    then (if decrypt then data_corrupt else unavailable, m)
    else deliver_data output capacity written blob.pb_data m

-- `operate` is `ops.unprotect` or `ops.protect`, as `decrypt` says.
unfoldable pub transform : (Bool → Bytes → Blob) → ℕ → ℕ → ℕ → ℕ → ℕ → ℕ → Bool → Memory → Outcome
unfolding refuse prepare deliver
transform operate version input length output capacity written decrypt m =
    if refused input length output capacity written
    then record {
      status = invalid_input;
      memory = refuse input length output capacity written m;
      freed = 0;
    }
    else (let (ready, prepared) = prepare version output capacity written m in
        let blob = operate decrypt (read input length prepared) in
        let (status, after) = deliver decrypt output capacity written blob prepared in
        if not (is_ok ready)
        then record { status = ready; memory = prepared; freed = 0 }
        else record { status = status; memory = after; freed = freed_blob blob.pb_data })

-- The units before the terminator, at most `limit`.
pub units_of : ℕ → Bytes → Bytes
units_of zero us = []
units_of (suc limit) [] = []
units_of (suc limit) (u ∷ us) = let rest = units_of limit us in if u == 0 then [] else u ∷ rest

-- `memcpy` of UTF-16 units.
pub unit_bytes : Bytes → Bytes
unit_bytes [] = []
unit_bytes (u ∷ us) = u % 256 ∷ u / 256 ∷ unit_bytes us

abbrev pub freed_path : Option Bytes → ℕ
freed_path none = 0
freed_path (some path) = 1

unfoldable pub deliver_path : ℕ → ℕ → ℕ → Option Bytes → Memory → Status × Memory
unfolding units_of unit_bytes
deliver_path output capacity written none m = (data_corrupt, m)
deliver_path output capacity written (some path) m =
    let units = units_of (max_bytes / 2) path in
    let bytes = unit_bytes units in
    if length units == 0 || length units == max_bytes / 2
    then (data_corrupt, m)
    else if ltb capacity (length bytes)
    then (resource_limit, m)
    else (ok, store written (length bytes) (copy output bytes m))

unfoldable pub local_app_data : Folder → ℕ → ℕ → ℕ → ℕ → Memory → Outcome
unfolding prepare deliver_path
local_app_data folder version output capacity written m =
    let (ready, prepared) = prepare version output capacity written m in
    let (status, after) = deliver_path output capacity written folder.path prepared in
    if not (is_ok ready)
    then record { status = ready; memory = prepared; freed = 0 }
    else if not folder.found
    then record { status = unavailable; memory = prepared; freed = freed_path folder.path }
    else record { status = status; memory = after; freed = freed_path folder.path }

-- `shiroha_native_buffer_alloc`: the address of the buffer, behind a header of 8 bytes with its capacity.
-- `block` is what `calloc` returns where it is called, none for null; the block is zeros then.
unfoldable pub buffer_alloc : Option ℕ → ℕ → Memory → ℕ × Memory
unfolding clear store
buffer_alloc none capacity m = (0, m)
buffer_alloc (some block) capacity m =
    if not (ltb 0 capacity && leb capacity max_bytes) || ltb (uintptr_max - 8) capacity
    then (0, m)
    else (block + 8, store block capacity (clear block (8 + capacity) m))

-- `shiroha_native_buffer_free`: the block that is passed to `free`, none where nothing is, and the memory
-- at that call.
unfoldable pub buffer_free : ℕ → Memory → Option ℕ × Memory
unfolding clear load
buffer_free buffer m =
    if buffer == 0
    then (none, m)
    else (let block = buffer - 8 in (some block, clear block 8 (clear buffer (load block m) m)))
