-- ===== src/Exchange/Files.antt =====
-- windows/external_native/exchange_files.cpp, what the operations of the exchange directory share: names,
-- headers, places and slots.
use shiroha_quiz.Base.{
  ℕ, ◌+◌, ◌/◌, ◌%◌, Bool, true, false, not, ◌&&◌, ◌||◌, Option, none, some, List, [], ◌∷◌, ◌++◌,
  ltb, leb, ◌==◌, if◌then◌else◌, length, codes, Bytes, bytes_eq, take, drop, get_or,
}
use shiroha_quiz.Status.{app}
use shiroha_quiz.Objects.{Sid, ObjectInfo, object_valid}
use shiroha_quiz.Machine.{
  is_null, Pin, no_pin, ExchangeReceipt, ExchangeRead, Lease, failed, bad_alloc, exception, Result,
  done, raised, Action, pure, raise, fail, ◌>>◌, change_lease, Place,
}
use shiroha_quiz.Leases.{same}

abbrev pub cap : ℕ → ℕ
cap kind = if kind == 1 then 1024 else if kind == 2 then 4096 else if kind == 3 then 256 else 0

abbrev pub hex_digit : ℕ → ℕ
hex_digit n = if ltb n 10 then 0x30 + n else 0x57 + n

unfoldable pub hex_id : Bytes → Bytes
hex_id [] = []
hex_id (b ∷ bs) = hex_digit (b / 16) ∷ hex_digit (b % 16) ∷ hex_id bs

abbrev pub prefix : ℕ → Bytes
prefix kind =
    if kind == 1
    then codes "submission-"
    else if kind == 2
    then codes "pairing-"
    else codes "proof-"

abbrev pub suffix : ℕ → Bytes
suffix kind = if kind == 1 then codes ".pub" else if kind == 2 then codes ".chal" else codes ".bin"

-- The only legal name of a kind and an id of 16 bytes.
unfoldable pub filename : ℕ → Bytes → Bytes
unfolding hex_id
filename kind id = prefix kind ++ (hex_id id ++ suffix kind)

abbrev pub magic : ℕ → Bytes
magic kind =
    if kind == 1 then codes "SHREXSUB" else if kind == 2 then codes "SHREXCHA" else codes "SHREXPRF"

-- The fixed header binds the content to its kind and id.
unfoldable pub header : ℕ → Bytes → Bytes → Bool
header kind id bytes =
    leb 25 (length bytes)
    && (leb (length bytes) (cap kind)
        && (bytes_eq (take 8 bytes) (magic kind)
            && (get_or bytes 8 0 == 1 && bytes_eq (take 16 (drop 9 bytes)) id)))

abbrev pub file_place : Place
file_place = record {
  held = λ c. c.locals.file;
  put = λ h c. record c { locals = record (c.locals) { file = h } };
}

abbrev pub lock_place : Place
lock_place = record {
  held = λ c. c.locals.lock;
  put = λ h c. record c { locals = record (c.locals) { lock = h } };
}

abbrev pub pin_place : Place
pin_place = record {
  held = λ c. c.locals.pin;
  put = λ h c. record c { locals = record (c.locals) { pin = h } };
}

abbrev pub pin_at : ℕ → Lease → Pin
pin_at i l = get_or l.pins i no_pin

-- A directory is current: the one that was pinned, beside the other pins, and for the app the one
-- that it created, which is its pin `own`.
abbrev pub directory_current : ℕ → Pin → Sid → Lease → ObjectInfo → Bool
directory_current own pin sid l info =
    object_valid info sid true true true
    && (same info pin.identity
        && (info.volume == (pin_at 2 l).identity.volume
            && (not (l.role == app) || same info (pin_at own l).identity)))

-- A file is still the one that was identified.
abbrev pub file_current : ObjectInfo → Sid → ObjectInfo → Bool
file_current info sid identity = object_valid info sid false true true && same info identity

-- `if (status != SHIROHA_NATIVE_OK) lease.denied = true;` passes an exception on.
unfoldable pub deny_failed {ℓ} : {A : Type ℓ} → Result A → Action A
deny_failed (done a) = pure a
deny_failed (raised (failed s)) = do change_lease (λ l. record l { denied = true }); fail s
deny_failed (raised bad_alloc) = raise bad_alloc
deny_failed (raised exception) = raise exception

-- The first free slot of `exchange_receipts`, and of `exchange_reads`.
pub free_receipt_from : ℕ → List ExchangeReceipt → Option ℕ
free_receipt_from i [] = none
free_receipt_from i (r ∷ rs) =
    let rest = free_receipt_from (i + 1) rs in
    if r.token == 0 && is_null r.pin then some i else rest

pub free_read_from : ℕ → List ExchangeRead → Option ℕ
free_read_from i [] = none
free_read_from i (r ∷ rs) =
    let rest = free_read_from (i + 1) rs in if r.token == 0 && is_null r.pin then some i else rest

-- The slot of a receipt or of a read ticket.
pub receipt_from : ℕ → ℕ → List ExchangeReceipt → Option ℕ
receipt_from i token [] = none
receipt_from i token (r ∷ rs) =
    let rest = receipt_from (i + 1) token rs in if r.token == token then some i else rest

pub read_from : ℕ → ℕ → List ExchangeRead → Option ℕ
read_from i token [] = none
read_from i token (r ∷ rs) =
    let rest = read_from (i + 1) token rs in if r.token == token then some i else rest

-- `difference` over the 16 bytes: the nonces agree.
abbrev pub nonce_matches : Bytes → Bytes → Bool
nonce_matches nonce ticket = bytes_eq nonce ticket
