-- ===== src/Leases/Places.antt =====
-- windows/external_native/protected_objects.cpp and association_files.cpp: the places in which a lease or an
-- operation holds handles.
use shiroha_quiz.Base.{
  ℕ, Bool, true, ◌&&◌, List, [], ◌∷◌, ◌++◌, ◌==◌, if◌then◌else◌, replicate, length, get_or, set,
}
use shiroha_quiz.Status.{app}
use shiroha_quiz.Objects.{Sid, ObjectInfo, no_info, object_valid, is_directory}
use shiroha_quiz.Machine.{
  Handle, null, Call, association_open, credential_open, Pin, no_pin, no_read, no_receipt,
  ExchangeReceipt, ExchangeRead, Lease, Place,
}

-- The places of a lease and of the local variables.
abbrev pub target_place : Place
target_place = record {
  held = λ c. c.lease.target;
  put = λ h c. record c { lease = record (c.lease) { target = h } };
}

abbrev pub temporary_place : Place
temporary_place = record {
  held = λ c. c.lease.temporary;
  put = λ h c. record c { lease = record (c.lease) { temporary = h } };
}

abbrev pub observed_place : Place
observed_place = record {
  held = λ c. c.locals.observed;
  put = λ h c. record c { locals = record (c.locals) { observed = h } };
}

abbrev pub exchange_place : Place
exchange_place = record {
  held = λ c. c.lease.exchange.handle;
  put = λ h c. record c {
    lease = record (c.lease) { exchange = record (c.lease.exchange) { handle = h } };
  };
}

abbrev pub discovery_place : Place
discovery_place = record {
  held = λ c. c.lease.discovery.handle;
  put = λ h c. record c {
    lease = record (c.lease) { discovery = record (c.lease.discovery) { handle = h } };
  };
}

abbrev pub read_at : ℕ → Lease → ExchangeRead
read_at i l = get_or l.exchange_reads i no_read

abbrev pub receipt_at : ℕ → Lease → ExchangeReceipt
receipt_at i l = get_or l.exchange_receipts i no_receipt

abbrev pub set_read : ℕ → ExchangeRead → Lease → Lease
set_read i r l = record l { exchange_reads = set l.exchange_reads i r }

abbrev pub set_receipt : ℕ → ExchangeReceipt → Lease → Lease
set_receipt i r l = record l { exchange_receipts = set l.exchange_receipts i r }

abbrev pub pin_read : Handle → ExchangeRead → ExchangeRead
pin_read h r = record r { receipt = record (r.receipt) { pin = h } }

abbrev pub read_place : ℕ → Place
read_place i = record {
  held = λ c. (read_at i c.lease).pin;
  put = λ h c. record c { lease = set_read i (pin_read h (read_at i c.lease)) c.lease };
}

abbrev pub receipt_place : ℕ → Place
receipt_place i = record {
  held = λ c. (receipt_at i c.lease).pin;
  put =
      λ h c. record c { lease = set_receipt i (record (receipt_at i c.lease) { pin = h }) c.lease };
}

abbrev pub push_pin : Handle → Bool → Bool → Lease → Lease
push_pin h owner dacl l = record l {
  pins = l.pins ++ record { handle = h; identity = no_info; owner = owner; dacl = dacl } ∷ [];
}

-- The pin that a call fills is the last one.
abbrev pub new_pin_place : Bool → Bool → Place
new_pin_place owner dacl = record {
  held = λ c. null;
  put = λ h c. record c { lease = push_pin h owner dacl c.lease };
}

abbrev pub last_pin : List Pin → Pin
last_pin [] = no_pin
last_pin (p ∷ []) = p
last_pin (p ∷ q ∷ ps) = last_pin (q ∷ ps)

abbrev pub first_pin : List Pin → Pin
first_pin [] = no_pin
first_pin (p ∷ ps) = p

abbrev pub set_last_identity : ObjectInfo → List Pin → List Pin
set_last_identity info [] = []
set_last_identity info (p ∷ []) = record p { identity = info } ∷ []
set_last_identity info (p ∷ q ∷ ps) = p ∷ set_last_identity info (q ∷ ps)

-- `denied = quarantined = true`
abbrev pub quarantine : Lease → Lease
quarantine l = record l { denied = true; quarantined = true }

abbrev pub quarantine_unless : Bool → Lease → Lease
quarantine_unless closed l = if closed then l else quarantine l

-- An object is still the one whose identity was recorded.
abbrev pub same : ObjectInfo → ObjectInfo → Bool
same a b = a.volume == b.volume && a.file == b.file

abbrev pub pin_current : Pin → Sid → ObjectInfo → Bool
pin_current pin sid current =
    object_valid current sid (is_directory pin.identity) pin.owner pin.dacl
    && same current pin.identity

-- A slot of `exchange_reads` that `release` gives up.
abbrev pub retire_read : ExchangeRead → ExchangeRead
retire_read r = record r {
  receipt = record (r.receipt) { token = 0 };
  nonce = replicate 16 0;
  bytes = [];
}

-- The kind of store decides the directory: 6, 3 or 5 is its index among the pins.
abbrev pub directory_index : Lease → ℕ
directory_index l = if l.kind == 3 then 6 else if l.kind == 4 then 3 else 5

abbrev pub directory : Lease → Pin
directory l = get_or l.pins (directory_index l) no_pin

-- A lease has all its pins: nine of the app, five of the bridge.
abbrev pub has_all_pins : Lease → Bool
has_all_pins l = length l.pins == (if l.role == app then 9 else 5)

abbrev pub target_call : Lease → Sid → Call
target_call l sid =
    if l.kind == 3
    then association_open (directory l).handle sid
    else credential_open (directory l).handle l.kind sid
