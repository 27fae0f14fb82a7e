-- ===== src/Leases/Accounts.antt =====
-- Handles counted: how often the environment gave one out, how often it was passed to a closing call,
-- and how often the state holds it.
use shiroha_quiz.Base.{
  ℕ, zero, suc, ◌+◌, ◌≤◌, ◌≡◌, Bool, true, false, List, [], ◌∷◌, arith, ◌==◌, if◌then◌else◌, get_or,
  set,
}
use shiroha_quiz.Machine.{
  Handle, null, invalid, os, Call, local_directory, child, association_open, credential_open,
  temporary_create, exchange_lock, exchange_open, discovery_open, close, exchange_unlock, History,
  replace_file, credential_replace, discovery_replace, exchange_delete, Pin, ExchangeReceipt,
  ExchangeRead, no_read, no_receipt, Lease, Locals, Context,
}

abbrev pub weigh : ℕ → Handle → ℕ
weigh n null = 0
weigh n invalid = 0
weigh n (os m) = if m == n then 1 else 0

-- The calls that give out a handle.
abbrev pub opens : Call → Bool
opens local_directory = true
opens (child h name d create sid) = true
opens (association_open h sid) = true
opens (credential_open h k sid) = true
opens (temporary_create h name sid) = true
opens (exchange_lock info sid) = true
opens (exchange_open h name mode sid) = true
opens (discovery_open h k) = true
opens c = false

-- The calls that take effect on a name of a directory: the renames, and the deletion of an exchange
-- file.
abbrev pub commits : Call → Bool
commits (replace_file h d replace) = true
commits (credential_replace h d k replace) = true
commits (discovery_replace h d k replace) = true
commits (exchange_delete h) = true
commits c = false

-- The handle that a call closes.
abbrev pub closing : Call → Handle
closing (close h) = h
closing (exchange_unlock h) = h
closing c = null

unfoldable pub opened : ℕ → History → ℕ
opened n [] = 0
opened n (e ∷ es) = (if opens e.call then weigh n e.answer.handle else 0) + opened n es

unfoldable pub closed : ℕ → History → ℕ
closed n [] = 0
closed n (e ∷ es) = weigh n (closing e.call) + closed n es

unfoldable pub pins_weight : ℕ → List Pin → ℕ
pins_weight n [] = 0
pins_weight n (p ∷ ps) = weigh n p.handle + pins_weight n ps

unfoldable pub receipts_weight : ℕ → List ExchangeReceipt → ℕ
receipts_weight n [] = 0
receipts_weight n (r ∷ rs) = weigh n r.pin + receipts_weight n rs

unfoldable pub reads_weight : ℕ → List ExchangeRead → ℕ
reads_weight n [] = 0
reads_weight n (r ∷ rs) = weigh n r.pin + reads_weight n rs

-- What a lease holds beside its pins.
abbrev pub lease_weight : ℕ → Lease → ℕ
lease_weight n l =
    weigh n l.target
    + weigh n l.temporary
    + weigh n l.exchange.handle
    + weigh n l.discovery.handle
    + receipts_weight n l.exchange_receipts
    + reads_weight n l.exchange_reads

abbrev pub locals_weight : ℕ → Locals → ℕ
locals_weight n v =
    weigh n v.observed + weigh n v.file + weigh n v.scratch + weigh n v.lock + weigh n v.pin

abbrev pub held_weight : ℕ → Context → ℕ
held_weight n c = lease_weight n c.lease + locals_weight n c.locals

-- `k` handles are held elsewhere. The pins stay as they are, and quarantine is not lifted.
pub record IsCovered (n k : ℕ) (pins : List Pin) (q : Bool) (c : Context) : Type 0 where
  pub covered : closed n c.history + held_weight n c + k ≤ opened n c.history
  pub same_pins : c.lease.pins ≡ pins
  pub latched : q ≡ true → c.lease.quarantined ≡ true

pub receipts_weight-set :
    (n i : ℕ) (r : ExchangeReceipt) (rs : List ExchangeReceipt)
    → receipts_weight n (set rs i r) + weigh n (get_or rs i no_receipt).pin
      ≤ receipts_weight n rs + weigh n r.pin
unfolding receipts_weight
receipts_weight-set n i r [] = omega arith
receipts_weight-set n zero r (x ∷ rs) = omega arith
receipts_weight-set n (suc i) r (x ∷ rs) = omega (arith, receipts_weight-set n i r rs)

pub reads_weight-set :
    (n i : ℕ) (r : ExchangeRead) (rs : List ExchangeRead)
    → reads_weight n (set rs i r) + weigh n (get_or rs i no_read).pin
      ≤ reads_weight n rs + weigh n r.pin
unfolding reads_weight
reads_weight-set n i r [] = omega arith
reads_weight-set n zero r (x ∷ rs) = omega arith
reads_weight-set n (suc i) r (x ∷ rs) = omega (arith, reads_weight-set n i r rs)
