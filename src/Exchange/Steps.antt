-- ===== src/Exchange/Steps.antt =====
-- The exchange operations keep every invariant that withstands the changes of the state.
use shiroha_quiz.Base.{ℕ, refl, Bool, false, arith, Bytes, []}
use shiroha_quiz.Status.{Status, ok}
use shiroha_quiz.Objects.{Sid, ObjectInfo}
use shiroha_quiz.Machine.{
  Handle, Environment, ExchangeRead, ExchangeReceipt, Context, Result, done, raised, failed,
  bad_alloc, exception, Place,
}
use shiroha_quiz.Machine.Keeps.{
  Keeps, ◌▹◌, Keeps-require, Keeps-pure, Keeps-raise, Keeps-settle, Keeps-attempt, Keeps-if,
  Keeps-get_lease, Keeps-get_locals, Keeps-held_at,
}
use shiroha_quiz.Leases.Accounts.{receipts_weight-set, reads_weight-set}
use shiroha_quiz.Leases.Stable.{IsPlace, frame-IsPlace, IsCalm, IsStable}
use shiroha_quiz.Leases.Covered.{exchange-IsPlace, read-IsPlace, receipt-IsPlace}
use shiroha_quiz.Leases.Steps.{
  Keeps-perform, Keeps-commit_call, Keeps-observe, Keeps-update, Keeps-update_locals,
  Keeps-quarantine_unless, Keeps-check, Keeps-set_read, Keeps-set_receipt, close_at, unlock_at,
}
use shiroha_quiz.Transactions.Steps.{Keeps-take_ticket}
use shiroha_quiz.Exchange.{
  file_place, lock_place, pin_place, deny_failed, pin_exchange, inspect_exchange,
  exchange_directory, lock_exchange, count_entries, open_exchange, read_content, exchange_content,
  pin_file, pin_kept, recheck_directory, fresh_nonce, exchange_try, release_file, keep_receipt,
  keep_read, drop_pin, exchange_done, exchange_lease, inspect_pinned, consume_try, close_settled,
  retire_ticket, settle_lease, cleanup_try, close_cleaned, cleanup_lease,
}

pub file-IsPlace : IsPlace file_place
file-IsPlace = frame-IsPlace file_place (λ n h c. omega arith) (λ c es. refl) (λ h c. refl)

lock-IsPlace : IsPlace lock_place
lock-IsPlace = frame-IsPlace lock_place (λ n h c. omega arith) (λ c es. refl) (λ h c. refl)

pin-IsPlace : IsPlace pin_place
pin-IsPlace = frame-IsPlace pin_place (λ n h c. omega arith) (λ c es. refl) (λ h c. refl)

module _ {P : Context → Type 0} (env : Environment) (stable : IsCalm env P) where
  open stable use {quiet, open_call, close_call, memory_change, move}

  pub Keeps-deny_failed {ℓ} : {A : Type ℓ} (r : Result A) → Keeps P (deny_failed r)
  unfolding deny_failed
  Keeps-deny_failed (done a) = Keeps-pure _
  Keeps-deny_failed (raised (failed s)) =
      Keeps-update env stable _ _ _ _ _ _ _ _ ▹ λ u. Keeps-raise _
  Keeps-deny_failed (raised bad_alloc) = Keeps-raise _
  Keeps-deny_failed (raised exception) = Keeps-raise _

  Keeps-pin_exchange : (sid : Sid) → Keeps P (pin_exchange env sid)
  unfolding pin_exchange
  Keeps-pin_exchange sid = Keeps-get_lease ▹ λ l.
      open_call _ _ exchange-IsPlace refl refl refl ▹ λ o. Keeps-settle _ ▹ λ u.
      Keeps-get_lease ▹ λ l. Keeps-require _ _ ▹ λ u. quiet _ refl refl refl ▹ λ answer.
      Keeps-update env stable _ _ _ _ _ _ _ _ ▹ λ u. Keeps-settle _

  Keeps-inspect_exchange : (sid : Sid) → Keeps P (inspect_exchange env sid)
  unfolding inspect_exchange
  Keeps-inspect_exchange sid =
      Keeps-get_lease ▹ λ l. Keeps-observe env stable _ ▹ λ current. Keeps-require _ _

  Keeps-exchange_directory : Keeps P (exchange_directory env)
  unfolding exchange_directory
  Keeps-exchange_directory = Keeps-check env stable ▹ λ sid. Keeps-get_lease ▹ λ l.
      Keeps-if _ _ _ (Keeps-pin_exchange sid) (Keeps-pure _) ▹ λ u.
      Keeps-attempt _ (Keeps-inspect_exchange sid) ▹ λ r. Keeps-deny_failed r ▹ λ u. Keeps-pure _

  Keeps-lock_exchange : Keeps P (lock_exchange env)
  unfolding lock_exchange
  Keeps-lock_exchange = Keeps-exchange_directory ▹ λ sid. Keeps-get_lease ▹ λ l.
      open_call _ _ lock-IsPlace refl refl refl ▹ λ o.
      Keeps-settle _ ▹ λ u. Keeps-get_locals ▹ λ v. Keeps-require _ _ ▹ λ u. Keeps-pure _

  Keeps-count_entries : (create : Bool) → Keeps P (count_entries env create)
  unfolding count_entries
  Keeps-count_entries create =
      Keeps-get_lease ▹ λ l. quiet _ refl refl refl ▹ λ a. Keeps-settle _ ▹ λ u. Keeps-require _ _

  Keeps-open_exchange :
      (p : Place) (name : Bytes) (mode : ℕ) (sid : Sid)
      → IsPlace p
      → Keeps P (open_exchange env p name mode sid)
  unfolding open_exchange
  Keeps-open_exchange p name mode sid place = Keeps-get_lease ▹ λ l.
      open_call _ _ place refl refl refl ▹ λ o.
      Keeps-settle _ ▹ λ u. Keeps-held_at p ▹ λ h. Keeps-require _ _ ▹ λ u. Keeps-pure _

  Keeps-read_content : (h : Handle) (limit : ℕ) → Keeps P (read_content env h limit)
  unfolding read_content
  Keeps-read_content h limit = quiet _ refl refl refl ▹ λ a.
      Keeps-update_locals env stable _ _ _ ▹ λ u. Keeps-settle _ ▹ λ u. Keeps-pure _

  Keeps-exchange_content :
      (kind : ℕ) (id input : Bytes) (capacity : ℕ) (create : Bool) (h : Handle)
      → Keeps P (exchange_content env kind id input capacity create h)
  unfolding exchange_content
  Keeps-exchange_content kind id input capacity create h =
      Keeps-if _ _ _
        (Keeps-perform env stable _ refl refl refl ▹ λ u. Keeps-perform env stable _ refl refl refl)
        (Keeps-read_content h _ ▹ λ bytes. Keeps-require _ _)

  Keeps-pin_kept :
      (kept : Bool) (name : Bytes) (sid : Sid) (identity : ObjectInfo)
      → Keeps P (pin_kept env kept name sid identity)
  unfolding pin_kept pin_file
  Keeps-pin_kept kept name sid identity =
      Keeps-if _ _ _
        (Keeps-open_exchange _ name 2 sid pin-IsPlace ▹ λ pin.
          Keeps-observe env stable _ ▹ λ pinned. Keeps-require _ _)
        (Keeps-pure _)

  Keeps-recheck_directory : (ticket : Bool) → Keeps P (recheck_directory env ticket)
  unfolding recheck_directory
  Keeps-recheck_directory ticket =
      Keeps-if _ _ _ (Keeps-exchange_directory ▹ λ u. Keeps-pure _) (Keeps-pure _)

  Keeps-fresh_nonce : (ticket : Bool) → Keeps P (fresh_nonce env ticket)
  unfolding fresh_nonce
  Keeps-fresh_nonce ticket =
      Keeps-if _ _ _ (quiet _ refl refl refl ▹ λ a. Keeps-settle _ ▹ λ u. Keeps-pure _)
        (Keeps-pure _)

  Keeps-exchange_try :
      (kind : ℕ) (id input : Bytes) (capacity : ℕ) (create ticket : Bool)
      → Keeps P (exchange_try env kind id input capacity create ticket)
  unfolding exchange_try
  Keeps-exchange_try kind id input capacity create ticket = Keeps-fresh_nonce ticket ▹ λ nonce.
      Keeps-lock_exchange ▹ λ locked. Keeps-exchange_directory ▹ λ sid.
      Keeps-count_entries create ▹ λ u. Keeps-open_exchange _ _ _ sid file-IsPlace ▹ λ file.
      Keeps-observe env stable _ ▹ λ identity. Keeps-get_lease ▹ λ l. Keeps-require _ _ ▹ λ u.
      Keeps-exchange_content kind id input capacity create file ▹ λ u.
      Keeps-observe env stable _ ▹ λ after. Keeps-require _ _ ▹ λ u.
      Keeps-exchange_directory ▹ λ sid.
      Keeps-pin_kept _ _ sid identity ▹ λ u. Keeps-recheck_directory ticket ▹ λ u. Keeps-pure _

  Keeps-release_file : Keeps P (release_file env)
  unfolding release_file
  Keeps-release_file = close_at env stable _ _ file-IsPlace ▹ λ file.
      unlock_at env stable _ _ lock-IsPlace ▹ λ lock.
      Keeps-quarantine_unless env stable _ ▹ λ u. Keeps-pure _

  Keeps-drop_pin : (s : Status) → Keeps P (drop_pin env s)
  unfolding drop_pin
  Keeps-drop_pin s = close_at env stable _ _ pin-IsPlace ▹ λ closed.
      Keeps-quarantine_unless env stable _ ▹ λ u. Keeps-pure _

  Keeps-keep_receipt :
      (i : ℕ) (name : Bytes) (identity : ObjectInfo) (token : ℕ)
      → Keeps P (keep_receipt env i name identity token)
  unfolding keep_receipt
  Keeps-keep_receipt i name identity token = record {
    at = move _ (record {
      same_history = λ c. refl;
      same_token = λ c. refl;
      same_role = λ c. refl;
      same_pins = λ c. refl;
      same_quarantine = λ c. refl;
      lighter = λ n c. omega (
        arith,
        receipts_weight-set n i
            (record { token = token; pin = c.locals.pin; identity = identity; name = name })
            c.lease.exchange_receipts,
      );
      later = λ c. omega arith;
      same_replacing = λ c. refl;
    });
  }

  Keeps-keep_read :
      (i : ℕ) (name : Bytes) (identity : ObjectInfo) (token : ℕ) (nonce : Bytes) (kind : ℕ)
      → Keeps P (keep_read env i name identity token nonce kind)
  unfolding keep_read
  Keeps-keep_read i name identity token nonce kind = record {
    at = move _ (record {
      same_history = λ c. refl;
      same_token = λ c. refl;
      same_role = λ c. refl;
      same_pins = λ c. refl;
      same_quarantine = λ c. refl;
      lighter = λ n c. omega (
        arith,
        reads_weight-set n i
            (record {
              receipt = record {
                token = token;
                pin = c.locals.pin;
                identity = identity;
                name = name;
              };
              nonce = nonce;
              bytes = c.locals.bytes;
              kind = kind;
            })
            c.lease.exchange_reads,
      );
      later = λ c. omega arith;
      same_replacing = λ c. refl;
    });
  }

  Keeps-exchange_done :
      (kind : ℕ) (name : Bytes) (output written receipt ticket : ℕ) (create : Bool) (slot : ℕ)
      (r : Result (Bytes × ObjectInfo)) (s : Status)
      → Keeps P (exchange_done env kind name output written receipt ticket create slot r s)
  unfolding exchange_done
  Keeps-exchange_done kind name output written receipt ticket create slot (raised r) s =
      Keeps-drop_pin s
  Keeps-exchange_done kind name output written receipt ticket create slot (done (nonce, identity))
        s =
      Keeps-if _ _ _ (Keeps-drop_pin s) (
        Keeps-if _ _ _
          (Keeps-take_ticket env stable ▹ λ token.
            Keeps-keep_receipt slot name identity token ▹ λ u. memory_change _ ▹ λ u. Keeps-pure _)
          (Keeps-if _ _ _
            (Keeps-take_ticket env stable ▹ λ token. Keeps-get_locals ▹ λ v.
              Keeps-keep_read slot name identity token nonce kind ▹ λ u.
              memory_change _ ▹ λ u. Keeps-pure _)
            (Keeps-drop_pin ok ▹ λ final. Keeps-get_locals ▹ λ v.
              Keeps-if _ _ _ (memory_change _) (Keeps-pure _) ▹ λ u. Keeps-pure _)))

  pub Keeps-exchange_lease :
      (kind : ℕ) (id input : Bytes) (output capacity written receipt ticket : ℕ) (create : Bool)
      (slot : ℕ)
      → Keeps P
          (exchange_lease env kind id input output capacity written receipt ticket create slot)
  unfolding exchange_lease
  Keeps-exchange_lease kind id input output capacity written receipt ticket create slot =
      Keeps-attempt _ (Keeps-exchange_try kind id input capacity create _) ▹ λ r.
      Keeps-release_file ▹ λ released.
      Keeps-exchange_done kind _ output written receipt ticket create slot r _

  Keeps-inspect_pinned :
      (pin : Handle) (sid : Sid) (identity : ObjectInfo)
      → Keeps P (inspect_pinned env pin sid identity)
  unfolding inspect_pinned
  Keeps-inspect_pinned pin sid identity = Keeps-observe env stable _ ▹ λ held. Keeps-require _ _

  Keeps-close_settled : (i : ℕ) → Keeps P (close_settled env i)
  unfolding close_settled
  Keeps-close_settled i = close_at env stable _ _ file-IsPlace ▹ λ file.
      close_at env stable _ _ (read-IsPlace i) ▹ λ pin.
      Keeps-set_read env stable i (λ r. record r { bytes = [] }) (λ r. refl) ▹ λ u.
      unlock_at env stable _ _ lock-IsPlace ▹ λ lock.
      Keeps-quarantine_unless env stable _ ▹ λ u. Keeps-pure _

  Keeps-close_cleaned : (i : ℕ) → Keeps P (close_cleaned env i)
  unfolding close_cleaned
  Keeps-close_cleaned i = close_at env stable _ _ file-IsPlace ▹ λ file.
      close_at env stable _ _ (receipt-IsPlace i) ▹ λ pin.
      unlock_at env stable _ _ lock-IsPlace ▹ λ lock.
      Keeps-quarantine_unless env stable _ ▹ λ u. Keeps-pure _

module _ {P : Context → Type 0} (env : Environment) (stable : IsStable env P) where
  open stable use {calm, mark}

  Keeps-consume_try : (slot : ExchangeRead) → Keeps P (consume_try env slot)
  unfolding consume_try
  Keeps-consume_try slot = Keeps-lock_exchange env calm ▹ λ locked.
      Keeps-exchange_directory env calm ▹ λ sid. Keeps-count_entries env calm false ▹ λ u.
      Keeps-inspect_pinned env calm _ sid _ ▹ λ u.
      Keeps-open_exchange env calm _ _ 4 sid file-IsPlace ▹ λ file.
      Keeps-inspect_pinned env calm _ sid _ ▹ λ u. Keeps-read_content env calm file _ ▹ λ bytes.
      Keeps-require _ _ ▹ λ u. Keeps-inspect_pinned env calm _ sid _ ▹ λ u.
      Keeps-inspect_pinned env calm _ sid _ ▹ λ u.
      Keeps-exchange_directory env calm ▹ λ last. mark ▹ λ u. Keeps-commit_call env stable _ refl

  pub Keeps-settle_lease : (consume : Bool) (i : ℕ) → Keeps P (settle_lease env consume i)
  unfolding settle_lease
  Keeps-settle_lease consume i = Keeps-set_read env calm i (retire_ticket env) (λ r. refl) ▹ λ u.
      Keeps-get_lease ▹ λ l.
      Keeps-attempt _ (Keeps-if _ _ _ (Keeps-consume_try _) (Keeps-pure _)) ▹ λ r.
      Keeps-get_locals ▹ λ v. Keeps-close_settled env calm i ▹ λ closed.
      Keeps-if _ _ _ (Keeps-update env calm _ _ _ _ _ _ _ _) (Keeps-pure _) ▹ λ u. Keeps-pure _

  Keeps-cleanup_try : (slot : ExchangeReceipt) → Keeps P (cleanup_try env slot)
  unfolding cleanup_try
  Keeps-cleanup_try slot = Keeps-lock_exchange env calm ▹ λ sid.
      Keeps-inspect_pinned env calm _ sid _ ▹ λ u.
      Keeps-open_exchange env calm _ _ 3 sid file-IsPlace ▹ λ file.
      Keeps-inspect_pinned env calm _ sid _ ▹ λ u.
      Keeps-exchange_directory env calm ▹ λ last. Keeps-commit_call env stable _ refl

  pub Keeps-cleanup_lease : (i : ℕ) → Keeps P (cleanup_lease env i)
  unfolding cleanup_lease
  Keeps-cleanup_lease i =
      Keeps-set_receipt env calm i (λ r. record r { token = 0 }) (λ r. refl) ▹ λ u.
      Keeps-get_lease ▹ λ l. Keeps-attempt _ (Keeps-cleanup_try _) ▹ λ r.
      Keeps-close_cleaned env calm i ▹ λ closed. Keeps-pure _
