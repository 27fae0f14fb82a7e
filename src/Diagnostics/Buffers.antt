-- ===== src/Diagnostics/Buffers.antt =====
-- windows/external_native/diagnostics/l1_crypto_probe.h, the pool of native buffers. The slots of the pool
-- are those in use, so that `used_` is their number; an address of 0 is null.
pub mod Symbols
pub mod Wiped
mod Calls
pub mod Pooled
pub mod Kept
pub mod Runs
pub mod Settled
use shiroha_quiz.Base.{
  ℕ, zero, suc, ◌+◌, ◌-◌, Bool, true, false, not, ◌&&◌, ◌||◌, Option, none, some, List, [], ◌∷◌,
  ◌++◌, ltb, leb, ◌==◌, if◌then◌else◌, is_empty, get_or, set, length, codes, Bytes, bytes_eq,
}
use shiroha_quiz.Status.{max_bytes}
use shiroha_quiz.Memory.{Memory, clear}
use shiroha_quiz.Diagnostics.Native.{inc, CallCounts, Outcome, returns, throws}
use shiroha_quiz.Diagnostics.Budget.{
  Ledger, Clock, minus_one, stop, reserve_abi, check_clock, count_abi,
}

pub record Slot : Type 0 where
  pub ptr : ℕ
  pub capacity : ℕ
  pub allocated_ever : Bool
  pub active : Bool
  pub release_attempted : Bool
  pub release_succeeded : Bool
  pub release_unknown : Bool

abbrev pub no_slot : Slot
no_slot = record {
  ptr = 0;
  capacity = 0;
  allocated_ever = false;
  active = false;
  release_attempted = false;
  release_succeeded = false;
  release_unknown = false;
}

abbrev pub new_slot : ℕ → ℕ → Slot
new_slot mem capacity = record no_slot {
  ptr = mem;
  capacity = capacity;
  allocated_ever = true;
  active = true;
}

-- The pool, the ledger that it reports to, and the memory that its buffers stand in.
pub record Pool : Type 0 where
  pub slots : List Slot
  pub ledger : Ledger
  pub memory : Memory

abbrev pub slot_at : ℕ → Pool → Slot
slot_at i p = get_or p.slots i no_slot

-- `allocate` behind its reservation. The result is the address and the slot.
unfoldable pub allocated : ℕ → Outcome ℕ → Pool → Option (ℕ × ℕ) × Pool
unfolding stop clear
allocated capacity throws p = (
  none,
  record p {
    ledger =
        stop (codes "buffer_alloc_exception") minus_one (codes "SETTLEMENT_UNKNOWN")
          (count_abi 5 (λ c. record c { unknown = inc c.unknown }) p.ledger);
  },
)
allocated capacity (returns mem) p =
    if mem == 0
    then (
      none,
      record p {
        ledger = stop (codes "buffer_alloc_null") 3 (codes "BUDGET_EXCEEDED") (
            count_abi 5
              (λ c. record c {
                returned = inc c.returned;
                settled = inc c.settled;
                returned_failure = inc c.returned_failure;
              })
              p.ledger);
      },
    )
    else (
      some (mem, length p.slots),
      record {
        slots = p.slots ++ new_slot mem capacity ∷ [];
        memory = clear mem capacity p.memory;
        ledger =
            count_abi 5
              (λ c. record c {
                returned = inc c.returned;
                settled = inc c.settled;
                accepted = inc c.accepted;
              })
              (record (p.ledger) {
                buffers_allocated = inc p.ledger.buffers_allocated;
                buffers_live = inc p.ledger.buffers_live;
              });
      },
    )

abbrev pub with_ledger : Pool → Ledger → Pool
with_ledger p l = record p { ledger = l }

unfoldable pub allocate_reserved : ℕ → Outcome ℕ → Pool → Bool × Ledger → Option (ℕ × ℕ) × Pool
unfolding allocated
allocate_reserved capacity call p (false, l) = (none, with_ledger p l)
allocate_reserved capacity call p (true, l) = allocated capacity call (with_ledger p l)

-- `allocate`, whose two out-parameters no caller leaves null. `available` says whether the function was
-- resolved, and `call` is what it returns where it is called.
unfoldable pub allocate : ℕ → Bool → Clock → Outcome ℕ → Pool → Option (ℕ × ℕ) × Pool
unfolding stop check_clock reserve_abi allocate_reserved
allocate capacity available clock call p =
    if p.ledger.stopped
      || (capacity == 0
          || (ltb max_bytes capacity
              || (leb 64 (length p.slots) || (leb 5 p.ledger.buffers_live || not available))))
    then (
      none,
      with_ledger p
          (stop (codes "buffer_alloc_precondition") minus_one (codes "BUDGET_EXCEEDED") p.ledger),
    )
    else (let (fresh, l) = check_clock clock (codes "buffer_alloc") p.ledger in
        if not fresh
        then (none, with_ledger p l)
        else allocate_reserved capacity call p (reserve_abi 5 45 l))

-- `release` behind its reservation; `call` throws also where there is no function to call. The buffer is
-- wiped before it is given back.
unfoldable pub freed : ℕ → Outcome (Unit {0}) → Slot → Pool → Bool × Pool
unfolding stop clear
freed i (returns u) slot p = (
  true,
  record {
    memory = clear slot.ptr slot.capacity p.memory;
    slots = set p.slots i (record slot { ptr = 0; active = false; release_succeeded = true });
    ledger =
        count_abi 6
          (λ c. record c {
            returned = inc c.returned;
            accepted = inc c.accepted;
            settled = inc c.settled;
          })
          (record (p.ledger) {
            releases_attempted = inc p.ledger.releases_attempted;
            releases_succeeded = inc p.ledger.releases_succeeded;
            buffers_live = p.ledger.buffers_live - 1;
          });
  },
)
freed i throws slot p = (
  false,
  record {
    memory = clear slot.ptr slot.capacity p.memory;
    slots = set p.slots i (record slot { release_unknown = true });
    ledger = stop (codes "buffer_release_unknown") minus_one (codes "SETTLEMENT_UNKNOWN") (
        count_abi 6 (λ c. record c { unknown = inc c.unknown })
          (record (p.ledger) {
            releases_attempted = inc p.ledger.releases_attempted;
            releases_unknown = inc p.ledger.releases_unknown;
          }));
  },
)

unfoldable pub release_reserved : ℕ → Outcome (Unit {0}) → Slot → Pool → Bool × Ledger → Bool × Pool
unfolding freed stop
release_reserved i call slot p (true, l) = freed i call slot (with_ledger p l)
release_reserved i call slot p (false, l) = (
  false,
  record p {
    slots = set p.slots i (record slot { release_unknown = true });
    ledger =
        stop (codes "free_budget_unsettled") minus_one (codes "SETTLEMENT_UNKNOWN")
          (record l { releases_unknown = inc l.releases_unknown });
  },
)

-- `release`: at most one attempt for each slot, whatever came of it.
unfoldable pub release : ℕ → Outcome (Unit {0}) → Pool → Bool × Pool
unfolding stop reserve_abi release_reserved
release i call p =
    if leb (length p.slots) i || not (slot_at i p).allocated_ever
    then (
      false,
      with_ledger p
          (stop (codes "unknown_buffer_slot") minus_one (codes "OWNERSHIP_UNKNOWN") p.ledger),
    )
    else if (slot_at i p).release_attempted
    then (
      false,
      with_ledger p (
          stop (codes "duplicate_buffer_release") minus_one (codes "OWNERSHIP_UNKNOWN")
            (record (p.ledger) {
              duplicate_release_attempts = inc p.ledger.duplicate_release_attempts;
            })),
    )
    else (let slot = record (slot_at i p) { release_attempted = true } in
        release_reserved i call slot (record p { slots = set p.slots i slot })
          (reserve_abi 6 45 p.ledger))

-- `release_all_remaining`, from the last slot; `call` says how the call for each slot comes back.
unfoldable pub release_from : ℕ → (ℕ → Outcome (Unit {0})) → Pool → Pool
unfolding release
release_from zero call p = p
release_from (suc i) call p =
    let released = (release i (call i) p).1 in
    let p' =
      if (slot_at i p).allocated_ever && not (slot_at i p).release_attempted then released else p in
    release_from i call p'

unfoldable pub release_all_remaining : (ℕ → Outcome (Unit {0})) → Pool → Pool
unfolding release_from
release_all_remaining call p = release_from (length p.slots) call p
