-- ===== src/Diagnostics/Buffers/Wiped.antt =====
-- What a release leaves in the bytes of its buffer.
use shiroha_quiz.Base.{
  ℕ, ◌+◌, ◌≤◌, ◌<◌, ◌≡◌, Bool, true, false, not, ◌||◌, leb, if-both, length, set, arith,
}
use shiroha_quiz.Memory.{Memory, clear}
use shiroha_quiz.Diagnostics.Native.{Outcome, returns, throws}
use shiroha_quiz.Diagnostics.Budget.{Ledger, reserve_abi}
use shiroha_quiz.Diagnostics.Buffers.{Slot, Pool, slot_at, freed, release_reserved, release}

clear-inside : (p n a : ℕ) (m : Memory) → p ≤ a → a < p + n → clear p n m a ≡ 0
unfolding clear
clear-inside p n a m l r = ground arith

freed-wiped :
    (i : ℕ) (call : Outcome (Unit {0})) (slot : Slot) (p : Pool) (a : ℕ)
    → slot.ptr ≤ a
    → a < slot.ptr + slot.capacity
    → (freed i call slot p).1.memory a ≡ 0
unfolding freed
freed-wiped i (returns u) slot p a l r = clear-inside slot.ptr slot.capacity a p.memory l r
freed-wiped i throws slot p a l r = clear-inside slot.ptr slot.capacity a p.memory l r

release_reserved-wiped :
    (i : ℕ) (call : Outcome (Unit {0})) (slot : Slot) (p : Pool) (r : Bool × Ledger) (a : ℕ)
    → r.0 ≡ true
    → slot.ptr ≤ a
    → a < slot.ptr + slot.capacity
    → (release_reserved i call slot p r).1.memory a ≡ 0
unfolding release_reserved
release_reserved-wiped i call slot p (true, k) a e l r =
    freed-wiped i call slot (record p { ledger = k }) a l r
release_reserved-wiped i call slot p (false, k) a e l r = absurd (cc e)

-- A release that is attempted for the first time, within the budget, leaves no byte of the buffer, whether
-- its call returns or throws.
pub release-wiped :
    (i : ℕ) (call : Outcome (Unit {0})) (p : Pool) (a : ℕ)
    → i < length p.slots
    → (slot_at i p).allocated_ever ≡ true
    → (slot_at i p).release_attempted ≡ false
    → (reserve_abi 6 45 p.ledger).0 ≡ true
    → (slot_at i p).ptr ≤ a
    → a < (slot_at i p).ptr + (slot_at i p).capacity
    → (release i call p).1.memory a ≡ 0
unfolding release
release-wiped i call p a inside ever waits room l r =
    let Goal = λ (r : Bool × Pool). r.1.memory a ≡ 0 in
    let slot = record (slot_at i p) { release_attempted = true } in
    if-both Goal (leb (length p.slots) i || not (slot_at i p).allocated_ever)
      (λ e. absurd (ground (arith, e, inside, ever)))
      λ e.
        if-both Goal (slot_at i p).release_attempted (λ f. absurd (cc (f, waits)))
          λ f.
            release_reserved-wiped i call slot (record p { slots = set p.slots i slot })
              (reserve_abi 6 45 p.ledger) a room l r
