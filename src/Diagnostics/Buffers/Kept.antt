-- ===== src/Diagnostics/Buffers/Kept.antt =====
-- The operations of the pool against the relation of its slots to its ledger.
use mathlib.Core.Path.{subst}
use shiroha_quiz.Base.{
  ℕ, zero, suc, ◌-◌, ◌<◌, ◌≡◌, refl, sym, ap, ◌∙◌, ◌⊎◌, inl, inr, Bool, true, false, not, ◌&&◌,
  ◌||◌, Option, [], ◌∷◌, ◌++◌, ltb, leb, ◌==◌, if◌then◌else◌, if-both, get_or, set, set-set, length,
  codes, arith,
}
use shiroha_quiz.Status.{max_bytes}
use shiroha_quiz.Diagnostics.Native.{inc, CallCounts, no_counts, Outcome, returns, throws}
use shiroha_quiz.Diagnostics.Budget.{Ledger, Clock, check_clock, reserve_abi, stop, abi_limits}
use shiroha_quiz.Diagnostics.Budget.Counters.{
  Counters, counters, counters-check_clock, reserve_abi-taken, reserve_abi-refused, IsFree,
  count_reserve, change,
}
use shiroha_quiz.Diagnostics.Budget.Limits.{change-set, AllSettled-length}
use shiroha_quiz.Diagnostics.Buffers.{
  Slot, no_slot, new_slot, Pool, slot_at, allocated, allocate_reserved, allocate, freed,
  release_reserved, release, release_from,
}
use shiroha_quiz.Diagnostics.Buffers.Calls.{
  lost_call, failed_call, lost_call-IsSettled, failed_call-IsSettled, tried_once, call_counted,
}
use shiroha_quiz.Diagnostics.Buffers.Pooled.{
  IsPooled, IsPooled-quiet, IsPooled-unserved, IsPooled-served, IsPooled-unreserved, IsPooled-lost,
  IsPooled-back, lost_slot, back_slot,
}

abbrev pub IsKept : Pool → Type 0
IsKept p = IsPooled p.slots (counters p.ledger) p.ledger.stopped

-- The pool reports to a ledger that has counted what `c` says and the reservation of one more call.
IsReserved : ℕ → Counters → Bool × Ledger → Type 0
IsReserved k c r =
    (r.0 ≡ false → counters r.1 ≡ c)
    × (r.0 ≡ true → IsFree k c × (counters r.1 ≡ count_reserve k c))

reserve_abi-IsReserved :
    (k : ℕ) (l : Ledger) → IsReserved k (counters l) (reserve_abi k (get_or abi_limits k 0) l)
unfolding IsReserved
reserve_abi-IsReserved k l =
    let limit = get_or abi_limits k 0 in
    (
      reserve_abi-refused k limit l,
      λ e.
          (let (free, same) = reserve_abi-taken k limit l e in
            (record { room = free.0; total_room = free.1 }, same)),
    )

-- The change of a category behind its reservation.
reserved_change :
    (k : ℕ) (f : CallCounts → CallCounts) (c d : Counters)
    → k < length c.calls
    → d ≡ count_reserve k c
    → change k f d ≡ record (call_counted k (λ x. f (record x { attempted = inc x.attempted })) c) {
      total = inc c.total;
    }
reserved_change k f c d inside same =
    let v = record (get_or c.calls k no_counts) {
      attempted = inc (get_or c.calls k no_counts).attempted;
    } in
    ap (change k f) same
    ∙ ap (λ x. record c { total = inc c.total; calls = x })
        (change-set k f v c.calls (set c.calls k v) inside refl)

abbrev failed_back : CallCounts → CallCounts
failed_back x = record x {
  returned = inc x.returned;
  settled = inc x.settled;
  returned_failure = inc x.returned_failure;
}

abbrev served_back : CallCounts → CallCounts
served_back x = record x {
  returned = inc x.returned;
  settled = inc x.settled;
  accepted = inc x.accepted;
}

module _ (p : Pool) (c : Counters) (b : Bool) (h : IsPooled p.slots c b)
    (same : counters p.ledger ≡ count_reserve 5 c) (free : IsFree 5 c) where
  inside : (k : ℕ) → k < 7 → k < length c.calls
  inside k lt = omega (arith, lt, AllSettled-length abi_limits c.calls h.within.settled)

  allocated-IsKept :
      (capacity : ℕ) (call : Outcome ℕ)
      → c.live < 5
      → c.uncertain ≡ 0
      → IsKept (allocated capacity call p).1
  unfolding allocated stop
  allocated-IsKept capacity throws few none_lost =
      rw
        (reserved_change 5 (λ x. record x { unknown = inc x.unknown }) c (counters p.ledger)
          (inside 5 (omega arith)) same)
        (IsPooled-unserved p.slots c b h lost_call true free (lost_call-IsSettled 5 c h.within free)
          (tried_once 5 c h.within free) (inr refl))
  allocated-IsKept capacity (returns mem) few none_lost =
      if-both (λ (r : Option (ℕ × ℕ) × Pool). IsKept r.1) (mem == 0)
        (λ e.
          rw (reserved_change 5 failed_back c (counters p.ledger) (inside 5 (omega arith)) same) (
            IsPooled-unserved p.slots c b h failed_call true free
              (failed_call-IsSettled 5 c h.within free) (tried_once 5 c h.within free) (inr refl)))
        λ e.
          subst (λ x. IsPooled (p.slots ++ new_slot mem capacity ∷ []) x p.ledger.stopped)
            (sym (
              ap (λ (x : Counters). record x { allocated = inc x.allocated; live = inc x.live })
                (reserved_change 5 served_back c (counters p.ledger) (inside 5 (omega arith))
                  same)))
            (IsPooled-served p.slots c b h mem capacity p.ledger.stopped free few (inl none_lost))

-- A reservation that is refused leaves the pool as it is.
allocate_reserved-IsKept :
    (capacity : ℕ) (call : Outcome ℕ) (p : Pool) (c : Counters) (b : Bool) (r : Bool × Ledger)
    → IsPooled p.slots c b
    → IsReserved 5 c r
    → c.live < 5
    → c.uncertain ≡ 0
    → IsKept (allocate_reserved capacity call p r).1
unfolding allocate_reserved IsReserved
allocate_reserved-IsKept capacity call p c b (false, l) h reserved few none_lost =
    IsPooled-quiet p.slots c b h (counters l) l.stopped (reserved.0 refl) (inl none_lost)
allocate_reserved-IsKept capacity call p c b (true, l) h reserved few none_lost =
    let (free, same) = reserved.1 refl in
    allocated-IsKept (record p { ledger = l }) c b h same free capacity call few none_lost

-- A pool that is not stopped has lost nothing.
none_lost : (p : Pool) → IsKept p → p.ledger.stopped ≡ false → p.ledger.releases_unknown ≡ 0
none_lost p h e = elim h.latched [ inl z ↦ z | inr t ↦ absurd (cc (t, e)) ]

pub allocate-IsKept :
    (capacity : ℕ) (available : Bool) (clock : Clock) (call : Outcome ℕ) (p : Pool)
    → IsKept p
    → IsKept (allocate capacity available clock call p).1
unfolding allocate stop
allocate-IsKept capacity available clock call p h =
    let Goal = λ (r : Option (ℕ × ℕ) × Pool). IsKept r.1 in
    let l = (check_clock clock (codes "buffer_alloc") p.ledger).1 in
    let same = counters-check_clock clock (codes "buffer_alloc") p.ledger in
    let keeps = IsPooled-quiet p.slots (counters p.ledger) p.ledger.stopped h in
    if-both Goal
      (p.ledger.stopped
        || (capacity == 0
            || (ltb max_bytes capacity
                || (leb 64 (length p.slots) || (leb 5 p.ledger.buffers_live || not available)))))
      (λ e. keeps _ true refl (inr refl))
      λ e.
        let few : p.ledger.buffers_live < 5 = ground (arith, e) in
        let safe = none_lost p h (ground (arith, e)) in
        if-both Goal (not (check_clock clock (codes "buffer_alloc") p.ledger).0)
          (λ f. keeps _ _ same (inl safe))
          λ f.
            allocate_reserved-IsKept capacity call p (counters l) l.stopped (reserve_abi 5 45 l)
              (keeps _ _ same (inl safe)) (reserve_abi-IsReserved 5 l)
              (rw (ap (λ x. x.live) same) few) (ap (λ x. x.uncertain) same ∙ safe)

-- A slot that waits for its release, and the pool behind the reservation of that release.
module _ (p : Pool) (c : Counters) (b : Bool) (i : ℕ) (h : IsPooled p.slots c b)
    (lt : i < length p.slots) (waits : (get_or p.slots i no_slot).release_attempted ≡ false) where
  abbrev marked : Slot
  marked = record (get_or p.slots i no_slot) { release_attempted = true }

  abbrev pub marked_pool : Pool
  marked_pool = record p { slots = set p.slots i marked }

  six : 6 < length c.calls
  six = omega (arith, AllSettled-length abi_limits c.calls h.within.settled)

  -- The slot is written once more.
  again :
      (s : Slot) (x c' : Counters) (b' : Bool)
      → x ≡ c'
      → IsPooled (set p.slots i s) c' b'
      → IsPooled (set (set p.slots i marked) i s) x b'
  again s x c' b' e g = rw (e, set-set p.slots i marked s) g

  freed-IsKept :
      (call : Outcome (Unit {0})) (l : Ledger)
      → IsFree 6 c
      → (c.uncertain ≡ 0) ⊎ (l.stopped ≡ true)
      → counters l ≡ count_reserve 6 c
      → IsKept (freed i call marked (record marked_pool { ledger = l })).1
  unfolding freed stop
  freed-IsKept throws l free safe same =
      let path =
        ap (λ (x : Counters). record x { releases = inc x.releases; uncertain = inc x.uncertain })
          (reserved_change 6 (λ x. record x { unknown = inc x.unknown }) c (counters l) six same) in
      again (lost_slot (slot_at i p)) _ _ true path (IsPooled-lost p.slots c b h i lt waits free)
  freed-IsKept (returns u) l free safe same =
      let path =
        ap
          (λ (x : Counters). record x {
            releases = inc x.releases;
            succeeded = inc x.succeeded;
            live = x.live - 1;
          })
          (reserved_change 6 served_back c (counters l) six same) in
      again (back_slot (slot_at i p)) _ _ l.stopped path
        (IsPooled-back p.slots c b h i lt waits l.stopped free safe)

  release_reserved-IsKept :
      (call : Outcome (Unit {0})) (r : Bool × Ledger)
      → IsReserved 6 c r
      → (r.0 ≡ true → (c.uncertain ≡ 0) ⊎ (r.1.stopped ≡ true))
      → IsKept (release_reserved i call marked marked_pool r).1
  unfolding release_reserved IsReserved stop
  release_reserved-IsKept call (true, l) reserved safe =
      let (free, same) = reserved.1 refl in freed-IsKept call l free (safe refl) same
  release_reserved-IsKept call (false, l) reserved safe =
      again (lost_slot (slot_at i p)) _ _ true
        (ap (λ (x : Counters). record x { uncertain = inc x.uncertain }) (reserved.0 refl))
        (IsPooled-unreserved p.slots c b h i lt waits)

reserve_abi-stopped :
    (k limit : ℕ) (l : Ledger) → l.stopped ≡ true → (reserve_abi k limit l).1.stopped ≡ true
unfolding reserve_abi stop
reserve_abi-stopped k limit l e =
    if-both (λ (r : Bool × Ledger). r.1.stopped ≡ true)
      (leb 106 l.abi_attempted_total || leb limit (get_or l.abi_calls k no_counts).attempted)
      (λ f. refl) (λ f. e)

pub release-IsKept :
    (i : ℕ) (call : Outcome (Unit {0})) (p : Pool) → IsKept p → IsKept (release i call p).1
unfolding release stop
release-IsKept i call p h =
    let Goal = λ (r : Bool × Pool). IsKept r.1 in
    let keeps = IsPooled-quiet p.slots (counters p.ledger) p.ledger.stopped h in
    if-both Goal (leb (length p.slots) i || not (slot_at i p).allocated_ever)
      (λ e. keeps _ true refl (inr refl))
      λ e.
        if-both Goal (slot_at i p).release_attempted (λ f. keeps _ true refl (inr refl))
          λ f.
            release_reserved-IsKept p (counters p.ledger) p.ledger.stopped i h (ground (arith, e)) f
              call (reserve_abi 6 45 p.ledger) (reserve_abi-IsReserved 6 p.ledger)
              λ t. elim h.latched [
                | inl z ↦ inl z
                | inr s ↦ inr (reserve_abi-stopped 6 45 p.ledger s)
              ]

-- Each slot that still waits is released, or left.
pub release_from-IsKept :
    (n : ℕ) (call : ℕ → Outcome (Unit {0})) (p : Pool) → IsKept p → IsKept (release_from n call p)
unfolding release_from
release_from-IsKept zero call p h = h
release_from-IsKept (suc n) call p h =
    let released = (release n (call n) p).1 in
    release_from-IsKept n call
      (if (slot_at n p).allocated_ever && not (slot_at n p).release_attempted then released else p)
      (if-both IsKept ((slot_at n p).allocated_ever && not (slot_at n p).release_attempted)
        (λ e. release-IsKept n (call n) p h) (λ e. h))
