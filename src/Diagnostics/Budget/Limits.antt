-- ===== src/Diagnostics/Budget/Limits.antt =====
-- The calls of the ledger against its budgets.
mod Settled
unfoldable pub use Settled.*
use shiroha_quiz.Base.{
  ℕ, zero, suc, ◌+◌, ◌≤◌, ◌<◌, ◌≡◌, refl, ap, ◌∙◌, Bool, true, false, not, ◌&&◌, ◌||◌, Option, List,
  [], ◌∷◌, ltb, ◌==◌, if◌then◌else◌, if-both, get_or, set, length, codes, Bytes, bytes_eq, arith,
  get-set_same, set-set, All, get-set_other, inl, inr,
}
use shiroha_quiz.Diagnostics.Native.{inc, CallCounts, no_counts, NativeObservation, Outcome}
use shiroha_quiz.Diagnostics.Budget.{
  Ledger, new_ledger, PrimitiveCategory, category_index, abi_limits, Verdict, pass, verdict,
  native_missing, native_unknown, native_incomplete, calls_at, Clock, Last, invoke_and_check,
}
use shiroha_quiz.Diagnostics.Budget.Counters.{
  Counters, counters, Moved, unmoved, thrown, returned_late, rejected, accepted_call, IsFree,
  invoke_and_check-Served, count_try, count_throw, count_return, count_complete, count_accept,
}

pub record IsWithin (c : Counters) : Type 0 where
  pub settled : AllSettled abi_limits c.calls
  pub counted : c.total ≡ attempts c.calls
  pub total_within : c.total ≤ 106
  -- Allocations and releases are the last two categories; the others are the calls of a step.
  pub stepped :
      c.attempted + (get_or c.calls 5 no_counts).attempted + (get_or c.calls 6 no_counts).attempted
      ≡ c.total
  pub came_back : c.returned ≤ c.attempted
  pub completes : c.completed ≤ c.returned
  pub accepts : c.accepted ≤ c.completed

unused-IsSettled : (n : ℕ) → IsSettled n no_counts
unused-IsSettled n = record {
  within = omega arith;
  came_back = omega arith;
  judged = omega arith;
  known = refl;
}

pub new_ledger-IsWithin : IsWithin (counters new_ledger)
new_ledger-IsWithin =
    let z = unused-IsSettled in
    record {
      settled = (z 1, (z 3, (z 3, (z 6, (z 3, (z 45, (z 45, tt)))))));
      counted = refl;
      total_within = omega arith;
      stepped = refl;
      came_back = omega arith;
      completes = omega arith;
      accepts = omega arith;
    }

-- The counters behind one attempt in a category that is no allocation or release.
step-IsWithin :
    (k : ℕ) (v : CallCounts) (c c' : Counters)
    → k < 5
    → IsWithin c
    → IsFree k c
    → c'.calls ≡ set c.calls k v
    → IsSettled (get_or abi_limits k 0) v
    → v.attempted ≡ (get_or c.calls k no_counts).attempted + 1
    → c'.total ≡ c.total + 1
    → c'.attempted ≡ c.attempted + 1
    → (c'.returned ≤ c'.attempted) × (c'.completed ≤ c'.returned) × (c'.accepted ≤ c'.completed)
    → IsWithin c'
step-IsWithin k v c c' lt h free calls settled one total attempted order =
    let inside : k < length c.calls =
      omega (arith, lt, AllSettled-length abi_limits c.calls h.settled) in
    let sum = attempts-set c.calls k v inside in
    let five = get-set_other c.calls k 5 v no_counts (λ e. omega (arith, e, lt)) in
    let six = get-set_other c.calls k 6 v no_counts (λ e. omega (arith, e, lt)) in
    record {
      settled = rw calls (AllSettled-set abi_limits c.calls k v h.settled settled);
      counted = rw calls (omega (arith, h.counted, sum, one, total));
      total_within = omega (arith, total, free.total_room);
      stepped = rw (calls, five, six) (omega (arith, h.stepped, attempted, total));
      came_back = order.0;
      completes = order.1;
      accepts = order.2;
    }

abbrev tried : CallCounts → CallCounts
tried x = record x { attempted = inc x.attempted }

abbrev pub back : Bool → CallCounts → CallCounts
back u x = record x {
  returned = inc x.returned;
  settled = if u then x.settled else inc x.settled;
  unknown = if u then inc x.unknown else x.unknown;
}

abbrev good : CallCounts → CallCounts
good x = record x { accepted = inc x.accepted }

-- A call that is back is settled or unknown.
known_once :
    (u : Bool) (settled unknown : ℕ)
    → settled + unknown < 45
    → (if u then settled else inc settled) + (if u then inc unknown else unknown)
      ≡ settled + unknown + 1
known_once true settled unknown h = omega (arith, h)
known_once false settled unknown h = omega (arith, h)

module _ (k : ℕ) (c : Counters) (lt : k < 5) (h : IsWithin c) (free : IsFree k c) where
  abbrev old : CallCounts
  old = get_or c.calls k no_counts

  inside : k < length c.calls
  inside = omega (arith, lt, AllSettled-length abi_limits c.calls h.settled)

  -- The counts of the category once the call is back.
  back-IsSettled :
      (u : Bool)
      → let v = back u (tried old) in
        IsSettled (get_or abi_limits k 0) v
        × (v.attempted ≡ old.attempted + 1)
        × (v.accepted < v.returned)
  back-IsSettled u =
      let s = IsSettled-get abi_limits c.calls k h.settled in
      let m = abi_limits-le k in
      (
        record {
          within = omega (arith, free.room, m);
          came_back = omega (arith, s.came_back, free.room, m);
          judged = omega (arith, s.judged, s.came_back, free.room, m);
          known =
              known_once u old.settled old.unknown (omega (arith, s.known, free.room, m))
              ∙ omega (arith, s.known, free.room, m);
        },
        omega (arith, free.room, m),
        omega (arith, s.judged, s.came_back, free.room, m),
      )

  thrown-IsWithin : IsWithin (count_throw k (count_try k c))
  thrown-IsWithin =
      let s = IsSettled-get abi_limits c.calls k h.settled in
      let m = abi_limits-le k in
      let v = record (tried old) { unknown = inc old.unknown } in
      step-IsWithin k v c _ lt h free
        (change-set k (λ x. record x { unknown = inc x.unknown }) (tried old) c.calls _ inside refl)
        (record {
          within = omega (arith, free.room, m);
          came_back = omega (arith, s.came_back, free.room, m);
          judged = s.judged;
          known = omega (arith, s.known, free.room, m);
        })
        (omega (arith, free.room, m)) (omega (arith, free.total_room))
        (omega (arith, free.total_room, h.stepped))
        (omega (arith, h.came_back, h.stepped, free.total_room), h.completes, h.accepts)

  returned-IsWithin : (u : Bool) → IsWithin (count_return k u (count_try k c))
  returned-IsWithin u =
      let b = back-IsSettled u in
      step-IsWithin k (back u (tried old)) c _ lt h free
        (change-set k (back u) (tried old) c.calls _ inside refl) b.0 b.1
        (omega (arith, free.total_room)) (omega (arith, free.total_room, h.stepped))
        (
          omega (arith, h.came_back, h.stepped, free.total_room),
          omega (arith, h.completes, h.came_back, h.stepped, free.total_room),
          h.accepts,
        )

  rejected-IsWithin : (u : Bool) → IsWithin (count_complete (count_return k u (count_try k c)))
  rejected-IsWithin u =
      let b = back-IsSettled u in
      step-IsWithin k (back u (tried old)) c _ lt h free
        (change-set k (back u) (tried old) c.calls _ inside refl) b.0 b.1
        (omega (arith, free.total_room)) (omega (arith, free.total_room, h.stepped))
        (
          omega (arith, h.came_back, h.stepped, free.total_room),
          omega (arith, h.completes, h.came_back, h.stepped, free.total_room),
          omega (arith, h.accepts, h.completes, h.came_back, h.stepped, free.total_room),
        )

  accepted-IsWithin :
      (u : Bool) → IsWithin (count_accept k (count_complete (count_return k u (count_try k c))))
  accepted-IsWithin u =
      let (settled, one, less) = back-IsSettled u in
      let m = abi_limits-le k in
      step-IsWithin k (good (back u (tried old))) c _ lt h free
        (change-set k good (back u (tried old)) c.calls _ inside
          (change-set k (back u) (tried old) c.calls _ inside refl))
        (record {
          within = settled.within;
          came_back = settled.came_back;
          judged = omega (arith, less);
          known = settled.known;
        })
        one (omega (arith, free.total_room)) (omega (arith, free.total_room, h.stepped))
        (
          omega (arith, h.came_back, h.stepped, free.total_room),
          omega (arith, h.completes, h.came_back, h.stepped, free.total_room),
          omega (arith, h.accepts, h.completes, h.came_back, h.stepped, free.total_room),
        )

Moved-IsWithin :
    (k : ℕ) (c c' : Counters) → k < 5 → IsWithin c → IsFree k c → Moved k c c' → IsWithin c'
Moved-IsWithin k c c' lt h free (unmoved e) = rw e h
Moved-IsWithin k c c' lt h free (thrown e) = rw e (thrown-IsWithin k c lt h free)
Moved-IsWithin k c c' lt h free (returned_late u e) = rw e (returned-IsWithin k c lt h free u)
Moved-IsWithin k c c' lt h free (rejected u e) = rw e (rejected-IsWithin k c lt h free u)
Moved-IsWithin k c c' lt h free (accepted_call u e) = rw e (accepted-IsWithin k c lt h free u)

pub category_index-lt : (cat : PrimitiveCategory) → category_index cat < 5
category_index-lt cat = ground arith

-- A call leaves a ledger that was within its budgets within them, however the call comes back.
pub invoke_and_check-IsWithin :
    (cat : PrimitiveCategory) (step : Bytes) (expected : ℕ) (before : Clock) (call : Outcome ℕ)
    (shape_ok : ℕ → Bool) (native : Option NativeObservation) (after : Clock) (last : Last)
    (l : Ledger)
    → IsWithin (counters l)
    → IsWithin
        (counters (invoke_and_check cat step expected before call shape_ok native after last l).1)
invoke_and_check-IsWithin cat step expected before call shape_ok native after last l h =
    elim (invoke_and_check-Served cat step expected shape_ok native after last before call l) [
      | inl e ↦ rw e h
      | inr m ↦ Moved-IsWithin (category_index cat) (counters l) _ (category_index-lt cat) h m.0 m.1
    ]
