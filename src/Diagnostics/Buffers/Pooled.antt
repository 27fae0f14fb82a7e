-- ===== src/Diagnostics/Buffers/Pooled.antt =====
-- The pool of native buffers against its ledger: which slots are in use, given back or lost.
mod Slots
unfoldable pub use Slots.*
use shiroha_quiz.Base.{
  ℕ, zero, suc, ◌+◌, ◌-◌, ◌≤◌, ◌<◌, ◌≡◌, refl, ap, ◌⊎◌, inl, inr, Bool, true, false, List, [], ◌∷◌,
  ◌++◌, get_or, set, length, arith, All, length-set, length-append, get-set_same, get-set_other,
}
use shiroha_quiz.Diagnostics.Native.{inc, CallCounts, no_counts}
use shiroha_quiz.Diagnostics.Budget.{abi_limits}
use shiroha_quiz.Diagnostics.Budget.Counters.{Counters, IsFree}
use shiroha_quiz.Diagnostics.Budget.Limits.{IsWithin, IsSettled, AllSettled-length, IsSettled-get}
use shiroha_quiz.Diagnostics.Buffers.{Slot, no_slot, new_slot, allocated}
use shiroha_quiz.Diagnostics.Buffers.Calls.{
  lost_call, served_call, lost_call-IsSettled, served_call-IsSettled, buffer-IsWithin, tried_once,
  call_counted,
}

-- What holds of the slots and of the counters between calls.
pub record IsPooled (slots : List Slot) (c : Counters) (stopped : Bool) : Type 0 where
  pub within : IsWithin c
  pub sound : All IsSlot slots
  pub allocated : c.allocated ≡ length slots
  pub allocations : length slots ≤ (get_or c.calls 5 no_counts).attempted
  pub live : c.live ≡ count (λ s. s.active) slots
  pub few : c.live ≤ 5
  pub succeeded : c.succeeded ≡ count (λ s. s.release_succeeded) slots
  pub uncertain : c.uncertain ≡ count (λ s. s.release_unknown) slots
  pub releases : c.releases ≡ (get_or c.calls 6 no_counts).attempted
  pub settles : (c.succeeded ≤ c.releases) × (c.releases ≤ c.succeeded + c.uncertain)
  pub latched : (c.uncertain ≡ 0) ⊎ (stopped ≡ true)

module _ (ss : List Slot) (c : Counters) (b : Bool) (h : IsPooled ss c b) where
  pub IsPooled-quiet :
      (c' : Counters) (b' : Bool) → c' ≡ c → (c.uncertain ≡ 0) ⊎ (b' ≡ true) → IsPooled ss c' b'
  IsPooled-quiet c' b' e g = rw e (record {
    within = h.within;
    sound = h.sound;
    allocated = h.allocated;
    allocations = h.allocations;
    live = h.live;
    few = h.few;
    succeeded = h.succeeded;
    uncertain = h.uncertain;
    releases = h.releases;
    settles = h.settles;
    latched = g;
  })

  inside : (k : ℕ) → k < 7 → k < length c.calls
  inside k lt = omega (arith, lt, AllSettled-length abi_limits c.calls h.within.settled)

  -- An allocation that gives no buffer.
  pub IsPooled-unserved :
      (f : CallCounts → CallCounts) (b' : Bool)
      → IsFree 5 c
      → IsSettled 45 (f (get_or c.calls 5 no_counts))
      → (f (get_or c.calls 5 no_counts)).attempted ≡ (get_or c.calls 5 no_counts).attempted + 1
      → (c.uncertain ≡ 0) ⊎ (b' ≡ true)
      → IsPooled ss (call_counted 5 f c) b'
  IsPooled-unserved f b' free settled one g =
      let v = f (get_or c.calls 5 no_counts) in
      let same = get-set_same c.calls 5 v no_counts (inside 5 (omega arith)) in
      let other = get-set_other c.calls 5 6 v no_counts (λ d. omega (arith, d)) in
      record {
        within =
            buffer-IsWithin 5 c h.within free _ v (inl refl) refl settled one
              (omega (arith, free.total_room)) (refl, (refl, (refl, refl)));
        sound = h.sound;
        allocated = h.allocated;
        allocations = rw same (omega (arith, one, h.allocations));
        live = h.live;
        few = h.few;
        succeeded = h.succeeded;
        uncertain = h.uncertain;
        releases = rw other h.releases;
        settles = h.settles;
        latched = g;
      }

  -- An allocation that gives a buffer, where fewer than five are in use.
  pub IsPooled-served :
      (mem capacity : ℕ) (b' : Bool)
      → IsFree 5 c
      → c.live < 5
      → (c.uncertain ≡ 0) ⊎ (b' ≡ true)
      → IsPooled
          (ss ++ new_slot mem capacity ∷ [])
          (record (call_counted 5 served_call c) { allocated = inc c.allocated; live = inc c.live })
          b'
  IsPooled-served mem capacity b' free few g =
      let v = served_call (get_or c.calls 5 no_counts) in
      let s = new_slot mem capacity in
      let one = tried_once 5 c h.within free in
      let same = get-set_same c.calls 5 v no_counts (inside 5 (omega arith)) in
      let other = get-set_other c.calls 5 6 v no_counts (λ d. omega (arith, d)) in
      let longer = length-append ss (s ∷ []) in
      let room = free.room in
      record {
        within =
            buffer-IsWithin 5 c h.within free _ v (inl refl) refl
              (served_call-IsSettled 5 c h.within free) one (omega (arith, free.total_room))
              (refl, (refl, (refl, refl)));
        sound = All-append ss s h.sound (in_use refl refl refl refl refl);
        allocated = omega (arith, longer, h.allocated, h.allocations, room);
        allocations = rw same (omega (arith, longer, one, h.allocations));
        live = omega (arith, count-append (λ x. x.active) ss s, h.live, few);
        few = omega (arith, few);
        succeeded = omega (arith, count-append (λ x. x.release_succeeded) ss s, h.succeeded);
        uncertain = omega (arith, count-append (λ x. x.release_unknown) ss s, h.uncertain);
        releases = rw other h.releases;
        settles = h.settles;
        latched = g;
      }

  module _ (i : ℕ) (lt : i < length ss) where
    abbrev slot : Slot
    slot = get_or ss i no_slot

    -- One slot is given back or lost.
    released :
        (s : Slot) (c' : Counters) (b' : Bool)
        → IsSlot s
        → IsWithin c'
        → (get_or c'.calls 5 no_counts).attempted ≡ (get_or c.calls 5 no_counts).attempted
        → c'.allocated ≡ c.allocated
        → c'.live + bit slot.active ≡ c.live + bit s.active
        → c'.live ≤ c.live
        → c'.succeeded + bit slot.release_succeeded ≡ c.succeeded + bit s.release_succeeded
        → c'.uncertain + bit slot.release_unknown ≡ c.uncertain + bit s.release_unknown
        → c'.releases ≡ (get_or c'.calls 6 no_counts).attempted
        → (c'.succeeded ≤ c'.releases) × (c'.releases ≤ c'.succeeded + c'.uncertain)
        → (c'.uncertain ≡ 0) ⊎ (b' ≡ true)
        → IsPooled (set ss i s) c' b'
    released s c' b' sound within allocations allocated live few succeeded uncertain releases
          settles g =
        let long = length-set ss i s in
        record {
          within = within;
          sound = All-set ss i s h.sound sound;
          allocated = omega (arith, long, allocated, h.allocated);
          allocations = omega (arith, long, allocations, h.allocations);
          live = omega (arith, live, h.live, count-set (λ x. x.active) ss i s lt);
          few = omega (arith, few, h.few);
          succeeded =
              omega (arith, succeeded, h.succeeded, count-set (λ x. x.release_succeeded) ss i s lt);
          uncertain =
              omega (arith, uncertain, h.uncertain, count-set (λ x. x.release_unknown) ss i s lt);
          releases = releases;
          settles = settles;
          latched = g;
        }

    module _ (waits : slot.release_attempted ≡ false) where
      facts :
          (slot.allocated_ever ≡ true)
          × ((slot.active ≡ true)
              × ((slot.release_succeeded ≡ false) × (slot.release_unknown ≡ false)))
      facts = pending slot (All-get ss i lt h.sound) waits

      -- Few slots, so that no count wraps; and one of them is in use.
      sizes : (c.uncertain ≤ 45) × ((c.succeeded ≤ 45) × (0 < c.live))
      sizes =
          let most = (IsSettled-get abi_limits c.calls 5 h.within.settled).within in
          let uncertain = count-le (λ x. x.release_unknown) ss in
          let succeeded = count-le (λ x. x.release_succeeded) ss in
          let one = count-set (λ x. x.active) ss i (back_slot slot) lt in
          let flag = ap bit facts.1.0 in
          (
            omega (arith, most, uncertain, h.uncertain, h.allocations),
            (
              omega (arith, most, succeeded, h.succeeded, h.allocations),
              omega (arith, one, flag, h.live),
            ),
          )

      -- No release is left in the budget.
      pub IsPooled-unreserved :
          IsPooled (set ss i (lost_slot slot)) (record c { uncertain = inc c.uncertain }) true
      IsPooled-unreserved =
          let (ever, (active, (succeeded, unknown))) = facts in
          let flag = ap bit unknown in
          let small = sizes.0 in
          released (lost_slot slot) _ true (lost ever active refl succeeded refl)
            (record {
              settled = h.within.settled;
              counted = h.within.counted;
              total_within = h.within.total_within;
              stepped = h.within.stepped;
              came_back = h.within.came_back;
              completes = h.within.completes;
              accepts = h.within.accepts;
            })
            refl refl (omega arith) (omega arith) (omega arith) (omega (arith, flag, small))
            h.releases (h.settles.0, omega (arith, h.settles.1, small)) (inr refl)

      pub IsPooled-lost :
          IsFree 6 c
          → IsPooled
              (set ss i (lost_slot slot))
              (record (call_counted 6 lost_call c) {
                releases = inc c.releases;
                uncertain = inc c.uncertain;
              })
              true
      IsPooled-lost free =
          let (ever, (active, (succeeded, unknown))) = facts in
          let v = lost_call (get_or c.calls 6 no_counts) in
          let one = tried_once 6 c h.within free in
          let flag = ap bit unknown in
          let small = sizes.0 in
          let room = free.room in
          released (lost_slot slot) _ true (lost ever active refl succeeded refl)
            (buffer-IsWithin 6 c h.within free _ v (inr refl) refl
              (lost_call-IsSettled 6 c h.within free) one (omega (arith, free.total_room))
              (refl, (refl, (refl, refl))))
            (ap (λ x. x.attempted) (get-set_other c.calls 6 5 v no_counts (λ d. omega (arith, d))))
            refl (omega arith) (omega arith) (omega arith) (omega (arith, flag, small))
            (rw (get-set_same c.calls 6 v no_counts (inside 6 (omega arith)))
              (omega (arith, h.releases, one, room)))
            (
              omega (arith, h.settles.0, h.releases, room),
              omega (arith, h.settles.1, small, h.releases, room),
            )
            (inr refl)

      pub IsPooled-back :
          (b' : Bool)
          → IsFree 6 c
          → (c.uncertain ≡ 0) ⊎ (b' ≡ true)
          → IsPooled
              (set ss i (back_slot slot))
              (record (call_counted 6 served_call c) {
                releases = inc c.releases;
                succeeded = inc c.succeeded;
                live = c.live - 1;
              })
              b'
      IsPooled-back b' free g =
          let (ever, (active, (succeeded, unknown))) = facts in
          let v = served_call (get_or c.calls 6 no_counts) in
          let one = tried_once 6 c h.within free in
          let used = ap bit active in
          let flag = ap bit succeeded in
          let (few, (small, some_live)) = sizes in
          let room = free.room in
          released (back_slot slot) _ b' (given_back ever refl refl refl unknown)
            (buffer-IsWithin 6 c h.within free _ v (inr refl) refl
              (served_call-IsSettled 6 c h.within free) one (omega (arith, free.total_room))
              (refl, (refl, (refl, refl))))
            (ap (λ x. x.attempted) (get-set_other c.calls 6 5 v no_counts (λ d. omega (arith, d))))
            refl (omega (arith, used, some_live)) (omega arith) (omega (arith, flag, small))
            (omega arith)
            (rw (get-set_same c.calls 6 v no_counts (inside 6 (omega arith)))
              (omega (arith, h.releases, one, room)))
            (
              omega (arith, h.settles.0, small, h.releases, room),
              omega (arith, h.settles.1, small, h.releases, room),
            )
            g
