-- ===== src/Diagnostics/Buffers/Calls.antt =====
-- The budgets of the ledger behind a call that allocates or releases a buffer.
use mathlib.Core.Path.{subst}
use shiroha_quiz.Base.{
  List, sym, ℕ, ◌+◌, ◌≤◌, ◌<◌, ◌≡◌, refl, ◌⊎◌, inl, inr, get_or, set, length, arith, get-set_same,
  get-set_other,
}
use shiroha_quiz.Diagnostics.Native.{inc, CallCounts, no_counts}
use shiroha_quiz.Diagnostics.Budget.{abi_limits}
use shiroha_quiz.Diagnostics.Budget.Counters.{Counters, IsFree, change}
use shiroha_quiz.Diagnostics.Budget.Limits.{
  IsSettled, IsWithin, attempts-set, IsSettled-get, AllSettled-set, AllSettled-length,
  abi_limits-le,
}

-- What becomes of the counts of a category: the call throws, returns nothing, or serves.
abbrev pub lost_call : CallCounts → CallCounts
lost_call c = record c { attempted = inc c.attempted; unknown = inc c.unknown }

abbrev pub failed_call : CallCounts → CallCounts
failed_call c = record c {
  attempted = inc c.attempted;
  returned = inc c.returned;
  settled = inc c.settled;
  returned_failure = inc c.returned_failure;
}

abbrev pub served_call : CallCounts → CallCounts
served_call c = record c {
  attempted = inc c.attempted;
  returned = inc c.returned;
  settled = inc c.settled;
  accepted = inc c.accepted;
}

-- The counters of the calls, apart from those of the buffers.
abbrev pub call_counted : ℕ → (CallCounts → CallCounts) → Counters → Counters
call_counted k f c = change k f (record c { total = inc c.total })

-- The calls for buffers: those to allocate and those to release.
abbrev for_buffers : List CallCounts → ℕ
for_buffers cs = (get_or cs 5 no_counts).attempted + (get_or cs 6 no_counts).attempted

abbrev Grows : List CallCounts → CallCounts → ℕ → Type 0
Grows cs v k =
    k < length cs
    → v.attempted ≡ (get_or cs k no_counts).attempted + 1
    → for_buffers (set cs k v) ≡ for_buffers cs + 1

for_buffers-set : (cs : List CallCounts) (k : ℕ) (v : CallCounts) → (k ≡ 5) ⊎ (k ≡ 6) → Grows cs v k
for_buffers-set cs k v (inl e) = subst (Grows cs v) (sym e) λ inside one.
    rw
      (
        get-set_same cs 5 v no_counts inside,
        get-set_other cs 5 6 v no_counts (λ d. omega (arith, d)),
      )
      (omega (arith, one))
for_buffers-set cs k v (inr e) = subst (Grows cs v) (sym e) λ inside one.
    rw
      (
        get-set_same cs 6 v no_counts inside,
        get-set_other cs 6 5 v no_counts (λ d. omega (arith, d)),
      )
      (omega (arith, one))

module _ (k : ℕ) (c : Counters) (h : IsWithin c) (free : IsFree k c) where
  abbrev old : CallCounts
  old = get_or c.calls k no_counts

  -- One more attempt, whatever its counts are.
  once-IsSettled :
      (v : CallCounts)
      → v.attempted ≡ inc old.attempted
      → v.returned ≤ inc old.returned
      → v.accepted ≤ v.returned
      → v.settled + v.unknown ≡ old.settled + old.unknown + 1
      → IsSettled (get_or abi_limits k 0) v
  once-IsSettled v attempted returned judged known =
      let s = IsSettled-get abi_limits c.calls k h.settled in
      let m = abi_limits-le k in
      record {
        within = omega (arith, attempted, free.room, m);
        came_back = omega (arith, attempted, returned, s.came_back, free.room, m);
        judged = judged;
        known = omega (arith, attempted, known, s.known, free.room, m);
      }

  pub lost_call-IsSettled : IsSettled (get_or abi_limits k 0) (lost_call old)
  lost_call-IsSettled =
      let s = IsSettled-get abi_limits c.calls k h.settled in
      let m = abi_limits-le k in
      once-IsSettled (lost_call old) refl (omega (arith, s.came_back, free.room, m)) s.judged
        (omega (arith, s.known, free.room, m))

  pub failed_call-IsSettled : IsSettled (get_or abi_limits k 0) (failed_call old)
  failed_call-IsSettled =
      let s = IsSettled-get abi_limits c.calls k h.settled in
      let m = abi_limits-le k in
      once-IsSettled (failed_call old) refl (omega arith)
        (omega (arith, s.judged, s.came_back, free.room, m)) (omega (arith, s.known, free.room, m))

  pub served_call-IsSettled : IsSettled (get_or abi_limits k 0) (served_call old)
  served_call-IsSettled =
      let s = IsSettled-get abi_limits c.calls k h.settled in
      let m = abi_limits-le k in
      once-IsSettled (served_call old) refl (omega arith)
        (omega (arith, s.judged, s.came_back, free.room, m)) (omega (arith, s.known, free.room, m))

  pub tried_once : inc old.attempted ≡ old.attempted + 1
  tried_once = omega (arith, free.room, abi_limits-le k)

  -- An allocation or a release leaves the counters of the steps as they are.
  pub buffer-IsWithin :
      (c' : Counters) (v : CallCounts)
      → (k ≡ 5) ⊎ (k ≡ 6)
      → c'.calls ≡ set c.calls k v
      → IsSettled (get_or abi_limits k 0) v
      → v.attempted ≡ old.attempted + 1
      → c'.total ≡ c.total + 1
      → (c'.attempted ≡ c.attempted)
        × ((c'.returned ≡ c.returned) × ((c'.completed ≡ c.completed) × (c'.accepted ≡ c.accepted)))
      → IsWithin c'
  buffer-IsWithin c' v which calls settled one total same =
      let seven = AllSettled-length abi_limits c.calls h.settled in
      let inside : k < length c.calls = elim which [
        | inl e ↦ omega (arith, e, seven)
        | inr e ↦ omega (arith, e, seven)
      ] in
      let sum = attempts-set c.calls k v inside in
      record {
        settled = rw calls (AllSettled-set abi_limits c.calls k v h.settled settled);
        counted = rw calls (omega (arith, h.counted, sum, one, total));
        total_within = omega (arith, total, free.total_room);
        stepped =
            rw calls (
              omega
                (arith, for_buffers-set c.calls k v which inside one, h.stepped, total, same.0));
        came_back = omega (arith, h.came_back, same.0, same.1.0);
        completes = omega (arith, h.completes, same.1.0, same.1.1.0);
        accepts = omega (arith, h.accepts, same.1.1.0, same.1.1.1);
      }
