-- ===== src/Diagnostics/Buffers/Runs.antt =====
-- Runs of the pool and of the calls beside it.
use shiroha_quiz.Base.{
  ℕ, ◌<◌, ◌≡◌, refl, sym, ap, ◌∙◌, inl, inr, Bool, true, Option, List, [], ◌∷◌, if-both, length,
  get_or, Bytes, arith, get-set_other,
}
use shiroha_quiz.Diagnostics.Native.{inc, CallCounts, no_counts, NativeObservation, Outcome}
use shiroha_quiz.Diagnostics.Budget.{
  PrimitiveCategory, Last, Ledger, Clock, invoke_and_check, category_index,
}
use shiroha_quiz.Diagnostics.Budget.Counters.{
  Counters, counters, change, count_try, count_return, count_complete, Moved, unmoved, thrown,
  returned_late, rejected, accepted_call, invoke_and_check-Served,
}
use shiroha_quiz.Diagnostics.Budget.Limits.{back, invoke_and_check-IsWithin, category_index-lt}
use shiroha_quiz.Diagnostics.Buffers.{Pool, allocate, release, release_all_remaining}
use shiroha_quiz.Diagnostics.Buffers.Kept.{
  IsKept, allocate-IsKept, release-IsKept, release_from-IsKept,
}

-- What the pool has to do with the counters.
record BufferCounts : Type 0 where
  allocated : ℕ
  live : ℕ
  releases : ℕ
  succeeded : ℕ
  uncertain : ℕ
  allocations : CallCounts
  frees : CallCounts

abbrev buffer_counts : Counters → BufferCounts
buffer_counts c = record {
  allocated = c.allocated;
  live = c.live;
  releases = c.releases;
  succeeded = c.succeeded;
  uncertain = c.uncertain;
  allocations = get_or c.calls 5 no_counts;
  frees = get_or c.calls 6 no_counts;
}

-- The call of a step leaves that as it is.
module _ (k : ℕ) (lt : k < 5) where
  buffer_counts-change :
      (f : CallCounts → CallCounts) (c : Counters) → buffer_counts (change k f c) ≡ buffer_counts c
  buffer_counts-change f c =
      let v = f (get_or c.calls k no_counts) in
      rw
        (
          get-set_other c.calls k 5 v no_counts (λ e. omega (arith, e, lt)),
          get-set_other c.calls k 6 v no_counts (λ e. omega (arith, e, lt)),
        )
        refl

  buffer_counts-count_try : (c : Counters) → buffer_counts (count_try k c) ≡ buffer_counts c
  buffer_counts-count_try c =
      buffer_counts-change (λ x. record x { attempted = inc x.attempted })
        (record c { total = inc c.total; attempted = inc c.attempted })

  buffer_counts-count_return :
      (u : Bool) (c : Counters) → buffer_counts (count_return k u c) ≡ buffer_counts c
  buffer_counts-count_return u c =
      buffer_counts-change (back u) (record c { returned = inc c.returned })

  buffer_counts-Moved : (c c' : Counters) → Moved k c c' → buffer_counts c' ≡ buffer_counts c
  buffer_counts-Moved c c' (unmoved e) = ap buffer_counts e
  buffer_counts-Moved c c' (thrown e) =
      ap buffer_counts e
      ∙ buffer_counts-change (λ x. record x { unknown = inc x.unknown }) (count_try k c)
      ∙ buffer_counts-count_try c
  buffer_counts-Moved c c' (returned_late u e) =
      ap buffer_counts e ∙ buffer_counts-count_return u (count_try k c) ∙ buffer_counts-count_try c
  buffer_counts-Moved c c' (rejected u e) =
      ap buffer_counts e ∙ buffer_counts-count_return u (count_try k c) ∙ buffer_counts-count_try c
  buffer_counts-Moved c c' (accepted_call u e) =
      ap buffer_counts e
      ∙ buffer_counts-change (λ x. record x { accepted = inc x.accepted })
          (record (count_complete (count_return k u (count_try k c))) {
            accepted = inc (count_complete (count_return k u (count_try k c))).accepted;
          })
      ∙ buffer_counts-count_return u (count_try k c)
      ∙ buffer_counts-count_try c

module _ (cat : PrimitiveCategory) (step : Bytes) (expected : ℕ) (before : Clock) (call : Outcome ℕ)
    (shape_ok : ℕ → Bool) (native : Option NativeObservation) (after : Clock) (last : Last) where
  unfoldable pub invoked : Ledger → Ledger
  invoked l = (invoke_and_check cat step expected before call shape_ok native after last l).1

  buffer_counts-invoked :
      (l : Ledger) → buffer_counts (counters (invoked l)) ≡ buffer_counts (counters l)
  unfolding invoked
  buffer_counts-invoked l =
      elim (invoke_and_check-Served cat step expected shape_ok native after last before call l) [
        | inl e ↦ ap buffer_counts e
        | inr m ↦
            buffer_counts-Moved (category_index cat) (category_index-lt cat) (counters l)
              (counters (invoked l)) m.1
      ]

  -- No call is made after a failure.
  invoked-stopped : (l : Ledger) → l.stopped ≡ true → (invoked l).stopped ≡ true
  unfolding invoked invoke_and_check
  invoked-stopped l e =
      if-both (λ (r : Bool × Ledger). r.1.stopped ≡ true) l.stopped (λ f. f)
        (λ f. absurd (cc (e, f)))

  pub invoked-IsKept : (p : Pool) → IsKept p → IsKept (record p { ledger = invoked p.ledger })
  unfolding invoked
  invoked-IsKept p h =
      let same = buffer_counts-invoked p.ledger in
      record {
        within =
            invoke_and_check-IsWithin cat step expected before call shape_ok native after last
              p.ledger h.within;
        sound = h.sound;
        allocated = ap (λ x. x.allocated) same ∙ h.allocated;
        allocations = rw (ap (λ x. x.allocations) same) h.allocations;
        live = ap (λ x. x.live) same ∙ h.live;
        few = rw (ap (λ x. x.live) same) h.few;
        succeeded = ap (λ x. x.succeeded) same ∙ h.succeeded;
        uncertain = ap (λ x. x.uncertain) same ∙ h.uncertain;
        releases = ap (λ x. x.releases) same ∙ h.releases ∙ sym (ap (λ x. x.frees.attempted) same);
        settles =
            rw (ap (λ x. x.releases) same, ap (λ x. x.succeeded) same, ap (λ x. x.uncertain) same)
              h.settles;
        latched = elim h.latched [
          | inl z ↦ inl (ap (λ x. x.uncertain) same ∙ z)
          | inr s ↦ inr (invoked-stopped p.ledger s)
        ];
      }

-- What is done with the pool and with its ledger.
pub data Act : Type 0 where
  allocates : ℕ → Bool → Clock → Outcome ℕ → Act
  releases : ℕ → Outcome (Unit {0}) → Act
  releases_all : (ℕ → Outcome (Unit {0})) → Act
  invokes :
      PrimitiveCategory
      → Bytes
      → ℕ
      → Clock
      → Outcome ℕ
      → (ℕ → Bool)
      → Option NativeObservation
      → Clock
      → Last
      → Act

unfoldable pub perform : Act → Pool → Pool
perform (allocates capacity available clock call) p = (allocate capacity available clock call p).1
perform (releases i call) p = (release i call p).1
perform (releases_all call) p = release_all_remaining call p
perform (invokes cat step expected before call shape_ok native after last) p = record p {
  ledger = (invoke_and_check cat step expected before call shape_ok native after last p.ledger).1;
}

unfoldable pub run : List Act → Pool → Pool
run [] p = p
run (a ∷ acts) p = run acts (perform a p)

perform-IsKept : (a : Act) (p : Pool) → IsKept p → IsKept (perform a p)
unfolding perform release_all_remaining invoked
perform-IsKept (allocates capacity available clock call) p h =
    allocate-IsKept capacity available clock call p h
perform-IsKept (releases i call) p h = release-IsKept i call p h
perform-IsKept (releases_all call) p h = release_from-IsKept (length p.slots) call p h
perform-IsKept (invokes cat step expected before call shape_ok native after last) p h =
    invoked-IsKept cat step expected before call shape_ok native after last p h

-- Every sequence of operations keeps the pool in step with its ledger: the calls of each category stay
-- within its limit and their results are accounted for; the number of buffers that the ledger takes for
-- live is that of the slots in use and at most five; every slot is in use, given back or lost, so that
-- its release was tried at most once; the releases that the ledger counts are those of the slots; and a
-- lost buffer leaves the ledger stopped.
pub run-IsKept : (acts : List Act) (p : Pool) → IsKept p → IsKept (run acts p)
unfolding run
run-IsKept [] p h = h
run-IsKept (a ∷ acts) p h = run-IsKept acts (perform a p) (perform-IsKept a p h)
