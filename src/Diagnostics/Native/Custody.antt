-- ===== src/Diagnostics/Native/Custody.antt =====
-- The balance of the counts of an observer, and the releases of its resources.
use shiroha_quiz.Base.{
  ℕ, ◌+◌, ◌%◌, ◌^◌, ◌≤◌, ◌<◌, ◌≡◌, refl, ◌∙◌, Bool, true, false, not, ◌&&◌, if-both, get_or, set,
  length, codes, Bytes, arith, get-set_same, set-set, length-set, get-set_both, get-replicate,
}
use shiroha_quiz.Diagnostics.Native.{
  NativeOp, op_index, native_limits, CallCounts, no_counts, NativeObservation, no_observation,
  counts_of, count_call, limit_of, fail, Outcome, returns, throws, Observed, settle_call,
  observe_native, budgeted, count_attempt, count_accepted, count_failed, count_unknown,
}

-- Every call came back or is unknown, and what came back was accepted or failed.
pub record IsBalanced (c : CallCounts) : Type 0 where
  pub calls : c.attempted ≡ (c.returned + c.unknown) % 2 ^ 32
  pub results : c.returned ≡ (c.accepted + c.returned_failure) % 2 ^ 32

pub record IsCounted (o : NativeObservation) : Type 0 where
  pub size : length o.calls ≡ 14
  pub balanced : (i : ℕ) → IsBalanced (get_or o.calls i no_counts)
  -- A budget is only overrun by a release, which makes the observation unknown.
  pub within :
      (i : ℕ)
      → o.unknown ≡ false
      → (get_or o.calls i no_counts).attempted ≤ get_or native_limits i 0
  pub owned : o.acquired ≡ (o.released + o.still_owned) % 2 ^ 32

op_index-lt : (op : NativeOp) → op_index op < 14
op_index-lt op = ground arith

no_counts-IsBalanced : IsBalanced no_counts
no_counts-IsBalanced = record { calls = refl; results = refl }

pub no_observation-IsCounted : IsCounted no_observation
no_observation-IsCounted = record {
  size = refl;
  balanced = λ i. rw (get-replicate 14 no_counts i) no_counts-IsBalanced;
  within = λ i e. rw (get-replicate 14 no_counts i) (omega arith);
  owned = refl;
}

pub fail-IsCounted :
    (stage : Bytes) (uncertain : Bool) (o : NativeObservation)
    → IsCounted o
    → IsCounted (fail stage uncertain o)
unfolding fail
fail-IsCounted stage uncertain o h = record {
  size = h.size;
  balanced = h.balanced;
  within = λ i e. h.within i (ground (arith, e));
  owned = h.owned;
}

set-IsCounted :
    (op : NativeOp) (v : CallCounts) (o : NativeObservation)
    → IsBalanced v
    → (o.unknown ≡ false → v.attempted ≤ limit_of op)
    → IsCounted o
    → IsCounted (record o { calls = set o.calls (op_index op) v })
set-IsCounted op v o b w h = record {
  size = length-set o.calls (op_index op) v ∙ h.size;
  balanced =
      λ i. get-set_both (λ j c. IsBalanced c) o.calls (op_index op) v i no_counts b (h.balanced i);
  within = λ i e.
      get-set_both (λ j (c : CallCounts). c.attempted ≤ get_or native_limits j 0) o.calls
        (op_index op) v i no_counts (w e) (h.within i e);
  owned = h.owned;
}

-- Two changes of the same counts are one.
count_twice :
    (op : NativeOp) (f g : CallCounts → CallCounts) (o : NativeObservation)
    → length o.calls ≡ 14
    → count_call op g (count_call op f o)
      ≡ record o { calls = set o.calls (op_index op) (g (f (counts_of op o))) }
count_twice op f g o h =
    let inside : op_index op < length o.calls = omega (arith, op_index-lt op, h) in
    rw
      (
        get-set_same o.calls (op_index op) (f (counts_of op o)) no_counts inside,
        set-set o.calls (op_index op) (f (counts_of op o)) (g (f (counts_of op o))),
      )
      refl

twice-IsCounted :
    (op : NativeOp) (f g : CallCounts → CallCounts) (o : NativeObservation)
    → IsBalanced (g (f (counts_of op o)))
    → (o.unknown ≡ false → (g (f (counts_of op o))).attempted ≤ limit_of op)
    → IsCounted o
    → IsCounted (count_call op g (count_call op f o))
twice-IsCounted op f g o b w h =
    rw (count_twice op f g o h.size) (set-IsCounted op (g (f (counts_of op o))) o b w h)

settle_call-IsCounted {ℓ} :
    {R : Type ℓ} (op : NativeOp) (back : Bool) (call : Outcome R) (accept : R → Bool) (failure : R)
    (o : NativeObservation)
    → (o.unknown ≡ false → (counts_of op o).attempted < limit_of op)
    → IsCounted o
    → IsCounted
        (settle_call op back call accept failure (count_call op count_attempt o)).observation
unfolding settle_call
settle_call-IsCounted op back (returns r) accept failure o w h =
    let b = h.balanced (op_index op) in
    if-both IsCounted (accept r)
      (λ e.
        twice-IsCounted op count_attempt count_accepted o
          (record { calls = omega (arith, b.calls); results = omega (arith, b.results) })
          (λ u. omega (arith, w u)) h)
      (λ e. fail-IsCounted _ _ _ (
        twice-IsCounted op count_attempt (count_failed back) o
          (record { calls = omega (arith, b.calls); results = omega (arith, b.results) })
          (λ u. omega (arith, w u)) h))
settle_call-IsCounted op back throws accept failure o w h =
    let b = h.balanced (op_index op) in
    fail-IsCounted _ _ _ (
      twice-IsCounted op count_attempt count_unknown o
        (record { calls = omega (arith, b.calls); results = b.results }) (λ u. omega (arith, w u))
        h)

budgeted-IsCounted {ℓ} :
    {R : Type ℓ} (op : NativeOp) (back over : Bool) (call : Outcome R) (accept : R → Bool)
    (failure : R) (o : NativeObservation)
    → (over ≡ false → (counts_of op o).attempted < limit_of op)
    → IsCounted o
    → IsCounted (budgeted op back over call accept failure o).observation
unfolding budgeted fail
budgeted-IsCounted op back false call accept failure o w h =
    settle_call-IsCounted op back call accept failure o (λ u. w refl) h
budgeted-IsCounted op false true call accept failure o w h = fail-IsCounted _ _ _ h
budgeted-IsCounted op true true call accept failure o w h =
    let failed = fail-IsCounted (codes "native_budget") true o h in
    settle_call-IsCounted op true call accept failure (fail (codes "native_budget") true o)
      (λ u. absurd (over_unknown u)) failed
  where
    over_unknown : ¬ ((fail (codes "native_budget") true o).unknown ≡ false)
    over_unknown u = ground (arith, u)

-- `observe_native`, also of a release over its budget.
pub observe_native-IsCounted {ℓ} :
    {R : Type ℓ} (op : NativeOp) (back admitted : Bool) (call : Outcome R) (accept : R → Bool)
    (failure : R) (o : NativeObservation)
    → IsCounted o
    → IsCounted (observe_native op back admitted call accept failure o).observation
unfolding observe_native
observe_native-IsCounted {R = R} op back admitted call accept failure o h =
    if-both (λ (r : Observed R). IsCounted r.observation) (not back && not admitted)
      (λ e. fail-IsCounted _ _ _ h)
      λ e. budgeted-IsCounted op back _ call accept failure o (λ u. ground (arith, u)) h
