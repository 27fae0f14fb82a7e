-- ===== src/Diagnostics/Sequence/Finished.antt =====
-- What a run of the probe leaves behind, whatever its API does.
use mathlib.Core.Path.{subst}
use shiroha_quiz.Base.{
  ℕ, ◌+◌, ◌≡◌, refl, sym, Option, none, some, [], if-both, get_or, codes, length, arith,
}
use shiroha_quiz.Diagnostics.Budget.{
  observe, abi_limits, Verdict, pass, fail, inconclusive, unknown_verdict, verdict, calls_at,
}
use shiroha_quiz.Diagnostics.Budget.Counters.{Counters, counters, counters-observe}
use shiroha_quiz.Diagnostics.Budget.Verdicts.{verdict-pass}
use shiroha_quiz.Diagnostics.Buffers.{Pool, with_ledger, release_all_remaining}
use shiroha_quiz.Diagnostics.Buffers.Kept.{IsKept, release_from-IsKept}
use shiroha_quiz.Diagnostics.Buffers.Settled.{release_all_remaining-settles}
use shiroha_quiz.Diagnostics.Sequence.{
  Env, sequence_of_calls, exit_status, finish_sequence, run_l1_crypto_sequence,
}
use shiroha_quiz.Diagnostics.Sequence.Latched.{observe-IsKept}
use shiroha_quiz.Diagnostics.Sequence.Keeps.{sequence_of_calls-Keeps}

-- No buffer is left that was not released, or whose release is not known to be lost.
IsSettledRun : Counters → Type 0
IsSettledRun c = (c.live ≡ c.uncertain) × (c.succeeded + c.uncertain ≡ c.allocated)

-- The status of a run and what it leaves behind.
pub record IsFinished (status : ℕ) (p : Pool) : Type 0 where
  pub kept : IsKept p
  pub live : p.ledger.buffers_live ≡ p.ledger.releases_unknown
  pub whole : p.ledger.releases_succeeded + p.ledger.releases_unknown ≡ p.ledger.buffers_allocated
  pub used_up : status ≡ 0 → (k : ℕ) → (calls_at k p.ledger).attempted ≡ get_or abi_limits k 0

exit_status-pass : (v : Verdict) → exit_status v ≡ 0 → v ≡ pass
exit_status-pass pass e = refl
exit_status-pass fail e = absurd (omega (arith, e))
exit_status-pass inconclusive e = absurd (omega (arith, e))
exit_status-pass unknown_verdict e = absurd (omega (arith, e))

-- A run that returns 10.
failed-IsFinished : (p : Pool) → IsKept p → IsSettledRun (counters p.ledger) → IsFinished 10 p
unfolding IsSettledRun
failed-IsFinished p h s = record {
  kept = h;
  live = s.0;
  whole = s.1;
  used_up = λ e. absurd (omega (arith, e));
}

finish_sequence-IsFinished :
    (env : Env) (r : Option (Unit {0}) × Pool)
    → IsKept r.1
    → let f = finish_sequence env r in IsFinished f.0 f.1
unfolding finish_sequence release_all_remaining IsSettledRun
finish_sequence-IsFinished env (none, p) h =
    failed-IsFinished (release_all_remaining env.frees p)
      (release_from-IsKept (length p.slots) env.frees p h)
      (release_all_remaining-settles env.frees p h)
finish_sequence-IsFinished env (some u, p) h =
    let p' = release_all_remaining env.frees p in
    let before = release_from-IsKept (length p.slots) env.frees p h in
    let settled = release_all_remaining-settles env.frees p h in
    let stage = codes "after_final_settlement" in
    let seen = (observe env.final.clock env.final.sample stage p'.ledger).0 in
    let l = (observe env.final.clock env.final.sample stage p'.ledger).1 in
    let same = counters-observe env.final.clock env.final.sample stage p'.ledger in
    let kept = observe-IsKept env.final.clock env.final.sample stage p' before in
    let now = subst IsSettledRun (sym same) settled in
    if-both (λ (s : ℕ). IsFinished s (with_ledger p' l)) seen
      (λ e. record {
        kept = kept;
        live = now.0;
        whole = now.1;
        used_up = λ z.
            verdict-pass env.observing env.final_native l kept.within
              (exit_status-pass (verdict env.observing env.final_native l) z);
      })
      (λ e. failed-IsFinished (with_ledger p' l) kept now)

-- A pool that has no buffer yet.
empty-IsSettledRun : (p : Pool) → p.slots ≡ [] → IsKept p → IsSettledRun (counters p.ledger)
unfolding IsSettledRun
empty-IsSettledRun p e h =
    let live : p.ledger.buffers_live ≡ 0 = rw e at h.live in
    let uncertain : p.ledger.releases_unknown ≡ 0 = rw e at h.uncertain in
    let succeeded : p.ledger.releases_succeeded ≡ 0 = rw e at h.succeeded in
    let allocated : p.ledger.buffers_allocated ≡ 0 = rw e at h.allocated in
    (cc (live, uncertain), omega (uncertain, succeeded, allocated, arith))

-- Whatever the API, the clock and the sampler do in a run on a ledger and an empty pool that are in step, at
-- its end they are in step, each buffer that was allocated is given back or its release is counted as
-- unknown, and only the latter are counted as live; and where the run returns 0 each category of calls was
-- attempted exactly as often as its limit.
pub run_l1_crypto_sequence-IsFinished :
    (env : Env) (p : Pool)
    → p.slots ≡ []
    → IsKept p
    → let r = run_l1_crypto_sequence env p in IsFinished r.0 r.1
unfolding run_l1_crypto_sequence
run_l1_crypto_sequence-IsFinished env p e h =
    let stage = codes "before_work" in
    let l = (observe env.first.clock env.first.sample stage p.ledger).1 in
    let kept = observe-IsKept env.first.clock env.first.sample stage p h in
    if-both (λ (r : ℕ × Pool). IsFinished r.0 r.1)
      (observe env.first.clock env.first.sample stage p.ledger).0
      (λ s.
        finish_sequence-IsFinished env (sequence_of_calls env (with_ledger p l))
          ((sequence_of_calls-Keeps env).after (with_ledger p l) kept))
      (λ s. failed-IsFinished (with_ledger p l) kept (empty-IsSettledRun (with_ledger p l) e kept))
