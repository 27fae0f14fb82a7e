-- ===== src/Diagnostics/Budget/Verdicts.antt =====
-- What a ledger that passes has used up.
use shiroha_quiz.Base.{
  ℕ, zero, suc, ◌≤◌, ◌≡◌, refl, Bool, not, ◌&&◌, ◌||◌, Option, List, [], ◌∷◌, ltb, ◌==◌, if-both,
  get_or, codes, bytes_eq, arith,
}
use shiroha_quiz.Diagnostics.Native.{CallCounts, no_counts, NativeObservation}
use shiroha_quiz.Diagnostics.Budget.{
  Ledger, abi_limits, Verdict, pass, verdict, native_missing, native_unknown, native_incomplete,
  calls_at,
}
use shiroha_quiz.Diagnostics.Budget.Counters.{counters}
use shiroha_quiz.Diagnostics.Budget.Limits.{IsWithin, AllSettled, attempts, sum, attempts-le}

-- Of counts that reach the sum of their limits, each reaches its own.
used_up :
    (ns : List ℕ) (cs : List CallCounts) (k : ℕ)
    → AllSettled ns cs
    → sum ns ≤ attempts cs
    → (get_or cs k no_counts).attempted ≡ get_or ns k 0
unfolding sum
used_up [] [] k h e = refl
used_up [] (c ∷ cs) k h e = absurd h
used_up (n ∷ ns) [] k h e = absurd h
used_up (n ∷ ns) (c ∷ cs) zero h e = omega (arith, h.0.within, e, attempts-le ns cs h.1)
used_up (n ∷ ns) (c ∷ cs) (suc k) h e = used_up ns cs k h.1 (omega (arith, h.0.within, e))

verdict-pass_total :
    (observing : Bool) (native : Option NativeObservation) (l : Ledger)
    → verdict observing native l ≡ pass
    → l.abi_attempted_total ≡ 106
unfolding verdict
verdict-pass_total observing native l =
    let Goal = λ (v : Verdict). v ≡ pass → l.abi_attempted_total ≡ 106 in
    if-both Goal (observing && native_missing native) (λ a e. absurd (cc e))
      λ a.
        if-both Goal
          (l.settlement_unknown
            || (ltb 0 l.releases_unknown || (ltb l.returned l.attempted || native_unknown native)))
          (λ b e. absurd (cc e))
          λ b.
            if-both Goal
              ((ltb 0 l.observation_failures || ltb l.samples 18)
                && bytes_eq l.failure_code (codes "MEASUREMENT_UNAVAILABLE"))
              (λ c e. absurd (cc e))
              λ c.
                if-both Goal
                  (l.stopped
                    || (not (l.accepted == 16)
                        || (not (l.completed == 16)
                            || (not (l.buffers_live == 0)
                                || (not (l.duplicate_release_attempts == 0)
                                    || not (l.forbidden_symbol_attempts == 0))))))
                  (λ d e. absurd (cc e))
                  λ d.
                    if-both Goal (not (l.abi_attempted_total == 106) || native_incomplete native)
                      (λ f e. absurd (cc e)) (λ f e. ground (arith, f))

-- A ledger within its budgets that passes has used each of them up: every category was called exactly
-- as often as its limit, 106 times in all.
pub verdict-pass :
    (observing : Bool) (native : Option NativeObservation) (l : Ledger)
    → IsWithin (counters l)
    → verdict observing native l ≡ pass
    → (k : ℕ) → (calls_at k l).attempted ≡ get_or abi_limits k 0
unfolding sum
verdict-pass observing native l h e k =
    used_up abi_limits l.abi_calls k h.settled
      (omega (arith, h.counted, verdict-pass_total observing native l e))
