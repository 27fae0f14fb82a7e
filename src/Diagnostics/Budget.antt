-- ===== src/Diagnostics/Budget.antt =====
-- windows/external_native/diagnostics/l1_crypto_probe.h, the ledger: what a probe may call, how often,
-- and what it counts. An int is its 32 bits, so that -1 is 2 ^ 32 - 1; counters are unsigned.
mod State
mod Observing
pub mod Counters
pub mod Limits
pub mod Verdicts
mod Reserving
unfoldable pub use State.*
unfoldable pub use Observing.*
unfoldable pub use Reserving.*
use Prim.Native.Nat.{bit_or}
use shiroha_quiz.Base.{
  ℕ, zero, suc, ◌+◌, ◌-◌, ◌%◌, ◌^◌, Bool, true, false, not, ◌&&◌, ◌||◌, Option, none, some, List,
  [], ◌∷◌, ltb, leb, ◌==◌, if◌then◌else◌, is_empty, get_or, set, replicate, codes, Bytes, bytes_eq,
}
use shiroha_quiz.Diagnostics.Native.{
  inc, CallCounts, no_counts, NativeObservation, Outcome, returns, throws, native_complete,
}

-- The clock and the sampler at the end of a call.
pub record Last : Type 0 where
  pub clock : Clock
  pub sample : Sample

-- `invoke_and_check` behind a call that has returned: `after` is the clock then. The result is that of
-- `observe`, false where the clock has stopped the ledger.
unfoldable pub complete_call :
    PrimitiveCategory
    → Bytes
    → ℕ
    → ℕ
    → (ℕ → Bool)
    → Option NativeObservation
    → Clock
    → Last
    → Ledger
    → Bool × Ledger
unfolding check_clock observe judge_status
complete_call cat step expected status shape_ok native after last l =
    let returned =
      count_abi (category_index cat)
        (λ c. record c {
          returned = inc c.returned;
          settled = if native_unknown native then c.settled else inc c.settled;
          unknown = if native_unknown native then inc c.unknown else c.unknown;
        })
        (record l {
          returned = inc l.returned;
          returned_steps = mark (step_index step) l.returned_steps;
        }) in
    let (fresh, l') = check_clock after step returned in
    if not fresh
    then (false, (observe last.clock last.sample step l').1)
    else (let completed = record l' {
      completed = inc l'.completed;
      completed_steps = mark (step_index step) l'.completed_steps;
      successful =
          if status == success_status cat expected then inc l'.successful else l'.successful;
    } in
        observe last.clock last.sample step
          (judge_status cat step expected status (shape_ok status) native completed))

-- A call that throws leaves its settlement unknown.
unfoldable pub make_call :
    PrimitiveCategory
    → Bytes
    → ℕ
    → Outcome ℕ
    → (ℕ → Bool)
    → Option NativeObservation
    → Clock
    → Last
    → Ledger
    → Bool × Ledger
unfolding complete_call stop observe
make_call cat step expected (returns status) shape_ok native after last l =
    complete_call cat step expected status shape_ok native after last l
make_call cat step expected throws shape_ok native after last l =
    let l' =
      stop step minus_one (codes "SETTLEMENT_UNKNOWN")
        (count_abi (category_index cat) (λ c. record c { unknown = inc c.unknown }) l) in
    (false, (observe last.clock last.sample step l').1)

-- Behind the two reservations.
unfoldable pub attempt_call :
    PrimitiveCategory
    → Bytes
    → ℕ
    → Outcome ℕ
    → (ℕ → Bool)
    → Option NativeObservation
    → Clock
    → Last
    → Bool × Ledger
    → Bool × Ledger
unfolding make_call
attempt_call cat step expected call shape_ok native after last (false, l) = (false, l)
attempt_call cat step expected call shape_ok native after last (true, l) =
    make_call cat step expected call shape_ok native after last (record l {
      attempted_steps = mark (step_index step) l.attempted_steps;
      attempted = inc l.attempted;
    })

unfoldable pub reserve_call :
    PrimitiveCategory
    → Bytes
    → ℕ
    → Outcome ℕ
    → (ℕ → Bool)
    → Option NativeObservation
    → Clock
    → Last
    → Option Ledger
    → Ledger
    → Bool × Ledger
unfolding reserve_abi attempt_call stop
reserve_call cat step expected call shape_ok native after last none l = (
  false,
  stop (codes "call_budget_exceeded") minus_one (codes "BUDGET_EXCEEDED")
      (record l { budget_rejections = inc l.budget_rejections }),
)
reserve_call cat step expected call shape_ok native after last (some reserved) l =
    attempt_call cat step expected call shape_ok native after last
      (reserve_abi (category_index cat) (get_or abi_limits (category_index cat) 0) reserved)

-- `invoke_and_check`: `before` is the clock at its start, `call` how the call comes back where it is
-- made, and `native` what its observer says then.
unfoldable pub invoke_and_check :
    PrimitiveCategory
    → Bytes
    → ℕ
    → Clock
    → Outcome ℕ
    → (ℕ → Bool)
    → Option NativeObservation
    → Clock
    → Last
    → Ledger
    → Bool × Ledger
unfolding check_clock reserve_category reserve_call
invoke_and_check cat step expected before call shape_ok native after last l =
    if l.stopped
    then (false, l)
    else (let (fresh, l') = check_clock before step l in
        if not fresh
        then (false, l')
        else reserve_call cat step expected call shape_ok native after last
            (reserve_category cat l') l')

pub data Verdict : Type 0 where
  pass fail inconclusive unknown_verdict : Verdict

abbrev pub native_incomplete : Option NativeObservation → Bool
native_incomplete none = false
native_incomplete (some o) = not (native_complete o)

abbrev pub native_missing : Option NativeObservation → Bool
native_missing none = true
native_missing (some o) = false

-- `observing` says whether the build demands an observer.
unfoldable pub verdict : Bool → Option NativeObservation → Ledger → Verdict
unfolding native_complete
verdict observing native l =
    if observing && native_missing native
    then fail
    else if l.settlement_unknown
        || (ltb 0 l.releases_unknown || (ltb l.returned l.attempted || native_unknown native))
    then unknown_verdict
    else if (ltb 0 l.observation_failures || ltb l.samples 18)
        && bytes_eq l.failure_code (codes "MEASUREMENT_UNAVAILABLE")
    then inconclusive
    else if l.stopped
        || (not (l.accepted == 16)
            || (not (l.completed == 16)
                || (not (l.buffers_live == 0)
                    || (not (l.duplicate_release_attempts == 0)
                        || not (l.forbidden_symbol_attempts == 0)))))
    then fail
    else if not (l.abi_attempted_total == 106) || native_incomplete native
    then fail
    else pass
