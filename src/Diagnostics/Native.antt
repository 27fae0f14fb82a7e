-- ===== src/Diagnostics/Native.antt =====
-- windows/external_native/diagnostics/l1_native_observation.h: what an observer counts of the direct
-- native calls, and the tickets of the resources that they give out. A counter is an unsigned of 32
-- bits and wraps.
pub mod Custody
pub mod Sessions
mod Counts
unfoldable pub use Counts.*
use shiroha_quiz.Base.{
  ℕ, ◌+◌, ◌-◌, ◌%◌, ◌^◌, Bool, true, false, not, ◌&&◌, ◌||◌, Option, none, some, List, [], ◌∷◌, leb,
  ◌==◌, if◌then◌else◌, is_empty, get_or, set, replicate, codes, Bytes,
}

abbrev pub count_attempt : CallCounts → CallCounts
count_attempt c = record c { attempted = inc c.attempted }

abbrev pub count_accepted : CallCounts → CallCounts
count_accepted c = record c {
  returned = inc c.returned;
  accepted = inc c.accepted;
  settled = inc c.settled;
}

-- A returned failure of a call that is no release has a known result.
abbrev pub count_failed : Bool → CallCounts → CallCounts
count_failed release c = record c {
  returned = inc c.returned;
  returned_failure = inc c.returned_failure;
  settled = if release then c.settled else inc c.settled;
}

abbrev pub count_unknown : CallCounts → CallCounts
count_unknown c = record c { unknown = inc c.unknown }

-- How `call()` comes back.
pub data Outcome {ℓ} (R : Type ℓ) : Type ℓ where
  returns : R → Outcome R
  throws : Outcome R

-- The result, whether the call was made, and what was counted.
pub record Observed {ℓ} (R : Type ℓ) : Type ℓ where
  pub result : R
  pub called : Bool
  pub observation : NativeObservation

module _ {ℓ} {R : Type ℓ} where
  unfoldable pub settle_call :
      NativeOp → Bool → Outcome R → (R → Bool) → R → NativeObservation → Observed R
  unfolding fail
  settle_call op release (returns r) accept failure o = record {
    result = r;
    called = true;
    observation =
        if accept r
        then count_call op count_accepted o
        else fail (get_or native_names (op_index op) []) release
            (count_call op (count_failed release) o);
  }
  settle_call op release throws accept failure o = record {
    result = failure;
    called = true;
    observation = fail (get_or native_names (op_index op) []) true (count_call op count_unknown o);
  }

  -- The call behind the test of its budget, which says whether it is over.
  unfoldable pub budgeted :
      NativeOp → Bool → Bool → Outcome R → (R → Bool) → R → NativeObservation → Observed R
  unfolding fail settle_call
  budgeted op release false call accept failure o =
      settle_call op release call accept failure (count_call op count_attempt o)
  budgeted op release true call accept failure o =
      let o' = fail (codes "native_budget") release o in
      if not release
      then record { result = failure; called = false; observation = o' }
      else settle_call op release call accept failure (count_call op count_attempt o')

  -- `observe_native` with an observer; without one the call is made and its result returned.
  -- `admitted` is the answer of `check_admission`, true where there is none. Cleanup stays legal
  -- after a stop: a release is counted over its budget and made all the same.
  unfoldable pub observe_native :
      NativeOp → Bool → Bool → Outcome R → (R → Bool) → R → NativeObservation → Observed R
  unfolding fail budgeted
  observe_native op release admitted call accept failure o =
      if not release && not admitted
      then record {
        result = failure;
        called = false;
        observation = fail (codes "supervisor_stop") false o;
      }
      else budgeted op release
          (not release && o.stopped || leb (limit_of op) (counts_of op o).attempted) call accept
          failure o

-- `NativeOwnerObservation`: the ticket of one resource.
pub record Owner : Type 0 where
  pub observed : Bool
  pub acquired : Bool
  pub attempted : Bool

abbrev pub no_owner : Owner
no_owner = record { observed = false; acquired = false; attempted = false }

-- `NativeOwnerObservation::acquire`, with an active observer.
unfoldable pub acquire : Bool → Owner → NativeObservation → Owner × NativeObservation
acquire present w o = if not present then (w, o) else (
  record w { observed = true; acquired = true },
  record o { acquired = inc o.acquired; still_owned = inc o.still_owned },
)

module _ {ℓ} {R : Type ℓ} where
  -- `NativeOwnerObservation::release` of a ticket whose observer is active.
  unfoldable pub release :
      NativeOp → Outcome R → (R → Bool) → R → Owner → NativeObservation → Owner × Observed R
  unfolding fail observe_native
  release op call accept failure w o =
      if not w.acquired || w.attempted
      then (
        w,
        record {
          result = failure;
          called = false;
          observation =
              if w.observed then fail (codes "duplicate_or_unowned_release") true o else o;
        },
      )
      else (let done = observe_native op true true call accept failure o in
          (
            record w { attempted = true },
            record done {
              observation =
                  if accept done.result
                  then record (done.observation) {
                    released = inc done.observation.released;
                    still_owned = dec done.observation.still_owned;
                  }
                  else record (done.observation) { quarantined = inc done.observation.quarantined };
            },
          ))
