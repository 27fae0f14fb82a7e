-- ===== src/Diagnostics/Budget/Counters/Observed.antt =====
-- What the clock, the samples and the reservations of the ledger leave of its counters.
use mathlib.Core.Path.{subst}
use shiroha_quiz.Base.{
  ℕ, ◌≡◌, refl, ◌∙◌, Bool, true, false, not, ◌||◌, none, some, List, ltb, leb, ◌==◌, if◌then◌else◌,
  if-both, get_or, set, Bytes, bytes_eq, codes,
}
use shiroha_quiz.Diagnostics.Native.{inc, CallCounts, no_counts}
use shiroha_quiz.Diagnostics.Budget.{
  Ledger, PrimitiveCategory, Clock, no_clock, clock_fails, now_ms, Sample, no_sampler,
  sampler_fails, reading, take_sample, stop, check_time, check_clock, resources, judge_sample,
  observe, reserve_category, abi_category, generate_key_category, encode_sign_category,
  verify_positive, verify_negative, policy_positive, policy_negative,
}

pub record Counters : Type 0 where
  pub calls : List CallCounts
  pub total : ℕ
  pub attempted : ℕ
  pub returned : ℕ
  pub completed : ℕ
  pub accepted : ℕ
  pub allocated : ℕ
  pub live : ℕ
  pub releases : ℕ
  pub succeeded : ℕ
  pub uncertain : ℕ

abbrev pub counters : Ledger → Counters
counters l = record {
  calls = l.abi_calls;
  total = l.abi_attempted_total;
  attempted = l.attempted;
  returned = l.returned;
  completed = l.completed;
  accepted = l.accepted;
  allocated = l.buffers_allocated;
  live = l.buffers_live;
  releases = l.releases_attempted;
  succeeded = l.releases_succeeded;
  uncertain = l.releases_unknown;
}

pub counters-stop :
    (step : Bytes) (status : ℕ) (code : Bytes) (l : Ledger)
    → counters (stop step status code l) ≡ counters l
unfolding stop
counters-stop step status code l = refl

counters-check_time :
    (now : ℕ) (step : Bytes) (l : Ledger) → counters (check_time now step l).1 ≡ counters l
unfolding check_time stop
counters-check_time now step l =
    let Goal = λ (r : Bool × Ledger). counters r.1 ≡ counters l in
    if-both Goal (not l.clock_initialized) (λ e. refl)
      λ e.
        if-both Goal (ltb now l.last_ms) (λ f. refl)
          λ f. if-both Goal (leb l.max_elapsed_ms _) (λ g. refl) (λ g. refl)

pub counters-check_clock :
    (clock : Clock) (step : Bytes) (l : Ledger) → counters (check_clock clock step l).1 ≡ counters l
unfolding check_clock stop
counters-check_clock no_clock step l = refl
counters-check_clock clock_fails step l = refl
counters-check_clock (now_ms now) step l = counters-check_time now step l

counters-resources :
    (working commit handles : ℕ) (l : Ledger)
    → counters (resources working commit handles l).1 ≡ counters l
unfolding resources stop
counters-resources working commit handles l =
    let Goal = λ (r : Bool × Ledger). counters r.1 ≡ counters l in
    if-both Goal (working == 0 || (commit == 0 || handles == 0)) (λ e. refl)
      λ e. if-both Goal _ (λ f. refl) (λ f. refl)

counters-judge_sample : (r : Bool × Ledger) → counters (judge_sample r).1 ≡ counters r.1
unfolding judge_sample stop
counters-judge_sample (true, l) = refl
counters-judge_sample (false, l) =
    if-both (λ (l' : Ledger). counters l' ≡ counters l)
      (bytes_eq l.failure_code (codes "BUDGET_EXCEEDED")) (λ e. refl) (λ e. refl)

counters-take_sample :
    (sample : Sample) (l : Ledger) → counters (take_sample sample l).1 ≡ counters l
counters-take_sample no_sampler l = refl
counters-take_sample sampler_fails l = refl
counters-take_sample (reading working commit handles) l =
    counters-resources working commit handles l

pub counters-observe :
    (clock : Clock) (sample : Sample) (stage : Bytes) (l : Ledger)
    → counters (observe clock sample stage l).1 ≡ counters l
unfolding observe
counters-observe clock sample stage l =
    let l' = (check_clock clock stage l).1 in
    if-both (λ (r : Bool × Ledger). counters r.1 ≡ counters l) (not (check_clock clock stage l).0)
      (λ e. counters-check_clock clock stage l)
      λ e.
        let l'' = record l' { observation_attempts = inc l'.observation_attempts } in
        counters-judge_sample (take_sample sample l'')
        ∙ counters-take_sample sample l''
        ∙ counters-check_clock clock stage l

reserved :
    (b : Bool) (r l l' : Ledger)
    → counters r ≡ counters l
    → (if b then none else some r) ≡ some l'
    → counters l' ≡ counters l
reserved true r l l' h e = absurd (cc e)
reserved false r l l' h e = let same : r ≡ l' = cc e in subst (λ x. counters x ≡ counters l) same h

-- A reservation of a category moves no counter of a call.
pub counters-reserve_category :
    (cat : PrimitiveCategory) (l l' : Ledger)
    → reserve_category cat l ≡ some l'
    → counters l' ≡ counters l
unfolding reserve_category
counters-reserve_category abi_category l l' e = reserved _ _ l l' refl e
counters-reserve_category generate_key_category l l' e = reserved _ _ l l' refl e
counters-reserve_category encode_sign_category l l' e = reserved _ _ l l' refl e
counters-reserve_category verify_positive l l' e = reserved _ _ l l' refl e
counters-reserve_category verify_negative l l' e = reserved _ _ l l' refl e
counters-reserve_category policy_positive l l' e = reserved _ _ l l' refl e
counters-reserve_category policy_negative l l' e = reserved _ _ l l' refl e

-- How a call moves the counters: it is attempted, it comes back or not, it is completed, accepted.
abbrev pub change : ℕ → (CallCounts → CallCounts) → Counters → Counters
change k f c = record c { calls = set c.calls k (f (get_or c.calls k no_counts)) }

abbrev pub count_try : ℕ → Counters → Counters
count_try k c =
    change k (λ x. record x { attempted = inc x.attempted })
      (record c { total = inc c.total; attempted = inc c.attempted })

abbrev pub count_throw : ℕ → Counters → Counters
count_throw k c = change k (λ x. record x { unknown = inc x.unknown }) c

abbrev pub count_return : ℕ → Bool → Counters → Counters
count_return k uncertain c =
    change k
      (λ x. record x {
        returned = inc x.returned;
        settled = if uncertain then x.settled else inc x.settled;
        unknown = if uncertain then inc x.unknown else x.unknown;
      })
      (record c { returned = inc c.returned })

abbrev pub count_complete : Counters → Counters
count_complete c = record c { completed = inc c.completed }

abbrev pub count_accept : ℕ → Counters → Counters
count_accept k c =
    change k (λ x. record x { accepted = inc x.accepted }) (record c { accepted = inc c.accepted })
