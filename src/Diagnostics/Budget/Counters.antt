-- ===== src/Diagnostics/Budget/Counters.antt =====
-- The counters of a ledger that its calls move, and how a step moves them.
mod Observed
unfoldable pub use Observed.*
use mathlib.Core.Path.{subst}
use shiroha_quiz.Base.{
  ℕ, ◌<◌, arith, ◌≡◌, refl, ap, ◌∙◌, Bool, true, false, not, ◌&&◌, ◌||◌, Option, none, some, List,
  ltb, leb, ◌==◌, if◌then◌else◌, if-both, get_or, set, Bytes, bytes_eq, codes, ◌⊎◌, inl, inr,
}
use shiroha_quiz.Diagnostics.Native.{
  inc, CallCounts, no_counts, NativeObservation, Outcome, returns, throws,
}
use shiroha_quiz.Diagnostics.Budget.{
  Ledger, PrimitiveCategory, Clock, no_clock, clock_fails, now_ms, Sample, no_sampler,
  sampler_fails, reading, Last, take_sample, native_unknown, native_stopped, is_negative, native_ok,
  verification_rejected, count_abi, mark, step_index, minus_one, stop_native, stop, reserve_abi,
  check_time, check_clock, resources, judge_sample, observe, reserve_category, judge_status,
  complete_call, make_call, attempt_call, reserve_call, invoke_and_check, category_index,
  abi_limits, abi_category, generate_key_category, encode_sign_category, verify_positive,
  verify_negative, policy_positive, policy_negative,
}

-- What a call in category `k` may leave of the counters.
pub data Moved (k : ℕ) (c c' : Counters) : Type 0 where
  unmoved : c' ≡ c → Moved k c c'
  thrown : c' ≡ count_throw k (count_try k c) → Moved k c c'
  returned_late : (u : Bool) → c' ≡ count_return k u (count_try k c) → Moved k c c'
  rejected : (u : Bool) → c' ≡ count_complete (count_return k u (count_try k c)) → Moved k c c'
  accepted_call :
      (u : Bool)
      → c' ≡ count_accept k (count_complete (count_return k u (count_try k c)))
      → Moved k c c'

counters-stop_native :
    (native : Option NativeObservation) (status : ℕ) (l : Ledger)
    → counters (stop_native native status l) ≡ counters l
unfolding stop
counters-stop_native none status l = refl
counters-stop_native (some o) status l = refl

-- The judgement accepts the call, or moves nothing.
counters-judge_status :
    (cat : PrimitiveCategory) (step : Bytes) (expected status : ℕ) (shape : Bool)
    (native : Option NativeObservation) (l : Ledger)
    → (counters (judge_status cat step expected status shape native l) ≡ counters l)
      ⊎ (counters (judge_status cat step expected status shape native l)
          ≡ count_accept (category_index cat) (counters l))
unfolding judge_status stop
counters-judge_status cat step expected status shape native l =
    let Goal = λ (l' : Ledger).
      (counters l' ≡ counters l) ⊎ (counters l' ≡ count_accept (category_index cat) (counters l)) in
    if-both Goal (native_stopped native) (λ e. inl (counters-stop_native native status l))
      λ e.
        if-both Goal (status == expected && shape) (λ f. inr refl)
          λ f.
            if-both Goal (is_negative cat && status == native_ok) (λ g. inl refl)
              λ g.
                if-both Goal (not (is_negative cat) && status == verification_rejected)
                  (λ h. inl refl) (λ h. inl refl)

-- The budgets leave room for a call in category `k`.
pub record IsFree (k : ℕ) (c : Counters) : Type 0 where
  pub room : (get_or c.calls k no_counts).attempted < get_or abi_limits k 0
  pub total_room : c.total < 106

abbrev pub count_reserve : ℕ → Counters → Counters
count_reserve k c =
    change k (λ x. record x { attempted = inc x.attempted }) (record c { total = inc c.total })

pub reserve_abi-refused :
    (k limit : ℕ) (l : Ledger)
    → (reserve_abi k limit l).0 ≡ false
    → counters (reserve_abi k limit l).1 ≡ counters l
unfolding reserve_abi stop
reserve_abi-refused k limit l =
    if-both (λ (r : Bool × Ledger). r.0 ≡ false → counters r.1 ≡ counters l)
      (leb 106 l.abi_attempted_total || leb limit (get_or l.abi_calls k no_counts).attempted)
      (λ e f. refl) (λ e f. absurd (cc f))

pub reserve_abi-taken :
    (k limit : ℕ) (l : Ledger)
    → (reserve_abi k limit l).0 ≡ true
    → (((get_or l.abi_calls k no_counts).attempted < limit) × (l.abi_attempted_total < 106))
      × (counters (reserve_abi k limit l).1 ≡ count_reserve k (counters l))
unfolding reserve_abi stop
reserve_abi-taken k limit l =
    if-both
      (λ (r : Bool × Ledger).
        r.0 ≡ true
        → (((get_or l.abi_calls k no_counts).attempted < limit) × (l.abi_attempted_total < 106))
          × (counters r.1 ≡ count_reserve k (counters l)))
      (leb 106 l.abi_attempted_total || leb limit (get_or l.abi_calls k no_counts).attempted)
      (λ e f. absurd (cc f)) (λ e f. ((ground (arith, e), ground (arith, e)), refl))

module _ (cat : PrimitiveCategory) (step : Bytes) (expected : ℕ) (shape_ok : ℕ → Bool)
    (native : Option NativeObservation) (after : Clock) (last : Last) where
  judged-Moved :
      (status : ℕ) (l : Ledger) (c : Counters)
      → counters l
        ≡ count_complete (
            count_return
              (category_index cat)
              (native_unknown native)
              (count_try (category_index cat) c))
      → Moved (category_index cat) c (
          counters
            (observe last.clock last.sample step
              (judge_status cat step expected status (shape_ok status) native l)).1)
  judged-Moved status l c h =
      let seen =
        counters-observe last.clock last.sample step
          (judge_status cat step expected status (shape_ok status) native l) in
      elim (counters-judge_status cat step expected status (shape_ok status) native l) [
        | inl e ↦ rejected (native_unknown native) (seen ∙ e ∙ h)
        | inr e ↦
            accepted_call (native_unknown native)
              (seen ∙ e ∙ ap (count_accept (category_index cat)) h)
      ]

  complete_call-Moved :
      (status : ℕ) (l : Ledger) (c : Counters)
      → counters l ≡ count_try (category_index cat) c
      → Moved
          (category_index cat)
          c
          (counters (complete_call cat step expected status shape_ok native after last l).1)
  unfolding complete_call
  complete_call-Moved status l c h =
      let k = category_index cat in
      let u = native_unknown native in
      let back = ap (count_return k u) h in
      let returned =
        record (count_abi k
          (λ x. record x {
            returned = inc x.returned;
            settled = if u then x.settled else inc x.settled;
            unknown = if u then inc x.unknown else x.unknown;
          })
          (record l {
            returned = inc l.returned;
            returned_steps = mark (step_index step) l.returned_steps;
          })) { attempted = l.attempted } in
      let fresh = counters-check_clock after step returned ∙ back in
      if-both (λ (r : Bool × Ledger). Moved k c (counters r.1))
        (not (check_clock after step returned).0)
        (λ e. returned_late u (counters-observe last.clock last.sample step _ ∙ fresh))
        (λ e. judged-Moved status _ c (ap count_complete fresh))

  make_call-Moved :
      (call : Outcome ℕ) (l : Ledger) (c : Counters)
      → counters l ≡ count_try (category_index cat) c
      → Moved
          (category_index cat)
          c
          (counters (make_call cat step expected call shape_ok native after last l).1)
  unfolding make_call
  make_call-Moved (returns status) l c h = complete_call-Moved status l c h
  make_call-Moved throws l c h = thrown (
      counters-observe last.clock last.sample step _
      ∙ counters-stop step minus_one (codes "SETTLEMENT_UNKNOWN")
          (count_abi (category_index cat) (λ x. record x { unknown = inc x.unknown }) l)
      ∙ ap (count_throw (category_index cat)) h)

  -- A call is made where both budgets leave room.
  abbrev pub Served : Counters → Counters → Type 0
  Served c c' = (c' ≡ c) ⊎ (IsFree (category_index cat) c × Moved (category_index cat) c c')

  attempt_call-Served :
      (call : Outcome ℕ) (r : Bool × Ledger) (c : Counters)
      → (r.0 ≡ false → counters r.1 ≡ c)
      → (r.0 ≡ true
          → IsFree (category_index cat) c × (counters r.1 ≡ count_reserve (category_index cat) c))
      → Served c (counters (attempt_call cat step expected call shape_ok native after last r).1)
  unfolding attempt_call
  attempt_call-Served call (false, l) c f t = inl (f refl)
  attempt_call-Served call (true, l) c f t = inr (
    (t refl).0,
    make_call-Moved call _ c
        (ap (λ (x : Counters). record x { attempted = inc x.attempted }) (t refl).1),
  )

  reserve_call-Served :
      (call : Outcome ℕ) (reservation : Option Ledger) (l : Ledger)
      → ((l' : Ledger) → reservation ≡ some l' → counters l' ≡ counters l)
      → Served (counters l) (
          counters (reserve_call cat step expected call shape_ok native after last reservation l).1)
  unfolding reserve_call
  reserve_call-Served call none l h = inl (
      counters-stop (codes "call_budget_exceeded") minus_one (codes "BUDGET_EXCEEDED")
        (record l { budget_rejections = inc l.budget_rejections }))
  reserve_call-Served call (some l') l h =
      let k = category_index cat in
      let limit = get_or abi_limits k 0 in
      attempt_call-Served call (reserve_abi k limit l') (counters l)
        (λ e. reserve_abi-refused k limit l' e ∙ h l' refl)
        λ e.
          let (free, same) = reserve_abi-taken k limit l' e in
          (
            subst (IsFree k) (h l' refl) (record { room = free.0; total_room = free.1 }),
            same ∙ ap (count_reserve k) (h l' refl),
          )

  -- `invoke_and_check` moves the counters by one call, within the budgets, or not at all.
  pub invoke_and_check-Served :
      (before : Clock) (call : Outcome ℕ) (l : Ledger)
      → Served
          (counters l)
          (counters (invoke_and_check cat step expected before call shape_ok native after last l).1)
  unfolding invoke_and_check
  invoke_and_check-Served before call l =
      let l' = (check_clock before step l).1 in
      let same = counters-check_clock before step l in
      if-both (λ (r : Bool × Ledger). Served (counters l) (counters r.1)) l.stopped (λ e. inl refl)
        λ e.
          if-both (λ (r : Bool × Ledger). Served (counters l) (counters r.1))
            (not (check_clock before step l).0) (λ f. inl same)
            λ f.
              subst
                (λ x. Served x (
                  counters
                    (reserve_call cat step expected call shape_ok native after last
                      (reserve_category cat l') l').1))
                same
                (reserve_call-Served call (reserve_category cat l') l'
                  λ l'' e. counters-reserve_category cat l' l'' e)
