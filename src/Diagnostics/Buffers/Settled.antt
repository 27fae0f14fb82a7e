-- ===== src/Diagnostics/Buffers/Settled.antt =====
-- The end of the pool, `release_all_remaining`.
use shiroha_quiz.Base.{
  ℕ, zero, suc, ◌+◌, ◌≤◌, ◌<◌, ◌≡◌, refl, sym, ◌∙◌, inl, inr, Bool, true, false, not, ◌&&◌, ◌||◌,
  List, [], ◌∷◌, leb, if◌then◌else◌, if-both, Bool-cases, get_or, set, length, length-set, arith,
  All, get-set_same, get-set_other, set-set,
}
use shiroha_quiz.Diagnostics.Native.{Outcome, returns, throws}
use shiroha_quiz.Diagnostics.Budget.{Ledger, reserve_abi}
use shiroha_quiz.Diagnostics.Buffers.{
  Slot, no_slot, Pool, slot_at, freed, release_reserved, release, release_from,
  release_all_remaining,
}
use shiroha_quiz.Diagnostics.Buffers.Pooled.{IsSlot, in_use, given_back, lost, count, All-get}
use shiroha_quiz.Diagnostics.Buffers.Kept.{IsKept, release-IsKept, release_from-IsKept}

-- A slot is written with its release attempted.
Attempted : ℕ → List Slot → List Slot → Type 0
Attempted i ss ss' = (s : Slot) × ((s.release_attempted ≡ true) × (ss' ≡ set ss i s))

module _ (i : ℕ) (slot : Slot) (tried : slot.release_attempted ≡ true) where
  freed-Attempted :
      (call : Outcome (Unit {0})) (p : Pool) → Attempted i p.slots (freed i call slot p).1.slots
  unfolding freed Attempted
  freed-Attempted (returns u) p = (_, (tried, refl))
  freed-Attempted throws p = (_, (tried, refl))

  release_reserved-Attempted :
      (call : Outcome (Unit {0})) (p : Pool) (r : Bool × Ledger)
      → Attempted i p.slots (release_reserved i call slot p r).1.slots
  unfolding release_reserved Attempted
  release_reserved-Attempted call p (true, l) = freed-Attempted call (record p { ledger = l })
  release_reserved-Attempted call p (false, l) = (_, (tried, refl))

release-Attempted :
    (i : ℕ) (call : Outcome (Unit {0})) (p : Pool)
    → i < length p.slots
    → (slot_at i p).allocated_ever ≡ true
    → (slot_at i p).release_attempted ≡ false
    → Attempted i p.slots (release i call p).1.slots
unfolding release Attempted
release-Attempted i call p lt ever waits =
    let Goal = λ (r : Bool × Pool). Attempted i p.slots r.1.slots in
    let slot = record (slot_at i p) { release_attempted = true } in
    if-both Goal (leb (length p.slots) i || not (slot_at i p).allocated_ever)
      (λ e. absurd (ground (arith, e, lt, ever)))
      λ e.
        if-both Goal (slot_at i p).release_attempted (λ f. absurd (cc (f, waits)))
          λ f.
            (let (s, (tried, same)) =
                release_reserved-Attempted i slot refl call
                  (record p { slots = set p.slots i slot }) (reserve_abi 6 45 p.ledger) in
              (s, (tried, same ∙ set-set p.slots i slot s)))

-- The slots from `n` on have had their release.
IsDone : ℕ → List Slot → Type 0
IsDone n ss = (j : ℕ) → j < length ss → n ≤ j → (get_or ss j no_slot).release_attempted ≡ true

IsDone-extend :
    (n : ℕ) (ss : List Slot)
    → (get_or ss n no_slot).release_attempted ≡ true
    → IsDone (suc n) ss
    → IsDone n ss
unfolding IsDone
IsDone-extend n ss tried done j inside from = elim (Bool-cases (leb j n)) [
  | inl e ↦ (let here : j ≡ n = ground (arith, e, from) in rw here tried)
  | inr e ↦ done j inside (ground (arith, e))
]

IsDone-set :
    (n : ℕ) (ss ss' : List Slot)
    → n < length ss
    → IsDone (suc n) ss
    → Attempted n ss ss'
    → IsDone n ss'
unfolding IsDone Attempted
IsDone-set n ss ss' lt done (s, (tried, same)) = rw same (
    IsDone-extend n (set ss n s) (rw (get-set_same ss n s no_slot lt) tried) λ j inside from.
      rw (get-set_other ss n j s no_slot (λ d. omega (arith, d, from)))
        (done j (omega (arith, inside, length-set ss n s)) from))

ever : (s : Slot) → IsSlot s → s.allocated_ever ≡ true
ever s (in_use e active attempted succeeded unknown) = e
ever s (given_back e active attempted succeeded unknown) = e
ever s (lost e active attempted succeeded unknown) = e

release_from-IsDone :
    (n : ℕ) (call : ℕ → Outcome (Unit {0})) (p : Pool)
    → IsKept p
    → n ≤ length p.slots
    → IsDone n p.slots
    → IsDone 0 (release_from n call p).slots
unfolding release_from IsDone Attempted
release_from-IsDone zero call p h le done = done
release_from-IsDone (suc n) call p h le done =
    let released = (release n (call n) p).1 in
    let guard = (slot_at n p).allocated_ever && not (slot_at n p).release_attempted in
    let was = ever (slot_at n p) (All-get p.slots n (omega (arith, le)) h.sound) in
    let (kept, (long, finished)) =
      if-both (λ (p' : Pool). IsKept p' × ((n ≤ length p'.slots) × IsDone n p'.slots)) guard
        (λ e.
          (let new = release-Attempted n (call n) p (omega (arith, le)) was (ground (arith, e)) in
            (
              release-IsKept n (call n) p h,
              (
                rw new.1.1 (omega (arith, le, length-set p.slots n new.0)),
                IsDone-set n p.slots released.slots (omega (arith, le)) done new,
              ),
            )))
        (λ e. (h, (omega (arith, le), IsDone-extend n p.slots (ground (arith, e, was)) done))) in
    release_from-IsDone n call (if guard then released else p) kept long finished

-- Of slots whose release was tried, each is given back or lost.
done-settles :
    (ss : List Slot)
    → All IsSlot ss
    → IsDone 0 ss
    → (count (λ s. s.active) ss ≡ count (λ s. s.release_unknown) ss)
      × (count (λ s. s.release_succeeded) ss + count (λ s. s.release_unknown) ss ≡ length ss)
unfolding IsDone
done-settles [] h done = (refl, refl)
done-settles (s ∷ ss) h done =
    let (live, whole) =
      done-settles ss h.1 (λ j inside from. done (suc j) (omega (arith, inside)) (omega arith)) in
    let tried = done 0 (omega arith) (omega arith) in
    elim h.0 [
      | in_use e active attempted succeeded unknown ↦ absurd (cc (attempted, tried))
      | given_back e active attempted succeeded unknown ↦ (
        rw (active, unknown) (omega (arith, live)),
        rw (succeeded, unknown) (omega (arith, whole)),
      )
      | lost e active attempted succeeded unknown ↦ (
        rw (active, unknown) (omega (arith, live)),
        rw (succeeded, unknown) (omega (arith, whole)),
      )
    ]

-- Where a pool that is in step with its ledger has released what remained, the buffers that the ledger
-- takes for live are those whose release is unknown, and these and the buffers given back are all that were
-- allocated.
pub release_all_remaining-settles :
    (call : ℕ → Outcome (Unit {0})) (p : Pool)
    → IsKept p
    → let l = (release_all_remaining call p).ledger in
      (l.buffers_live ≡ l.releases_unknown)
      × (l.releases_succeeded + l.releases_unknown ≡ l.buffers_allocated)
unfolding release_all_remaining IsDone
release_all_remaining-settles call p h =
    let p' = release_from (length p.slots) call p in
    let kept = release_from-IsKept (length p.slots) call p h in
    let done =
      release_from-IsDone (length p.slots) call p h (omega arith)
        (λ j inside from. absurd (omega (arith, inside, from))) in
    let (live, whole) = done-settles p'.slots kept.sound done in
    (
      kept.live ∙ live ∙ sym kept.uncertain,
      omega (arith, kept.succeeded, kept.uncertain, kept.allocated, whole),
    )
