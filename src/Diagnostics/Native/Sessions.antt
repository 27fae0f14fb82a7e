-- ===== src/Diagnostics/Native/Sessions.antt =====
-- The uses of one observer: calls, and tickets that are taken and given back in any order.
mod Kept
unfoldable pub use Kept.*
use shiroha_quiz.Base.{
  ℕ, zero, suc, ◌+◌, ◌%◌, ◌^◌, ◌≤◌, ◌≡◌, refl, Bool, true, false, not, ◌&&◌, ◌||◌, List, [], ◌∷◌,
  if◌then◌else◌, if-both, get_or, set, get-set_both, codes, arith,
}
use shiroha_quiz.Diagnostics.Native.{
  NativeOp, NativeObservation, no_observation, fail, Outcome, returns, throws, Observed,
  settle_call, budgeted, count_call, count_attempt, observe_native, Owner, no_owner, acquire,
  release, inc, dec,
}
use shiroha_quiz.Diagnostics.Native.Custody.{
  IsCounted, fail-IsCounted, observe_native-IsCounted, no_observation-IsCounted,
}

take-IsKept : (present : Bool) (s : Session) → IsKept s → IsKept (use_observer (take present) s)
unfolding use_observer acquire waiting
take-IsKept false s h = record {
  counted = h.counted;
  custody = omega (arith, h.custody);
  once = elim [ zero ↦ omega arith | suc i ↦ h.once i ];
}
take-IsKept true s h = record {
  counted = record {
    size = h.counted.size;
    balanced = h.counted.balanced;
    within = h.counted.within;
    owned = omega (arith, h.counted.owned);
  };
  custody = omega (arith, h.custody);
  once = elim [ zero ↦ omega arith | suc i ↦ h.once i ];
}

-- A ticket without a resource, or whose release was attempted, releases nothing.
refused-IsKept :
    (i : ℕ) (s : Session) (o : NativeObservation)
    → IsUntouched s.observation o
    → IsCounted o
    → IsKept s
    → IsKept (record {
      tickets =
          set s.tickets i
            (record { owner = (ticket_at i s).owner; freed = 0 + (ticket_at i s).freed });
      observation = o;
    })
refused-IsKept i s o u counted h = record {
  counted = counted;
  custody = omega (
    arith,
    h.custody,
    u.owned,
    u.quarantine,
    waiting-same s.tickets i
        (record { owner = (ticket_at i s).owner; freed = 0 + (ticket_at i s).freed }) refl,
  );
  once = λ j.
      get-set_both (λ k t. IsOnce t) s.tickets i _ j no_ticket (omega (arith, h.once i)) (h.once j);
}

-- The ticket behind an attempted release.
abbrev spent : Bool → Ticket → Ticket
spent called t = record {
  owner = record (t.owner) { attempted = true };
  freed = (if called then 1 else 0) + t.freed;
}

-- What the result of the releasing call leaves.
abbrev given_back : Bool → NativeObservation → NativeObservation
given_back accepted o =
    if accepted
    then record o { released = inc o.released; still_owned = dec o.still_owned }
    else record o { quarantined = inc o.quarantined }

spent-IsOnce :
    (i : ℕ) (s : Session) (called : Bool)
    → (ticket_at i s).owner.attempted ≡ false
    → IsKept s
    → (j : ℕ) → IsOnce (get_or (set s.tickets i (spent called (ticket_at i s))) j no_ticket)
spent-IsOnce i s called b h j =
    get-set_both (λ k (t : Ticket). IsOnce t) s.tickets i (spent called (ticket_at i s)) j no_ticket
      (ground (arith, h.once i, b)) (h.once j)

given_back-IsCounted :
    (accepted : Bool) (o : NativeObservation) → IsCounted o → IsCounted (given_back accepted o)
given_back-IsCounted true o h = record {
  size = h.size;
  balanced = h.balanced;
  within = h.within;
  owned = omega (arith, h.owned);
}
given_back-IsCounted false o h = record {
  size = h.size;
  balanced = h.balanced;
  within = h.within;
  owned = h.owned;
}

-- A ticket that waited no longer does.
given_back-custody :
    (accepted : Bool) (o : NativeObservation) (n : ℕ)
    → o.still_owned ≡ (n + 1 + o.quarantined) % 2 ^ 32
    → (given_back accepted o).still_owned ≡ (n + (given_back accepted o).quarantined) % 2 ^ 32
given_back-custody true o n h = omega (arith, h)
given_back-custody false o n h = omega (arith, h)

released-IsKept :
    (i : ℕ) (s : Session) (o : NativeObservation) (accepted called : Bool)
    → (ticket_at i s).owner.acquired ≡ true
    → (ticket_at i s).owner.attempted ≡ false
    → IsUntouched s.observation o
    → IsCounted o
    → IsKept s
    → IsKept (record {
      tickets = set s.tickets i (spent called (ticket_at i s));
      observation = given_back accepted o;
    })
released-IsKept i s o accepted called a b u counted h = record {
  counted = given_back-IsCounted accepted o counted;
  custody =
      given_back-custody accepted o (waiting (set s.tickets i (spent called (ticket_at i s)))) (
        omega (
          arith,
          h.custody,
          u.owned,
          u.quarantine,
          waiting-set s.tickets i (spent called (ticket_at i s)) (ground (arith, a, b))
              (ground arith),
        ));
  once = spent-IsOnce i s called b h;
}

give_back-IsKept :
    (i : ℕ) (op : NativeOp) (outcome : Outcome Bool) (s : Session)
    → IsKept s
    → IsKept (use_observer (give_back i op outcome) s)
unfolding use_observer release fail
give_back-IsKept i op outcome s h =
    let w = (ticket_at i s).owner in
    let d = observe_native op true true outcome (λ b. b) false s.observation in
    let Goal = λ (r : Owner × Observed Bool). IsKept (record {
      tickets =
          set s.tickets i
            (record { owner = r.0; freed = (if r.1.called then 1 else 0) + (ticket_at i s).freed });
      observation = r.1.observation;
    }) in
    if-both Goal (not w.acquired || w.attempted)
      (λ e.
        if-both
          (λ (o : NativeObservation). IsKept (record {
            tickets = set s.tickets i (record { owner = w; freed = 0 + (ticket_at i s).freed });
            observation = o;
          }))
          w.observed
          (λ f.
            refused-IsKept i s _ (record { owned = refl; quarantine = refl })
              (fail-IsCounted (codes "duplicate_or_unowned_release") true s.observation h.counted)
              h)
          (λ f. refused-IsKept i s _ (record { owned = refl; quarantine = refl }) h.counted h))
      (λ e.
        released-IsKept i s d.observation d.result d.called (ground (arith, e)) (ground (arith, e))
          (observe_native-IsUntouched op true true outcome (λ b. b) false s.observation)
          (observe_native-IsCounted op true true outcome (λ b. b) false s.observation h.counted) h)

pub use_observer-IsKept : (u : Use) (s : Session) → IsKept s → IsKept (use_observer u s)
unfolding use_observer
use_observer-IsKept (take present) s h = take-IsKept present s h
use_observer-IsKept (give_back i op outcome) s h = give_back-IsKept i op outcome s h
use_observer-IsKept (ask_native op admitted outcome) s h =
    let u = observe_native-IsUntouched op false admitted outcome (λ b. b) false s.observation in
    record {
      counted =
          observe_native-IsCounted op false admitted outcome (λ b. b) false s.observation h.counted;
      custody = omega (arith, h.custody, u.owned, u.quarantine);
      once = h.once;
    }

run-IsKept : (us : List Use) (s : Session) → IsKept s → IsKept (run us s)
unfolding run
run-IsKept [] s h = h
run-IsKept (u ∷ us) s h = run-IsKept us (use_observer u s) (use_observer-IsKept u s h)

-- Whatever calls are made through an observer from its start, and however they come back: per operation
-- every call is returned or unknown and what returned is accepted or failed, no budget is overrun but
-- by a release that makes the observation unknown, acquired is released plus still owned, what is still
-- owned waits for its release or its release failed, and no resource is released twice. Counters are
-- taken modulo 2 ^ 32.
pub observed-IsKept : (us : List Use) → IsKept (run us start)
observed-IsKept us = run-IsKept us start start-IsKept
