-- ===== src/Diagnostics/Native/Sessions/Kept.antt =====
-- Runs of an observer with the tickets of what it acquires, and what is kept in them.
use shiroha_quiz.Base.{
  ℕ, zero, suc, ◌+◌, ◌%◌, ◌^◌, ◌≤◌, ◌≡◌, refl, Bool, true, false, not, ◌&&◌, List, [], ◌∷◌,
  if◌then◌else◌, if-both, get_or, set, codes, arith,
}
use shiroha_quiz.Diagnostics.Native.{
  NativeOp, NativeObservation, no_observation, fail, Outcome, returns, throws, Observed,
  settle_call, budgeted, count_call, count_attempt, observe_native, Owner, no_owner, acquire,
  release,
}
use shiroha_quiz.Diagnostics.Native.Custody.{IsCounted, no_observation-IsCounted}

pub data Use : Type 0 where
  ask_native : NativeOp → Bool → Outcome Bool → Use
  take : Bool → Use
  give_back : ℕ → NativeOp → Outcome Bool → Use

-- A ticket, with how often the call that releases its resource was made.
pub record Ticket : Type 0 where
  pub owner : Owner
  pub freed : ℕ

abbrev pub no_ticket : Ticket
no_ticket = record { owner = no_owner; freed = 0 }

-- The newest ticket is the first.
pub record Session : Type 0 where
  pub tickets : List Ticket
  pub observation : NativeObservation

abbrev pub start : Session
start = record { tickets = []; observation = no_observation }

abbrev pub ticket_at : ℕ → Session → Ticket
ticket_at i s = get_or s.tickets i no_ticket

unfoldable pub use_observer : Use → Session → Session
use_observer (ask_native op admitted outcome) s = record s {
  observation = (observe_native op false admitted outcome (λ b. b) false s.observation).observation;
}
use_observer (take present) s =
    let (w, o) = acquire present no_owner s.observation in
    record { tickets = record { owner = w; freed = 0 } ∷ s.tickets; observation = o }
use_observer (give_back i op outcome) s =
    let (w, d) = release op outcome (λ b. b) false (ticket_at i s).owner s.observation in
    record {
      tickets =
          set s.tickets i
            (record { owner = w; freed = (if d.called then 1 else 0) + (ticket_at i s).freed });
      observation = d.observation;
    }

unfoldable pub run : List Use → Session → Session
run [] s = s
run (u ∷ us) s = run us (use_observer u s)

-- A ticket that holds a resource whose release was not attempted.
abbrev pub waits : Ticket → ℕ
waits t = if t.owner.acquired && not t.owner.attempted then 1 else 0

unfoldable pub waiting : List Ticket → ℕ
waiting [] = 0
waiting (t ∷ ts) = waits t + waiting ts

pub waiting-set :
    (ts : List Ticket) (i : ℕ) (t : Ticket)
    → waits (get_or ts i no_ticket) ≡ 1
    → waits t ≡ 0
    → suc (waiting (set ts i t)) ≡ waiting ts
unfolding waiting
waiting-set [] i t e f = absurd (omega (arith, e))
waiting-set (x ∷ ts) zero t e f = omega (arith, e, f)
waiting-set (x ∷ ts) (suc i) t e f = omega (arith, waiting-set ts i t e f)

pub waiting-same :
    (ts : List Ticket) (i : ℕ) (t : Ticket)
    → waits (get_or ts i no_ticket) ≡ waits t
    → waiting (set ts i t) ≡ waiting ts
unfolding waiting
waiting-same [] i t e = refl
waiting-same (x ∷ ts) zero t e = omega (arith, e)
waiting-same (x ∷ ts) (suc i) t e = omega (arith, waiting-same ts i t e)

-- No resource is released twice.
abbrev pub IsOnce : Ticket → Type 0
IsOnce t = t.freed ≤ (if t.owner.attempted then 1 else 0)

pub record IsKept (s : Session) : Type 0 where
  pub counted : IsCounted s.observation
  -- What is still owned waits for its release, or its release failed.
  pub custody : s.observation.still_owned ≡ (waiting s.tickets + s.observation.quarantined) % 2 ^ 32
  pub once : (i : ℕ) → IsOnce (ticket_at i s)

pub start-IsKept : IsKept start
unfolding waiting
start-IsKept = record {
  counted = no_observation-IsCounted;
  custody = refl;
  once = λ i. omega arith;
}

-- A call counts itself, and leaves the resources as they were.
pub record IsUntouched (o o' : NativeObservation) : Type 0 where
  pub owned : o'.still_owned ≡ o.still_owned
  pub quarantine : o'.quarantined ≡ o.quarantined

settle_call-IsUntouched {ℓ} :
    {R : Type ℓ} (op : NativeOp) (back : Bool) (call : Outcome R) (accept : R → Bool) (failure : R)
    (o : NativeObservation)
    → IsUntouched o (settle_call op back call accept failure o).observation
unfolding settle_call fail
settle_call-IsUntouched op back (returns r) accept failure o =
    if-both (IsUntouched o) (accept r) (λ e. record { owned = refl; quarantine = refl })
      (λ e. record { owned = refl; quarantine = refl })
settle_call-IsUntouched op back throws accept failure o = record { owned = refl; quarantine = refl }

budgeted-IsUntouched {ℓ} :
    {R : Type ℓ} (op : NativeOp) (back over : Bool) (call : Outcome R) (accept : R → Bool)
    (failure : R) (o : NativeObservation)
    → IsUntouched o (budgeted op back over call accept failure o).observation
unfolding budgeted fail
budgeted-IsUntouched op back false call accept failure o =
    let h = settle_call-IsUntouched op back call accept failure (count_call op count_attempt o) in
    record { owned = h.owned; quarantine = h.quarantine }
budgeted-IsUntouched op false true call accept failure o = record {
  owned = refl;
  quarantine = refl;
}
budgeted-IsUntouched op true true call accept failure o =
    let h =
      settle_call-IsUntouched op true call accept failure
        (count_call op count_attempt (fail (codes "native_budget") true o)) in
    record { owned = h.owned; quarantine = h.quarantine }

pub observe_native-IsUntouched {ℓ} :
    {R : Type ℓ} (op : NativeOp) (back admitted : Bool) (call : Outcome R) (accept : R → Bool)
    (failure : R) (o : NativeObservation)
    → IsUntouched o (observe_native op back admitted call accept failure o).observation
unfolding observe_native fail
observe_native-IsUntouched {R = R} op back admitted call accept failure o =
    if-both (λ (r : Observed R). IsUntouched o r.observation) (not back && not admitted)
      (λ e. record { owned = refl; quarantine = refl })
      (λ e. budgeted-IsUntouched op back _ call accept failure o)
