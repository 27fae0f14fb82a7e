-- ===== src/Leases/Covered.antt =====
-- The count of handles over each step: those that the environment gave out, that were passed to closing calls,
-- and that are held.
use native.Mathlib.Nat.{le_of_eq}
use shiroha_quiz.Base.{
  ℕ, ◌≤◌, ◌≡◌, refl, ap, ◌∙◌, Bool, true, false, List, ◌∷◌, arith, Bool-cases, inl, inr,
}
use shiroha_quiz.Machine.{
  Handle, null, Call, Environment, Pin, Lease, Locals, Context, Event, change_lease, change_locals,
  change_memory, Place, ask, open_at, close_if,
}
use shiroha_quiz.Machine.Keeps.{
  Keeps, Keeps-ask, Keeps-change_lease, Keeps-change_locals, Keeps-change_memory,
}
use shiroha_quiz.Memory.{Memory}
use shiroha_quiz.Leases.{
  target_place, temporary_place, observed_place, exchange_place, discovery_place, read_place,
  receipt_place, read_at, receipt_at, pin_read,
}
use shiroha_quiz.Leases.Accounts.{
  weigh, opens, closing, commits, opened, closed, IsCovered, receipts_weight-set, reads_weight-set,
}
use shiroha_quiz.Leases.Stable.{IsPlace, frame-IsPlace, IsTame, IsTameLocals, IsMove, IsStable}

pub target-IsPlace : IsPlace target_place
target-IsPlace = frame-IsPlace target_place (λ n h c. omega arith) (λ c es. refl) (λ h c. refl)

pub temporary-IsPlace : IsPlace temporary_place
temporary-IsPlace =
    frame-IsPlace temporary_place (λ n h c. omega arith) (λ c es. refl) (λ h c. refl)

pub observed-IsPlace : IsPlace observed_place
observed-IsPlace = frame-IsPlace observed_place (λ n h c. omega arith) (λ c es. refl) (λ h c. refl)

pub exchange-IsPlace : IsPlace exchange_place
exchange-IsPlace = frame-IsPlace exchange_place (λ n h c. omega arith) (λ c es. refl) (λ h c. refl)

pub discovery-IsPlace : IsPlace discovery_place
discovery-IsPlace =
    frame-IsPlace discovery_place (λ n h c. omega arith) (λ c es. refl) (λ h c. refl)

pub read-IsPlace : (i : ℕ) → IsPlace (read_place i)
read-IsPlace i =
    frame-IsPlace (read_place i)
      (λ n h c.
        omega (arith, reads_weight-set n i (pin_read h (read_at i c.lease)) c.lease.exchange_reads))
      (λ c es. refl) (λ h c. refl)

pub receipt-IsPlace : (i : ℕ) → IsPlace (receipt_place i)
receipt-IsPlace i =
    frame-IsPlace (receipt_place i)
      (λ n h c. omega (
        arith,
        receipts_weight-set n i (record (receipt_at i c.lease) { pin = h })
            c.lease.exchange_receipts,
      ))
      (λ c es. refl) (λ h c. refl)

-- A call that commits gives out no handle and closes none.
opens-commits : (call : Call) → commits call ≡ true → opens call ≡ false
opens-commits call k = ground (arith, k)

closing-commits : (call : Call) → commits call ≡ true → closing call ≡ null
closing-commits call k = ground (arith, k)

module _ {n k : ℕ} {pins : List Pin} {q : Bool} (env : Environment) where
  -- A call that neither opens nor closes.
  Covered-ask :
      (call : Call)
      → opens call ≡ false
      → closing call ≡ null
      → Keeps (IsCovered n k pins q) (ask env call)
  unfolding opened closed
  Covered-ask call o e = Keeps-ask env call (λ c h. record {
    covered = rw (o, e) (omega (arith, h.covered));
    same_pins = h.same_pins;
    latched = h.latched;
  })

  Covered-open_at :
      (p : Place) (call : Call)
      → IsPlace p
      → opens call ≡ true
      → closing call ≡ null
      → Keeps (IsCovered n k pins q) (open_at env p call)
  unfolding open_at opened closed
  Covered-open_at p call place o e = record {
    at = λ c h.
        let answer = env c.history call in
        let event : Event = record { call = call; answer = answer } in
        let c' = record c { history = event ∷ c.history } in
        record {
          covered =
              rw (place.same_history answer.handle c', o, e)
                (omega (arith, h.covered, place.exchange_weight n answer.handle c'));
          same_pins = place.same_pins answer.handle c' ∙ h.same_pins;
          latched = λ l. place.same_quarantine answer.handle c' ∙ h.latched l;
        };
  }

  -- A place is emptied, and its handle closed if it passes the test.
  close-IsCovered :
      (p : Place) (c : Context) (event : Event)
      → IsPlace p
      → weigh n (closing event.call) ≤ weigh n (p.held c)
      → opens event.call ≡ false
      → IsCovered n k pins q c
      → IsCovered n k pins q (p.put null (record c { history = event ∷ c.history }))
  unfolding opened closed
  close-IsCovered p c event place w o h =
      let c' = record c { history = event ∷ c.history } in
      record {
        covered =
            rw (place.same_history null c', o)
              (omega (
                arith,
                h.covered,
                w,
                place.exchange_weight n null c',
                ap (weigh n) (place.same_held c (event ∷ c.history)),
              ));
        same_pins = place.same_pins null c' ∙ h.same_pins;
        latched = λ l. place.same_quarantine null c' ∙ h.latched l;
      }

  Covered-close_if :
      (test : Handle → Bool) (call : Handle → Call) (p : Place)
      → IsPlace p
      → ((h : Handle) → closing (call h) ≡ h)
      → ((h : Handle) → opens (call h) ≡ false)
      → Keeps (IsCovered n k pins q) (close_if env test call p)
  unfolding close_if
  Covered-close_if test call p place c_lem o_lem = record {
    at = λ c h. elim (Bool-cases (test (p.held c))) [
      | inl e ↦ rw e (
          close-IsCovered p c
            (record { call = call (p.held c); answer = env c.history (call (p.held c)) }) place
            (le_of_eq (ap (weigh n) (c_lem (p.held c)))) (o_lem (p.held c)) h)
      | inr e ↦ rw e (record {
        covered =
            rw (place.same_history null c)
              (omega (arith, h.covered, place.exchange_weight n null c));
        same_pins = place.same_pins null c ∙ h.same_pins;
        latched = λ l. place.same_quarantine null c ∙ h.latched l;
      })
    ];
  }

module _ {n k : ℕ} {pins : List Pin} {q : Bool} where
  Covered-lease : (f : Lease → Lease) → IsTame f → Keeps (IsCovered n k pins q) (change_lease f)
  Covered-lease f tame = Keeps-change_lease f λ c h. record {
    covered = omega (arith, h.covered, tame.lighter n c.lease);
    same_pins = tame.same_pins c.lease ∙ h.same_pins;
    latched = λ l. tame.latched c.lease (h.latched l);
  }

  Covered-locals :
      (f : Locals → Locals) → IsTameLocals f → Keeps (IsCovered n k pins q) (change_locals f)
  Covered-locals f tame = Keeps-change_locals f λ c h. record {
    covered = omega (arith, h.covered, tame.lighter n c.locals);
    same_pins = h.same_pins;
    latched = h.latched;
  }

  Covered-memory : (f : Memory → Memory) → Keeps (IsCovered n k pins q) (change_memory f)
  Covered-memory f =
      Keeps-change_memory f
        λ c h. record { covered = h.covered; same_pins = h.same_pins; latched = h.latched }

  Covered-move :
      (f : Context → Context)
      → IsMove f
      → (c : Context) → IsCovered n k pins q c
      → IsCovered n k pins q (f c)
  Covered-move f m c h = record {
    covered = rw (m.same_history c) (omega (arith, h.covered, m.lighter n c));
    same_pins = m.same_pins c ∙ h.same_pins;
    latched = λ l. m.same_quarantine c ∙ h.latched l;
  }

-- The count of handles withstands every such change.
pub Covered-IsStable :
    (env : Environment) (n k : ℕ) (pins : List Pin) (q : Bool) → IsStable env (IsCovered n k pins q)
Covered-IsStable env n k pins q = record {
  calm = record {
    quiet = λ call o e k. Covered-ask env call o e;
    open_call = λ p call place o e k. Covered-open_at env p call place o e;
    close_call = λ test call p place e o k. Covered-close_if env test call p place e o;
    lease_change = Covered-lease;
    locals_change = Covered-locals;
    memory_change = Covered-memory;
    move = Covered-move;
  };
  commit_call = λ call k. Covered-ask env call (opens-commits call k) (closing-commits call k);
  mark = Keeps-change_locals _ λ c h. record {
    covered = omega (arith, h.covered);
    same_pins = h.same_pins;
    latched = h.latched;
  };
}
