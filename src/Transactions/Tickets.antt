-- ===== src/Transactions/Tickets.antt =====
-- The ticket and the handles of a transaction behind its `commit` or `abort`.
use shiroha_quiz.Base.{ℕ, ◌≡◌, refl, Bool, true, false, not, some, set, arith, Bytes, if-both}
use shiroha_quiz.Status.{Status}
use shiroha_quiz.Machine.{
  null, Environment, Lease, Locals, Context, Result, CommitDiagnostic, ◌>>=◌, close_if,
  change_lease, change_locals, pure,
}
use shiroha_quiz.Machine.Keeps.{
  Keeps, ◌▹◌, Keeps-pure, Keeps-if, Keeps-get_lease, Keeps-change_locals,
}
use shiroha_quiz.Machine.Runs.{
  Reaches, Reaches-after, Reaches-keep, IsTotal-change_locals, IsTotal-get_locals, IsTotal-attempt,
}
use shiroha_quiz.Leases.{finish}
use shiroha_quiz.Owners.{World, enter, leave}
use shiroha_quiz.Transactions.{
  commit_settle, commit_lease, commit_found, ticket_matches, abort_lease, abort_found,
}

-- No ticket is out, and neither handle of the transaction is held.
pub record IsSettled (c : Context) : Type 0 where
  pub no_ticket : c.lease.ticket ≡ 0
  pub no_target : c.lease.target ≡ null
  pub no_temporary : c.lease.temporary ≡ null

module _ (env : Environment) where
  finish-IsSettled : Reaches IsSettled (finish env)
  unfolding finish ◌>>=◌ close_if change_lease pure
  finish-IsSettled = record {
    at = λ c. record {
      no_ticket = ground arith;
      no_target = ground arith;
      no_temporary = ground arith;
    };
  }

  commit_settle-IsSettled :
      (credential : Bool) (r : Result (Unit {0}))
      → Reaches IsSettled (commit_settle env credential r)
  unfolding commit_settle
  commit_settle-IsSettled credential r = Reaches-after (IsTotal-change_locals _) λ u.
      Reaches-after IsTotal-get_locals λ v. Reaches-keep finish-IsSettled λ b. keep_locals _ ▹ λ u.
      Keeps-get_lease ▹ λ l. Keeps-if _ _ _ (keep_locals _) (Keeps-pure _) ▹ λ u. Keeps-pure _
    where
      keep_locals : (f : Locals → Locals) → Keeps IsSettled (change_locals f)
      keep_locals f = Keeps-change_locals f λ c h. record {
        no_ticket = h.no_ticket;
        no_target = h.no_target;
        no_temporary = h.no_temporary;
      }

  commit_lease-IsSettled :
      (credential : Bool) (input : Bytes) → Reaches IsSettled (commit_lease env credential input)
  unfolding commit_lease
  commit_lease-IsSettled credential input =
      Reaches-after (IsTotal-attempt _) (commit_settle-IsSettled credential)

  abort_lease-IsSettled : Reaches IsSettled (abort_lease env)
  unfolding abort_lease
  abort_lease-IsSettled = Reaches-keep finish-IsSettled λ b. Keeps-pure _

-- A lease with no ticket matches none.
settled-ticket_matches :
    (env : Environment) (c : Context) (ticket : ℕ) (credential : Bool)
    → IsSettled c
    → ticket_matches env ticket credential c.lease ≡ false
settled-ticket_matches env c ticket credential h = ground (arith, h.no_ticket)

-- The slot of a table behind a settled transaction: a lease without a ticket or a handle of the
-- transaction, which matches no ticket.
pub record Consumed (env : Environment) (slot : ℕ) (w w' : World) : Type 0 where
  pub left : Lease
  pub same_slots : w'.owners ≡ set w.owners slot (some left)
  pub spent : (t : ℕ) (c : Bool) → ticket_matches env t c left ≡ false
  pub closed : (left.target ≡ null) × (left.temporary ≡ null)

Consumed-by :
    (env : Environment) (slot : ℕ) (w : World) (c : Context)
    → IsSettled c
    → Consumed env slot w (leave w slot (some c.lease) c)
Consumed-by env slot w c h = record {
  left = c.lease;
  same_slots = refl;
  spent = λ t b. settled-ticket_matches env c t b h;
  closed = (h.no_target, h.no_temporary);
}

commit_found-consumes :
    (env : Environment) (ticket : ℕ) (credential : Bool) (input : Bytes) (slot : ℕ) (l : Lease)
    (w : World)
    → ticket_matches env ticket credential l ≡ true
    → Consumed env slot w (commit_found env ticket credential input (some (slot, l)) w).2
unfolding commit_found
commit_found-consumes env ticket credential input slot l w =
    let c = (commit_lease env credential input (enter w l)).1 in
    let after =
      Consumed-by env slot w c ((commit_lease-IsSettled env credential input).at (enter w l)) in
    let Goal = λ (r : Status × CommitDiagnostic × World).
      ticket_matches env ticket credential l ≡ true → Consumed env slot w r.2 in
    if-both Goal (not (ticket_matches env ticket credential l))
      (λ e h. absurd (ground (arith, e, h))) (λ e h. after)

abort_found-consumes :
    (env : Environment) (ticket : ℕ) (credential : Bool) (slot : ℕ) (l : Lease) (w : World)
    → ticket_matches env ticket credential l ≡ true
    → Consumed env slot w (abort_found env ticket credential (some (slot, l)) w).1
unfolding abort_found
abort_found-consumes env ticket credential slot l w =
    let c = (abort_lease env (enter w l)).1 in
    let after = Consumed-by env slot w c ((abort_lease-IsSettled env).at (enter w l)) in
    let Goal = λ (r : Status × World).
      ticket_matches env ticket credential l ≡ true → Consumed env slot w r.1 in
    if-both Goal (not (ticket_matches env ticket credential l))
      (λ e h. absurd (ground (arith, e, h))) (λ e h. after)

-- A `commit` and an `abort` whose ticket matches consume it whatever they return, also where the operating
-- system fails or throws anywhere: the lease that they leave in the slot matches no ticket any more and
-- holds neither the target nor the temporary file.
pub ticket_matches-Consumed :
    (env : Environment) (ticket : ℕ) (credential : Bool) (input : Bytes) (slot : ℕ) (l : Lease)
    (w : World)
    → ticket_matches env ticket credential l ≡ true
    → Consumed env slot w (commit_found env ticket credential input (some (slot, l)) w).2
      × Consumed env slot w (abort_found env ticket credential (some (slot, l)) w).1
ticket_matches-Consumed env ticket credential input slot l w h = (
  commit_found-consumes env ticket credential input slot l w h,
  abort_found-consumes env ticket credential slot l w h,
)
