-- ===== src/Transactions/Balance.antt =====
-- The store transactions keep the count of handles covered.
use shiroha_quiz.Base.{ℕ, Bool, some, Bytes, not, ◌||◌, ltb, ◌==◌}
use shiroha_quiz.Status.{Status, abi_version, int64_max}
use shiroha_quiz.Memory.{span, count, overlap, clear, store, read}
use shiroha_quiz.Machine.{Environment, Lease}
use shiroha_quiz.Owners.{World}
use shiroha_quiz.Owners.Balance.{
  memory-IsSound, IsSound, StandsAt, Leaves, Leaves-if, Leaves-find, behind, run_in-Leaves,
  orderly-IsSound,
}
use shiroha_quiz.Transactions.{
  kind_allowed, begin_lease, begin_found, begin, ticket_matches, commit_lease, commit_found, commit,
  abort_lease, abort_found, abort,
}
use shiroha_quiz.Transactions.Steps.{Keeps-begin_lease, Keeps-commit_lease, Keeps-abort_lease}

-- The world behind a status and what else a call reports.
abbrev pub behind_report {ℓ} : {A : Type ℓ} → Status × A × World → World
behind_report r = r.2

module _ {gone : ℕ → Type 0} (env : Environment) where
  begin_lease-Leaves :
      (kind output capacity written ticket : ℕ) (w : World) (slot : ℕ) (l : Lease)
      → StandsAt w slot l
      → IsSound gone w
      → Leaves gone behind_report
          (begin_found env kind output capacity written ticket (some (slot, l)) w)
  unfolding begin_found
  begin_lease-Leaves kind output capacity written ticket w slot l at_slot h =
      Leaves-if (not (kind_allowed env kind l)) (λ e. record { world = h })
        λ e.
          Leaves-if (not (l.ticket == 0) || ltb int64_max w.next_ticket) (λ e. record { world = h })
            λ e. record {
              world =
                  orderly-IsSound env (begin_lease env kind output capacity written ticket) w slot l
                    (λ P stable.
                      Keeps-begin_lease env stable.calm kind output capacity written ticket)
                    at_slot h;
            }

  pub begin-Leaves :
      (version owner kind output capacity written ticket : ℕ) (w : World)
      → IsSound gone w
      → Leaves gone behind_report (begin env version owner kind output capacity written ticket w)
  unfolding begin begin_found
  begin-Leaves version owner kind output capacity written ticket w h =
      let cleared : World = record w {
        memory = store ticket 0 (store written 0 (clear output capacity w.memory));
      } in
      let still : IsSound gone cleared = memory-IsSound _ h in
      Leaves-if
        (not (span output capacity)
          || (not (count written)
              || (not (count ticket)
                  || (overlap output capacity written 8
                      || (overlap output capacity ticket 8 || overlap written 8 ticket 8)))))
        (λ e. record { world = h })
        λ e.
          Leaves-if (not (version == abi_version)) (λ e. record { world = still })
            λ e.
              Leaves-find owner cleared
                (λ f. begin_found env kind output capacity written ticket f cleared)
                (record { world = still })
                (λ slot l at_slot.
                  begin_lease-Leaves kind output capacity written ticket cleared slot l at_slot
                    still)

  commit_lease-Leaves :
      (ticket : ℕ) (credential : Bool) (input : Bytes) (w : World) (slot : ℕ) (l : Lease)
      → StandsAt w slot l
      → IsSound gone w
      → Leaves gone behind_report (commit_found env ticket credential input (some (slot, l)) w)
  unfolding commit_found
  commit_lease-Leaves ticket credential input w slot l at_slot h =
      Leaves-if (not (ticket_matches env ticket credential l)) (λ e. record { world = h })
        λ e. record {
          world =
              orderly-IsSound env (commit_lease env credential input) w slot l
                (λ P stable. Keeps-commit_lease env stable credential input) at_slot h;
        }

  pub commit-Leaves :
      (version owner ticket : ℕ) (credential : Bool) (input length : ℕ) (w : World)
      → IsSound gone w
      → Leaves gone behind_report (commit env version owner ticket credential input length w)
  unfolding commit commit_found
  commit-Leaves version owner ticket credential input length w h =
      Leaves-if (not (version == abi_version)) (λ e. record { world = h })
        λ e.
          Leaves-if (not (span input length)) (λ e. record { world = h })
            λ e.
              Leaves-find owner w
                (λ f. commit_found env ticket credential (read input length w.memory) f w)
                (record { world = h })
                (λ slot l at_slot.
                  commit_lease-Leaves ticket credential (read input length w.memory) w slot l
                    at_slot h)

  abort_lease-Leaves :
      (ticket : ℕ) (credential : Bool) (w : World) (slot : ℕ) (l : Lease)
      → StandsAt w slot l
      → IsSound gone w
      → Leaves gone behind (abort_found env ticket credential (some (slot, l)) w)
  unfolding abort_found
  abort_lease-Leaves ticket credential w slot l at_slot h =
      Leaves-if (not (ticket_matches env ticket credential l)) (λ e. record { world = h })
        λ e.
          run_in-Leaves env (abort_lease env) w slot l
            (λ P stable. Keeps-abort_lease env stable.calm) at_slot h

  pub abort-Leaves :
      (version owner ticket : ℕ) (credential : Bool) (w : World)
      → IsSound gone w
      → Leaves gone behind (abort env version owner ticket credential w)
  unfolding abort abort_found
  abort-Leaves version owner ticket credential w h =
      Leaves-if (not (version == abi_version)) (λ e. record { world = h })
        λ e.
          Leaves-find owner w (λ f. abort_found env ticket credential f w) (record { world = h })
            (λ slot l at_slot. abort_lease-Leaves ticket credential w slot l at_slot h)
