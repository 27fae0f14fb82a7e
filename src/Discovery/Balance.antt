-- ===== src/Discovery/Balance.antt =====
-- The discovery calls keep the count of handles covered.
use shiroha_quiz.Base.{ℕ, ◌%◌, Bool, true, false, some, [], Bytes, not, ◌&&◌, ◌||◌, ltb, ◌==◌}
use shiroha_quiz.Status.{app}
use shiroha_quiz.Memory.{Memory, span, overlap, clear, store, read}
use shiroha_quiz.Machine.{Environment, Lease}
use shiroha_quiz.Owners.{World}
use shiroha_quiz.Owners.Balance.{
  memory-IsSound, IsSound, StandsAt, Leaves, Leaves-if, Leaves-find, behind, run_in-Leaves,
}
use shiroha_quiz.Discovery.{cap, discovery_lease, discovery_found, publish, read_file}
use shiroha_quiz.Discovery.Steps.{Keeps-rename_scratch, Keeps-discovery_lease}

module _ {gone : ℕ → Type 0} (env : Environment) where
  discovery_lease-Leaves :
      (kind : ℕ) (input : Bytes) (output written : ℕ) (publish : Bool) (w : World) (slot : ℕ)
      (l : Lease)
      → StandsAt w slot l
      → IsSound gone w
      → Leaves gone behind
          (discovery_found env kind input output written publish (some (slot, l)) w)
  unfolding discovery_found
  discovery_lease-Leaves kind input output written publish w slot l at_slot h =
      Leaves-if (publish && not (l.role == app)) (λ e. record { world = h })
        λ e.
          Leaves-if (not (l.ticket == 0)) (λ e. record { world = h })
            λ e.
              run_in-Leaves env (discovery_lease env kind input output written publish) w slot l
                (λ P stable.
                  Keeps-discovery_lease env stable.calm (Keeps-rename_scratch env stable) kind input
                    output written publish)
                at_slot h

  pub publish-Leaves :
      (version owner kind input length : ℕ) (w : World)
      → IsSound gone w
      → Leaves gone behind (publish env version owner kind input length w)
  unfolding publish discovery_found
  publish-Leaves version owner kind input length w h =
      Leaves-if (not (version == 3)) (λ e. record { world = h })
        λ e.
          Leaves-if
            (cap kind == 0
              || (not (span input length)
                  || (ltb (cap kind) length || not (kind == 2) && not (length == cap kind))))
            (λ e. record { world = h })
            λ e.
              Leaves-find owner w
                (λ f. discovery_found env kind (read input length w.memory) 0 0 true f w)
                (record { world = h })
                (λ slot l at_slot. discovery_lease-Leaves kind _ 0 0 true w slot l at_slot h)

  pub read_file-Leaves :
      (version owner kind output capacity written : ℕ) (w : World)
      → IsSound gone w
      → Leaves gone behind (read_file env version owner kind output capacity written w)
  unfolding read_file discovery_found
  read_file-Leaves version owner kind output capacity written w h =
      let m : Memory = store written 0 (clear output capacity w.memory) in
      let cleared : World = record w { memory = m } in
      let still : IsSound gone cleared = memory-IsSound _ h in
      Leaves-if
        (not (span output capacity)
          || (not (span written 8)
              || (not (written % 8 == 0) || overlap output capacity written 8)))
        (λ e. record { world = h })
        λ e.
          Leaves-if (not (version == 3)) (λ e. record { world = still })
            λ e.
              Leaves-if (cap kind == 0 || not (capacity == cap kind))
                (λ e. record { world = still })
                λ e.
                  Leaves-find owner cleared
                    (λ f. discovery_found env kind [] output written false f cleared)
                    (record { world = still })
                    (λ slot l at_slot.
                      discovery_lease-Leaves kind [] output written false cleared slot l at_slot
                        still)
