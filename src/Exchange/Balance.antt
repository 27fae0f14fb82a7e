-- ===== src/Exchange/Balance.antt =====
-- The exchange calls keep the count of handles covered.
use shiroha_quiz.Base.{
  ℕ, ◌+◌, ◌%◌, Bool, true, false, Option, none, some, [], Bytes, not, ◌&&◌, ◌||◌, ltb, ◌==◌,
}
use shiroha_quiz.Status.{int64_max}
use shiroha_quiz.Memory.{Memory, span, count, overlap, clear, store, load, read}
use shiroha_quiz.Machine.{Environment, Lease}
use shiroha_quiz.Leases.{read_at}
use shiroha_quiz.Owners.{World}
use shiroha_quiz.Owners.Balance.{
  memory-IsSound, IsSound, StandsAt, Leaves, Leaves-if, Leaves-find, behind, run_in-Leaves,
}
use shiroha_quiz.Exchange.{
  cap, header, role_allowed, pin_slot, exchange_lease, exchange_slot, exchange_found,
  exchange_operation, create, read_file, read_begin, nonce_matches, read_from, receipt_from,
  settle_lease, settle_slot, settle_found, exchange_settle, consume, cleanup_lease, cleanup_slot,
  cleanup_found, cleanup,
}
use shiroha_quiz.Exchange.Steps.{Keeps-exchange_lease, Keeps-settle_lease, Keeps-cleanup_lease}

module _ {gone : ℕ → Type 0} (env : Environment) where
  exchange_slot-Leaves :
      (kind : ℕ) (id input : Bytes) (output capacity written receipt ticket : ℕ) (create : Bool)
      (o : Option ℕ) (w : World) (slot : ℕ) (l : Lease)
      → StandsAt w slot l
      → IsSound gone w
      → Leaves gone behind
          (exchange_slot env kind id input output capacity written receipt ticket create o slot l w)
  unfolding exchange_slot
  exchange_slot-Leaves kind id input output capacity written receipt ticket create none w slot l
        at_slot h =
      record { world = h }
  exchange_slot-Leaves kind id input output capacity written receipt ticket create (some i) w slot l
        at_slot h =
      Leaves-if ((create || not (ticket == 0)) && ltb int64_max w.next_ticket)
        (λ e. record { world = h })
        λ e.
          run_in-Leaves env
            (exchange_lease env kind id input output capacity written receipt ticket create i) w
            slot l
            (λ P stable.
              Keeps-exchange_lease env stable.calm kind id input output capacity written receipt
                ticket create i)
            at_slot h

  exchange_lease-Leaves :
      (kind : ℕ) (id input : Bytes) (output capacity written receipt ticket : ℕ) (create : Bool)
      (w : World) (slot : ℕ) (l : Lease)
      → StandsAt w slot l
      → IsSound gone w
      → Leaves gone behind (
          exchange_found env kind id input output capacity written receipt ticket create
            (some (slot, l))
            w)
  unfolding exchange_found
  exchange_lease-Leaves kind id input output capacity written receipt ticket create w slot l at_slot
        h =
      Leaves-if (not (role_allowed env kind create l)) (λ e. record { world = h })
        λ e.
          exchange_slot-Leaves kind id input output capacity written receipt ticket create
            (pin_slot env create ticket l) w slot l at_slot h

  exchange_operation-Leaves :
      (owner kind : ℕ) (id input : Bytes) (output capacity written receipt ticket : ℕ)
      (create : Bool) (w : World)
      → IsSound gone w
      → Leaves gone behind (
          exchange_operation env owner kind id input output capacity written receipt ticket create
            w)
  unfolding exchange_operation exchange_found
  exchange_operation-Leaves owner kind id input output capacity written receipt ticket create w h =
      Leaves-find owner w
        (λ f. exchange_found env kind id input output capacity written receipt ticket create f w)
        (record { world = h })
        (λ slot l at_slot.
          exchange_lease-Leaves kind id input output capacity written receipt ticket create w slot l
            at_slot h)

  pub create-Leaves :
      (version owner kind id input length receipt : ℕ) (w : World)
      → IsSound gone w
      → Leaves gone behind (create env version owner kind id input length receipt w)
  unfolding create
  create-Leaves version owner kind id input length receipt w h =
      let m : Memory = store receipt 0 w.memory in
      let still : IsSound gone (record w { memory = m }) = memory-IsSound _ h in
      Leaves-if
        (not (span id 16)
          || (not (span input length)
              || (not (count receipt)
                  || (overlap id 16 input length
                      || (overlap id 16 receipt 8 || overlap input length receipt 8)))))
        (λ e. record { world = h })
        λ e.
          Leaves-if (not (version == 3)) (λ e. record { world = still })
            λ e.
              Leaves-if (cap kind == 0 || not (header kind (read id 16 m) (read input length m)))
                (λ e. record { world = still })
                λ e.
                  exchange_operation-Leaves owner kind (read id 16 m) (read input length m) 0 0 0
                    receipt 0 true _ still

  pub read_file-Leaves :
      (version owner kind id output capacity written : ℕ) (w : World)
      → IsSound gone w
      → Leaves gone behind (read_file env version owner kind id output capacity written w)
  unfolding read_file
  read_file-Leaves version owner kind id output capacity written w h =
      let m : Memory = store written 0 (clear output capacity w.memory) in
      let still : IsSound gone (record w { memory = m }) = memory-IsSound _ h in
      Leaves-if
        (not (span id 16)
          || (not (span output capacity)
              || (not (count written)
                  || (overlap id 16 output capacity
                      || (overlap id 16 written 8 || overlap output capacity written 8)))))
        (λ e. record { world = h })
        λ e.
          Leaves-if (not (version == 3)) (λ e. record { world = still })
            λ e.
              Leaves-if (cap kind == 0 || not (capacity == cap kind))
                (λ e. record { world = still })
                λ e.
                  exchange_operation-Leaves owner kind (read id 16 m) [] output capacity written 0 0
                    false _ still

  pub read_begin-Leaves :
      (version owner kind id output capacity written ticket : ℕ) (w : World)
      → IsSound gone w
      → Leaves gone behind (read_begin env version owner kind id output capacity written ticket w)
  unfolding read_begin
  read_begin-Leaves version owner kind id output capacity written ticket w h =
      let m : Memory = clear ticket 24 (store written 0 (clear output capacity w.memory)) in
      let still : IsSound gone (record w { memory = m }) = memory-IsSound _ h in
      Leaves-if
        (not (span id 16)
          || (not (span output capacity)
              || (not (count written)
                  || (not (span ticket 24)
                      || (not (ticket % 8 == 0)
                          || (overlap id 16 output capacity
                              || (overlap id 16 written 8
                                  || (overlap id 16 ticket 24
                                      || (overlap output capacity written 8
                                          || (overlap output capacity ticket 24
                                              || overlap written 8 ticket 24))))))))))
        (λ e. record { world = h })
        λ e.
          Leaves-if (not (version == 3)) (λ e. record { world = still })
            λ e.
              Leaves-if (cap kind == 0 || not (capacity == cap kind))
                (λ e. record { world = still })
                λ e.
                  exchange_operation-Leaves owner kind (read id 16 m) [] output capacity written 0
                    ticket false _ still

  settle_slot-Leaves :
      (consume : Bool) (nonce : Bytes) (o : Option ℕ) (w : World) (slot : ℕ) (l : Lease)
      → StandsAt w slot l
      → IsSound gone w
      → Leaves gone behind (settle_slot env consume nonce o slot l w)
  unfolding settle_slot
  settle_slot-Leaves consume nonce none w slot l at_slot h = record { world = h }
  settle_slot-Leaves consume nonce (some i) w slot l at_slot h =
      Leaves-if (not (nonce_matches (read_at i l).nonce nonce)) (λ e. record { world = h })
        λ e.
          run_in-Leaves env (settle_lease env consume i) w slot l
            (λ P stable. Keeps-settle_lease env stable consume i) at_slot h

  settle_lease-Leaves :
      (consume : Bool) (serial : ℕ) (nonce : Bytes) (w : World) (slot : ℕ) (l : Lease)
      → StandsAt w slot l
      → IsSound gone w
      → Leaves gone behind (settle_found env consume serial nonce (some (slot, l)) w)
  unfolding settle_found
  settle_lease-Leaves consume serial nonce w slot l at_slot h =
      Leaves-if (serial == 0) (λ e. record { world = h })
        λ e.
          Leaves-if l.quarantined (λ e. record { world = h })
            λ e.
              settle_slot-Leaves consume nonce (read_from 0 serial l.exchange_reads) w slot l
                at_slot h

  pub exchange_settle-Leaves :
      (version owner ticket : ℕ) (consume : Bool) (w : World)
      → IsSound gone w
      → Leaves gone behind (exchange_settle env version owner ticket consume w)
  unfolding exchange_settle settle_found
  exchange_settle-Leaves version owner ticket consume w h =
      Leaves-if (not (span ticket 24) || not (ticket % 8 == 0)) (λ e. record { world = h })
        λ e.
          Leaves-if (not (version == 3)) (λ e. record { world = h })
            λ e.
              Leaves-find owner w
                (λ f.
                  settle_found env consume (load ticket w.memory) (read (ticket + 8) 16 w.memory) f
                    w)
                (record { world = h })
                (λ slot l at_slot. settle_lease-Leaves consume _ _ w slot l at_slot h)

  cleanup_slot-Leaves :
      (o : Option ℕ) (w : World) (slot : ℕ) (l : Lease)
      → StandsAt w slot l
      → IsSound gone w
      → Leaves gone behind (cleanup_slot env o slot l w)
  unfolding cleanup_slot
  cleanup_slot-Leaves none w slot l at_slot h = record { world = h }
  cleanup_slot-Leaves (some i) w slot l at_slot h =
      run_in-Leaves env (cleanup_lease env i) w slot l
        (λ P stable. Keeps-cleanup_lease env stable i) at_slot h

  cleanup_lease-Leaves :
      (receipt : ℕ) (w : World) (slot : ℕ) (l : Lease)
      → StandsAt w slot l
      → IsSound gone w
      → Leaves gone behind (cleanup_found env receipt (some (slot, l)) w)
  unfolding cleanup_found
  cleanup_lease-Leaves receipt w slot l at_slot h =
      Leaves-if (receipt == 0) (λ e. record { world = h })
        λ e. cleanup_slot-Leaves (receipt_from 0 receipt l.exchange_receipts) w slot l at_slot h

  pub cleanup-Leaves :
      (version owner receipt : ℕ) (w : World)
      → IsSound gone w
      → Leaves gone behind (cleanup env version owner receipt w)
  unfolding cleanup cleanup_found
  cleanup-Leaves version owner receipt w h =
      Leaves-if (not (version == 3)) (λ e. record { world = h })
        λ e.
          Leaves-find owner w (λ f. cleanup_found env receipt f w) (record { world = h })
            (λ slot l at_slot. cleanup_lease-Leaves receipt w slot l at_slot h)
