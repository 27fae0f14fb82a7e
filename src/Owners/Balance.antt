-- ===== src/Owners/Balance.antt =====
-- The table of owners: the handles that all leases hold are counted, and each call keeps the count
-- covered.
mod Table
unfoldable pub use Table.*
use shiroha_quiz.Base.{
  ℕ, zero, suc, ◌+◌, ◌-◌, ◌%◌, ◌≤◌, ◌≡◌, refl, ap, ◌∙◌, ◌⊎◌, Bool, true, false, Option, none, some,
  List, [], ◌∷◌, arith, if◌then◌else◌, get_or, set, get-set_other, ◌==◌, if-both, Option-cases, inl,
  inr, not, ◌||◌, ◌&&◌, ltb,
}
use shiroha_quiz.Status.{Status, is_ok, app, bridge, int64_max, uintptr_max}
use shiroha_quiz.Memory.{store}
use shiroha_quiz.Machine.{Environment, Lease, new_lease, Context, Action, Result, done, raised}
use shiroha_quiz.Machine.Keeps.{Keeps, ◌▹◌, Keeps-require, Keeps-pure, Keeps-get_lease}
use shiroha_quiz.Leases.{release}
use shiroha_quiz.Leases.Accounts.{
  IsCovered, opened, closed, pins_weight, lease_weight, receipts_weight, reads_weight,
}
use shiroha_quiz.Leases.Stable.{IsStable}
use shiroha_quiz.Leases.Covered.{Covered-IsStable}
use shiroha_quiz.Leases.Steps.{Keeps-update, Keeps-current_sid, Keeps-inspect_pins}
use shiroha_quiz.Leases.Release.{total_weight, release-covered}
use shiroha_quiz.Leases.Growth.{IsPinned}
use shiroha_quiz.Owners.{
  World, enter, leave, find_from, find, run_in, acquire_lease, settle_acquired, start_acquire,
  acquire, validate_lease, validate_found, validate, settle_release, close_found, close,
  destroy_slot, destroy_from, destroy, owner_version,
}
use shiroha_quiz.Leases.Marked.{IsMarked, Marked-IsStable, Keeps-release}
use shiroha_quiz.Owners.Acquire.{IsHeld, acquire_lease-IsHeld, acquire_lease-IsMarked}
use shiroha_quiz.Owners.Numbers.{
  IsNumbered, IsAllowed, set-IsNumbered, none-IsAllowed, same-IsAllowed, next-IsAllowed,
  later-IsNumbered,
}

-- A new lease holds nothing.
new_lease-weight : (n token role : ℕ) → lease_weight n (new_lease token role) ≡ 0
unfolding receipts_weight reads_weight
new_lease-weight n token role = refl

new_lease-IsPinned :
    (w : World) (token role n k : ℕ)
    → closed n w.history + k ≤ opened n w.history
    → IsPinned n k (enter w (new_lease token role))
unfolding pins_weight
new_lease-IsPinned w token role n k h = record {
  covered = omega (arith, h, new_lease-weight n token role);
}

shift : (slot j : ℕ) → slot + 1 + j ≡ slot + suc j
shift slot j = omega arith

stay : (slot : ℕ) → slot ≡ slot + 0
stay slot = omega arith

start : (j : ℕ) → 0 + j ≡ j
start j = omega arith

module _ (env : Environment) where
  validate_lease-IsOrderly : IsOrderly env (validate_lease env)
  unfolding validate_lease
  validate_lease-IsOrderly P stable = Keeps-get_lease ▹ λ l. Keeps-require _ _ ▹ λ u.
      Keeps-update env stable.calm _ _ _ _ _ _ _ _ ▹ λ u. Keeps-current_sid env stable.calm ▹ λ sid.
      Keeps-inspect_pins env stable.calm sid ▹ λ u.
      Keeps-update env stable.calm _ _ _ _ _ _ _ _ ▹ λ u. Keeps-pure _

  release_token : (w : World) (l : Lease) → (release env (enter w l)).1.lease.token ≡ l.token
  release_token w l =
      ((Keeps-release env l.token l.role w.next_ticket).at (enter w l)
        (enter-IsMarked w l)).same_token

  acquired_token :
      (w : World) (l : Lease) (initialize : Bool) (role : ℕ)
      → (acquire_lease env initialize role (enter w l)).1.lease.token ≡ l.token
  acquired_token w l initialize role =
      (acquire_lease-IsMarked env l.token l.role w.next_ticket initialize role (enter w l)
        (enter-IsMarked w l)).same_token

  others-slot : (n slot : ℕ) (w : World) → others slot w.owners n ≤ owners_weight n w.owners
  others-slot n slot w = omega (arith, owners_weight-split n slot w.owners)

  destroy_slot-others :
      (w : World) (slot : ℕ) (l : Option Lease) (j : ℕ)
      → ¬ (slot ≡ j)
      → get_or (destroy_slot env slot l w).owners j none ≡ get_or w.owners j none
  unfolding destroy_slot
  destroy_slot-others w slot none j h = refl
  destroy_slot-others w slot (some l) j h =
      if-both (λ (x : World). get_or x.owners j none ≡ get_or w.owners j none) l.quarantined
        (λ e. refl) (λ e. get-set_other w.owners slot j _ none h)

module _ {gone : ℕ → Type 0} (env : Environment) where
  pub validate-Leaves :
      (version token : ℕ) (w : World)
      → IsSound gone w
      → Leaves gone behind (validate env version token w)
  unfolding validate validate_found
  validate-Leaves version token w h =
      Leaves-if (not (owner_version version)) (λ e. record { world = h })
        λ e.
          Leaves-if (token == 0) (λ e. record { world = h })
            λ e.
              Leaves-find token w (λ f. validate_found env f w) (record { world = h })
                λ slot l at_slot.
                  run_in-Leaves env (validate_lease env) w slot l (validate_lease-IsOrderly env)
                    at_slot h

  -- The count behind `release`, in the slot from which it started.
  release_slot :
      (w : World) (slot : ℕ) (l : Lease) (n : ℕ)
      → StandsAt w slot l
      → l.quarantined ≡ false
      → IsSound gone w
      → IsHeld n (others slot w.owners n) (release env (enter w l)).1
  release_slot w slot l n at_slot q h = record {
    covered =
        release-covered env n (others slot w.owners n) (enter w l)
          (ground (arith, enter-IsHeld w slot l n at_slot h, q));
  }

  settle_release-Leaves :
      (w : World) (slot : ℕ) (l : Lease) (r : Result Bool) (c : Context)
      → StandsAt w slot l
      → c.lease.token ≡ l.token
      → IsSound gone w
      → ((n : ℕ) → IsHeld n (others slot w.owners n) c)
      → Leaves gone behind (settle_release env slot (r, c) w)
  unfolding settle_release
  settle_release-Leaves w slot l (done true) c at_slot same sound h = record {
    world =
        leave-IsSound w slot none c sound (none-IsAllowed slot) λ n. omega (arith, (h n).covered);
  }
  settle_release-Leaves w slot l (done false) c at_slot same sound h = record {
    world =
        leave-IsSound w slot (some c.lease) c sound
          (same-IsAllowed slot l c.lease sound.numbered at_slot same)
          λ n. omega (arith, (h n).covered);
  }
  settle_release-Leaves w slot l (raised r) c at_slot same sound h = record {
    world =
        leave-IsSound w slot (some c.lease) c sound
          (same-IsAllowed slot l c.lease sound.numbered at_slot same)
          λ n. omega (arith, (h n).covered);
  }

  close_lease-Leaves :
      (w : World) (slot : ℕ) (l : Lease)
      → StandsAt w slot l
      → IsSound gone w
      → Leaves gone behind (close_found env (some (slot, l)) w)
  unfolding close_found
  close_lease-Leaves w slot l at_slot h =
      Leaves-if _ (λ e. record { world = h })
        λ e.
          settle_release-Leaves w slot l (release env (enter w l)).0 (release env (enter w l)).1
            at_slot (release_token env w l) h λ n. release_slot w slot l n at_slot e h

  pub close-Leaves :
      (version token : ℕ) (w : World)
      → IsSound gone w
      → Leaves gone behind (close env version token w)
  unfolding close close_found
  close-Leaves version token w h =
      Leaves-if (not (owner_version version)) (λ e. record { world = h })
        λ e.
          Leaves-if (token == 0) (λ e. record { world = h })
            λ e.
              Leaves-find token w (λ f. close_found env f w) (record { world = h })
                λ slot l at_slot. close_lease-Leaves w slot l at_slot h

  settle_acquired-Leaves :
      (address : ℕ) (w : World) (slot : ℕ) (l : Lease) (r : Result (Status × Bool)) (c : Context)
      → IsSound gone w
      → IsAllowed gone w.owners w.next_token slot (some c.lease)
      → ((n : ℕ) → IsHeld n (others slot w.owners n) c)
      → Leaves gone behind (settle_acquired env address slot l (r, c) w)
  unfolding settle_acquired
  settle_acquired-Leaves address w slot l (raised r) c sound allowed h = record {
    world = leave-IsSound w slot (some c.lease) c sound allowed λ n. omega (arith, (h n).covered);
  }
  settle_acquired-Leaves address w slot l (done (s, closed)) c sound allowed h =
      let kept =
        leave-IsSound w slot (some c.lease) c sound allowed (λ n. omega (arith, (h n).covered)) in
      Leaves-if (is_ok s)
        (λ e. record {
          world = record {
            balanced = kept.balanced;
            numbered = kept.numbered;
            started = kept.started;
          };
        })
        λ e. record {
          world =
              if-both (λ x. IsSound gone (leave w slot x c)) closed
                (λ e.
                  leave-IsSound w slot none c sound (none-IsAllowed slot)
                    λ n. omega (arith, (h n).covered))
                (λ e. kept);
        }

  start_acquire-Leaves :
      (initialize : Bool) (role address : ℕ) (o : Option ℕ) (w : World)
      → IsSound gone w
      → Leaves gone behind (start_acquire env initialize role address o w)
  unfolding start_acquire
  start_acquire-Leaves initialize role address none w h = record { world = h }
  start_acquire-Leaves initialize role address (some slot) w h =
      Leaves-if (ltb int64_max w.next_token) (λ e. record { world = h })
        λ e.
          let w' : World = record w { next_token = w.next_token + 1 } in
          let l = new_lease w.next_token role in
          let (r, c) = acquire_lease env initialize role (enter w' l) in
          let sound : IsSound gone w' = record {
            balanced = h.balanced;
            numbered = later-IsNumbered h.numbered;
            started = omega arith;
          } in
          settle_acquired-Leaves address w' slot l r c sound
            (next-IsAllowed slot c.lease h.numbered h.started
              (acquired_token env w' l initialize role))
            λ n. acquire_lease-IsHeld env n (others slot w.owners n) initialize role (enter w' l) (
              new_lease-IsPinned w' w.next_token role n (others slot w.owners n)
                (omega (arith, h.balanced n, others-slot env n slot w)))

  pub acquire-Leaves :
      (initialize : Bool) (version role token : ℕ) (w : World)
      → IsSound gone w
      → Leaves gone behind (acquire env initialize version role token w)
  unfolding acquire
  acquire-Leaves initialize version role token w h =
      let cleared : IsSound gone (record w { memory = store token 0 w.memory }) =
        memory-IsSound _ h in
      Leaves-if (token == 0 || (not (token % 8 == 0) || ltb (uintptr_max - 8) token))
        (λ e. record { world = h })
        λ e.
          Leaves-if (not (owner_version version)) (λ e. record { world = cleared })
            λ e.
              Leaves-if (not (role == app) && not (role == bridge))
                (λ e. record { world = cleared })
                λ e. start_acquire-Leaves initialize role token _ _ cleared

  destroy_slot-IsSound :
      (w : World) (slot : ℕ) (l : Lease)
      → StandsAt w slot l
      → IsSound gone w
      → IsSound gone (destroy_slot env slot (some l) w)
  unfolding destroy_slot
  destroy_slot-IsSound w slot l at_slot h =
      if-both (IsSound gone) l.quarantined (λ e. h)
        λ e.
          let c = (release env (enter w l)).1 in
          leave-IsSound w slot (some c.lease) c h
            (same-IsAllowed slot l c.lease h.numbered at_slot (release_token env w l))
            λ n. omega (arith, (release_slot w slot l n at_slot e h).covered)

  -- The slots that the destructor has still to visit are as they were.
  destroy_from-IsSound :
      (slot : ℕ) (owners : List (Option Lease)) (w : World)
      → ((j : ℕ) → get_or w.owners (slot + j) none ≡ get_or owners j none)
      → IsSound gone w
      → IsSound gone (destroy_from env slot owners w)
  unfolding destroy_from destroy_slot
  destroy_from-IsSound slot [] w same h = h
  destroy_from-IsSound slot (none ∷ owners) w same h =
      destroy_from-IsSound (slot + 1) owners _
        (λ j. ap (λ i. get_or w.owners i none) (shift slot j) ∙ same (suc j)) h
  destroy_from-IsSound slot (some l ∷ owners) w same h =
      destroy_from-IsSound (slot + 1) owners _
        (λ j.
          destroy_slot-others env w slot (some l) (slot + 1 + j) (λ e. omega (arith, e))
          ∙ (ap (λ i. get_or w.owners i none) (shift slot j) ∙ same (suc j)))
        (destroy_slot-IsSound w slot l (ap (λ i. get_or w.owners i none) (stay slot) ∙ same 0) h)

  pub destroy-IsSound : (w : World) → IsSound gone w → IsSound gone (destroy env w)
  unfolding destroy
  destroy-IsSound w h =
      destroy_from-IsSound 0 w.owners w (λ j. ap (λ i. get_or w.owners i none) (start j)) h
