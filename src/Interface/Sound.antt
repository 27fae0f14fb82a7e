-- ===== src/Interface/Sound.antt =====
-- What holds of every run of the interface.
use shiroha_quiz.Base.{
  ℕ, suc, zero, ◌≤◌, ◌≡◌, refl, Bool, List, [], ◌∷◌, Option, none, some, arith, get_or, replicate,
}
use shiroha_quiz.Status.{ok, invalid_input}
use shiroha_quiz.Memory.{Memory}
use shiroha_quiz.Machine.{Environment, Lease}
use shiroha_quiz.Leases.Accounts.{opened, closed}
use shiroha_quiz.Owners.{World, validate, close, destroy}
use shiroha_quiz.Owners.Tokens.{IsToken, close-ok, gone-validate}
use shiroha_quiz.Owners.Balance.{
  IsSound, StandsAt, owners_weight, validate-Leaves, close-Leaves, acquire-Leaves, destroy-IsSound,
}
use shiroha_quiz.Transactions.{
  association_begin, association_commit, association_abort, credential_begin, credential_commit,
  credential_abort,
}
use shiroha_quiz.Transactions.Balance.{begin-Leaves, commit-Leaves, abort-Leaves}
use shiroha_quiz.Exchange
use shiroha_quiz.Exchange.Balance.{
  create-Leaves, read_begin-Leaves, exchange_settle-Leaves, cleanup-Leaves,
}
use shiroha_quiz.Exchange.Balance as ExchangeBalance
use shiroha_quiz.Discovery.Balance.{publish-Leaves}
use shiroha_quiz.Discovery.Balance as DiscoveryBalance
use shiroha_quiz.Interface.{
  Request, acquire_owner, validate_owner, close_owner, begin_association, commit_association,
  commit_credential, abort_association, abort_credential, begin_credential, create_exchange,
  read_exchange, begin_read, cleanup_exchange, consume_read, release_read, read_discovery,
  publish_discovery, writes, initial, serve, run,
}

module _ {gone : ℕ → Type 0} (env : Environment) (initialize : Bool) where
  pub serve-IsSound :
      (r : Request) (w : World) → IsSound gone w → IsSound gone (serve env initialize r w)
  unfolding serve association_begin association_commit association_abort credential_begin
      credential_commit credential_abort Exchange.consume Exchange.release_read
  serve-IsSound (acquire_owner v role token) w h =
      (acquire-Leaves env initialize v role token w h).world
  serve-IsSound (validate_owner v token) w h = (validate-Leaves env v token w h).world
  serve-IsSound (close_owner v token) w h = (close-Leaves env v token w h).world
  serve-IsSound (begin_association v owner o c n t) w h =
      (begin-Leaves env v owner 3 o c n t w h).world
  serve-IsSound (commit_association v owner t i n) w h =
      (commit-Leaves env v owner t _ i n w h).world
  serve-IsSound (commit_credential v owner t i n) w h =
      (commit-Leaves env v owner t _ i n w h).world
  serve-IsSound (abort_association v owner t) w h = (abort-Leaves env v owner t _ w h).world
  serve-IsSound (abort_credential v owner t) w h = (abort-Leaves env v owner t _ w h).world
  serve-IsSound (begin_credential v owner k o c n t) w h =
      (begin-Leaves env v owner _ o c n t w h).world
  serve-IsSound (create_exchange v owner k id i n r) w h =
      (create-Leaves env v owner k id i n r w h).world
  serve-IsSound (read_exchange v owner k id o c n) w h =
      (ExchangeBalance.read_file-Leaves env v owner k id o c n w h).world
  serve-IsSound (begin_read v owner k id o c n t) w h =
      (read_begin-Leaves env v owner k id o c n t w h).world
  serve-IsSound (cleanup_exchange v owner r) w h = (cleanup-Leaves env v owner r w h).world
  serve-IsSound (consume_read v owner t) w h = (exchange_settle-Leaves env v owner t _ w h).world
  serve-IsSound (release_read v owner t) w h = (exchange_settle-Leaves env v owner t _ w h).world
  serve-IsSound (read_discovery v owner k o c n) w h =
      (DiscoveryBalance.read_file-Leaves env v owner k o c n w h).world
  serve-IsSound (publish_discovery v owner k i n) w h = (publish-Leaves env v owner k i n w h).world
  serve-IsSound (writes m) w h = record {
    balanced = h.balanced;
    numbered = h.numbered;
    started = h.started;
  }

  pub run-IsSound :
      (rs : List Request) (w : World) → IsSound gone w → IsSound gone (run env initialize rs w)
  unfolding run
  run-IsSound [] w h = h
  run-IsSound (r ∷ rs) w h = run-IsSound rs (serve env initialize r w) (serve-IsSound r w h)

abbrev free_slots : ℕ → List (Option Lease)
free_slots n = replicate n none

no_lease : (n i : ℕ) (l : Lease) → ¬ (get_or (free_slots n) i none ≡ some l)
no_lease zero i l e = absurd (cc e)
no_lease (suc n) zero l e = absurd (cc e)
no_lease (suc n) (suc i) l e = no_lease n i l e

no_weight : (n k : ℕ) → owners_weight n (replicate k none) ≡ 0
unfolding owners_weight
no_weight n zero = refl
no_weight n (suc k) = omega (arith, no_weight n k)

pub initial-IsSound : (m : Memory) → IsSound (λ t. ⊥) (initial m)
unfolding opened closed
initial-IsSound m = record {
  balanced = λ n. omega (arith, no_weight n 32);
  numbered = record {
    issued = λ i l e. absurd (no_lease 32 i l e);
    one_slot = λ i j l k e. absurd (no_lease 32 i l e);
    absent = λ i l e g. g;
    passed = λ t g. absurd g;
  };
  started = omega arith;
}

-- After any calls of the members of an object, in any order and with any arguments, and after its
-- destructor, each handle value has been passed to a closing call at most as often as the operating
-- system gave it out, whatever the operating system answers. No handle is closed twice.
pub closed-run_le :
    (env : Environment) (initialize : Bool) (rs : List Request) (m : Memory) (n : ℕ)
    → let w = destroy env (run env initialize rs (initial m)) in
      closed n w.history ≤ opened n w.history
closed-run_le env initialize rs m n =
    let end =
      destroy-IsSound env (run env initialize rs (initial m))
        (run-IsSound env initialize rs (initial m) (initial-IsSound m)) in
    omega (arith, end.balanced n)

-- After any calls, leases in different slots of the table have different tokens.
pub run-tokens :
    (env : Environment) (initialize : Bool) (rs : List Request) (m : Memory) (i j : ℕ) (l k : Lease)
    → StandsAt (run env initialize rs (initial m)) i l
    → StandsAt (run env initialize rs (initial m)) j k
    → l.token ≡ k.token
    → i ≡ j
run-tokens env initialize rs m =
    (run-IsSound env initialize rs (initial m) (initial-IsSound m)).numbered.one_slot

-- A token that `close` has taken back with success, after any calls, is an invalid input of `validate`
-- after any further calls: no later acquisition is given it again.
pub close-validate :
    (env : Environment) (initialize : Bool) (before later : List Request) (m : Memory)
    (version t : ℕ)
    → (close env version t (run env initialize before (initial m))).0 ≡ ok
    → let w =
        run env initialize later (close env version t (run env initialize before (initial m))).1 in
      validate env 3 t w ≡ (invalid_input, w)
close-validate env initialize before later m version t e =
    let w = run env initialize before (initial m) in
    let sound = run-IsSound env initialize before (initial m) (initial-IsSound m) in
    let after = (close-Leaves env version t w sound).world in
    let closed_sound : IsSound (IsToken t) (close env version t w).1 = record {
      balanced = after.balanced;
      numbered = close-ok env version t w sound.numbered e;
      started = after.started;
    } in
    gone-validate env t _ (run-IsSound env initialize later _ closed_sound).numbered
