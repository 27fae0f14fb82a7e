-- ===== src/Interface.antt =====
-- The public members of `ProtectedObjects` (windows/external_native/protected_objects.h), and the
-- runs of a process that calls them in any order with any arguments, the destructor last.
pub mod Sound
mod Tests
use shiroha_quiz.Base.{ℕ, Bool, Option, none, List, [], ◌∷◌, replicate}
use shiroha_quiz.Memory.{Memory}
use shiroha_quiz.Machine.{Environment, Lease}
use shiroha_quiz.Owners.{World, acquire, validate, close, destroy}
use shiroha_quiz.Transactions.{
  association_begin, association_commit, association_abort, credential_begin, credential_commit,
  credential_abort,
}
use shiroha_quiz.Exchange
use shiroha_quiz.Discovery

-- One constructor for each member, with its arguments; a pointer is its address. `writes` is what the
-- caller does to its own memory in between.
pub data Request : Type 0 where
  acquire_owner : ℕ → ℕ → ℕ → Request
  validate_owner close_owner : ℕ → ℕ → Request
  begin_association : ℕ → ℕ → ℕ → ℕ → ℕ → ℕ → Request
  commit_association commit_credential : ℕ → ℕ → ℕ → ℕ → ℕ → Request
  abort_association abort_credential : ℕ → ℕ → ℕ → Request
  begin_credential : ℕ → ℕ → ℕ → ℕ → ℕ → ℕ → ℕ → Request
  create_exchange read_exchange : ℕ → ℕ → ℕ → ℕ → ℕ → ℕ → ℕ → Request
  begin_read : ℕ → ℕ → ℕ → ℕ → ℕ → ℕ → ℕ → ℕ → Request
  cleanup_exchange consume_read release_read : ℕ → ℕ → ℕ → Request
  read_discovery : ℕ → ℕ → ℕ → ℕ → ℕ → ℕ → Request
  publish_discovery : ℕ → ℕ → ℕ → ℕ → ℕ → Request
  writes : Memory → Request

-- An object without owners.
abbrev pub initial : Memory → World
initial m = record {
  owners = replicate 32 none;
  next_token = 1;
  next_ticket = 1;
  history = [];
  memory = m;
}

module _ (env : Environment) (initialize : Bool) where
  unfoldable pub serve : Request → World → World
  serve (acquire_owner v role token) w = (acquire env initialize v role token w).1
  serve (validate_owner v token) w = (validate env v token w).1
  serve (close_owner v token) w = (close env v token w).1
  serve (begin_association v owner output capacity written ticket) w =
      (association_begin env v owner output capacity written ticket w).2
  serve (commit_association v owner ticket input length) w =
      (association_commit env v owner ticket input length w).2
  serve (commit_credential v owner ticket input length) w =
      (credential_commit env v owner ticket input length w).2
  serve (abort_association v owner ticket) w = (association_abort env v owner ticket w).1
  serve (abort_credential v owner ticket) w = (credential_abort env v owner ticket w).1
  serve (begin_credential v owner kind output capacity written ticket) w =
      (credential_begin env v owner kind output capacity written ticket w).2
  serve (create_exchange v owner kind id input length receipt) w =
      (Exchange.create env v owner kind id input length receipt w).1
  serve (read_exchange v owner kind id output capacity written) w =
      (Exchange.read_file env v owner kind id output capacity written w).1
  serve (begin_read v owner kind id output capacity written ticket) w =
      (Exchange.read_begin env v owner kind id output capacity written ticket w).1
  serve (cleanup_exchange v owner receipt) w = (Exchange.cleanup env v owner receipt w).1
  serve (consume_read v owner ticket) w = (Exchange.consume env v owner ticket w).1
  serve (release_read v owner ticket) w = (Exchange.release_read env v owner ticket w).1
  serve (read_discovery v owner kind output capacity written) w =
      (Discovery.read_file env v owner kind output capacity written w).1
  serve (publish_discovery v owner kind input length) w =
      (Discovery.publish env v owner kind input length w).1
  serve (writes m) w = record w { memory = m }

  unfoldable pub run : List Request → World → World
  run [] w = w
  run (r ∷ rs) w = run rs (serve r w)
