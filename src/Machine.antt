-- ===== src/Machine.antt =====
-- windows/external_native/protected_objects.h: the operating system behind `ObjectOperations`, the
-- state of one owner (`Lease`), and the machine on which a call runs.
--
-- The implementations of `ObjectOperations` are an `Environment`: any function from the calls made
-- so far to the answer of the next one. A call may return any status, set its out-parameter
-- whatever it returns, or throw.
pub mod Runs
pub mod Raises
pub mod Leads
pub mod Keeps
mod State
unfoldable pub use State.*
use shiroha_quiz.Base.{
  ℕ, Bool, true, false, not, ◌&&◌, List, [], ◌∷◌, ◌==◌, if◌then◌else◌, Bytes, replicate,
}
use shiroha_quiz.Status.{Status, ok, is_ok, unavailable, resource_limit}
use shiroha_quiz.Memory.{Memory}
use shiroha_quiz.Objects.{Sid, ObjectInfo, no_info}

-- Why the steps behind `if (status == SHIROHA_NATIVE_OK)` are passed over.
pub data Raised : Type 0 where
  failed : Status → Raised
  bad_alloc exception : Raised

pub data Result {ℓ} (A : Type ℓ) : Type ℓ where
  done : A → Result A
  raised : Raised → Result A

-- A run of such steps. What was written stays written when a later step fails.
abbrev pub Action {ℓ} : Type ℓ → Type ℓ
Action A = Context → Result A × Context

module _ {ℓ} {A : Type ℓ} where
  unfoldable pub pure : A → Action A
  pure a c = (done a, c)

  unfoldable pub raise : Raised → Action A
  raise r c = (raised r, c)

abbrev pub fail {ℓ} : {A : Type ℓ} → Status → Action A
fail s = raise (failed s)

module _ {ℓ κ} {A : Type ℓ} {B : Type κ} where
  abbrev pub continue : Result A → (A → Action B) → Action B
  continue (done a) f c = f a c
  continue (raised r) f c = (raised r, c)

  infixl 5 ◌>>=◌ ◌>>◌
  unfoldable pub ◌>>=◌ : Action A → (A → Action B) → Action B
  unfolding pure raise
  ◌>>=◌ m f c = let (r, c') = m c in continue r f c'

  abbrev pub ◌>>◌ : Action A → Action B → Action B
  m >> k = m >>= λ _. k

-- `if (!test) status = s;`
unfoldable pub require : Bool → Status → Action (Unit {0})
unfolding pure raise
require test s = if test then pure tt else fail s

unfoldable pub get_lease : Action Lease
get_lease c = (done c.lease, c)

unfoldable pub get_locals : Action Locals
get_locals c = (done c.locals, c)

unfoldable pub change_lease : (Lease → Lease) → Action (Unit {0})
change_lease f c = (done tt, record c { lease = f c.lease })

unfoldable pub change_locals : (Locals → Locals) → Action (Unit {0})
change_locals f c = (done tt, record c { locals = f c.locals })

unfoldable pub change_memory : (Memory → Memory) → Action (Unit {0})
change_memory f c = (done tt, record c { memory = f c.memory })

-- The status of a call, as the run goes on.
unfoldable pub settle : Outcome → Action (Unit {0})
unfolding pure raise
settle (returned s) = if is_ok s then pure tt else fail s
settle throws_alloc = raise bad_alloc
settle throws = raise exception

-- `catch` at the end of a run: its result as a value.
unfoldable pub attempt {ℓ} : {A : Type ℓ} → Action A → Action (Result A)
attempt m c = let (r, c') = m c in (done r, c')

-- The status that the two catch clauses of each operation leave.
abbrev pub raised_status : Raised → Status
raised_status (failed s) = s
raised_status bad_alloc = resource_limit
raised_status exception = unavailable

abbrev pub status_of {ℓ} : {A : Type ℓ} → Result A → Status
status_of (done a) = ok
status_of (raised r) = raised_status r

-- A place that holds a handle: its content, and a write to it.
pub record Place : Type 0 where
  pub held : Context → Handle
  pub put : Handle → Context → Context

unfoldable pub held_at : Place → Action Handle
held_at place c = (done (place.held c), c)

module _ (env : Environment) where
  unfoldable pub ask : Call → Action Answer
  ask call c =
      let answer = env c.history call in
      (done answer, record c { history = record { call = call; answer = answer } ∷ c.history })

  -- A call of which only the status counts.
  unfoldable pub perform : Call → Action (Unit {0})
  perform call = do answer ← ask call; settle answer.outcome

  unfoldable pub observe : Handle → Action ObjectInfo
  observe h = do answer ← ask (inspect h); settle answer.outcome; pure answer.info

  unfoldable pub current_sid : Action Sid
  current_sid = do answer ← ask user_sid; settle answer.outcome; pure answer.bytes

  -- A call that writes a handle to a place; the write stays whatever the call returns.
  unfoldable pub open_at : Place → Call → Action Outcome
  open_at place call c =
      let answer = env c.history call in
      (
        done answer.outcome,
        place.put answer.handle
            (record c { history = record { call = call; answer = answer } ∷ c.history }),
      )

  -- `if (h && h != INVALID_HANDLE_VALUE && !ops_.close(h)) ok = false; h = nullptr;` with the test
  -- of the handle and the call that closes it given.
  unfoldable pub close_if : (Handle → Bool) → (Handle → Call) → Place → Action Bool
  close_if test closing place c =
      let h = place.held c in
      let answer = env c.history (closing h) in
      let event : Event = record { call = closing h; answer = answer } in
      if test h
      then (done answer.done, place.put null (record c { history = event ∷ c.history }))
      else (done true, place.put null c)
