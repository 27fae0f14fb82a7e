-- ===== src/Diagnostics/Sequence/Steps.antt =====
-- windows/external_native/diagnostics/l1_crypto_probe.h: the buffers and the calls of `run_l1_crypto_sequence`,
-- as steps over the pool that give nothing where the code returns 10.
use shiroha_quiz.Base.{
  ℕ, Bool, true, false, Option, none, some, ◌==◌, if◌then◌else◌, length, codes, Bytes,
}
use shiroha_quiz.Memory.{Memory, copy}
use shiroha_quiz.Diagnostics.Native.{NativeObservation, Outcome}
use shiroha_quiz.Diagnostics.Budget.{
  PrimitiveCategory, Clock, Last, stop, minus_one, invoke_and_check,
}
use shiroha_quiz.Diagnostics.Buffers.{Pool, with_ledger, allocate, release}

-- What the seven functions of `L1CryptoApi`, the clock, the sampler and the observer do in one run. The calls
-- for buffers are told apart by their slot, the other calls by the position of their step. A call gets the
-- memory with its arguments, and where it writes gives it back.
pub record Env : Type 0 where
  pub available : Bool
  pub allocations : ℕ → Outcome ℕ
  pub allocation_clock : ℕ → Clock
  pub frees : ℕ → Outcome (Unit {0})
  pub abi : Outcome ℕ
  -- The key, the point and the two counts.
  pub generate_key : ℕ → ℕ → ℕ → ℕ → Memory → Outcome ℕ × Memory
  -- The key with its length, the point, the digest, the signature and its count.
  pub sign_digest : ℕ → ℕ → ℕ → ℕ → ℕ → ℕ → ℕ → Memory → Outcome ℕ × Memory
  -- The point, the digest and the signature.
  pub verify_digest : ℕ → ℕ → ℕ → ℕ → Memory → Outcome ℕ
  -- The certificate with its length, and the role.
  pub peer_certificate_policy : ℕ → ℕ → ℕ → ℕ → Memory → Outcome ℕ
  pub before : ℕ → Clock
  pub after : ℕ → Clock
  pub last : ℕ → Last
  pub native : ℕ → Option NativeObservation
  pub first : Last
  pub final : Last
  pub observing : Bool
  pub final_native : Option NativeObservation

abbrev pub Step : Type 0 → Type 0
Step A = Pool → Option A × Pool

-- Behind a step that gave nothing, nothing more is done.
abbrev pub follow : {A B : Type 0} → (A → Step B) → Option A × Pool → Option B × Pool
follow f (none, p) = (none, p)
follow f (some a, p) = f a p

infixl 5 ◌>>=◌ ◌>>◌
unfoldable pub ◌>>=◌ : {A B : Type 0} → Step A → (A → Step B) → Step B
(m >>= f) p = follow f (m p)

abbrev pub ◌>>◌ : {B : Type 0} → Step (Unit {0}) → Step B → Step B
m >> k = m >>= λ _. k

unfoldable pub give : {A : Type 0} → A → Step A
give a p = (some a, p)

unfoldable pub require : Bool → Step (Unit {0})
require true p = (some tt, p)
require false p = (none, p)

-- `pool.allocate`: the address and the slot.
unfoldable pub take_buffer : Env → ℕ → Step (ℕ × ℕ)
unfolding allocate
take_buffer env capacity p =
    let slot = length p.slots in
    allocate capacity env.available (env.allocation_clock slot) (env.allocations slot) p

-- `pool.release`, with its answer.
unfoldable pub release_buffer : Env → ℕ → Step Bool
unfolding release
release_buffer env slot p = let (ok, p') = release slot (env.frees slot) p in (some ok, p')

-- `memcpy(ptr, bytes, size)`
unfoldable pub write_bytes : ℕ → Bytes → Step (Unit {0})
unfolding copy
write_bytes ptr bytes p = (some tt, record p { memory = copy ptr bytes p.memory })

-- The memory, where it is read.
unfoldable pub memory_now : Step Memory
memory_now p = (some p.memory, p)

-- `ledger.invoke_and_check`, with its answer. What the call writes is written where it is made, which is
-- where an attempt is counted.
unfoldable pub invoke :
    Env
    → ℕ
    → PrimitiveCategory
    → Bytes
    → ℕ
    → (Memory → Outcome ℕ × Memory)
    → (Memory → ℕ → Bool)
    → Step Bool
unfolding invoke_and_check
invoke env n cat step expected call shape_ok p =
    let (outcome, written) = call p.memory in
    let (ok, l) =
      invoke_and_check cat step expected (env.before n) outcome (shape_ok written) (env.native n)
        (env.after n) (env.last n) p.ledger in
    (
      some ok,
      record p {
        ledger = l;
        memory = if l.attempted == p.ledger.attempted then p.memory else written;
      },
    )

-- `ledger.stop` before a return.
unfoldable pub stop_with : {A : Type 0} → Bytes → Option A → Step A
unfolding stop
stop_with step (some a) p = (some a, p)
stop_with step none p =
    (none, with_ledger p (stop step minus_one (codes "ADMISSION_BLOCKED") p.ledger))
