-- ===== src/Diagnostics/Sequence/Keeps.antt =====
-- The steps of the probe against the relation of its pool to its ledger.
use shiroha_quiz.Base.{ℕ, refl, inr, Bool, true, false, Option, none, some, length, Bytes}
use shiroha_quiz.Memory.{Memory}
use shiroha_quiz.Diagnostics.Native.{Outcome}
use shiroha_quiz.Diagnostics.Budget.{PrimitiveCategory, stop}
use shiroha_quiz.Diagnostics.Budget.Counters.{counters}
use shiroha_quiz.Diagnostics.Buffers.{Pool}
use shiroha_quiz.Diagnostics.Buffers.Pooled.{IsPooled-quiet}
use shiroha_quiz.Diagnostics.Buffers.Kept.{IsKept, allocate-IsKept, release-IsKept}
use shiroha_quiz.Diagnostics.Buffers.Runs.{invoked, invoked-IsKept}
use shiroha_quiz.Diagnostics.Sequence.{
  Env, Step, follow, ◌>>=◌, give, require, take_buffer, release_buffer, write_bytes, memory_now,
  invoke, stop_with, generate_key_at, sign_certificate_at, verify_certificate_at, check_policy,
  sequence_of_calls, Key,
}

-- A step keeps the pool in step with its ledger, whether it gives something or not.
pub record Keeps {A : Type 0} (m : Step A) : Type 0 where
  pub after : (p : Pool) → IsKept p → IsKept (m p).1

follow-IsKept :
    {A B : Type 0} (f : A → Step B) (r : Option A × Pool)
    → ((a : A) → Keeps (f a))
    → IsKept r.1
    → IsKept (follow f r).1
follow-IsKept f (none, p) k h = h
follow-IsKept f (some a, p) k h = (k a).after p h

bind-Keeps :
    {A B : Type 0} {m : Step A} {f : A → Step B}
    → Keeps m
    → ((a : A) → Keeps (f a))
    → Keeps (m >>= f)
unfolding ◌>>=◌
bind-Keeps {A} {B} {m} {f} h k = record {
  after = λ p kept. follow-IsKept f (m p) k (h.after p kept);
}

give-Keeps : {A : Type 0} (a : A) → Keeps (give a)
unfolding give
give-Keeps a = record { after = λ p h. h }

require-Keeps : (b : Bool) → Keeps (require b)
unfolding require
require-Keeps true = record { after = λ p h. h }
require-Keeps false = record { after = λ p h. h }

memory_now-Keeps : Keeps memory_now
unfolding memory_now
memory_now-Keeps = record { after = λ p h. h }

write_bytes-Keeps : (ptr : ℕ) (bytes : Bytes) → Keeps (write_bytes ptr bytes)
unfolding write_bytes
write_bytes-Keeps ptr bytes = record { after = λ p h. h }

stop_with-Keeps : {A : Type 0} (step : Bytes) (o : Option A) → Keeps (stop_with step o)
unfolding stop_with stop
stop_with-Keeps step (some a) = record { after = λ p h. h }
stop_with-Keeps step none = record {
  after =
      λ p h. IsPooled-quiet p.slots (counters p.ledger) p.ledger.stopped h _ true refl (inr refl);
}

take_buffer-Keeps : (env : Env) (capacity : ℕ) → Keeps (take_buffer env capacity)
unfolding take_buffer
take_buffer-Keeps env capacity = record {
  after = λ p h.
      allocate-IsKept capacity env.available (env.allocation_clock (length p.slots))
        (env.allocations (length p.slots)) p h;
}

release_buffer-Keeps : (env : Env) (slot : ℕ) → Keeps (release_buffer env slot)
unfolding release_buffer
release_buffer-Keeps env slot = record { after = λ p h. release-IsKept slot (env.frees slot) p h }

invoke-Keeps :
    (env : Env) (n : ℕ) (cat : PrimitiveCategory) (step : Bytes) (expected : ℕ)
    (call : Memory → Outcome ℕ × Memory) (shape_ok : Memory → ℕ → Bool)
    → Keeps (invoke env n cat step expected call shape_ok)
unfolding invoke invoked
invoke-Keeps env n cat step expected call shape_ok = record {
  after = λ p h.
      invoked-IsKept cat step expected (env.before n) (call p.memory).0 (shape_ok (call p.memory).1)
        (env.native n) (env.after n) (env.last n) p h;
}

ruleset keeping = (
  bind-Keeps, give-Keeps, require-Keeps, memory_now-Keeps, write_bytes-Keeps, stop_with-Keeps,
  take_buffer-Keeps, release_buffer-Keeps, invoke-Keeps,
)

check_policy-Keeps :
    (env : Env) (n : ℕ) (step der : Bytes) (role : ℕ) (cat : PrimitiveCategory) (expected : ℕ)
    → Keeps (check_policy env n step der role cat expected)
unfolding check_policy
check_policy-Keeps env n step der role cat expected = search keeping

generate_key_at-Keeps : (env : Env) (i : ℕ) → Keeps (generate_key_at env i)
unfolding generate_key_at
generate_key_at-Keeps env i = search (keeping) depth 30

sign_certificate_at-Keeps :
    (env : Env) (i : ℕ) (signer subject : Key) → Keeps (sign_certificate_at env i signer subject)
unfolding sign_certificate_at
sign_certificate_at-Keeps env i signer subject = search (keeping) depth 40

verify_certificate_at-Keeps :
    (env : Env) (tampered : Bool) (i : ℕ) (signer : Key) (cert : Bytes)
    → Keeps (verify_certificate_at env tampered i signer cert)
unfolding verify_certificate_at
verify_certificate_at-Keeps env tampered i signer cert = search (keeping) depth 40

pub sequence_of_calls-Keeps : (env : Env) → Keeps (sequence_of_calls env)
unfolding sequence_of_calls
sequence_of_calls-Keeps env =
    search
      (
        keeping, generate_key_at-Keeps, sign_certificate_at-Keeps, verify_certificate_at-Keeps,
        check_policy-Keeps,
      )
      depth 60
