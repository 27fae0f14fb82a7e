-- ===== src/Diagnostics/Tests.antt =====
-- Concrete inputs of the theorems on the diagnostics.
use shiroha_quiz.Base.{
  ℕ, ◌+◌, ◌≡◌, length, refl, arith, Bool, true, false, none, [], ◌∷◌, codes, inl,
}
use shiroha_quiz.Diagnostics.Native.{
  CallCounts, no_counts, returns, throws, open_op, generate_op, destroy_op,
}
use shiroha_quiz.Diagnostics.Native.Sessions
use shiroha_quiz.Diagnostics.Budget.{
  reserve_abi, Ledger, new_ledger, bind_launch_origin, generate_key_category, now_ms, reading, Last,
  invoke_and_check, verdict, pass, calls_at,
}
use shiroha_quiz.Diagnostics.Budget.Counters.{counters}
use shiroha_quiz.Diagnostics.Budget.Limits.{
  IsSettled, IsWithin, new_ledger-IsWithin, invoke_and_check-IsWithin,
}
use shiroha_quiz.Diagnostics.Budget.Verdicts.{verdict-pass}
use shiroha_quiz.Diagnostics.Buffers.Symbols.{
  api_symbols, IsResolved, resolve_l1_crypto_api, resolve_l1_crypto_api-IsResolved,
}
use shiroha_quiz.Diagnostics.Buffers.Wiped.{release-wiped}
use shiroha_quiz.Diagnostics.Buffers.{new_slot, release, Pool, release_all_remaining}
use shiroha_quiz.Diagnostics.Buffers.Kept.{IsKept}
use shiroha_quiz.Diagnostics.Buffers.Runs.{allocates, releases, releases_all, run, run-IsKept}
use shiroha_quiz.Diagnostics.Buffers.Settled.{release_all_remaining-settles}

-- An algorithm that is opened, a key that is not generated, and a release whose call throws.
observed-IsKept_example : Sessions.IsKept (
    Sessions.run
      (Sessions.ask_native open_op true (returns true)
        ∷ Sessions.take true
        ∷ Sessions.ask_native generate_op true (returns false)
        ∷ Sessions.give_back 0 destroy_op throws
        ∷ [])
      Sessions.start)
observed-IsKept_example = Sessions.observed-IsKept (
    Sessions.ask_native open_op true (returns true)
    ∷ Sessions.take true
    ∷ Sessions.ask_native generate_op true (returns false)
    ∷ Sessions.give_back 0 destroy_op throws
    ∷ [])

abbrev launched : Ledger
launched = bind_launch_origin 100 new_ledger

abbrev last : Last
last = record { clock = now_ms 120; sample = reading 1000 1000 10 }

launched-IsWithin : IsWithin (counters launched)
unfolding bind_launch_origin
launched-IsWithin = new_ledger-IsWithin

abbrev always : ℕ → Bool
always n = true

invoke_and_check-IsWithin_example : IsWithin (
    counters
      (invoke_and_check generate_key_category
        (codes "generate_key_a")
        0
        (now_ms 110)
        (returns 0)
        always
        none
        (now_ms 115)
        last
        launched).1)
invoke_and_check-IsWithin_example =
    invoke_and_check-IsWithin generate_key_category (codes "generate_key_a") 0 (now_ms 110)
      (returns 0) always none (now_ms 115) last launched launched-IsWithin

-- Every call of a category served.
abbrev served : ℕ → CallCounts
served n = record no_counts { attempted = n; returned = n; accepted = n; settled = n }

abbrev finished : Ledger
finished = record new_ledger {
  abi_calls = served 1 ∷ served 3 ∷ served 3 ∷ served 6 ∷ served 3 ∷ served 45 ∷ served 45 ∷ [];
  abi_attempted_total = 106;
  attempted = 16;
  returned = 16;
  completed = 16;
  accepted = 16;
  samples = 18;
}

served-IsSettled : (n : ℕ) → IsSettled n (served n)
served-IsSettled n = record {
  within = omega arith;
  came_back = omega arith;
  judged = omega arith;
  known = omega arith;
}

finished-IsWithin : IsWithin (counters finished)
finished-IsWithin =
    let s = served-IsSettled in
    record {
      settled = (s 1, (s 3, (s 3, (s 6, (s 3, (s 45, (s 45, tt)))))));
      counted = refl;
      total_within = omega arith;
      stepped = refl;
      came_back = omega arith;
      completes = omega arith;
      accepts = omega arith;
    }

finished-passes : verdict false none finished ≡ pass
unfolding verdict
finished-passes = refl

verdict-pass_example : (calls_at 3 finished).attempted ≡ 6
verdict-pass_example = verdict-pass false none finished finished-IsWithin finished-passes 3

abbrev empty_pool : Pool
empty_pool = record { slots = []; ledger = launched; memory = λ a. 7 }

empty_pool-IsKept : IsKept empty_pool
unfolding bind_launch_origin
empty_pool-IsKept = record {
  within = launched-IsWithin;
  sound = tt;
  allocated = refl;
  allocations = omega arith;
  live = refl;
  few = omega arith;
  succeeded = refl;
  uncertain = refl;
  releases = refl;
  settles = (omega arith, omega arith);
  latched = inl refl;
}

-- Two buffers, of which the first is released twice, and the rest at the end.
run-IsKept_example : IsKept (
    run
      (allocates 32 true (now_ms 110) (returns 4096)
        ∷ allocates 64 true (now_ms 111) (returns 8192)
        ∷ releases 0 (returns tt)
        ∷ releases 0 (returns tt)
        ∷ releases_all (λ i. throws)
        ∷ [])
      empty_pool)
run-IsKept_example =
    run-IsKept
      (allocates 32 true (now_ms 110) (returns 4096)
        ∷ allocates 64 true (now_ms 111) (returns 8192)
        ∷ releases 0 (returns tt)
        ∷ releases 0 (returns tt)
        ∷ releases_all (λ i. throws)
        ∷ [])
      empty_pool empty_pool-IsKept

abbrev used_pool : Pool
used_pool =
    run
      (allocates 32 true (now_ms 110) (returns 4096)
        ∷ allocates 64 true (now_ms 111) (returns 8192)
        ∷ [])
      empty_pool

release_all_remaining-settles_example :
    let l = (release_all_remaining (λ i. returns tt) used_pool).ledger in
    (l.buffers_live ≡ l.releases_unknown)
    × (l.releases_succeeded + l.releases_unknown ≡ l.buffers_allocated)
release_all_remaining-settles_example =
    release_all_remaining-settles (λ i. returns tt) used_pool
      (run-IsKept
        (allocates 32 true (now_ms 110) (returns 4096)
          ∷ allocates 64 true (now_ms 111) (returns 8192)
          ∷ [])
        empty_pool empty_pool-IsKept)

resolve_l1_crypto_api-IsResolved_example :
    IsResolved api_symbols
      (λ s. returns (length s))
      launched
      (resolve_l1_crypto_api (λ s. returns (length s)) launched)
resolve_l1_crypto_api-IsResolved_example =
    resolve_l1_crypto_api-IsResolved (λ s. returns (length s)) launched

-- One buffer of two bytes, and memory that is not zero behind it.
abbrev held_pool : Pool
held_pool = record { slots = new_slot 4096 2 ∷ []; ledger = launched; memory = λ a. 7 }

held-room : (reserve_abi 6 45 held_pool.ledger).0 ≡ true
unfolding reserve_abi bind_launch_origin
held-room = refl

release-wiped_example : (release 0 throws held_pool).1.memory 4097 ≡ 0
release-wiped_example =
    release-wiped 0 throws held_pool 4097 (omega arith) refl refl held-room (omega arith)
      (omega arith)
