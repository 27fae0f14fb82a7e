-- ===== src/Diagnostics/Budget/Reserving.antt =====
-- windows/external_native/diagnostics/l1_crypto_probe.h, the budgets of `L1CryptoLedger` and how the status of a
-- call is judged.
use Prim.Native.Nat.{bit_or}
use shiroha_quiz.Base.{
  ℕ, ◌+◌, ◌^◌, Bool, true, false, not, ◌&&◌, ◌||◌, Option, none, some, List, [], ◌∷◌, leb, ◌==◌,
  if◌then◌else◌, codes, Bytes, bytes_eq,
}
use shiroha_quiz.Diagnostics.Native.{inc, NativeObservation}
use shiroha_quiz.Diagnostics.Budget.State.{
  step_names, PrimitiveCategory, abi_category, generate_key_category, encode_sign_category,
  verify_positive, verify_negative, policy_positive, policy_negative, Ledger, native_ok,
  verification_rejected, count_abi, stop,
}

-- `step_index`, none for -1.
unfoldable pub find_step : Bytes → ℕ → List Bytes → Option ℕ
find_step step i [] = none
find_step step i (s ∷ ss) =
    let rest = find_step step (i + 1) ss in if bytes_eq step s then some i else rest

abbrev pub step_index : Bytes → Option ℕ
step_index step = find_step step 0 step_names

-- `mask |= 1u << idx`
abbrev pub mark : Option ℕ → ℕ → ℕ
mark none mask = mask
mark (some i) mask = bit_or mask (2 ^ i)

-- `reserve_category`, without its answer: the ledger where a reservation is left.
unfoldable pub reserve_category : PrimitiveCategory → Ledger → Option Ledger
reserve_category abi_category l =
    if leb 1 l.abi_reserved then none else some (record l { abi_reserved = inc l.abi_reserved })
reserve_category generate_key_category l =
    if leb 3 l.generate_reserved
    then none
    else some (record l { generate_reserved = inc l.generate_reserved })
reserve_category encode_sign_category l =
    if leb 3 l.encode_sign_reserved
    then none
    else some (record l { encode_sign_reserved = inc l.encode_sign_reserved })
reserve_category verify_positive l =
    if leb 6 l.verify_reserved || leb 3 l.verify_positive_reserved
    then none
    else some (record l {
      verify_reserved = inc l.verify_reserved;
      verify_positive_reserved = inc l.verify_positive_reserved;
    })
reserve_category verify_negative l =
    if leb 6 l.verify_reserved || leb 3 l.verify_negative_reserved
    then none
    else some (record l {
      verify_reserved = inc l.verify_reserved;
      verify_negative_reserved = inc l.verify_negative_reserved;
    })
reserve_category policy_positive l =
    if leb 3 l.policy_reserved
    then none
    else some (record l { policy_reserved = inc l.policy_reserved })
reserve_category policy_negative l =
    if leb 3 l.policy_reserved
    then none
    else some (record l { policy_reserved = inc l.policy_reserved })

-- The index in `abi_calls`, with its limit.
abbrev pub category_index : PrimitiveCategory → ℕ
category_index abi_category = 0
category_index generate_key_category = 1
category_index encode_sign_category = 2
category_index verify_positive = 3
category_index verify_negative = 3
category_index policy_positive = 4
category_index policy_negative = 4

-- ABI, generate, encode and sign, verify, policy, allocation, free.
abbrev pub abi_limits : List ℕ
abi_limits = 1 ∷ 3 ∷ 3 ∷ 6 ∷ 3 ∷ 45 ∷ 45 ∷ []

abbrev pub is_negative : PrimitiveCategory → Bool
is_negative verify_negative = true
is_negative policy_negative = true
is_negative c = false

-- The status that counts as a success of its category.
abbrev pub success_status : PrimitiveCategory → ℕ → ℕ
success_status abi_category expected = expected
success_status c expected = native_ok

-- What the observer of the native calls says behind a call; none without one.
abbrev pub native_unknown : Option NativeObservation → Bool
native_unknown none = false
native_unknown (some o) = o.unknown

abbrev pub native_stopped : Option NativeObservation → Bool
native_stopped none = false
native_stopped (some o) = o.stopped

abbrev pub stop_native : Option NativeObservation → ℕ → Ledger → Ledger
stop_native none status l = l
stop_native (some o) status l =
    let l' =
      stop o.first_failure status
        (if o.first_failure_unknown then codes "SETTLEMENT_UNKNOWN" else codes "ADMISSION_BLOCKED")
        l in
    record l' { settlement_unknown = l'.settlement_unknown || o.unknown }

-- How the status of a call that has returned is judged.
unfoldable pub judge_status :
    PrimitiveCategory → Bytes → ℕ → ℕ → Bool → Option NativeObservation → Ledger → Ledger
unfolding stop
judge_status cat step expected status shape_valid native l =
    if native_stopped native
    then stop_native native status l
    else if status == expected && shape_valid
    then count_abi (category_index cat) (λ c. record c { accepted = inc c.accepted })
        (record l { accepted = inc l.accepted })
    else if is_negative cat && status == native_ok
    then stop step status (codes "SECURITY_REJECT_MISMATCH") l
    else if not (is_negative cat) && status == verification_rejected
    then stop step status (codes "SECURITY_REJECT_MISMATCH") l
    else stop step status (codes "ADMISSION_BLOCKED") l
