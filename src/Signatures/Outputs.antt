-- ===== src/Signatures/Outputs.antt =====
-- What the key operations leave in the memory of their caller.
use shiroha_quiz.Base.{
  ℕ, ◌+◌, ◌≤◌, ◌<◌, ◌≡◌, Bool, false, not, ◌&&◌, ◌||◌, ◌==◌, ltb, arith, if-both,
}
use shiroha_quiz.Status.{Status, is_ok, abi_version}
use shiroha_quiz.Memory.{Memory, clear}
use shiroha_quiz.Signatures.{
  Generated, generate_key, generate_refused, reset_outputs, keep_key, key_valid, point_valid,
  outputs_alias, key_count_alias, point_count_alias,
}

clear_zero : (p n a : ℕ) (m : Memory) → p ≤ a → a < p + n → clear p n m a ≡ 0
unfolding clear
clear_zero p n a m l r = ground arith

still_zero : (p n a : ℕ) (m : Memory) → m a ≡ 0 → clear p n m a ≡ 0
unfolding clear
still_zero p n a m h = ground (arith, h)

module _ (key capacity key_written point point_capacity point_written a : ℕ) (l : key ≤ a)
    (r : a < key + capacity) where
  abbrev Wiped : Memory → Type 0
  Wiped k = k a ≡ 0

  abbrev Kept : Type 0
  Kept = generate_refused key capacity key_written point point_capacity point_written ≡ false

  abbrev disjoint : Bool
  disjoint =
      not (outputs_alias key capacity key_written point point_capacity point_written)
      && (not (key_count_alias key capacity key_written point point_capacity point_written)
          && not (point_count_alias key capacity key_written point point_capacity point_written))

  reset_outputs-Wiped :
      (m : Memory)
      → Kept
      → Wiped (reset_outputs key capacity key_written point point_capacity point_written m)
  unfolding reset_outputs
  reset_outputs-Wiped m h =
      let wiped =
        if-both Wiped
          (key_valid key capacity key_written point point_capacity point_written && disjoint)
          (λ e. clear_zero key capacity a _ l r) (λ e. absurd (ground (arith, e, h))) in
      if-both Wiped
        (point_valid key capacity key_written point point_capacity point_written && disjoint)
        (λ e. still_zero point point_capacity a _ wiped) (λ e. wiped)

  keep_key-Wiped :
      (g : Generated) (m : Memory)
      → let (s, k) = keep_key key capacity key_written point point_capacity point_written g m in
        is_ok s ≡ false → Wiped k
  unfolding keep_key
  keep_key-Wiped g m =
      let Goal = λ (x : Status × Memory). is_ok x.0 ≡ false → Wiped x.1 in
      if-both Goal (not (is_ok g.status) || (g.length == 0 || ltb capacity g.length))
        (λ e f. still_zero point point_capacity a _ (clear_zero key capacity a _ l r))
        (λ e f. absurd (cc f))

-- `generate_key` leaves no byte of a private key behind a failure: where its spans are usable and it
-- does not return `ok`, each byte of the key buffer is 0, whatever `generate` wrote and reported.
pub generate_key-wiped :
    (key capacity key_written point point_capacity point_written a version : ℕ) (g : Generated)
    (m : Memory)
    → key ≤ a
    → a < key + capacity
    → generate_refused key capacity key_written point point_capacity point_written ≡ false
    → let (s, k) =
        generate_key key capacity key_written point point_capacity point_written g version m in
      is_ok s ≡ false → k a ≡ 0
unfolding generate_key
generate_key-wiped key capacity key_written point point_capacity point_written a version g m l r h =
    let reset =
      reset_outputs-Wiped key capacity key_written point point_capacity point_written a l r m h in
    let Goal = λ (x : Status × Memory). is_ok x.0 ≡ false → x.1 a ≡ 0 in
    if-both Goal (generate_refused key capacity key_written point point_capacity point_written)
      (λ e f. reset)
      λ e.
        if-both Goal (not (version == abi_version)) (λ d f. reset)
          λ d. keep_key-Wiped key capacity key_written point point_capacity point_written a l r g _
