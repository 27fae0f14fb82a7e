-- ===== src/Diagnostics/Grants/Identity.antt =====
-- windows/external_native/diagnostics/l1_crypto_admission.h, `GrantTarget::identity`: the comparison of two
-- targets.
use shiroha_quiz.Base.{
  ℕ, ◌≡◌, ◌↔◌, refl, ap, Bool, true, false, List, [], ◌∷◌, get_or, drop, Bytes, bytes_eq,
  bytes_eq_refl, eq_of_bytes_eq, and-true_left, and-true_right, arith,
}
use shiroha_quiz.Diagnostics.Grants.{GrantTarget, texts, flag, numbers, all_eq, same_identity}

all_eq_refl : (xs : List Bytes) → all_eq xs xs ≡ true
unfolding all_eq
all_eq_refl [] = refl
all_eq_refl (x ∷ xs) = ground (arith, bytes_eq_refl x, all_eq_refl xs)

eq_of_all_eq : (xs ys : List Bytes) → all_eq xs ys ≡ true → xs ≡ ys
unfolding all_eq
eq_of_all_eq [] [] h = refl
eq_of_all_eq [] (y ∷ ys) h = absurd (cc h)
eq_of_all_eq (x ∷ xs) [] h = absurd (cc h)
eq_of_all_eq (x ∷ xs) (y ∷ ys) h =
    let first = eq_of_bytes_eq x y (and-true_left (bytes_eq x y) (all_eq xs ys) h) in
    let rest = eq_of_all_eq xs ys (and-true_right (bytes_eq x y) (all_eq xs ys) h) in
    λ i. first i ∷ rest i

-- Equal flags are equal Booleans.
flag-injective : (b c : Bool) → flag b ≡ flag c → b ≡ c
flag-injective true true h = refl
flag-injective true false h = absurd (omega (arith, h))
flag-injective false true h = absurd (omega (arith, h))
flag-injective false false h = refl

-- A target is what its texts and its numbers are.
eq_of_parts : (t u : GrantTarget) → texts t ≡ texts u → numbers t ≡ numbers u → t ≡ u
eq_of_parts t u p q =
    let text : ℕ → List Bytes → Bytes = λ n xs. get_or xs n [] in
    let number : ℕ → List ℕ → ℕ = λ n xs. get_or xs n 0 in
    let e0 = flag-injective t.non_elevated u.non_elevated (ap (number 0) q) in
    let e1 = flag-injective t.reviewer_approved u.reviewer_approved (ap (number 1) q) in
    let e2 = flag-injective t.verifier_approved u.verifier_approved (ap (number 2) q) in
    let e3 =
      flag-injective t.evidence_output_approved u.evidence_output_approved (ap (number 3) q) in
    let e4 = flag-injective t.user_approved u.user_approved (ap (number 4) q) in
    λ i. record {
      batch_id = text 0 (p i);
      device_id = text 1 (p i);
      account_identity_sha256 = text 2 (p i);
      source_sha = text 3 (p i);
      base_sha = text 4 (p i);
      exe_sha256 = text 5 (p i);
      dependency_manifest_sha256 = text 6 (p i);
      compiler_id = text 7 (p i);
      os_id = text 8 (p i);
      toolchain_manifest_sha256 = text 9 (p i);
      stop_owner = text 10 (p i);
      recovery_owner = text 11 (p i);
      evidence_owner = text 12 (p i);
      evidence_scope_id = text 13 (p i);
      reviewer_id = text 14 (p i);
      verifier_id = text 15 (p i);
      review_sha256 = text 16 (p i);
      verification_sha256 = text 17 (p i);
      user_approval_id = text 18 (p i);
      user_scope = text 19 (p i);
      non_elevated = e0 i;
      reviewer_approved = e1 i;
      verifier_approved = e2 i;
      evidence_output_approved = e3 i;
      user_approved = e4 i;
      working_set_bytes = number 5 (q i);
      commit_bytes = number 6 (q i);
      handles = number 7 (q i);
      window_start_ms = number 8 (q i);
      window_end_ms = number 9 (q i);
      max_execution_ms = number 10 (q i);
      granted = drop 11 (q i);
    }

-- The comparison of identities is equality.
pub same_identity_iff : (t u : GrantTarget) → (same_identity t u ≡ true) ↔ (t ≡ u)
unfolding same_identity
same_identity_iff t u = (
  λ h.
      eq_of_parts t u
        (eq_of_all_eq (texts t) (texts u)
          (and-true_left (all_eq (texts t) (texts u)) (bytes_eq (numbers t) (numbers u)) h))
        (eq_of_bytes_eq (numbers t) (numbers u)
          (and-true_right (all_eq (texts t) (texts u)) (bytes_eq (numbers t) (numbers u)) h)),
  λ e. rw e (ground (arith, all_eq_refl (texts u), bytes_eq_refl (numbers u))),
)
