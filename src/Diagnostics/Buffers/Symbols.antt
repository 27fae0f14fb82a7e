-- ===== src/Diagnostics/Buffers/Symbols.antt =====
-- windows/external_native/diagnostics/l1_crypto_probe.h, the symbols that the probe may resolve, and what
-- it means that it has resolved them.
use mathlib.Core.Path.{subst}
use shiroha_quiz.Base.{
  sym, ◌∙◌, ◌≡◌, refl, if-both, not-false, arith, ℕ, Bool, true, false, not, ◌&&◌, ◌||◌, Option,
  none, some, List, [], ◌∷◌, ◌==◌, if◌then◌else◌, is_empty, codes, Bytes, bytes_eq,
}
use shiroha_quiz.Diagnostics.Native.{inc, Outcome, returns, throws}
use shiroha_quiz.Diagnostics.Budget.{Ledger, minus_one, stop}

abbrev pub allowed_symbols : List Bytes
allowed_symbols =
    codes "shiroha_native_abi_version"
    ∷ codes "shiroha_native_buffer_alloc"
    ∷ codes "shiroha_native_buffer_free"
    ∷ codes "shiroha_native_ecdsa_generate_key"
    ∷ codes "shiroha_native_ecdsa_sign_digest"
    ∷ codes "shiroha_native_ecdsa_verify_digest"
    ∷ codes "shiroha_native_peer_certificate_policy"
    ∷ []

unfoldable pub member : Bytes → List Bytes → Bool
member name [] = false
member name (s ∷ ss) = bytes_eq name s || member name ss

unfoldable pub is_allowed_l1_crypto_symbol : Bytes → Bool
unfolding member
is_allowed_l1_crypto_symbol name = not (is_empty name) && member name allowed_symbols

-- `resolve_symbol_checked`: the address that `lookup` returns, where the name may be resolved.
unfoldable pub resolve_symbol_checked : Bytes → Outcome ℕ → Ledger → Option ℕ × Ledger
unfolding is_allowed_l1_crypto_symbol stop
resolve_symbol_checked name lookup l =
    if not (is_allowed_l1_crypto_symbol name)
    then (
      none,
      stop (codes "forbidden_symbol_resolution") minus_one (codes "UNAUTHORIZED_ACCESS")
          (record l { forbidden_symbol_attempts = inc l.forbidden_symbol_attempts }),
    )
    else found lookup
  where
    found : Outcome ℕ → Option ℕ × Ledger
    found throws =
        (none, stop (codes "symbol_lookup_exception") minus_one (codes "ARTIFACT_INVALID") l)
    found (returns raw) =
        if raw == 0
        then (none, stop (codes "missing_allowed_symbol") minus_one (codes "ARTIFACT_INVALID") l)
        else (some raw, record l { allowed_symbol_resolutions = inc l.allowed_symbol_resolutions })

-- The names that `resolve_l1_crypto_api` asks for, in the order of its calls: abi, allocate, deallocate,
-- generate_key, sign_digest, verify_digest and peer_certificate_policy.
abbrev pub api_symbols : List Bytes
api_symbols =
    codes "shiroha_native_abi_version"
    ∷ codes "shiroha_native_buffer_alloc"
    ∷ codes "shiroha_native_buffer_free"
    ∷ codes "shiroha_native_ecdsa_generate_key"
    ∷ codes "shiroha_native_ecdsa_sign_digest"
    ∷ codes "shiroha_native_ecdsa_verify_digest"
    ∷ codes "shiroha_native_peer_certificate_policy"
    ∷ []

abbrev joined : Option ℕ → Ledger → Option (List ℕ) × Ledger → Option (List ℕ) × Ledger
joined none l rest = (none, l)
joined (some a) l (none, l') = (none, l')
joined (some a) l (some rest, l') = (some (a ∷ rest), l')

-- `resolve_l1_crypto_api`: the addresses in the order of the symbols. The first that fails ends it; what
-- was found before is not used then.
unfoldable pub resolve_all : List Bytes → (Bytes → Outcome ℕ) → Ledger → Option (List ℕ) × Ledger
resolve_all [] lookup l = (some [], l)
resolve_all (s ∷ ss) lookup l =
    let (raw, l') = resolve_symbol_checked s (lookup s) l in
    joined raw l' (resolve_all ss lookup l')

unfoldable pub resolve_l1_crypto_api : (Bytes → Outcome ℕ) → Ledger → Option (List ℕ) × Ledger
resolve_l1_crypto_api lookup l = resolve_all api_symbols lookup l

-- The lookup has found each of the symbols at its address.
abbrev pub AllFound : (Bytes → Outcome ℕ) → List Bytes → List ℕ → Type 0
AllFound lookup [] [] = Unit
AllFound lookup [] (a ∷ rest) = ⊥
AllFound lookup (s ∷ ss) [] = ⊥
AllFound lookup (s ∷ ss) (a ∷ rest) =
    (lookup s ≡ returns a) × ((¬ (a ≡ 0)) × AllFound lookup ss rest)

-- What a resolution gives: a stopped ledger, or the address of an allowed symbol in a ledger that is not
-- stopped by it.
data IsFound (name : Bytes) (lookup : Outcome ℕ) (l : Ledger) (r : Option ℕ × Ledger) : Type 0 where
  refused : r.0 ≡ none → r.1.stopped ≡ true → IsFound name lookup l r
  found_at :
      (a : ℕ)
      → r.0 ≡ some a
      → lookup ≡ returns a
      → ¬ (a ≡ 0)
      → is_allowed_l1_crypto_symbol name ≡ true
      → r.1.stopped ≡ l.stopped
      → IsFound name lookup l r

resolve_symbol_checked-IsFound :
    (name : Bytes) (lookup : Outcome ℕ) (l : Ledger)
    → IsFound name lookup l (resolve_symbol_checked name lookup l)
unfolding resolve_symbol_checked stop
resolve_symbol_checked-IsFound name throws l =
    if-both (IsFound name throws l) (not (is_allowed_l1_crypto_symbol name))
      (λ e. refused refl refl) (λ e. refused refl refl)
resolve_symbol_checked-IsFound name (returns raw) l =
    if-both (IsFound name (returns raw) l) (not (is_allowed_l1_crypto_symbol name))
      (λ e. refused refl refl)
      λ e.
        if-both (IsFound name (returns raw) l) (raw == 0) (λ f. refused refl refl)
          (λ f.
            found_at raw refl refl (λ z. ground (arith, f, z))
              (not-false (is_allowed_l1_crypto_symbol name) e) refl)

-- A resolution of names fails in a stopped ledger, or finds each of them.
pub record IsResolved (names : List Bytes) (lookup : Bytes → Outcome ℕ) (l : Ledger)
    (r : Option (List ℕ) × Ledger) : Type 0 where
  pub fails : r.0 ≡ none → r.1.stopped ≡ true
  pub finds :
      (found : List ℕ) → r.0 ≡ some found → AllFound lookup names found × (r.1.stopped ≡ l.stopped)

joined-IsResolved :
    (s : Bytes) (ss : List Bytes) (lookup : Bytes → Outcome ℕ) (l : Ledger) (r : Option ℕ × Ledger)
    (rest : Option (List ℕ) × Ledger)
    → IsFound s (lookup s) l r
    → IsResolved ss lookup r.1 rest
    → IsResolved (s ∷ ss) lookup l (joined r.0 r.1 rest)
joined-IsResolved s ss lookup l (none, k) rest (refused e stopped) h = record {
  fails = λ f. stopped;
  finds = λ found f. absurd (cc f);
}
joined-IsResolved s ss lookup l (some a, k) rest (refused e stopped) h = absurd (cc e)
joined-IsResolved s ss lookup l (none, k) rest (found_at a e at non_null allowed same) h =
    absurd (cc e)
joined-IsResolved s ss lookup l (some b, k) (none, m) (found_at a e at non_null allowed same) h =
    record { fails = λ f. h.fails refl; finds = λ found f. absurd (cc f) }
joined-IsResolved s ss lookup l (some b, k) (some bs, m) (found_at a e at non_null allowed same) h =
    record {
      fails = λ f. absurd (cc f);
      finds = λ found f.
          let (all, stopped) = h.finds bs refl in
          let here : a ≡ b = cc e in
          let listed : (b ∷ bs) ≡ found = cc f in
          subst (λ x. AllFound lookup (s ∷ ss) x × (m.stopped ≡ l.stopped)) listed
            (((rw (sym here) at, (rw (sym here) non_null, all)), stopped ∙ same));
    }

resolve_all-IsResolved :
    (names : List Bytes) (lookup : Bytes → Outcome ℕ) (l : Ledger)
    → IsResolved names lookup l (resolve_all names lookup l)
unfolding resolve_all
resolve_all-IsResolved [] lookup l = record {
  fails = λ e. absurd (cc e);
  finds = λ found e.
      let listed : [] ≡ found = cc e in
      subst (λ x. AllFound lookup [] x × (l.stopped ≡ l.stopped)) listed (tt, refl);
}
resolve_all-IsResolved (s ∷ ss) lookup l =
    let r = resolve_symbol_checked s (lookup s) l in
    joined-IsResolved s ss lookup l r (resolve_all ss lookup r.1)
      (resolve_symbol_checked-IsFound s (lookup s) l) (resolve_all-IsResolved ss lookup r.1)

-- The seven functions are there where the resolution succeeds: each at the address, not null, at which
-- the lookup found it. Where it fails, the ledger is stopped.
pub resolve_l1_crypto_api-IsResolved :
    (lookup : Bytes → Outcome ℕ) (l : Ledger)
    → IsResolved api_symbols lookup l (resolve_l1_crypto_api lookup l)
unfolding resolve_l1_crypto_api
resolve_l1_crypto_api-IsResolved lookup l = resolve_all-IsResolved api_symbols lookup l
