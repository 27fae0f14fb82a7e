-- ===== src/Diagnostics/Supervisor/Settling.antt =====
-- windows/external_native/diagnostics/l1_crypto_admission.h, the tests by which `settle` judges the ledger
-- and the observation of a run.
use shiroha_quiz.Base.{ℕ, Bool, true, false, not, ◌&&◌, ◌||◌, List, [], ◌∷◌, ◌==◌, if◌then◌else◌}
use shiroha_quiz.Diagnostics.Native.{CallCounts, NativeObservation, native_complete}
use shiroha_quiz.Diagnostics.Budget.{Ledger}
use shiroha_quiz.Diagnostics.Grants.{GrantTarget, is_admission_only}
use shiroha_quiz.Diagnostics.Supervisor.State.{StopReason, measurement}

-- A call or a category that is not settled.
abbrev pub unsettled : CallCounts → Bool
unsettled c =
    not (c.unknown == 0) || (not (c.returned == c.attempted) || not (c.settled == c.attempted))

unfoldable pub any_unsettled : List CallCounts → Bool
any_unsettled [] = false
any_unsettled (c ∷ cs) = unsettled c || any_unsettled cs

unfoldable pub none_made : List CallCounts → Bool
none_made [] = true
none_made (c ∷ cs) = (c.attempted == 0 && c.accepted == 0) && none_made cs

-- Category by category, as often as it was granted.
unfoldable pub as_granted : List CallCounts → List ℕ → Bool
as_granted [] ns = true
as_granted (c ∷ cs) [] = false
as_granted (c ∷ cs) (n ∷ ns) = (c.attempted == n && c.accepted == c.attempted) && as_granted cs ns

-- The conditions on the ledger that both scopes share.
abbrev ledger_clean : Ledger → Bool
ledger_clean l =
    l.duplicate_release_attempts == 0
    && (l.forbidden_symbol_attempts == 0
        && (l.observation_failures == 0 && (l.samples == 18 && not l.stopped)))

unfoldable pub exact_admission : Ledger → NativeObservation → Bool
exact_admission l o =
    (l.abi_attempted_total == 0
      && (l.attempted == 0
          && (l.returned == 0
              && (l.completed == 0
                  && (l.accepted == 0
                      && (l.successful == 0
                          && (l.buffers_allocated == 0
                              && (l.releases_attempted == 0 && l.releases_succeeded == 0))))))))
    && (ledger_clean l
        && (o.acquired == 0
            && (o.released == 0
                && (o.still_owned == 0
                    && (o.quarantined == 0 && (not o.stopped && not o.unknown))))))

unfoldable pub exact_crypto : Ledger → NativeObservation → Bool
unfolding native_complete
exact_crypto l o =
    (l.abi_attempted_total == 106
      && (l.attempted == 16
          && (l.returned == 16
              && (l.completed == 16
                  && (l.accepted == 16
                      && (l.successful == 12
                          && (l.buffers_allocated == 45
                              && (l.releases_attempted == 45 && l.releases_succeeded == 45))))))))
    && (ledger_clean l && native_complete o)

unfoldable pub is_exact : GrantTarget → Ledger → NativeObservation → Bool
unfolding is_admission_only exact_admission exact_crypto none_made as_granted
is_exact t l o =
    (if is_admission_only t then exact_admission l o && none_made o.calls else exact_crypto l o)
    && as_granted l.abi_calls t.granted

unfoldable pub is_unresolved : Bool → Ledger → NativeObservation → Bool
unfolding any_unsettled
is_unresolved exit_seen l o =
    not exit_seen
    || (o.unknown
        || (not (o.still_owned == 0)
            || (not (o.quarantined == 0)
                || (not (o.acquired == o.released)
                    || (l.settlement_unknown
                        || (any_unsettled o.calls
                            || (any_unsettled l.abi_calls
                                || (not (l.buffers_live == 0)
                                    || not (l.releases_unknown == 0)))))))))

abbrev pub is_measurement : StopReason → Bool
is_measurement measurement = true
is_measurement r = false
