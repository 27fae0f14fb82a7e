-- ===== src/Peers.antt =====
-- windows/external_native/peer_policy.h and peer_policy.cpp: the policy on a peer's certificate, which
-- `inspect` has decoded.
pub mod Roles
use shiroha_quiz.Base.{
  ℕ, Bool, true, false, not, ◌&&◌, ◌||◌, ◌==◌, ltb, if◌then◌else◌, Bytes, ◌≡◌, ◌↔◌, arith,
}
use shiroha_quiz.Status.{
  Status, ok, invalid_input, abi_mismatch, resource_limit, unavailable, data_corrupt, missing,
  commit_unknown, verification_rejected, other, is_ok, abi_version,
}
use shiroha_quiz.Memory.{Memory, read}

pub record PeerPolicy : Type 0 where
  pub v3 : Bool
  pub signature_sha256 : Bool
  pub signature_structure : Bool
  pub p256 : Bool
  pub valid_now : Bool
  pub extensions_exact : Bool
  pub leaf_constraints : Bool
  pub digital_signature_only : Bool
  pub server_auth_only : Bool
  pub client_auth_only : Bool
  pub single_loopback_san : Bool
  pub san_absent : Bool

abbrev pub role_ok : ℕ → PeerPolicy → Bool
role_ok role p =
    if role == 1
    then p.server_auth_only && p.single_loopback_san
    else p.client_auth_only && p.san_absent

abbrev pub policy_ok : ℕ → PeerPolicy → Bool
policy_ok role p =
    p.v3
    && (p.signature_sha256
        && (p.signature_structure
            && (p.p256
                && (p.valid_now
                    && (p.extensions_exact
                        && (p.leaf_constraints && (p.digital_signature_only && role_ok role p)))))))

-- Any failure but `unavailable` is a rejection.
abbrev pub rejected : Status → Status
rejected unavailable = unavailable
rejected s = verification_rejected

-- `inspect` is the operation of Windows: a status, and the policy that it filled.
unfoldable pub peer_policy : (Bytes → Status × PeerPolicy) → ℕ → ℕ → ℕ → ℕ → Memory → Status
peer_policy inspect version der length role m =
    if not (version == abi_version)
    then abi_mismatch
    else if der == 0 || (length == 0 || (ltb 16384 length || not (role == 1) && not (role == 2)))
    then invalid_input
    else (let (status, p) = inspect (read der length m) in
        if not (is_ok status)
        then rejected status
        else if policy_ok role p
        then ok
        else verification_rejected)
