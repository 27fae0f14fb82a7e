-- ===== src/Peers/Roles.antt =====
-- What an accepted certificate shows.
use shiroha_quiz.Base.{
  ℕ, ◌≡◌, ◌<◌, ◌≤◌, ◌↔◌, ◌⊎◌, inl, inr, true, false, not, ◌&&◌, ◌||◌, ◌==◌, ltb, if-both, arith,
  Bytes,
}
use shiroha_quiz.Status.{Status, is_ok, abi_version}
use shiroha_quiz.Memory.{Memory, read}
use shiroha_quiz.Peers.{PeerPolicy, role_ok, policy_ok, rejected, peer_policy}

rejected-not_ok : (s : Status) → is_ok s ≡ false → is_ok (rejected s) ≡ false
rejected-not_ok s h = ground (arith, h)

-- What the policy of a role demands of the call and of what `inspect` decoded.
pub record IsPeer (inspect : Bytes → Status × PeerPolicy) (version der length role : ℕ) (m : Memory)
    : Type 0 where
  pub same_version : version ≡ abi_version
  pub sized : (0 < der) × ((0 < length) × (length ≤ 16384))
  pub decoded : is_ok (inspect (read der length m)).0 ≡ true
  pub signed :
      ((inspect (read der length m)).1.signature_sha256 ≡ true)
      × (((inspect (read der length m)).1.signature_structure ≡ true)
          × ((inspect (read der length m)).1.p256 ≡ true))
  pub formed :
      ((inspect (read der length m)).1.v3 ≡ true)
      × (((inspect (read der length m)).1.extensions_exact ≡ true)
          × (((inspect (read der length m)).1.leaf_constraints ≡ true)
              × ((inspect (read der length m)).1.digital_signature_only ≡ true)))
  pub valid : (inspect (read der length m)).1.valid_now ≡ true
  pub for_role :
      ((role ≡ 1)
        × (((inspect (read der length m)).1.server_auth_only ≡ true)
            × ((inspect (read der length m)).1.single_loopback_san ≡ true)))
      ⊎ ((role ≡ 2)
          × (((inspect (read der length m)).1.client_auth_only ≡ true)
              × ((inspect (read der length m)).1.san_absent ≡ true)))

-- The demands of a role on the purpose and the names.
role_ok-for_role :
    (role : ℕ) (p : PeerPolicy)
    → (not (role == 1) && not (role == 2)) ≡ false
    → role_ok role p ≡ true
    → ((role ≡ 1) × ((p.server_auth_only ≡ true) × (p.single_loopback_san ≡ true)))
      ⊎ ((role ≡ 2) × ((p.client_auth_only ≡ true) × (p.san_absent ≡ true)))
role_ok-for_role role p known =
    if-both
      (λ b.
        b ≡ true
        → ((role ≡ 1) × ((p.server_auth_only ≡ true) × (p.single_loopback_san ≡ true)))
          ⊎ ((role ≡ 2) × ((p.client_auth_only ≡ true) × (p.san_absent ≡ true))))
      (role == 1) (λ e h. inl (ground (arith, e), (ground (arith, h), ground (arith, h))))
      (λ e h. inr (ground (arith, e, known), (ground (arith, h), ground (arith, h))))

peer_policy-IsPeer :
    (inspect : Bytes → Status × PeerPolicy) (version der length role : ℕ) (m : Memory)
    → is_ok (peer_policy inspect version der length role m) ≡ true
    → IsPeer inspect version der length role m
unfolding peer_policy
peer_policy-IsPeer inspect version der length role m =
    let p = (inspect (read der length m)).1 in
    let Goal = λ (s : Status). is_ok s ≡ true → IsPeer inspect version der length role m in
    if-both Goal (not (version == abi_version)) (λ a e. absurd (cc e))
      λ a.
        if-both Goal
          (der == 0 || (length == 0 || (ltb 16384 length || not (role == 1) && not (role == 2))))
          (λ b e. absurd (cc e))
          λ b.
            if-both Goal (not (is_ok (inspect (read der length m)).0))
              (λ c e.
                absurd (ground (arith, c, e, rejected-not_ok (inspect (read der length m)).0)))
              λ c.
                if-both Goal (policy_ok role p)
                  (λ d e. record {
                    same_version = ground (arith, a);
                    sized = (ground (arith, b), (ground (arith, b), ground (arith, b)));
                    decoded = ground (arith, c);
                    signed = (ground (arith, d), (ground (arith, d), ground (arith, d)));
                    formed = (
                      ground (arith, d),
                      (ground (arith, d), (ground (arith, d), ground (arith, d))),
                    );
                    valid = ground (arith, d);
                    for_role = role_ok-for_role role p (ground (arith, b)) (ground (arith, d));
                  })
                  (λ d e. absurd (cc e))

IsPeer-peer_policy :
    (inspect : Bytes → Status × PeerPolicy) (version der length role : ℕ) (m : Memory)
    → IsPeer inspect version der length role m
    → is_ok (peer_policy inspect version der length role m) ≡ true
unfolding peer_policy
IsPeer-peer_policy inspect version der length role m h = elim h.for_role [
  | inl e ↦
      ground
        (arith, h.same_version, h.sized, h.decoded, h.signed, h.formed, h.valid, e.0, e.1.0, e.1.1)
  | inr e ↦
      ground
        (arith, h.same_version, h.sized, h.decoded, h.signed, h.formed, h.valid, e.0, e.1.0, e.1.1)
]

-- `peer_policy` returns `ok` exactly where it is asked at this version for the role of a server or of a
-- client, about 1 to 16384 bytes that are decoded as a certificate of version 3, signed in form and
-- with SHA-256 over a P-256 key, valid now, with no other extensions, as a leaf, for digital
-- signatures only, and for the role: a server's purpose with the one loopback name, or a client's
-- without a name.
pub peer_policy_iff :
    (inspect : Bytes → Status × PeerPolicy) (version der length role : ℕ) (m : Memory)
    → (is_ok (peer_policy inspect version der length role m) ≡ true)
      ↔ IsPeer inspect version der length role m
peer_policy_iff inspect version der length role m = (
  peer_policy-IsPeer inspect version der length role m,
  IsPeer-peer_policy inspect version der length role m,
)
