-- ===== src/Tests.antt =====
-- Concrete inputs of the theorems: a bridge that is acquired, closed and asked for again, and small
-- calls of the other parts.
use shiroha_quiz.Base.{
  ℕ, ◌+◌, zero, suc, ◌≤◌, ◌<◌, ◌≡◌, sym, inl, inr, ◌↔◌, AreBytes, refl, Bool, true, false, none,
  some, [], ◌∷◌, arith, Bytes, replicate, codes,
}
use shiroha_quiz.Status.{Status, ok, is_ok, invalid_input}
use shiroha_quiz.Memory.{store, Memory, span, overlap, count, read}
use shiroha_quiz.Memory.Spans.{overlap_iff}
use shiroha_quiz.P256.{p256_scalar_valid}
use shiroha_quiz.P256
use shiroha_quiz.P256.Scalar.{big_endian, p256_scalar_valid_iff}
use shiroha_quiz.P256.RoundTrip.{IsKey, pkcs8, decode-pkcs8, encode-eq-pkcs8}
use shiroha_quiz.P256.Canonical.{IsAccepted, decode_canonical}
use shiroha_quiz.Objects.{no_info, local_nt_name}
use shiroha_quiz.Objects.Names.{local_nt_name-parent}
use shiroha_quiz.Machine.{os, Environment, Answer, returned, throws, new_lease, Lease}
use shiroha_quiz.Owners.{World}
use shiroha_quiz.Interface.{initial}
use shiroha_quiz.Transactions.{commit_found, abort_found}
use shiroha_quiz.Transactions.Tickets.{Consumed, ticket_matches-Consumed}
use shiroha_quiz.Transactions.Decided.{IsDecided, commit_found-IsDecided}
use shiroha_quiz.Leases.Progress.{count_calls}
use shiroha_quiz.Exchange.Naming.{filename_lem}
use shiroha_quiz.Protection.{Blob, transform, buffer_alloc}
use shiroha_quiz.Protection.Blocks.{IsFreed, buffer_free-IsFreed}
use shiroha_quiz.Memory.Writes.{store-Outside}
use shiroha_quiz.Protection.Outputs.{transform-input}
use shiroha_quiz.Protection.Delivery.{IsDelivered, transform-delivers}
use shiroha_quiz.Signatures.{Generated, generate_key, keep_key}
use shiroha_quiz.Signatures.Outputs.{generate_key-wiped}
use shiroha_quiz.Peers.{PeerPolicy, peer_policy}
use shiroha_quiz.Peers.Roles.{IsPeer, peer_policy_iff}
use shiroha_quiz.Ledger.{
  Ledger, acquire, protect, unset, no_failure, invokes, releases, invoke, attempted, called, stop,
  observe, use_all,
}
use shiroha_quiz.Ledger.Stopped.{IsFrozen, use_all-IsFrozen}
use shiroha_quiz.Renames.{Rename, rename_association, rename_credential, rename_discovery}
use shiroha_quiz.Renames.Settled.{rename-untouched}

abbrev empty_memory : Memory
empty_memory a = 0

-- Keys.
abbrev scalar_one : Bytes
scalar_one = replicate 32 1

abbrev a_point : Bytes
a_point = 4 ∷ replicate 64 7

scalar_one-IsKey : IsKey scalar_one a_point
unfolding p256_scalar_valid
scalar_one-IsKey = record {
  scalar_length = refl;
  scalar_valid = refl;
  point_length = refl;
  uncompressed = refl;
}

decode-pkcs8_example :
    P256.decode_p256_pkcs8 (pkcs8 true true scalar_one a_point) a_point ≡ some scalar_one
decode-pkcs8_example = decode-pkcs8 true true scalar_one a_point scalar_one-IsKey

encode-eq-pkcs8_example :
    P256.encode_p256_pkcs8 scalar_one a_point 256 ≡ some (pkcs8 false true scalar_one a_point)
encode-eq-pkcs8_example = encode-eq-pkcs8 scalar_one a_point 256 scalar_one-IsKey (omega arith)

decode_canonical_example : IsAccepted (pkcs8 true true scalar_one a_point) a_point scalar_one
decode_canonical_example =
    decode_canonical (pkcs8 true true scalar_one a_point) a_point scalar_one
      (decode-pkcs8 true true scalar_one a_point scalar_one-IsKey)

replicate-AreBytes : (n b : ℕ) → b < 256 → AreBytes (replicate n b)
replicate-AreBytes zero b h = tt
replicate-AreBytes (suc n) b h = (h, replicate-AreBytes n b h)

p256_scalar_valid_iff_example :
    (p256_scalar_valid scalar_one ≡ true)
    ↔ ((0 < big_endian scalar_one) × (big_endian scalar_one < big_endian P256.order))
p256_scalar_valid_iff_example =
    p256_scalar_valid_iff scalar_one refl (replicate-AreBytes 32 1 (omega arith))

-- Spans.
overlap_iff_example :
    (overlap 16 8 20 8 ≡ true) ↔ ((a : ℕ) × (16 ≤ a) × (a < 16 + 8) × (20 ≤ a) × (a < 20 + 8))
unfolding span
overlap_iff_example = overlap_iff 16 8 20 8 refl refl

-- A path that ends in `..`.
local_nt_name-parent_example : local_nt_name (codes "C:\\data\\..") ≡ none
local_nt_name-parent_example =
    local_nt_name-parent 0x43 0x3a (codes "..") (codes "\\data") [] (inr refl) tt

abbrev an_id : Bytes
an_id = replicate 16 9

filename_lem_example : ◌≡◌ {A = ℕ} 2 2 × (an_id ≡ an_id)
filename_lem_example =
    filename_lem 2 2 an_id an_id (omega arith, omega arith) (omega arith, omega arith)
      (replicate-AreBytes 16 9 (omega arith)) (replicate-AreBytes 16 9 (omega arith)) refl refl refl

-- An operating system that answers `ok` to all calls, and one that throws.
abbrev plain_answer : Answer
plain_answer = record {
  outcome = returned ok;
  handle = os 7;
  info = no_info;
  bytes = [];
  number = 0;
  runtime = [];
  random = [];
  done = true;
}

abbrev throwing : Environment
throwing h call = record plain_answer { outcome = throws; done = false }

abbrev open_lease : Lease
open_lease = record (new_lease 1 1) { ticket = 5; target = os 3; temporary = os 4 }

abbrev open_world : World
open_world = record (initial empty_memory) { owners = some open_lease ∷ replicate 31 none }

ticket_matches-Consumed_example :
    Consumed throwing 0 open_world
      (commit_found throwing 5 false (1 ∷ []) (some (0, open_lease)) open_world).2
    × Consumed throwing 0 open_world
        (abort_found throwing 5 false (some (0, open_lease)) open_world).1
ticket_matches-Consumed_example =
    ticket_matches-Consumed throwing 5 false (1 ∷ []) 0 open_lease open_world refl

-- A buffer of three bytes, of which the second is written before it is freed.
buffer_free-IsFreed_example :
    IsFreed 4096 3 empty_memory (store 4105 9 (buffer_alloc (some 4096) 3 empty_memory).1)
buffer_free-IsFreed_example =
    buffer_free-IsFreed 4096 3 empty_memory
      (store 4105 9 (buffer_alloc (some 4096) 3 empty_memory).1) (omega arith) (omega arith)
      (λ a from to. sym (store-Outside 4105 9 a _ (inl (omega (arith, to)))))

commit_found-IsDecided_example :
    let r = commit_found throwing 5 false (1 ∷ []) (some (0, open_lease)) open_world in
    IsDecided 0 r.0 r.2.history
unfolding count_calls
commit_found-IsDecided_example =
    commit_found-IsDecided throwing 5 false (1 ∷ []) 0 open_lease open_world refl

-- A protection that returns its input.
abbrev same_blob : Bool → Bytes → Blob
same_blob decrypt bytes = record { success = true; pb_data = some bytes }

transform-input_example :
    (transform same_blob 3 64 4 80 8 128 false empty_memory).memory 65 ≡ empty_memory 65
unfolding span
transform-input_example =
    transform-input same_blob 3 64 4 80 8 128 false empty_memory 65 refl (omega arith) (omega arith)

transform-delivers_example :
    IsDelivered
      (same_blob false (read 64 4 empty_memory))
      80
      8
      128
      (transform same_blob 3 64 4 80 8 128 false empty_memory).memory
unfolding span count overlap transform read
transform-delivers_example = transform-delivers same_blob 3 64 4 80 8 128 false empty_memory refl

-- A key generation that fails behind a part of the key.
abbrev failed_key : Generated
failed_key = record { status = invalid_input; length = 0; pkcs8 = 1 ∷ 2 ∷ []; point = [] }

generate_key-wiped_example :
    (generate_key 512 256 256 1024 65 264 failed_key 3 empty_memory).1 513 ≡ 0
unfolding span count overlap generate_key keep_key
generate_key-wiped_example =
    generate_key-wiped 512 256 256 1024 65 264 513 3 failed_key empty_memory (omega arith)
      (omega arith) refl refl

-- A server's certificate.
abbrev server_policy : PeerPolicy
server_policy = record {
  v3 = true;
  signature_sha256 = true;
  signature_structure = true;
  p256 = true;
  valid_now = true;
  extensions_exact = true;
  leaf_constraints = true;
  digital_signature_only = true;
  server_auth_only = true;
  client_auth_only = false;
  single_loopback_san = true;
  san_absent = false;
}

abbrev inspect_server : Bytes → Status × PeerPolicy
inspect_server der = (ok, server_policy)

peer_policy_iff_example :
    (is_ok (peer_policy inspect_server 3 16 4 1 empty_memory) ≡ true)
    ↔ IsPeer inspect_server 3 16 4 1 empty_memory
peer_policy_iff_example = peer_policy_iff inspect_server 3 16 4 1 empty_memory

-- A system call that writes nothing and returns 0.
abbrev silent : Rename
silent h info = record { status = 0; written = none }

rename-untouched_example :
    (is_ok (rename_association true silent (os 1) (os 2) true) ≡ false)
    × (is_ok (rename_credential true silent (os 1) (os 2) 1 true) ≡ false)
    × (is_ok (rename_discovery true silent (os 1) (os 2) 1 true) ≡ false)
rename-untouched_example = rename-untouched silent (λ h info. refl) true (os 1) (os 2) 1 true

-- A probe whose acquisition threw.
abbrev fresh_ledger : Ledger
fresh_ledger = record {
  done = λ i. false;
  returned_steps = λ i. false;
  completed_steps = λ i. false;
  returned = 0;
  completed = 0;
  successful = 0;
  accepted = 0;
  observation_attempts = 0;
  observation_failures = 0;
  abi = 0;
  acquires = 0;
  protects = 0;
  begins = 0;
  commits = 0;
  aborts = 0;
  closes = 0;
  stopped = false;
  first_failure = no_failure;
  first_status = 0;
  peak_working_set = 0;
  peak_commit = 0;
  handles_first = 0;
  handles_last = 0;
  handles_max_sampled = 0;
  samples = 0;
}

abbrev stopped_ledger : Ledger
stopped_ledger = (invoke acquire none unset fresh_ledger).1

use_all-IsFrozen_example :
    IsFrozen stopped_ledger
      (use_all (invokes protect (some 0) unset ∷ releases (some 0) unset ∷ []) stopped_ledger)
unfolding invoke attempted called stop observe
use_all-IsFrozen_example =
    use_all-IsFrozen (invokes protect (some 0) unset ∷ releases (some 0) unset ∷ []) stopped_ledger
      refl
