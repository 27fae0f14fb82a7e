-- ===== src/Lib.antt =====
-- The native core of Shiroha Quiz on Windows: windows/external_native, the DLL through which the app and
-- its bridge keep secrets, exchange files and check peers.
--
-- The parts and the files that model them (paths from the repository's root):
--
--   - Status: windows/external_native/shiroha_external_native.h, the statuses, owner roles and limits.
--   - Memory: the flat byte memory behind the C interface, with the helpers span, count and overlap that
--     association_files.cpp, exchange_files.cpp, discovery_files.cpp, native_core.cpp and native_crypto.cpp
--     repeat. A pointer is its address, 0 is null, and an address is below 2 ^ 64. Memory/Spans and
--     Memory/Writes hold the facts about spans, and about reads behind writes.
--   - P256: p256_key_codec.cpp, the DER reader and writer of P-256 keys and the check of a scalar, on byte
--     lists. A span of exactly 32 or 65 bytes is a list of that length. P256/Der is the general tag, length,
--     value encoding against which the two are compared.
--   - Objects: the structs of protected_objects.h for what is observed of a file, and local_nt_name,
--     safe_component and object_valid of protected_objects.cpp. A wide string is its UTF-16 units.
--   - Machine: ObjectOperations of protected_objects.h as calls and answers. The operating system is any
--     function from the calls made so far to the next answer: it may return any status, write any handle
--     whatever it returns, and throw. An operation on a lease is an action with a state and a result; the
--     chains of `if (status == SHIROHA_NATIVE_OK)` are do blocks, and the catch clauses are `attempt`.
--   - Leases: add, inspect_pins and release of protected_objects.cpp, check, finish, target_current and
--     open_target of association_files.cpp, which the operations share.
--   - Owners: acquire, validate, close and the destructor of ProtectedObjects, and find. The mutex makes
--     each call one step, so that concurrent callers are an order of calls.
--   - Transactions: begin, commit and abort of association_files.cpp, with the six association_ and
--     credential_ members that lead to them.
--   - Exchange: exchange_files.cpp, with Exchange/Files, Exchange/Directory, Exchange/Attempts and
--     Exchange/Settling. Discovery: discovery_files.cpp.
--   - Interface: all public members of ProtectedObjects, which the exports at the end of
--     protected_windows.cpp call one by one, and runs of them in any order.
--   - Protection: native_core.cpp, DPAPI, the application data path and the buffers of callers. Signatures:
--     native_crypto.cpp. Peers: peer_policy.cpp. Renames: association_rename.h, credential_rename.h,
--     discovery_rename.h and exchange_open_policy.h. There the operations of Windows are parameters.
--   - Ledger: diagnostics/probe_ledger.h, the counters of a probe.
--   - Diagnostics: the probe of windows/external_native/diagnostics that is admitted, watched and settled.
--     Native: l1_native_observation.h, the observer of the native calls and the tickets of what they acquire.
--     Budget, with Budget/State and Budget/Observing: the ledger of l1_crypto_probe.h, its clock and samples,
--     each call under its budgets, and the verdict. Buffers, with Buffers/Symbols: the symbols that
--     l1_crypto_probe.h resolves and its pool of buffers. Grants: the target of a run and the cell that
--     consumes it, from l1_crypto_admission.h. Certificates, with Certificates/Forms and Certificates/Digests:
--     the DER forms, signatures, certificates and SHA-256 digests that l1_crypto_probe.h makes and reads.
--     Sequence, with Sequence/Steps: run_l1_crypto_sequence over the pool and its ledger, as a monad of steps
--     that stops where the code returns 10. Supervisor, with Supervisor/State and Supervisor/Settling: the
--     offline supervisor of l1_crypto_admission.h, which reads the ledger and the observer at the end.
--     The clock, the samples, the native calls and the lookup of symbols are arguments. Runs of operations
--     in any order are lists: Buffers/Runs, Native/Sessions, Grants/Once, Supervisor/Runs.
--     A module of definitions that has grown keeps parts of them in children that it passes on, such as
--     Machine/State, Transactions/Begun, Discovery/Directory or Diagnostics/Budget/Reserving.
--   - Tests, Diagnostics/Tests, Diagnostics/Supervisor/Tests, Diagnostics/Certificates/Tests,
--     Diagnostics/Sequence/Tests, Interface/Tests and Discovery/Tests: the theorems at concrete inputs, and a
--     whole run of the probe that passes.
--
-- How the invariants of the owners are proved: Leases/Stable lists the ways in which a step may change
-- the state. Leases/Steps, Transactions/Steps, Exchange/Steps and Discovery/Steps go through each
-- operation once, for every invariant that withstands those changes; Leases/Covered (handles),
-- Leases/Marked (tokens) and Leases/Progress (calls that commit, or that rename) are such invariants; the
-- last withstands all changes but those calls. The Balance modules lift the first two to the table of
-- owners. Machine/Runs, Machine/Leads and Machine/Raises are the rules for what an action ends in.
--
-- Bounds and fuel: the loops over owners and slots are recursions on lists or on the 32 slots of their
-- arrays, so that none needs fuel. units_of counts down from the 32768 units at which the code gives up.
-- The buffer pool releases by recursion on the number of its slots; a digest takes its chunks by their number,
-- and the loops of the probe over three keys and certificates are written out. Counters of 32 bits wrap;
-- tokens and tickets stop at 2 ^ 63 - 1, as the code stops them.
--
-- Not modelled: failures of memory allocation outside the operations; the Win32, CNG and crypt32
-- calls behind the seams (native_windows.cpp, crypto_windows.cpp, protected_windows.cpp,
-- peer_policy_windows.cpp), which are parameters, as are calloc and free of the C library; the
-- text of the summary of l1_crypto_probe.h, and what its own copies of keys hold when they are wiped; the
-- messages, journals and controllers of diagnostics (l1_e4_protocol.h and l1_e4_admission.h on) and their
-- wiring to files and processes; windows/local_relay and windows/runner; and the Dart and Kotlin code.
pub mod Base
pub mod P256
pub mod Status
pub mod Memory
pub mod Objects
pub mod Machine
pub mod Leases
pub mod Owners
pub mod Transactions
pub mod Exchange
pub mod Discovery
pub mod Interface
pub mod Protection
pub mod Signatures
pub mod Peers
pub mod Renames
pub mod Ledger
pub mod Diagnostics
pub mod Tests
