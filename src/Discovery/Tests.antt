-- ===== src/Discovery/Tests.antt =====
-- The theorem on discovery at a system whose calls all throw.
use shiroha_quiz.Base.{◌≡◌, ◌⊎◌, true, false, refl, none, some, [], ◌∷◌, replicate}
use shiroha_quiz.Status.{ok, commit_unknown}
use shiroha_quiz.Memory.{Memory}
use shiroha_quiz.Objects.{no_info}
use shiroha_quiz.Machine.{
  Environment, Lease, new_lease, throws, returned, os, Answer, current_sid, ask, settle, attempt,
  ◌>>=◌, require, get_lease, get_locals, change_lease, change_memory, pure, raise, close_if,
}
use shiroha_quiz.Leases.{check}
use shiroha_quiz.Leases.Progress.{count_calls, committed}
use shiroha_quiz.Owners.{World, enter, returned_status}
use shiroha_quiz.Interface.{initial}
use shiroha_quiz.Discovery.{
  discovery_lease, discovery_try, find_file, discovery_directory, find_present, close_locals,
  close_local,
}
use shiroha_quiz.Discovery.Decided.{discovery_lease-unknown}

abbrev empty_memory : Memory
empty_memory a = 0

abbrev plain_answer : Answer
plain_answer = record {
  outcome = returned ok;
  handle = os 7;
  info = no_info;
  bytes = [];
  number = 0;
  runtime = [];
  random = [];
  done = true;
}

abbrev throwing : Environment
throwing h call = record plain_answer { outcome = throws; done = false }

abbrev open_lease : Lease
open_lease = record (new_lease 1 1) { ticket = 5; target = os 3; temporary = os 4 }

abbrev open_world : World
open_world = record (initial empty_memory) { owners = some open_lease ∷ replicate 31 none }

discovery_lease-unknown_example :
    let (r, c) = discovery_lease throwing 1 (1 ∷ []) 0 0 true (enter open_world open_lease) in
    (committed c.history ≡ 0) ⊎ ((returned_status r ≡ commit_unknown) × (c.lease.denied ≡ true))
unfolding count_calls discovery_lease discovery_try find_file discovery_directory find_present
    close_locals close_local check current_sid ask settle attempt ◌>>=◌ require get_lease get_locals
    change_lease change_memory pure raise close_if
discovery_lease-unknown_example =
    discovery_lease-unknown throwing 1 (1 ∷ []) 0 0 true open_world open_lease refl
