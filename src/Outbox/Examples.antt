-- ===== src/Outbox/Examples.antt =====
-- Tests of the outbox model, and its theorems at concrete inputs.
use app_common.Common.{◌≤◌}
use app_common.Outbox.Repo
use app_common.Outbox.Repo.{
  holds_lease, finished, recover_one, recovered, expired, by_updated, exhausted, due, owned,
}
use app_common.Outbox.Repo.Lifecycle.{Op, claims, recovers, requeues, apply, run}
use app_common.Outbox.Repo.Lifecycle.Leases.{claim_fences, lease_excludes}
use app_common.Outbox.Repo.Lifecycle.Safety.{published_final, IsSound, run-IsSound}
use app_common.Outbox.Relay.{
  Claim, completion, Publication, acknowledged, publish, delivered, RelayResult, no_result, ok,
  claim_at, finish_at,
}
use app_common.Outbox.Relay.Completion.{Unpublished}
use app_common.Outbox.Relay.Loops.{Turn, take_turn, run_once, RecoveryTurn}
use app_common.Outbox.Relay.Loops.Acknowledged.{QuietTurn, unacknowledged-Unpublished}
use app_common.Outbox.Relay.Loops.Counts.{IsBalanced, run_once-IsBalanced}
use app_common.Outbox.Relay.Loops.Drained.{IsAlone, backlog, handled, recover-Drains}
use app_common.Common.{ℕ, ◌≡◌, refl, Bool, true, false, none, some, List, [], ◌∷◌, arith}
use app_common.Table.{get, IsKeyed}
use app_common.Outbox.Model.{pending, processing, published, Outbox}
use app_common.Outbox.Policy.{RelayOptions, post_init, accepted, retry_at, retry_schedule}
use app_common.Outbox.Policy.Schedule.{IsValid, retry_at_lem}
use app_common.Outbox.Repo.{due, Table, claim_one, finish_claim, claimed_by}
use app_common.Outbox.Repo.Rows.{key}

-- The defaults of the source.
abbrev defaults : RelayOptions
defaults = record {
  batch_size = 10;
  max_attempts = 3;
  retry_base = 5000000;
  retry_max = 300000000;
  lease = 60000000;
  heartbeat = 15000000;
  publish_timeout = 300000000;
  legacy_timeout = 3600000000;
  shutdown_timeout = 30000000;
}

defaults_accepted : post_init defaults ≡ accepted
unfolding post_init
defaults_accepted = refl

defaults-IsValid : IsValid defaults
defaults-IsValid = omega arith

third_retry : retry_schedule defaults 0 ≡ 5000000 ∷ 10000000 ∷ 20000000 ∷ []
unfolding retry_schedule
third_retry = refl

abbrev event : ℕ → ℕ → Outbox
event i at = record {
  id = i;
  created_at = at;
  updated_at = at;
  aggregate_type = "Book";
  aggregate_id = "b1";
  event_type = "BOOK_CREATED";
  payload = "{}";
  status = pending;
  retry_count = 0;
  processed_at = none;
  next_attempt_at = none;
  claim_token = none;
  lease_expires_at = none;
  last_error = none;
}

-- Two events that wait, the later one first in the table.
abbrev two : Table
two = event 7 200 ∷ event 3 100 ∷ []

two-IsKeyed : IsKeyed key two
two-IsKeyed = (refl, (refl, tt))

abbrev unlocked : ℕ → Bool
unlocked i = false

abbrev taken : Outbox
taken = record (event 3 100) {
  status = processing;
  claim_token = some 41;
  lease_expires_at = some 60001000;
  updated_at = 1000;
}

takes_oldest : (claim_one 1000 60001000 41 unlocked two).0 ≡ some taken
unfolding claim_one due claimed_by
takes_oldest = refl

retry_at_lem_example : retry_at defaults 1000 2 ≡ 10001000
retry_at_lem_example = retry_at_lem defaults 1000 2 defaults-IsValid

abbrev only_three : Table
only_three = taken ∷ []

nothing_due : (claim_one 1000 60001000 42 unlocked only_three).0 ≡ none
unfolding claim_one due
nothing_due = refl

abbrev success : Repo.Completion
success = record { status = published; retry_count = 0; next_attempt_at = none; error = none }

held_by_41 : holds_lease 41 2000 taken ≡ true
unfolding holds_lease
held_by_41 = refl

-- The worker with token 40 comes back after token 41 has claimed its event.
claim_fences_example :
    finish_claim 3 40 2000 success (claim_one 1000 60001000 41 unlocked two).1
    ≡ some (false, (claim_one 1000 60001000 41 unlocked two).1)
claim_fences_example =
    (claim_fences 1000 60001000 40 41 2000 9000 unlocked success two taken two-IsKeyed takes_oldest
      (omega arith) refl).0

lease_excludes_example :
    get key 3 (apply (recovers 2000 0 3 (9 ∷ []) unlocked) only_three) ≡ some taken
lease_excludes_example =
    lease_excludes 2000 41 only_three 3 taken refl held_by_41 (recovers 2000 0 3 (9 ∷ []) unlocked)
      (omega arith)

abbrev done : Outbox
done = record (event 5 50) { status = published }

abbrev history : List Op
history =
    claims 1000 60001000 41 unlocked ∷ recovers 99000000 0 3 (9 ∷ []) unlocked ∷ requeues 5 99 ∷ []

published_final_example : get key 5 (run history (done ∷ two)) ≡ some done
published_final_example = published_final history (done ∷ two) 5 done refl refl

waiting-IsSound : IsSound (event 3 100)
waiting-IsSound = record { no_token = λ p. refl; no_lease = λ p. refl }

run-IsSound_example : IsSound (run-IsSound history two 3 (event 3 100) refl waiting-IsSound).0
run-IsSound_example = (run-IsSound history two 3 (event 3 100) refl waiting-IsSound).2

abbrev claim : Claim
claim = record { id = 3; token = 41; failures = 1; event = taken }

second_failure : (completion defaults claim (some "TimeoutError") false 5).status ≡ pending
unfolding completion
second_failure = refl

abbrev smooth : Publication
smooth = record {
  valid = true;
  beats = [];
  task = some acknowledged;
  draining = none;
  interrupted = false;
}

smooth_delivers : (publish defaults claim smooth only_three).0 ≡ delivered
unfolding publish
smooth_delivers = refl

-- A round in which the publisher does not answer.
abbrev silent : Turn
silent = record {
  stopping = false;
  clock = some 1000;
  token = 41;
  locked = unlocked;
  others = λ t. t;
  publication = record smooth { task = none };
  others_after = λ t. t;
  finish_clock = some 301000;
}

silent-QuietTurn : QuietTurn 3 silent
silent-QuietTurn = record { before = λ t u. u; during = tt; after = λ t u. u }

waiting-Unpublished : Unpublished 3 two
waiting-Unpublished s e p = ground arith

unacknowledged-Unpublished_example : Unpublished 3 (take_turn defaults silent no_result two).1
unacknowledged-Unpublished_example =
    unacknowledged-Unpublished defaults silent no_result 3 two silent-QuietTurn (λ e. cc)
      waiting-Unpublished

abbrev one_round : ℕ → Turn
one_round n = record silent { token = n; publication = smooth }

abbrev two_published : RelayResult
two_published = record { claimed = 2; published = 2; retried = 0; failed = 0; lost = 0 }

both_published : (run_once defaults one_round two).0 ≡ ok two_published
unfolding run_once take_turn publish claim_at claim_one due claimed_by finish_at finish_claim owned
    finished
both_published = refl

run_once-IsBalanced_example : IsBalanced two_published × (2 ≤ 10)
run_once-IsBalanced_example =
    run_once-IsBalanced defaults one_round two two_published both_published

abbrev late : ℕ
late = 7200000000

abbrev sweep : ℕ → RecoveryTurn
sweep n = record { stopping = false; clock = some late; locked = unlocked; others = λ t. t }

sweep-IsAlone : (n : ℕ) → IsAlone late (sweep n)
sweep-IsAlone n = record { running = refl; clock = refl; unlocked = λ i. refl; quiet = λ t. refl }

one_expired : backlog late defaults only_three ≤ 10
unfolding expired
one_expired = omega arith

recover-Drains_example :
    handled
      (recover-Drains defaults late
        (omega arith)
        sweep
        only_three
        (refl, tt)
        sweep-IsAlone
        one_expired).0
    ≡ backlog late defaults only_three
recover-Drains_example =
    (recover-Drains defaults late (omega arith) sweep only_three (refl, tt) sweep-IsAlone
      one_expired).4
