-- ===== src/Outbox/Relay.antt =====
-- relay.py of the outbox. What the relay cannot decide is an argument: the clock's readings, fresh
-- tokens, how the publisher's task ends, and what other workers do to the table while this one
-- waits (`others`). A transaction of the relay is one repository statement, so it is one step.
pub mod Completion
pub mod Loops
use app_common.Common.{
  ℕ, zero, suc, ◌+◌, ◌-◌, String, Bool, true, false, not, ◌&&◌, ◌||◌, Option, none, some, List, [],
  ◌∷◌, ltb, leb, str_eq, if◌then◌else◌,
}
use app_common.Outbox.Model.{EventStatus, pending, processing, published, failed, Outbox}
use app_common.Outbox.Policy.{RelayOptions, retry_at, retry_schedule}
use app_common.Outbox.Repo
use app_common.Outbox.Repo.{Table, claim_one, renew_claim, finish_claim, recover_one}

pub record RelayResult : Type 0 where
  pub claimed : ℕ
  pub published : ℕ
  pub retried : ℕ
  pub failed : ℕ
  pub lost : ℕ

abbrev pub no_result : RelayResult
no_result = record { claimed = 0; published = 0; retried = 0; failed = 0; lost = 0 }

-- `event` is the detached row that the event's data are taken from.
pub record Claim : Type 0 where
  pub id : ℕ
  pub token : ℕ
  pub failures : ℕ
  pub event : Outbox

-- The exceptions that leave the relay: a clock that is not timezone-aware, an instant before the
-- calendar's first, a cancellation, and a fault of the database or the clock.
pub data Fault : Type 0 where
  naive_clock overflow cancelled : Fault
  fault : String → Fault

pub data Result {ℓ} (A : Type ℓ) : Type ℓ where
  ok : A → Result A
  raised : Fault → Result A

-- `_now`: `none` is a naive reading of the clock.
unfoldable pub now_of : Option ℕ → Result ℕ
now_of none = raised naive_clock
now_of (some t) = ok t

abbrev to_claim : ℕ → Option Outbox → Option Claim
to_claim token none = none
to_claim token (some row) =
    some (record { id = row.id; token = token; failures = row.retry_count; event = row })

-- `_claim`
unfoldable pub claim_at :
    RelayOptions → Result ℕ → ℕ → (ℕ → Bool) → Table → Result (Option Claim) × Table
claim_at o (raised e) token locked t = (raised e, t)
claim_at o (ok now) token locked t =
    let (row, t') = claim_one now (now + o.lease) token locked t in (ok (to_claim token row), t')

-- `_renew`
unfoldable pub renew_at : RelayOptions → Claim → Result ℕ → Table → Result Bool × Table
renew_at o claim (raised e) t = (raised e, t)
renew_at o claim (ok now) t =
    let (held, t') = renew_claim claim.id claim.token now (now + o.lease) t in (ok held, t')

-- A Python string is true unless it is empty, and `None` is false.
abbrev truthy : Option String → Bool
truthy none = false
truthy (some s) = not (str_eq s "")

abbrev failures_after : Claim → Option String → Bool → ℕ
failures_after claim error exhausted =
    claim.failures + (if truthy error && not exhausted then 1 else 0)

unfoldable pub finish_status : RelayOptions → ℕ → Option String → Bool → EventStatus
finish_status o failures none exhausted = published
finish_status o failures (some e) exhausted =
    if exhausted || leb o.max_attempts failures then failed else pending

abbrev next_attempt : RelayOptions → ℕ → ℕ → EventStatus → Option ℕ
next_attempt o now failures pending = some (retry_at o now failures)
next_attempt o now failures _ = none

-- What `_finish` asks the repository to write.
unfoldable pub completion : RelayOptions → Claim → Option String → Bool → ℕ → Repo.Completion
unfolding finish_status
completion o claim error exhausted now =
    let failures = failures_after claim error exhausted in
    let status = finish_status o failures error exhausted in
    record {
      status = status;
      retry_count = failures;
      next_attempt_at = next_attempt o now failures status;
      error = error;
    }

abbrev applied : EventStatus → Table → Option (Bool × Table) → Result (Option EventStatus) × Table
applied status t none = (raised (fault "ValueError"), t)
applied status t (some (true, t')) = (ok (some status), t')
applied status t (some (false, t')) = (ok none, t')

-- `_finish`: the status that was written, or none where the claim was lost.
unfoldable pub finish_at :
    RelayOptions
    → Claim
    → Option String
    → Bool
    → Result ℕ
    → Table
    → Result (Option EventStatus) × Table
unfolding completion
finish_at o claim error exhausted (raised e) t = (raised e, t)
finish_at o claim error exhausted (ok now) t =
    let c = completion o claim error exhausted now in
    applied c.status t (finish_claim claim.id claim.token now c t)

-- One round of `_heartbeat` after its sleep: what others have done meanwhile, and the clock.
pub record Beat : Type 0 where
  pub others : Table → Table
  pub clock : Option ℕ

pub data Heartbeat : Type 0 where
  running lost_claim : Heartbeat
  beat_raised : Fault → Heartbeat

abbrev beat_on : Result Bool → Heartbeat × Table → Table → Heartbeat × Table
beat_on (raised e) rest t = (beat_raised e, t)
beat_on (ok false) rest t = (lost_claim, t)
beat_on (ok true) rest t = rest

-- `_heartbeat`, over the rounds that came before the publication was decided.
unfoldable pub heartbeat : RelayOptions → Claim → List Beat → Table → Heartbeat × Table
unfolding renew_at now_of
heartbeat o claim [] t = (running, t)
heartbeat o claim (b ∷ beats) t =
    let (held, t') = renew_at o claim (now_of b.clock) (b.others t) in
    beat_on held (heartbeat o claim beats t') t'

pub data TaskEnd : Type 0 where
  acknowledged task_cancelled : TaskEnd
  task_raised : String → TaskEnd

-- How a publication goes: whether the event's data pass validation, the heartbeats before
-- `asyncio.wait` returns, how the publisher's task stands then (none: not done in time), a renewal
-- that still commits while the heartbeat is drained, and whether the relay itself is cancelled.
pub record Publication : Type 0 where
  pub valid : Bool
  pub beats : List Beat
  pub task : Option TaskEnd
  pub draining : Option (Option ℕ)
  pub interrupted : Bool

-- How `_publish` ends: it returns, or raises `_LostClaim`, `_PublishFailure` or another exception.
pub data PublishEnd : Type 0 where
  delivered lost : PublishEnd
  failure : String → PublishEnd
  aborted : Fault → PublishEnd

unfoldable pub task_result : Option TaskEnd → PublishEnd
task_result none = failure "publish_timeout"
task_result (some acknowledged) = delivered
task_result (some task_cancelled) = aborted cancelled
task_result (some (task_raised name)) = failure name

-- The heartbeat's result is looked at first.
unfoldable pub wait_result : Heartbeat → Option TaskEnd → PublishEnd
unfolding task_result
wait_result running task = task_result task
wait_result lost_claim task = lost
wait_result (beat_raised e) task = aborted e

abbrev drain : RelayOptions → Claim → Option (Option ℕ) → Table → Table
drain o claim none t = t
drain o claim (some clock) t = (renew_at o claim (now_of clock) t).1

-- `_publish`
unfoldable pub publish : RelayOptions → Claim → Publication → Table → PublishEnd × Table
unfolding heartbeat wait_result renew_at now_of
publish o claim p t =
    let (beat, t') = heartbeat o claim p.beats t in
    let end = if p.interrupted then aborted cancelled else wait_result beat p.task in
    if p.valid then (end, drain o claim p.draining t') else (failure "invalid_event", t)
