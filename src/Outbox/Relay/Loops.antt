-- ===== src/Outbox/Relay/Loops.antt =====
-- The two loops of relay.py: `run_once` and `recover`. A loop runs over `batch_size` rounds; each
-- round is given what the environment decides in it.
pub mod Counts
pub mod Recovery
pub mod Acknowledged
pub mod Drained
use app_common.Common.{
  ℕ, zero, suc, ◌+◌, ◌-◌, String, Bool, true, false, Option, none, some, ltb, leb, if◌then◌else◌,
}
use app_common.Outbox.Model.{EventStatus, pending, processing, published, failed}
use app_common.Outbox.Policy.{RelayOptions, retry_schedule}
use app_common.Outbox.Repo
use app_common.Outbox.Repo.{Table, recover_one}
use app_common.Outbox.Relay.{
  RelayResult, no_result, Claim, Fault, overflow, Result, ok, raised, now_of, claim_at, finish_at,
  Publication, PublishEnd, delivered, lost, failure, aborted, publish,
}

-- One round of `run_once`: whether `stop` was called before it, the clock and the token of the
-- claim, the rows that others have locked, what others do before the publication, how the
-- publication goes, what others do after it, and the clock at the end.
pub record Turn : Type 0 where
  pub stopping : Bool
  pub clock : Option ℕ
  pub token : ℕ
  pub locked : ℕ → Bool
  pub others : Table → Table
  pub publication : Publication
  pub others_after : Table → Table
  pub finish_clock : Option ℕ

unfoldable pub count : Option EventStatus → RelayResult → RelayResult
count (some published) r = record r { published = r.published + 1 }
count (some pending) r = record r { retried = r.retried + 1 }
count (some failed) r = record r { failed = r.failed + 1 }
count _ r = record r { lost = r.lost + 1 }

-- Whether the loop goes on, and the counts so far.
abbrev pub Round : Type 0
Round = Result (Bool × RelayResult) × Table

unfoldable pub counted : RelayResult → Result (Option EventStatus) × Table → Round
unfolding count
counted r (raised e, t) = (raised e, t)
counted r (ok status, t) = (ok (true, count status r), t)

unfoldable pub settle : RelayOptions → Claim → Turn → RelayResult → PublishEnd → Table → Round
unfolding counted now_of
settle o claim turn r delivered t =
    counted r (finish_at o claim none false (now_of turn.finish_clock) t)
settle o claim turn r lost t = (ok (true, record r { lost = r.lost + 1 }), t)
settle o claim turn r (failure e) t =
    counted r (finish_at o claim (some e) false (now_of turn.finish_clock) t)
settle o claim turn r (aborted e) t = (raised e, t)

unfoldable pub process : RelayOptions → Claim → Turn → RelayResult → Table → Round
unfolding settle
process o claim turn r t =
    let (end, t') = publish o claim turn.publication (turn.others t) in
    if leb o.max_attempts claim.failures
    then counted r (
        finish_at o claim (some "retry_budget_exhausted") true (now_of turn.finish_clock)
          (turn.others t))
    else settle o claim turn r end (turn.others_after t')

unfoldable pub on_claim : RelayOptions → Turn → RelayResult → Result (Option Claim) × Table → Round
unfolding process
on_claim o turn r (raised e, t) = (raised e, t)
on_claim o turn r (ok none, t) = (ok (false, r), t)
on_claim o turn r (ok (some claim), t) =
    process o claim turn (record r { claimed = r.claimed + 1 }) t

unfoldable pub take_turn : RelayOptions → Turn → RelayResult → Table → Round
unfolding on_claim now_of
take_turn o turn r t =
    if turn.stopping
    then (ok (false, r), t)
    else on_claim o turn r (claim_at o (now_of turn.clock) turn.token turn.locked t)

-- The rest of a loop after one round: `break`, or the next round. The counts are lost with an
-- exception; what was committed is not.
abbrev pub and_then :
    (RelayResult → Table → Result RelayResult × Table) → Round → Result RelayResult × Table
and_then rest (raised e, t) = (raised e, t)
and_then rest (ok (true, r), t) = rest r t
and_then rest (ok (false, r), t) = (ok r, t)

unfoldable pub run_loop :
    ℕ → RelayOptions → (ℕ → Turn) → RelayResult → Table → Result RelayResult × Table
run_loop zero o turns r t = (ok r, t)
run_loop (suc n) o turns r t = and_then (run_loop n o turns) (take_turn o (turns n) r t)

unfoldable pub run_once : RelayOptions → (ℕ → Turn) → Table → Result RelayResult × Table
unfolding run_loop
run_once o turns t = run_loop o.batch_size o turns no_result t

pub record RecoveryTurn : Type 0 where
  pub stopping : Bool
  pub clock : Option ℕ
  pub locked : ℕ → Bool
  pub others : Table → Table

abbrev pub recovery_round : RelayResult → Option EventStatus × Table → Round
recovery_round r (none, t) = (ok (false, r), t)
recovery_round r (some failed, t) = (ok (true, record r { failed = r.failed + 1 }), t)
recovery_round r (some _, t) = (ok (true, record r { retried = r.retried + 1 }), t)

-- `now - timedelta(…)` before the calendar's first instant raises OverflowError.
unfoldable pub recover_at : RelayOptions → Result ℕ → (ℕ → Bool) → RelayResult → Table → Round
unfolding retry_schedule
recover_at o (raised e) locked r t = (raised e, t)
recover_at o (ok now) locked r t =
    if ltb now o.legacy_timeout
    then (raised overflow, t)
    else recovery_round r
        (recover_one now (now - o.legacy_timeout) o.max_attempts (retry_schedule o now) locked t)

unfoldable pub recover_turn : RelayOptions → RecoveryTurn → RelayResult → Table → Round
unfolding recover_at now_of
recover_turn o turn r t =
    if turn.stopping
    then (ok (false, r), t)
    else recover_at o (now_of turn.clock) turn.locked r (turn.others t)

unfoldable pub recover_loop :
    ℕ → RelayOptions → (ℕ → RecoveryTurn) → RelayResult → Table → Result RelayResult × Table
recover_loop zero o turns r t = (ok r, t)
recover_loop (suc n) o turns r t = and_then (recover_loop n o turns) (recover_turn o (turns n) r t)

unfoldable pub recover : RelayOptions → (ℕ → RecoveryTurn) → Table → Result RelayResult × Table
unfolding recover_loop
recover o turns t = recover_loop o.batch_size o turns no_result t
