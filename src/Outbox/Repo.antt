-- ===== src/Outbox/Repo.antt =====
-- repos.py of the outbox. Each method is one statement, hence one atomic step on the table.
-- `locked` holds the rows that other transactions have locked, which SKIP LOCKED passes over.
-- Tests on a NULL column are false. RETURNING gives at most one row, the key being unique.
pub mod Rows
pub mod Recovers
pub mod Lifecycle
use mathlib.Core.Option
use app_common.Common.{
  ℕ, suc, ◌+◌, String, Bool, true, false, not, ◌&&◌, Option, none, some, List, [], ◌∷◌, ltb, leb,
  ◌==◌, if◌then◌else◌, filter, find, any, get_last_or,
}
use app_common.Table.{update_where, least}
use app_common.Outbox.Model.{EventStatus, pending, processing, failed, status_eq, Outbox}

abbrev pub Table : Type 0
Table = List Outbox

abbrev pub by_created : Outbox → ℕ × ℕ
by_created r = (r.created_at, r.id)

abbrev pub by_updated : Outbox → ℕ × ℕ
by_updated r = (r.updated_at, r.id)

-- `next_attempt_at IS NULL OR next_attempt_at <= now`
abbrev is_due_at : ℕ → Option ℕ → Bool
is_due_at now none = true
is_due_at now (some t) = leb t now

unfoldable pub due : ℕ → Outbox → Bool
due now r = status_eq r.status pending && is_due_at now r.next_attempt_at

unfoldable pub claimed_by : ℕ → ℕ → ℕ → Outbox → Outbox
claimed_by now lease_expires_at token r = record r {
  status = processing;
  claim_token = some token;
  lease_expires_at = some lease_expires_at;
  updated_at = now;
}

-- UPDATE … WHERE id = (SELECT …) AND due … RETURNING
claim_row : ℕ → ℕ → ℕ → Table → Option Outbox → Option Outbox × Table
claim_row now lease_expires_at token table none = (none, table)
claim_row now lease_expires_at token table (some candidate) =
    let hit : (Outbox → Bool) = λ r. r.id == candidate.id && due now r in
    let f = claimed_by now lease_expires_at token in
    (Option.map f (find hit table), update_where hit f table)

unfoldable pub claim_one : ℕ → ℕ → ℕ → (ℕ → Bool) → Table → Option Outbox × Table
unfolding claim_row
claim_one now lease_expires_at token locked table =
    claim_row now lease_expires_at token table
      (least by_created (filter (λ r. due now r && not (locked r.id)) table))

abbrev is_token : ℕ → Option ℕ → Bool
is_token token none = false
is_token token (some t) = t == token

abbrev is_after : ℕ → Option ℕ → Bool
is_after now none = false
is_after now (some t) = ltb now t

-- `_owned`, but for the key
unfoldable pub holds_lease : ℕ → ℕ → Outbox → Bool
holds_lease token now r =
    status_eq r.status processing && is_token token r.claim_token && is_after now r.lease_expires_at

unfoldable pub owned : ℕ → ℕ → ℕ → Outbox → Bool
unfolding holds_lease
owned event_id token now r = r.id == event_id && holds_lease token now r

unfoldable pub renewed : ℕ → ℕ → Outbox → Outbox
renewed now lease_expires_at r = record r {
  lease_expires_at = some lease_expires_at;
  updated_at = now;
}

unfoldable pub renew_claim : ℕ → ℕ → ℕ → ℕ → Table → Bool × Table
renew_claim event_id token now lease_expires_at table =
    let hit = owned event_id token now in
    (any hit table, update_where hit (renewed now lease_expires_at) table)

-- What `finish_claim` writes.
pub record Completion : Type 0 where
  pub status : EventStatus
  pub retry_count : ℕ
  pub next_attempt_at : Option ℕ
  pub error : Option String

unfoldable pub finished : ℕ → Completion → Outbox → Outbox
finished now c r = record r {
  status = c.status;
  retry_count = c.retry_count;
  next_attempt_at = c.next_attempt_at;
  last_error = c.error;
  claim_token = none;
  lease_expires_at = none;
  processed_at = some now;
  updated_at = now;
}

-- `none` is the ValueError.
unfoldable pub finish_claim : ℕ → ℕ → ℕ → Completion → Table → Option (Bool × Table)
finish_claim event_id token now c table =
    let hit = owned event_id token now in
    if status_eq c.status processing
    then none
    else some (any hit table, update_where hit (finished now c) table)

abbrev is_expired_at : ℕ → ℕ → ℕ → Option ℕ → Bool
is_expired_at now legacy_threshold updated_at none = ltb updated_at legacy_threshold
is_expired_at now legacy_threshold updated_at (some t) = leb t now

unfoldable pub expired : ℕ → ℕ → Outbox → Bool
expired now legacy_threshold r =
    status_eq r.status processing
    && is_expired_at now legacy_threshold r.updated_at r.lease_expires_at

unfoldable pub exhausted : ℕ → Outbox → Bool
exhausted max_attempts r = leb max_attempts (r.retry_count + 1)

-- CASE WHEN retry_count = 0 THEN … WHEN retry_count = 1 … ELSE the last entry, whose first
-- alternatives are numbered from `i`
unfoldable pub case_schedule : ℕ → ℕ → List ℕ → ℕ → ℕ
case_schedule retry_count i [] last = last
case_schedule retry_count i (at ∷ rest) last =
    if retry_count == i then at else case_schedule retry_count (suc i) rest last

-- The values are those of the row before the update.
unfoldable pub recovered : ℕ → ℕ → List ℕ → Outbox → Outbox
unfolding exhausted case_schedule
recovered now max_attempts retry_schedule r = record r {
  status = if exhausted max_attempts r then failed else pending;
  retry_count = r.retry_count + 1;
  next_attempt_at =
      if exhausted max_attempts r
      then none
      else some (case_schedule r.retry_count 0 retry_schedule (get_last_or retry_schedule 0));
  claim_token = none;
  lease_expires_at = none;
  last_error = some "lease_expired";
  processed_at = some now;
  updated_at = now;
}

recover_row : ℕ → ℕ → ℕ → List ℕ → Table → Option Outbox → Option EventStatus × Table
recover_row now legacy_threshold max_attempts retry_schedule table none = (none, table)
recover_row now legacy_threshold max_attempts retry_schedule table (some candidate) =
    let hit : (Outbox → Bool) = λ r. r.id == candidate.id && expired now legacy_threshold r in
    let f = recovered now max_attempts retry_schedule in
    (Option.map (λ r. (f r).status) (find hit table), update_where hit f table)

unfoldable pub recover_one : ℕ → ℕ → ℕ → List ℕ → (ℕ → Bool) → Table → Option EventStatus × Table
unfolding recover_row
recover_one now legacy_threshold max_attempts retry_schedule locked table =
    recover_row now legacy_threshold max_attempts retry_schedule table
      (least by_updated (filter (λ r. expired now legacy_threshold r && not (locked r.id)) table))

unfoldable pub requeued : ℕ → Outbox → Outbox
requeued now r = record r {
  status = pending;
  retry_count = 0;
  next_attempt_at = some now;
  claim_token = none;
  lease_expires_at = none;
  processed_at = none;
  last_error = none;
  updated_at = now;
}

unfoldable pub requeue_failed : ℕ → ℕ → Table → Bool × Table
requeue_failed event_id now table =
    let hit : (Outbox → Bool) = λ r. r.id == event_id && status_eq r.status failed in
    (any hit table, update_where hit (requeued now) table)
