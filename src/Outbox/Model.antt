-- ===== src/Outbox/Model.antt =====
-- models.py and schemas.py of the outbox: the event row and its status.
-- Instants are whole microseconds, the resolution of Python's `datetime`; a UUID is its number,
-- by which the database orders it; the JSON payload is its text.
use app_common.Common.{ℕ, String, Bool, true, false, Option}

pub data EventStatus : Type 0 where
  pending processing published failed : EventStatus

abbrev pub status_eq : EventStatus → EventStatus → Bool
status_eq pending pending = true
status_eq processing processing = true
status_eq published published = true
status_eq failed failed = true
status_eq _ _ = false

pub record Outbox : Type 0 where
  pub id : ℕ
  pub created_at : ℕ
  pub updated_at : ℕ
  pub aggregate_type : String
  pub aggregate_id : String
  pub event_type : String
  pub payload : String
  pub status : EventStatus
  pub retry_count : ℕ
  pub processed_at : Option ℕ
  pub next_attempt_at : Option ℕ
  pub claim_token : Option ℕ
  pub lease_expires_at : Option ℕ
  pub last_error : Option String

pub record OutboxCreate : Type 0 where
  pub aggregate_type : String
  pub aggregate_id : String
  pub event_type : String
  pub payload : String

-- `none` is a field that was not set.
pub record OutboxUpdate : Type 0 where
  pub status : Option EventStatus
  pub retry_count : Option ℕ
  pub processed_at : Option ℕ
