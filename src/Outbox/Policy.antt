-- ===== src/Outbox/Policy.antt =====
-- policy.py of the outbox: the relay's options and its retry schedule.
-- Durations are whole microseconds. The doubling of a Python float and `min` are exact on them.
pub mod Schedule
use app_common.Common.{
  ℕ, zero, suc, ◌+◌, ◌-◌, ◌*◌, ◌≤◌, Bool, true, false, not, ◌&&◌, ◌||◌, List, [], ◌∷◌, ◌++◌, map,
  min, max, ltb, leb, ◌==◌, if◌then◌else◌, length, get_or, get_last_or,
}

pub record RelayOptions : Type 0 where
  pub batch_size : ℕ
  pub max_attempts : ℕ
  pub retry_base : ℕ
  pub retry_max : ℕ
  pub lease : ℕ
  pub heartbeat : ℕ
  pub publish_timeout : ℕ
  pub legacy_timeout : ℕ
  pub shutdown_timeout : ℕ

pub data OptionsError : Type 0 where
  bad_batch_size bad_max_attempts bad_duration base_above_max heartbeat_too_long : OptionsError

pub data Checked : Type 0 where
  accepted : Checked
  rejected : OptionsError → Checked

abbrev week : ℕ
week = 604800000000

-- `not 0 < value <= 604800`
abbrev duration_ok : ℕ → Bool
duration_ok d = ltb 0 d && leb d week

abbrev durations_ok : RelayOptions → Bool
durations_ok o =
    duration_ok o.retry_base
    && duration_ok o.retry_max
    && duration_ok o.lease
    && duration_ok o.heartbeat
    && duration_ok o.publish_timeout
    && duration_ok o.legacy_timeout
    && duration_ok o.shutdown_timeout

-- `__post_init__`. The half lease is compared after doubling both sides.
unfoldable pub post_init : RelayOptions → Checked
post_init o =
    if o.batch_size == 0
    then rejected bad_batch_size
    else if o.max_attempts == 0
    then rejected bad_max_attempts
    else if not (durations_ok o)
    then rejected bad_duration
    else if ltb o.retry_max o.retry_base
    then rejected base_above_max
    else if leb o.lease (o.heartbeat * 2)
    then rejected heartbeat_too_long
    else accepted

-- The `while` loop of `retry_schedule`: one round more for each unit of fuel, and `max_attempts`
-- rounds are enough, as each lengthens `delays`.
unfoldable pub grow : ℕ → RelayOptions → List ℕ → List ℕ
grow zero o delays = delays
grow (suc fuel) o delays =
    let rest = grow fuel o (delays ++ min (get_last_or delays 0 * 2) o.retry_max ∷ []) in
    if ltb (get_last_or delays 0) o.retry_max && ltb (length delays) o.max_attempts
    then rest
    else delays

unfoldable pub retry_delays : RelayOptions → List ℕ
unfolding grow
retry_delays o = grow o.max_attempts o (o.retry_base ∷ [])

unfoldable pub retry_schedule : RelayOptions → ℕ → List ℕ
unfolding retry_delays
retry_schedule o now = map (λ delay. now + delay) (retry_delays o)

-- `failures - 1` is held at 0 by `max`, so the truncated subtraction is the same.
unfoldable pub retry_at : RelayOptions → ℕ → ℕ → ℕ
unfolding retry_schedule
retry_at o now failures =
    let schedule = retry_schedule o now in
    get_or schedule (min (max (failures - 1) 0) (length schedule - 1)) 0
