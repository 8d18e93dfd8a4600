-- ===== src/Auth/Throttle.antt =====
-- user/throttle.py. Instants are microseconds of the monotonic clock. The dict of callers is a
-- list of its items in insertion order; an entry that is mutated after its insertion is the one
-- object that the dict holds.
pub mod Callers
pub mod Tracked
pub mod Window
pub mod Lockout
use app_common.Common.{
  ℕ, zero, suc, ◌+◌, ◌-◌, ◌*◌, ◌/◌, String, Bool, true, false, Option, none, some, List, [], ◌∷◌,
  ◌++◌, ltb, leb, str_eq, if◌then◌else◌, length, max,
}

abbrev pub max_tracked_callers : ℕ
max_tracked_callers = 10000

pub record Caller : Type 0 where
  pub failures : List ℕ
  pub locked_until : ℕ

abbrev new_caller : Caller
new_caller = record { failures = []; locked_until = 0 }

abbrev pub Callers : Type 0
Callers = List (String × Caller)

pub record Throttle : Type 0 where
  pub max_failures : ℕ
  pub window_seconds : ℕ
  pub lockout_seconds : ℕ
  pub callers : Callers

abbrev pub seconds : ℕ → ℕ
seconds n = n * 1000000

-- dict.get
unfoldable pub lookup : String → Callers → Option Caller
lookup c [] = none
lookup c ((k, e) ∷ rest) = if str_eq k c then some e else lookup c rest

-- what is left after dict.pop
unfoldable pub without : String → Callers → Callers
without c [] = []
without c ((k, e) ∷ rest) = if str_eq k c then rest else (k, e) ∷ without c rest

abbrev pub wait_of : ℕ → Option Caller → Option ℕ
wait_of now none = none
wait_of now (some e) =
    if leb e.locked_until now then none else some (max 1 ((e.locked_until - now) / 1000000))

unfoldable pub retry_after : Throttle → String → ℕ → Option ℕ
unfolding lookup
retry_after th caller now = wait_of now (lookup caller th.callers)

-- `failures[0] <= now - window`, with nothing subtracted
unfoldable pub drop_old : ℕ → ℕ → List ℕ → List ℕ
drop_old window now [] = []
drop_old window now (t ∷ ts) = if leb (t + window) now then drop_old window now ts else t ∷ ts

unfoldable pub evict : Callers → Callers
evict [] = []
evict (c ∷ rest) = if ltb max_tracked_callers (suc (length rest)) then evict rest else c ∷ rest

abbrev pub or_new : Option Caller → Caller
or_new none = new_caller
or_new (some e) = e

-- The failures in the window, this one included.
unfoldable pub noted : Throttle → ℕ → Caller → List ℕ
unfolding drop_old
noted th now e = drop_old (seconds th.window_seconds) now e.failures ++ now ∷ []

-- The entry as `record_failure` leaves it, and whether a lockout starts.
unfoldable pub updated : Throttle → ℕ → Caller → Caller × Bool
unfolding noted
updated th now e =
    if ltb (length (noted th now e)) th.max_failures
    then (record e { failures = noted th now e }, false)
    else (record { failures = []; locked_until = now + seconds th.lockout_seconds }, true)

unfoldable pub record_failure : Throttle → String → ℕ → Bool × Throttle
unfolding lookup without evict updated
record_failure th caller now =
    let (e, starts) = updated th now (or_new (lookup caller th.callers)) in
    (starts, record th { callers = evict (without caller th.callers ++ (caller, e) ∷ []) })

unfoldable pub reset : Throttle → Throttle
reset th = record th { callers = [] }
