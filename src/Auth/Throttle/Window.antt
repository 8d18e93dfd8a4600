-- ===== src/Auth/Throttle/Window.antt =====
-- What one failure does to the entry of its caller.
use app_common.Common.{
  length-append, All-map, ◌≤◌, ℕ, ◌+◌, ◌<◌, ◌≡◌, refl, sym, ap, ◌∙◌, String, true, some, List, [],
  ◌∷◌, ◌++◌, leb, length, arith, Bool-cases, inl, inr, All,
}
use app_common.Auth.Throttle.{
  false, noted, Caller, Throttle, seconds, lookup, drop_old, or_new, updated, record_failure,
}
use mathlib.Core.List.{append_assoc}
use app_common.Auth.Throttle.Callers.{IsDict, lookup-record_failure}

pub record_failure-starts :
    (th : Throttle) (caller : String) (now : ℕ)
    → (record_failure th caller now).0 ≡ (updated th now (or_new (lookup caller th.callers))).1
unfolding record_failure
record_failure-starts th caller now = refl

pub record_failure-settings :
    (th : Throttle) (caller : String) (now : ℕ)
    → ((record_failure th caller now).1.max_failures ≡ th.max_failures)
      × ((record_failure th caller now).1.window_seconds ≡ th.window_seconds)
unfolding record_failure
record_failure-settings th caller now = (refl, refl)

pub updated-locked :
    (th : Throttle) (now : ℕ) (e : Caller)
    → (updated th now e).1 ≡ true
    → (updated th now e).0.locked_until ≡ now + seconds th.lockout_seconds
unfolding updated
updated-locked th now e h = ground arith

-- With a limit of at least one, an entry holds fewer failures than the limit after any failure.
updated-below :
    (th : Throttle) (now : ℕ) (e : Caller)
    → 0 < th.max_failures
    → length (updated th now e).0.failures < th.max_failures
unfolding updated
updated-below th now e h = ground arith

-- Old failures are dropped from the front only, so recent ones at the end all stay.
drop_old-append :
    (w now : ℕ) (old ts : List ℕ)
    → All (λ t. now < t + w) ts
    → (kept : List ℕ) × (drop_old w now (old ++ ts) ≡ kept ++ ts)
unfolding drop_old
drop_old-append w now [] [] h = ([], refl)
drop_old-append w now [] (t ∷ ts) h = ([], ground arith)
drop_old-append w now (x ∷ old) ts h = elim (Bool-cases (leb (x + w) now)) [
  | inl gone ↦ let (kept, e) = drop_old-append w now old ts h in (kept, rw gone e)
  | inr stays ↦ (x ∷ old, rw stays)
]

updated-open :
    (th : Throttle) (now : ℕ) (e : Caller)
    → (updated th now e).1 ≡ false
    → ((updated th now e).0.failures ≡ noted th now e) × (length (noted th now e) < th.max_failures)
unfolding updated
updated-open th now e h = ground arith

noted-append :
    (th : Throttle) (now : ℕ) (e : Caller) (old ts : List ℕ)
    → e.failures ≡ old ++ ts
    → All (λ t. now < t + seconds th.window_seconds) ts
    → (kept : List ℕ) × (noted th now e ≡ kept ++ (ts ++ now ∷ []))
unfolding noted
noted-append th now e old ts eq h =
    let (kept, k) = drop_old-append (seconds th.window_seconds) now old ts h in
    (
      kept,
      ap (λ l. drop_old (seconds th.window_seconds) now l ++ now ∷ []) eq
          ∙ ap (λ l. l ++ now ∷ []) k
          ∙ append_assoc kept ts (now ∷ []),
    )

-- In the window of `w` microseconds from `start`.
abbrev pub Within : ℕ → ℕ → ℕ → Type 0
Within start w t = (start ≤ t) × (t < start + w)

fresh :
    (start w t : ℕ)
    → t < start + w
    → (xs : List ℕ) → All (Within start w) xs
    → All (λ x. t < x + w) xs
fresh start w t lt xs h = All-map (λ x k. omega (arith, k.0)) xs h

-- The caller's entry is in the table, with the failures `recent` at its end.
pub record Tracked (th : Throttle) (caller : String) (recent : List ℕ) : Type 0 where
  pub entry : Caller
  pub old : List ℕ
  pub found : lookup caller th.callers ≡ some entry
  pub failures : entry.failures ≡ old ++ recent

-- A failure of the caller that starts no lockout is at the end of its entry, which is the youngest,
-- and the failures in the window stay below the limit.
pub own-Tracked :
    (start t : ℕ) (recent old : List ℕ) (th : Throttle) (caller : String)
    → IsDict th.callers
    → (or_new (lookup caller th.callers)).failures ≡ old ++ recent
    → All (Within start (seconds th.window_seconds)) recent
    → Within start (seconds th.window_seconds) t
    → (record_failure th caller t).0 ≡ false
    → Tracked (record_failure th caller t).1 caller (recent ++ t ∷ [])
      × (length recent + 1 < th.max_failures)
own-Tracked start t recent old th caller d eq hr within still =
    let e = or_new (lookup caller th.callers) in
    let (same, below) = updated-open th t e (sym (record_failure-starts th caller t) ∙ still) in
    let (kept, n) =
      noted-append th t e old recent eq
        (fresh start (seconds th.window_seconds) t within.1 recent hr) in
    (
      record {
        entry = (updated th t e).0;
        old = kept;
        found = lookup-record_failure th caller t d;
        failures = same ∙ n;
      },
      omega (
        arith,
        below,
        ap length n,
        length-append kept (recent ++ t ∷ []),
        length-append recent (t ∷ []),
      ),
    )
