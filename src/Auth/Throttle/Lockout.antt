-- ===== src/Auth/Throttle/Lockout.antt =====
-- When a caller is locked out, and for how long.
use app_common.Common.{
  ◌≢◌, eq_iff, All-append, subst, length-append, any, ◌≤◌, ℕ, ◌+◌, ◌-◌, ◌/◌, ◌<◌, ◌≡◌, refl, sym,
  ap, ◌∙◌, String, Bool, true, none, some, List, [], ◌∷◌, ◌++◌, ltb, if◌then◌else◌, length, arith,
  Bool-cases, inl, inr, All, max,
}
use app_common.Auth.Throttle.{
  suc, str_eq, max_tracked_callers, Caller, Throttle, seconds, lookup, wait_of, retry_after, or_new,
  updated, record_failure,
}
use mathlib.Core.List.{append-nil}
use app_common.Auth.Throttle.Tracked.{behind, behind-record_failure, behind-record_failure_ne}
use app_common.Auth.Throttle.Callers.{record_failure-IsDict, IsDict, lookup-record_failure}
use app_common.Auth.Throttle.Window.{
  record_failure-starts, record_failure-settings, updated-locked, Within, Tracked, own-Tracked,
}

-- In a table where no caller stands twice, a failure that starts a lockout makes the caller wait
-- until `lockout_seconds` have passed, with the whole seconds that are left, at least one, as the
-- answer; from then on it may try again.
pub locked_out :
    (th : Throttle) (caller : String) (now later : ℕ)
    → IsDict th.callers
    → (record_failure th caller now).0 ≡ true
    → let until = now + seconds th.lockout_seconds in
      retry_after (record_failure th caller now).1 caller later
      ≡ (if ltb later until then some (max 1 ((until - later) / 1000000)) else none)
locked_out th caller now later d h =
    let e = (updated th now (or_new (lookup caller th.callers))).0 in
    let until =
      updated-locked th now (or_new (lookup caller th.callers))
        (sym (record_failure-starts th caller now) ∙ h) in
    unfold retry_after in
    ap (wait_of later) (lookup-record_failure th caller now d)
    ∙ wait later e.locked_until (now + seconds th.lockout_seconds) e refl until
  where
    wait :
        (later l until : ℕ) (e : Caller)
        → e.locked_until ≡ l
        → l ≡ until
        → wait_of later (some e)
          ≡ (if ltb later until then some (max 1 ((until - later) / 1000000)) else none)
    wait later l until e p q = ground arith

-- Failures of any callers, with their instants, in the order in which they are recorded.
abbrev pub Failures : Type 0
Failures = List (String × ℕ)

-- The instants of a caller's failures, and how many failures are of others.
abbrev pub own : String → Failures → List ℕ
own caller [] = []
own caller ((k, t) ∷ fs) = if str_eq k caller then t ∷ own caller fs else own caller fs

abbrev pub others : String → Failures → ℕ
others caller [] = 0
others caller ((k, t) ∷ fs) = if str_eq k caller then others caller fs else suc (others caller fs)

-- What `record_failure` answers to the caller's failures among them.
pub answers : Throttle → String → Failures → List Bool
answers th caller [] = []
answers th caller ((k, t) ∷ fs) =
    let (starts, th') = record_failure th k t in
    let rest = answers th' caller fs in if str_eq k caller then starts ∷ rest else rest

module _ (start w m : ℕ) (caller : String) where
  -- From an entry that is tracked on, further failures of the caller reach the limit.
  burst :
      (fs : Failures) (recent : List ℕ) (th : Throttle)
      → th.max_failures ≡ m
      → seconds th.window_seconds ≡ w
      → IsDict th.callers
      → Tracked th caller recent
      → behind caller th.callers + others caller fs < max_tracked_callers
      → All (Within start w) recent
      → All (Within start w) (own caller fs)
      → length recent < m
      → m ≤ length recent + length (own caller fs)
      → any (λ b. b) (answers th caller fs) ≡ true
  unfolding answers
  burst [] recent th em ew d tr room hr hs below long = absurd (omega arith)
  burst ((k, t) ∷ fs) recent th em ew d tr room hr hs below long =
      elim (Bool-cases (str_eq k caller)) [
        | inr other ↦
            let ne : k ≢ caller = λ p. cc ((eq_iff k caller).1 p) in
            let (there, more) =
              behind-record_failure_ne th k caller t tr.entry ne tr.found
                (omega (arith, rw other at room)) in
            let (m', w') = record_failure-settings th k t in
            rw other (
              burst fs recent (record_failure th k t).1 (m' ∙ em) (ap seconds w' ∙ ew)
                (record_failure-IsDict th k t d)
                (record { entry = tr.entry; old = tr.old; found = there; failures = tr.failures })
                (omega (arith, more, rw other at room)) hr (rw other at hs) below
                (rw other at long))
        | inl mine ↦
            let same : k ≡ caller = (eq_iff k caller).0 mine in
            let within : All (Within start w) (t ∷ own caller fs) = rw mine at hs in
            let counts : m ≤ length recent + suc (length (own caller fs)) = rw mine at long in
            rw (same, (eq_iff caller caller).1 refl)
              (elim (Bool-cases (record_failure th caller t).0) [
                | inl starts ↦ rw starts refl
                | inr still ↦
                    let (now, now_below) =
                      own-Tracked start t recent tr.old th caller d
                        (ap (λ o. (or_new o).failures) tr.found ∙ tr.failures)
                        (subst (λ v. All (Within start v) recent) (sym ew) hr)
                        (subst (λ v. Within start v t) (sym ew) within.0) still in
                    let (m', w') = record_failure-settings th caller t in
                    rw still (
                      burst fs (recent ++ t ∷ []) (record_failure th caller t).1 (m' ∙ em)
                        (ap seconds w' ∙ ew) (record_failure-IsDict th caller t d) now
                        (omega (arith, behind-record_failure th caller t d, rw mine at room))
                        (All-append (Within start w) recent (t ∷ []) hr (within.0, tt)) within.1
                        (omega (arith, now_below, em, length-append recent (t ∷ [])))
                        (omega (arith, counts, length-append recent (t ∷ []))))
              ])
      ]

  burst_starts :
      (fs : Failures) (th : Throttle)
      → th.max_failures ≡ m
      → seconds th.window_seconds ≡ w
      → IsDict th.callers
      → 0 < m
      → others caller fs < max_tracked_callers
      → All (Within start w) (own caller fs)
      → m ≤ length (own caller fs)
      → any (λ b. b) (answers th caller fs) ≡ true
  unfolding answers
  burst_starts [] th em ew d pos room hs long = absurd (omega arith)
  burst_starts ((k, t) ∷ fs) th em ew d pos room hs long = elim (Bool-cases (str_eq k caller)) [
    | inr other ↦
        let (m', w') = record_failure-settings th k t in
        rw other (
          burst_starts fs (record_failure th k t).1 (m' ∙ em) (ap seconds w' ∙ ew)
            (record_failure-IsDict th k t d) pos (omega (arith, rw other at room)) (rw other at hs)
            (rw other at long))
    | inl mine ↦
        let same : k ≡ caller = (eq_iff k caller).0 mine in
        let within : All (Within start w) (t ∷ own caller fs) = rw mine at hs in
        let counts : m ≤ suc (length (own caller fs)) = rw mine at long in
        rw (same, (eq_iff caller caller).1 refl)
          (elim (Bool-cases (record_failure th caller t).0) [
            | inl starts ↦ rw starts refl
            | inr still ↦
                let (now, now_below) =
                  own-Tracked start t [] (or_new (lookup caller th.callers)).failures th caller d
                    (sym (append-nil _)) tt (subst (λ v. Within start v t) (sym ew) within.0)
                    still in
                let (m', w') = record_failure-settings th caller t in
                rw still (
                  burst fs (t ∷ []) (record_failure th caller t).1 (m' ∙ em) (ap seconds w' ∙ ew)
                    (record_failure-IsDict th caller t d) now
                    (omega (arith, behind-record_failure th caller t d, rw mine at room))
                    (within.0, tt) within.1 (omega (arith, now_below, em)) (omega (arith, counts)))
          ])
  ]

-- Guessing is bounded: with a limit of at least one, in a table where no caller stands twice, if a
-- caller fails at least `max_failures` times within one window, one of those failures starts a
-- lockout, whatever was recorded before, however the instants are ordered, and with failures of
-- others between them, fewer than the callers that are remembered.
pub burst_locks :
    (start : ℕ) (fs : Failures) (th : Throttle) (caller : String)
    → IsDict th.callers
    → 0 < th.max_failures
    → others caller fs < max_tracked_callers
    → th.max_failures ≤ length (own caller fs)
    → All (Within start (seconds th.window_seconds)) (own caller fs)
    → any (λ b. b) (answers th caller fs) ≡ true
burst_locks start fs th caller d pos room n h =
    burst_starts start (seconds th.window_seconds) th.max_failures caller fs th refl refl d pos room
      h n
