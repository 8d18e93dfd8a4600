-- ===== src/Outbox/Relay/Loops/Recovery.antt =====
-- Recovery of expired claims: its retry time, and that the loop gets through all of them.
use app_common.Common.{
  ℕ, zero, suc, ◌+◌, ◌-◌, ◌≡◌, refl, ap, ◌∙◌, false, some, List, [], ◌∷◌, min, max, arith, ltb,
  if◌then◌else◌, Bool-cases, inl, inr, length, get_or, get_last_or,
}
use app_common.Outbox.Model.{Outbox}
use app_common.Outbox.Policy.{RelayOptions, retry_at, retry_schedule}
use app_common.Outbox.Repo.{case_schedule, recovered, exhausted}

get_last_or-cons : (x : ℕ) (xs : List ℕ) (d : ℕ) → get_last_or xs x ≡ get_or (x ∷ xs) (length xs) d
get_last_or-cons x [] d = refl
get_last_or-cons x (y ∷ xs) d = get_last_or-cons y xs d

get_last_or-get_or : (xs : List ℕ) (d : ℕ) → get_last_or xs d ≡ get_or xs (length xs - 1) d
get_last_or-get_or [] d = refl
get_last_or-get_or (x ∷ xs) d =
    get_last_or-cons x xs d
    ∙ ap (λ i. get_or (x ∷ xs) i d) (let e : length xs ≡ suc (length xs) - 1 = omega arith in e)

-- The CASE is an index into the schedule, held at its last entry.
case_schedule-get_or :
    (k i last : ℕ) (xs : List ℕ)
    → case_schedule (k + i) i xs last ≡ (if ltb k (length xs) then get_or xs k 0 else last)
unfolding case_schedule
case_schedule-get_or k i last [] = ground arith
case_schedule-get_or zero i last (x ∷ xs) = ground arith
case_schedule-get_or (suc k) i last (x ∷ xs) =
    let e : suc k + i ≡ k + suc i = omega arith in
    let rest =
      ap (λ n. case_schedule n (suc i) xs last) e ∙ case_schedule-get_or k (suc i) last xs in
    ground (arith, rest)

case_schedule-index :
    (n : ℕ) (xs : List ℕ)
    → case_schedule n 0 xs (get_last_or xs 0)
      ≡ get_or xs (min (max (n + 1 - 1) 0) (length xs - 1)) 0
case_schedule-index n xs =
    let e : n ≡ n + 0 = omega arith in
    ap (λ m. case_schedule m 0 xs (get_last_or xs 0)) e
    ∙ case_schedule-get_or n 0 (get_last_or xs 0) xs
    ∙ elim (Bool-cases (ltb n (length xs))) [
      | inl h ↦ rw h (ap (λ i. get_or xs i 0) (ground arith))
      | inr h ↦ rw h (get_last_or-get_or xs 0 ∙ ap (λ i. get_or xs i 0) (ground arith))
    ]

-- Recovery in SQL and a failed delivery in Python choose the same retry time: a claim that expires
-- within the budget waits as long as a failure of the same number.
pub recovered-retry_at :
    (o : RelayOptions) (now : ℕ) (r : Outbox)
    → exhausted o.max_attempts r ≡ false
    → (recovered now o.max_attempts (retry_schedule o now) r).next_attempt_at
      ≡ some (retry_at o now (r.retry_count + 1))
unfolding recovered retry_at
recovered-retry_at o now r h =
    rw h (ap some (case_schedule-index r.retry_count (retry_schedule o now)))
