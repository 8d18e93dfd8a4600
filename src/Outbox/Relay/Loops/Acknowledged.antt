-- ===== src/Outbox/Relay/Loops/Acknowledged.antt =====
-- What a round of `run_once` may mark as published.
use app_common.Common.{
  ℕ, ◌≢◌, refl, Bool, true, false, Option, none, some, leb, Bool-cases, inl, inr, arith,
}
use app_common.Outbox.Model.{EventStatus}
use app_common.Outbox.Policy.{RelayOptions}
use app_common.Outbox.Repo.{Table, claimed_by}
use app_common.Outbox.Repo.Rows.{claim_one-table}
use app_common.Outbox.Relay.{
  RelayResult, Claim, Result, ok, raised, now_of, claim_at, acknowledged, PublishEnd, delivered,
  lost, failure, aborted,
}
use app_common.Outbox.Relay.Completion.{
  Unpublished, Quiet, update_where-Unpublished, finish_error-Unpublished, publish-Unpublished,
  publish-delivered,
}
use app_common.Outbox.Relay.Loops.{Turn, counted, settle, process, on_claim, take_turn}

-- The other workers do not publish the event during the round.
pub record QuietTurn (j : ℕ) (turn : Turn) : Type 0 where
  pub before : (t : Table) → Unpublished j t → Unpublished j (turn.others t)
  pub during : Quiet j turn.publication.beats
  pub after : (t : Table) → Unpublished j t → Unpublished j (turn.others_after t)

counted-table {ℓ} :
    (P : Table → Type ℓ) (r : RelayResult) (s : Result (Option EventStatus) × Table)
    → P s.1
    → P (counted r s).1
unfolding counted
counted-table P r (raised e, t) h = h
counted-table P r (ok s, t) h = h

settle-Unpublished :
    (o : RelayOptions) (claim : Claim) (turn : Turn) (r : RelayResult) (end : PublishEnd) (j : ℕ)
    (t : Table)
    → end ≢ delivered
    → Unpublished j t
    → Unpublished j (settle o claim turn r end t).1
unfolding settle
settle-Unpublished o claim turn r delivered j t ne u = absurd (ne refl)
settle-Unpublished o claim turn r lost j t ne u = u
settle-Unpublished o claim turn r (failure e) j t ne u =
    counted-table (Unpublished j) r _ (finish_error-Unpublished o claim e false _ j t u)
settle-Unpublished o claim turn r (aborted e) j t ne u = u

process-Unpublished :
    (o : RelayOptions) (claim : Claim) (turn : Turn) (r : RelayResult) (j : ℕ) (t : Table)
    → QuietTurn j turn
    → turn.publication.task ≢ some acknowledged
    → Unpublished j t
    → Unpublished j (process o claim turn r t).1
unfolding process
process-Unpublished o claim turn r j t q ne u =
    elim (Bool-cases (leb o.max_attempts claim.failures)) [
      | inl spent ↦ rw spent (
          counted-table (Unpublished j) r _
            (finish_error-Unpublished o claim "retry_budget_exhausted" true _ j _ (q.before t u)))
      | inr fresh ↦ rw fresh (
          settle-Unpublished o claim turn r _ j _
            (λ d. ne (publish-delivered o claim turn.publication (turn.others t) d).2)
            (q.after _ (publish-Unpublished o claim turn.publication j _ q.during (q.before t u))))
    ]

on_claim-Unpublished :
    (o : RelayOptions) (turn : Turn) (r : RelayResult) (c : Result (Option Claim) × Table) (j : ℕ)
    → QuietTurn j turn
    → turn.publication.task ≢ some acknowledged
    → Unpublished j c.1
    → Unpublished j (on_claim o turn r c).1
unfolding on_claim
on_claim-Unpublished o turn r (raised e, t) j q ne u = u
on_claim-Unpublished o turn r (ok none, t) j q ne u = u
on_claim-Unpublished o turn r (ok (some claim), t) j q ne u =
    process-Unpublished o claim turn _ j t q ne u

claim_at-Unpublished :
    (o : RelayOptions) (now : Result ℕ) (token : ℕ) (locked : ℕ → Bool) (j : ℕ) (t : Table)
    → Unpublished j t
    → Unpublished j (claim_at o now token locked t).1
unfolding claim_at claimed_by
claim_at-Unpublished o (raised e) token locked j t u = u
claim_at-Unpublished o (ok now) token locked j t u =
    claim_one-table (Unpublished j) now _ token locked t u λ p.
      update_where-Unpublished p (claimed_by now _ token) (λ x. refl) (λ x _ e. ground arith) j t u

-- A worker marks no event as published in a round in which the publisher has not acknowledged,
-- whatever else happens: timeouts, failures, lost leases, an exhausted budget or a cancellation.
pub unacknowledged-Unpublished :
    (o : RelayOptions) (turn : Turn) (r : RelayResult) (j : ℕ) (t : Table)
    → QuietTurn j turn
    → turn.publication.task ≢ some acknowledged
    → Unpublished j t
    → Unpublished j (take_turn o turn r t).1
unfolding take_turn
unacknowledged-Unpublished o turn r j t q ne u = elim (Bool-cases turn.stopping) [
  | inl stop ↦ rw stop u
  | inr on ↦ rw on (
      on_claim-Unpublished o turn r _ j q ne
        (claim_at-Unpublished o (now_of turn.clock) turn.token turn.locked j t u))
]
