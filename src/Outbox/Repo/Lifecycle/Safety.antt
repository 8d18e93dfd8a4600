-- ===== src/Outbox/Repo/Lifecycle/Safety.antt =====
-- What the life cycle of an outbox event guarantees.
use app_common.Common.{ℕ, ◌≡◌, refl, ap, ◌∙◌, false, none, some, List, arith}
use app_common.Table.{get}
use app_common.Outbox.Model.{processing, published, status_eq, Outbox}
use app_common.Outbox.Repo.Rows.{key}
use app_common.Outbox.Repo.{
  Table, due, claimed_by, holds_lease, renewed, finished, expired, recovered, requeued,
}
use app_common.Outbox.Repo.Lifecycle.{
  Op, run, RowStep, kept, claimed, renewal, finish, recovery, requeue, RowSteps, here, next,
  run-RowSteps,
}

RowStep-published : {r s : Outbox} → RowStep r s → r.status ≡ published → s ≡ r
unfolding due holds_lease expired
RowStep-published kept p = refl
RowStep-published (claimed now lease token h) p = ground arith
RowStep-published (renewal token now lease h) p = ground arith
RowStep-published (finish token now c h f) p = ground arith
RowStep-published (recovery now legacy n schedule h) p = ground arith
RowStep-published (requeue now h) p = ground arith

RowSteps-published : {r s : Outbox} → RowSteps r s → r.status ≡ published → s ≡ r
RowSteps-published (here r) p = refl
RowSteps-published (next step steps) p =
    let e = RowStep-published step p in RowSteps-published steps (ap (λ x. x.status) e ∙ p) ∙ e

-- Once an event is PUBLISHED, no sequence of claims, renewals, completions, recoveries and replays
-- touches its row again.
pub published_final :
    (ops : List Op) (t : Table) (j : ℕ) (r : Outbox)
    → get key j t ≡ some r
    → r.status ≡ published
    → get key j (run ops t) ≡ some r
published_final ops t j r e p =
    let (r', found, steps) = run-RowSteps ops t j r e in
    found ∙ ap some (RowSteps-published steps p)

-- The parts of a row that are the event itself.
pub record SameEvent (r s : Outbox) : Type 0 where
  pub id : s.id ≡ r.id
  pub created_at : s.created_at ≡ r.created_at
  pub aggregate_type : s.aggregate_type ≡ r.aggregate_type
  pub aggregate_id : s.aggregate_id ≡ r.aggregate_id
  pub event_type : s.event_type ≡ r.event_type
  pub payload : s.payload ≡ r.payload

RowStep-SameEvent : {r s : Outbox} → RowStep r s → SameEvent r s
unfolding claimed_by renewed finished recovered requeued
RowStep-SameEvent kept = ground arith
RowStep-SameEvent (claimed now lease token h) = ground arith
RowStep-SameEvent (renewal token now lease h) = ground arith
RowStep-SameEvent (finish token now c h f) = ground arith
RowStep-SameEvent (recovery now legacy n schedule h) = ground arith
RowStep-SameEvent (requeue now h) = ground arith

RowSteps-SameEvent : {r s : Outbox} → RowSteps r s → SameEvent r s
RowSteps-SameEvent (here r) = ground arith
RowSteps-SameEvent (next step steps) =
    ground (arith, RowStep-SameEvent step, RowSteps-SameEvent steps)

-- Whatever claims, renewals, completions, recoveries and replays are issued, an event stays in the
-- table with its identity, its payload and its place in the order of creation.
pub run-SameEvent :
    (ops : List Op) (t : Table) (j : ℕ) (r : Outbox)
    → get key j t ≡ some r
    → (s : Outbox) × (get key j (run ops t) ≡ some s) × SameEvent r s
run-SameEvent ops t j r e =
    let (s, found, steps) = run-RowSteps ops t j r e in (s, found, RowSteps-SameEvent steps)

-- A row that is not being processed carries neither a token nor a lease.
pub record IsSound (r : Outbox) : Type 0 where
  pub no_token : status_eq r.status processing ≡ false → r.claim_token ≡ none
  pub no_lease : status_eq r.status processing ≡ false → r.lease_expires_at ≡ none

RowStep-IsSound : {r s : Outbox} → RowStep r s → IsSound r → IsSound s
unfolding claimed_by renewed finished recovered requeued holds_lease
RowStep-IsSound kept v = v
RowStep-IsSound (claimed now lease token h) v = record { no_token = λ p. cc; no_lease = λ p. cc }
RowStep-IsSound (renewal token now lease h) v = record {
  no_token = λ p. ground arith;
  no_lease = λ p. ground arith;
}
RowStep-IsSound (finish token now c h f) v = record { no_token = λ p. refl; no_lease = λ p. refl }
RowStep-IsSound (recovery now legacy n schedule h) v = record {
  no_token = λ p. refl;
  no_lease = λ p. refl;
}
RowStep-IsSound (requeue now h) v = record { no_token = λ p. refl; no_lease = λ p. refl }

RowSteps-IsSound : {r s : Outbox} → RowSteps r s → IsSound r → IsSound s
RowSteps-IsSound (here r) v = v
RowSteps-IsSound (next step steps) v = RowSteps-IsSound steps (RowStep-IsSound step v)

-- Only rows that are being processed carry a claim, after any statements on a table of such rows.
pub run-IsSound :
    (ops : List Op) (t : Table) (j : ℕ) (r : Outbox)
    → get key j t ≡ some r
    → IsSound r
    → (s : Outbox) × (get key j (run ops t) ≡ some s) × IsSound s
run-IsSound ops t j r e v =
    let (s, found, steps) = run-RowSteps ops t j r e in (s, found, RowSteps-IsSound steps v)
