-- ===== src/Outbox/Repo/Lifecycle.antt =====
-- The life of one event under any sequence of repository statements, issued by any number of
-- relay workers: repos.py of the outbox as a state machine.
pub mod Safety
pub mod Leases
use mathlib.Core.Option
use app_common.Common.{
  ℕ, ◌≡◌, refl, Bool, true, false, ◌&&◌, Option, none, some, List, [], ◌∷◌, ◌==◌, if◌then◌else◌,
  &&_true, Bool-cases, any, ap, ◌∙◌, inl, inr,
}
use app_common.Table.{update_where, least, get, get-update_where}
use app_common.Outbox.Model.{processing, failed, status_eq, Outbox}
use app_common.Outbox.Repo.Rows.{key}
use app_common.Outbox.Repo.{
  Table, due, claimed_by, claim_row, claim_one, owned, holds_lease, renewed, renew_claim,
  Completion, finished, finish_claim, expired, recovered, recover_row, recover_one, requeued,
  requeue_failed,
}

-- One statement of the relay, with what its caller passes.
pub data Op : Type 0 where
  claims : (now lease_expires_at token : ℕ) → (locked : ℕ → Bool) → Op
  renews : (event_id token now lease_expires_at : ℕ) → Op
  finishes : (event_id token now : ℕ) → Completion → Op
  recovers :
      (now legacy_threshold max_attempts : ℕ) → (retry_schedule : List ℕ) → (locked : ℕ → Bool) → Op
  requeues : (event_id now : ℕ) → Op

-- A statement that raises is rolled back.
abbrev pub or_unchanged : Table → Option (Bool × Table) → Table
or_unchanged t none = t
or_unchanged t (some (b, t')) = t'

unfoldable pub apply : Op → Table → Table
apply (claims now lease token locked) t = (claim_one now lease token locked t).1
apply (renews i token now lease) t = (renew_claim i token now lease t).1
apply (finishes i token now c) t = or_unchanged t (finish_claim i token now c t)
apply (recovers now legacy n schedule locked) t = (recover_one now legacy n schedule locked t).1
apply (requeues i now) t = (requeue_failed i now t).1

unfoldable pub run : List Op → Table → Table
run [] t = t
run (op ∷ ops) t = run ops (apply op t)

-- What one statement may do to a row: each change has its guard.
pub data RowStep (r : Outbox) : Outbox → Type 0 where
  kept : RowStep r r
  claimed : (now lease token : ℕ) → due now r ≡ true → RowStep r (claimed_by now lease token r)
  renewal : (token now lease : ℕ) → holds_lease token now r ≡ true → RowStep r (renewed now lease r)
  finish :
      (token now : ℕ) (c : Completion)
      → holds_lease token now r ≡ true
      → status_eq c.status processing ≡ false
      → RowStep r (finished now c r)
  recovery :
      (now legacy n : ℕ) (schedule : List ℕ)
      → expired now legacy r ≡ true
      → RowStep r (recovered now n schedule r)
  requeue : (now : ℕ) → status_eq r.status failed ≡ true → RowStep r (requeued now r)

pub data RowSteps : Outbox → Outbox → Type 0 where
  here : (r : Outbox) → RowSteps r r
  next : {r s t : Outbox} → RowStep r s → RowSteps s t → RowSteps r t

-- The row of key `j` afterwards, reached from `r`.
abbrev Moves : Outbox → ℕ → Table → Type 0
Moves r j t = (r' : Outbox) × (get key j t ≡ some r') × RowStep r r'

update_where-Moves :
    (p : Outbox → Bool) (f : Outbox → Outbox)
    → ((x : Outbox) → key (f x) ≡ key x)
    → ((x : Outbox) → p x ≡ true → RowStep x (f x))
    → (j : ℕ) (t : Table) (r : Outbox) → get key j t ≡ some r
    → Moves r j (update_where p f t)
update_where-Moves p f keep step j t r e = elim (Bool-cases (p r)) [
  | inl hit ↦ (f r, at_row ∙ rw hit, step r hit)
  | inr miss ↦ (r, at_row ∙ rw miss, kept)
]
  where
    at_row : get key j (update_where p f t) ≡ some (if p r then f r else r)
    at_row = get-update_where key p f keep j t ∙ ap (Option.map (λ x. if p x then f x else x)) e

claim_row-Moves :
    (now lease token : ℕ) (t : Table) (o : Option Outbox) (j : ℕ) (r : Outbox)
    → get key j t ≡ some r
    → Moves r j (claim_row now lease token t o).1
unfolding claim_row claimed_by
claim_row-Moves now lease token t none j r e = (r, e, kept)
claim_row-Moves now lease token t (some c) j r e =
    update_where-Moves _ (claimed_by now lease token) (λ x. refl)
      (λ x h. claimed now lease token (&&_true (x.id == c.id) (due now x) h).1) j t r e

recover_row-Moves :
    (now legacy n : ℕ) (schedule : List ℕ) (t : Table) (o : Option Outbox) (j : ℕ) (r : Outbox)
    → get key j t ≡ some r
    → Moves r j (recover_row now legacy n schedule t o).1
unfolding recover_row recovered
recover_row-Moves now legacy n schedule t none j r e = (r, e, kept)
recover_row-Moves now legacy n schedule t (some c) j r e =
    update_where-Moves _ (recovered now n schedule) (λ x. refl)
      (λ x h. recovery now legacy n schedule (&&_true (x.id == c.id) (expired now legacy x) h).1) j
      t r e

finish_claim-Moves :
    (i token now : ℕ) (c : Completion) (t : Table) (j : ℕ) (r : Outbox)
    → get key j t ≡ some r
    → Moves r j (or_unchanged t (finish_claim i token now c t))
unfolding finish_claim owned finished
finish_claim-Moves i token now c t j r e = by_status (status_eq c.status processing) refl
  where
    after : Bool × Table
    after = let hit = owned i token now in (any hit t, update_where hit (finished now c) t)

    by_status :
        (b : Bool)
        → status_eq c.status processing ≡ b
        → Moves r j (or_unchanged t (if b then none else some after))
    by_status true bad = (r, e, kept)
    by_status false fine =
        update_where-Moves _ (finished now c) (λ x. refl)
          (λ x h. finish token now c (&&_true (x.id == i) (holds_lease token now x) h).1 fine) j t r
          e

-- Each statement moves each row by one step of its life at most, and deletes none.
apply-Moves :
    (op : Op) (t : Table) (j : ℕ) (r : Outbox) → get key j t ≡ some r → Moves r j (apply op t)
unfolding apply claim_one recover_one renew_claim requeue_failed owned renewed requeued
apply-Moves (claims now lease token locked) t j r e = claim_row-Moves now lease token t _ j r e
apply-Moves (renews i token now lease) t j r e =
    update_where-Moves _ (renewed now lease) (λ x. refl)
      (λ x h. renewal token now lease (&&_true (x.id == i) (holds_lease token now x) h).1) j t r e
apply-Moves (finishes i token now c) t j r e = finish_claim-Moves i token now c t j r e
apply-Moves (recovers now legacy n schedule locked) t j r e =
    recover_row-Moves now legacy n schedule t _ j r e
apply-Moves (requeues i now) t j r e =
    update_where-Moves _ (requeued now) (λ x. refl)
      (λ x h. requeue now (&&_true (x.id == i) (status_eq x.status failed) h).1) j t r e

-- Whatever statements the workers issue, in whatever order, an event that is in the table stays in
-- it, and its row goes through steps of its life cycle only.
pub run-RowSteps :
    (ops : List Op) (t : Table) (j : ℕ) (r : Outbox)
    → get key j t ≡ some r
    → (r' : Outbox) × (get key j (run ops t) ≡ some r') × RowSteps r r'
unfolding run
run-RowSteps [] t j r e = (r, e, here r)
run-RowSteps (op ∷ ops) t j r e =
    let (s, es, step) = apply-Moves op t j r e in
    let (r', er, steps) = run-RowSteps ops (apply op t) j s es in (r', er, next step steps)
