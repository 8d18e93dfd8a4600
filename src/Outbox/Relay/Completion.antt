-- ===== src/Outbox/Relay/Completion.antt =====
-- What the relay writes when it is done with an event, and what it takes for a delivery.
use mathlib.Core.Option.{some-injective}
use mathlib.Core.Option
use app_common.Common.{
  ℕ, ◌+◌, ◌<◌, ◌≡◌, ◌≢◌, refl, sym, ap, ◌∙◌, subst, inl, inr, String, Bool, true, false, Option,
  none, some, List, [], ◌∷◌, arith, if◌then◌else◌, Bool-cases,
}
use app_common.Table.{get, update_where, get-update_where}
use app_common.Outbox.Model.{EventStatus, pending, processing, published, status_eq, Outbox}
use app_common.Outbox.Policy.{RelayOptions, retry_at}
use app_common.Outbox.Repo
use app_common.Outbox.Repo.{Table, renewed, renew_claim, finished, finish_claim, owned}
use app_common.Outbox.Repo.Rows.{key}
use app_common.Outbox.Relay.{
  applied, beat_on, drain, Claim, Result, ok, raised, now_of, renew_at, completion, finish_at, Beat,
  heartbeat, Heartbeat, running, acknowledged, Publication, delivered, publish,
}

-- An event is sent back to wait only within its budget: fewer failures than `max_attempts`, and
-- a next attempt by the retry policy.
pub completion-pending :
    (o : RelayOptions) (claim : Claim) (error : Option String) (exhausted : Bool) (now : ℕ)
    → (completion o claim error exhausted now).status ≡ pending
    → let c = completion o claim error exhausted now in
      (c.retry_count < o.max_attempts)
      × (c.next_attempt_at ≡ some (retry_at o now c.retry_count))
      × (exhausted ≡ false)
unfolding completion
completion-pending o claim none exhausted now h = cc
completion-pending o claim (some e) exhausted now h = ground arith

-- A delivery is reported only if the event was valid, no heartbeat had failed, the publisher had
-- acknowledged in time and the relay was not cancelled.
pub publish-delivered :
    (o : RelayOptions) (claim : Claim) (p : Publication) (t : Table)
    → (publish o claim p t).0 ≡ delivered
    → (p.valid ≡ true)
      × ((heartbeat o claim p.beats t).0 ≡ running)
      × (p.task ≡ some acknowledged)
      × (p.interrupted ≡ false)
unfolding publish
publish-delivered o claim p t h = ground arith

-- The event of key `j` is not marked as published.
abbrev pub Unpublished : ℕ → Table → Type 0
Unpublished j t = (s : Outbox) → get key j t ≡ some s → s.status ≢ published

-- What others do during the heartbeats does not publish the event.
abbrev pub Quiet : ℕ → List Beat → Type 0
Quiet j [] = Unit
Quiet j (b ∷ beats) = ((t : Table) → Unpublished j t → Unpublished j (b.others t)) × Quiet j beats

-- An assignment that publishes no row publishes none in the table.
pub update_where-Unpublished :
    (p : Outbox → Bool) (f : Outbox → Outbox)
    → ((x : Outbox) → key (f x) ≡ key x)
    → ((x : Outbox) → x.status ≢ published → (f x).status ≢ published)
    → (j : ℕ) (t : Table) → Unpublished j t
    → Unpublished j (update_where p f t)
update_where-Unpublished p f keep quiet j t u s e =
    row (get key j t) refl (sym (get-update_where key p f keep j t) ∙ e)
  where
    row :
        (o : Option Outbox)
        → get key j t ≡ o
        → Option.map (λ x. if p x then f x else x) o ≡ some s
        → s.status ≢ published
    row none g h = cc
    row (some x) g h = elim (Bool-cases (p x)) [
      | inl hit ↦
          subst (λ y. y.status ≢ published) (some-injective (f x) s (rw hit at h)) (quiet x (u x g))
      | inr miss ↦ subst (λ y. y.status ≢ published) (some-injective x s (rw miss at h)) (u x g)
    ]

renew_at-Unpublished :
    (o : RelayOptions) (claim : Claim) (now : Result ℕ) (j : ℕ) (t : Table)
    → Unpublished j t
    → Unpublished j (renew_at o claim now t).1
unfolding renew_at renew_claim renewed
renew_at-Unpublished o claim (raised e) j t u = u
renew_at-Unpublished o claim (ok now) j t u =
    update_where-Unpublished _ (renewed now (now + o.lease)) (λ x. refl) (λ x h. h) j t u

finish_claim-table :
    (i token now : ℕ) (c : Repo.Completion) (t after : Table) (b : Bool)
    → finish_claim i token now c t ≡ some (b, after)
    → after ≡ update_where (owned i token now) (finished now c) t
unfolding finish_claim
finish_claim-table i token now c t after b e = elim (Bool-cases (status_eq c.status processing)) [
  | inl bad ↦ let e' = rw bad at e in cc
  | inr fine ↦ sym (ap (λ x. x.1) (some-injective _ (b, after) (rw fine at e)))
]

applied-table {ℓ} :
    (P : Table → Type ℓ) (status : EventStatus) (t : Table) (x : Option (Bool × Table))
    → P t
    → ((b : Bool) (after : Table) → x ≡ some (b, after) → P after)
    → P (applied status t x).1
applied-table P status t none h k = h
applied-table P status t (some (true, after)) h k = k true after refl
applied-table P status t (some (false, after)) h k = k false after refl

completion_error :
    (o : RelayOptions) (claim : Claim) (e : String) (exhausted : Bool) (now : ℕ)
    → (completion o claim (some e) exhausted now).status ≢ published
unfolding completion
completion_error o claim e exhausted now h = ground arith

pub finish_error-Unpublished :
    (o : RelayOptions) (claim : Claim) (e : String) (exhausted : Bool) (now : Result ℕ) (j : ℕ)
    (t : Table)
    → Unpublished j t
    → Unpublished j (finish_at o claim (some e) exhausted now t).1
finish_error-Unpublished o claim e exhausted (raised x) j t u = unfold finish_at in u
finish_error-Unpublished o claim e exhausted (ok now) j t u =
    let c = completion o claim (some e) exhausted now in
    unfold finish_at in
    applied-table (Unpublished j) c.status t (finish_claim claim.id claim.token now c t) u
      λ b after eq.
        subst (Unpublished j) (sym (finish_claim-table claim.id claim.token now c t after b eq)) (
          update_where-Unpublished _ (finished now c) (λ x. unfold finished in refl)
            (λ x _. unfold finished in completion_error o claim e exhausted now) j t u)

beat_on-table {ℓ} :
    (P : Table → Type ℓ) (held : Result Bool) (rest : Heartbeat × Table) (t : Table)
    → P t
    → P rest.1
    → P (beat_on held rest t).1
beat_on-table P (raised e) rest t h k = h
beat_on-table P (ok false) rest t h k = h
beat_on-table P (ok true) rest t h k = k

heartbeat-Unpublished :
    (o : RelayOptions) (claim : Claim) (beats : List Beat) (j : ℕ) (t : Table)
    → Quiet j beats
    → Unpublished j t
    → Unpublished j (heartbeat o claim beats t).1
unfolding heartbeat
heartbeat-Unpublished o claim [] j t q u = u
heartbeat-Unpublished o claim (b ∷ beats) j t q u =
    beat_on-table (Unpublished j) (renew_at o claim (now_of b.clock) (b.others t)).0 _ _
      renewed_quiet (heartbeat-Unpublished o claim beats j _ q.1 renewed_quiet)
  where
    renewed_quiet : Unpublished j (renew_at o claim (now_of b.clock) (b.others t)).1
    renewed_quiet = renew_at-Unpublished o claim (now_of b.clock) j (b.others t) (q.0 t u)

drain-Unpublished :
    (o : RelayOptions) (claim : Claim) (clock : Option (Option ℕ)) (j : ℕ) (t : Table)
    → Unpublished j t
    → Unpublished j (drain o claim clock t)
drain-Unpublished o claim none j t u = u
drain-Unpublished o claim (some clock) j t u = renew_at-Unpublished o claim (now_of clock) j t u

pub publish-Unpublished :
    (o : RelayOptions) (claim : Claim) (p : Publication) (j : ℕ) (t : Table)
    → Quiet j p.beats
    → Unpublished j t
    → Unpublished j (publish o claim p t).1
publish-Unpublished o claim p j t q u =
    let h =
      drain-Unpublished o claim p.draining j _ (heartbeat-Unpublished o claim p.beats j t q u) in
    elim (Bool-cases p.valid) [
      | inl valid ↦ unfold publish in rw valid h
      | inr invalid ↦ unfold publish in rw invalid u
    ]
