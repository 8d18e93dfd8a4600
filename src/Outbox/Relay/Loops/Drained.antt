-- ===== src/Outbox/Relay/Loops/Drained.antt =====
-- The recovery loop gets through every expired claim.
use app_common.Common.{
  zero, inr, inl, ◌∙◌, ap, not, &&_true, suc, arith, true, ltb, Option, ◌≤◌, ℕ, ◌+◌, ◌-◌, ◌≡◌, refl,
  Bool, false, some, [], ◌∷◌, length, filter, All,
}
use app_common.Table.{update_where, IsKeyed, IsKeyed-update_where}
use app_common.Table.Update.{at_key, length-filter-update_at}
use app_common.Outbox.Repo.Recovers.{recoverable, recover_one-cases, recovered-not_expired}
use app_common.Outbox.Repo.Rows.{key}
use app_common.Table.Select.{Selected}
use app_common.Outbox.Repo.{by_updated, recovered, expired}
use app_common.Outbox.Model.{pending, processing, published, failed, EventStatus, Outbox}
use app_common.Outbox.Policy.{retry_schedule, RelayOptions}
use app_common.Outbox.Repo.{Table, recover_one}
use app_common.Outbox.Relay.{no_result, ok, Result, RelayResult}
use app_common.Outbox.Relay.Loops.{
  and_then, recover, recover_turn, recover_loop, recovery_round, RecoveryTurn,
}

-- A round by one clock, with no other worker in the way.
pub record IsAlone (now : ℕ) (turn : RecoveryTurn) : Type 0 where
  pub running : turn.stopping ≡ false
  pub clock : turn.clock ≡ some now
  pub unlocked : (i : ℕ) → turn.locked i ≡ false
  pub quiet : (t : Table) → turn.others t ≡ t

-- How many claims have expired.
abbrev pub backlog : ℕ → RelayOptions → Table → ℕ
backlog now o t = length (filter (expired now (now - o.legacy_timeout)) t)

abbrev pub handled : RelayResult → ℕ
handled r = r.retried + r.failed

filter-none : (p : Outbox → Bool) (t : Table) → All (λ r. p r ≡ false) t → length (filter p t) ≡ 0
filter-none p [] h = refl
filter-none p (x ∷ xs) h = rw h.0 (filter-none p xs h.1)

recovery_round-some :
    (status : EventStatus) (t : Table) (r : RelayResult)
    → (r' : RelayResult) × (recovery_round r (some status, t) ≡ (ok (true, r'), t))
      × (handled r' ≡ handled r + 1)
recovery_round-some failed t r = (record r { failed = r.failed + 1 }, refl, omega arith)
recovery_round-some pending t r = (record r { retried = r.retried + 1 }, refl, omega arith)
recovery_round-some processing t r = (record r { retried = r.retried + 1 }, refl, omega arith)
recovery_round-some published t r = (record r { retried = r.retried + 1 }, refl, omega arith)

module _ (o : RelayOptions) (now : ℕ) (le : o.legacy_timeout ≤ now) where
  abbrev recovery_of : (ℕ → Bool) → Table → Option EventStatus × Table
  recovery_of locked t =
      recover_one now (now - o.legacy_timeout) o.max_attempts (retry_schedule o now) locked t

  recover_turn-alone :
      (turn : RecoveryTurn) (r : RelayResult) (t : Table)
      → IsAlone now turn
      → recover_turn o turn r t ≡ recovery_round r (recovery_of turn.locked t)
  unfolding recover_turn
  recover_turn-alone turn r t a =
      let in_range : ltb now o.legacy_timeout ≡ false = ground arith in
      rw (a.running, a.clock, a.quiet t, in_range)

  not_expired :
      (locked : ℕ → Bool) (t : Table)
      → ((i : ℕ) → locked i ≡ false)
      → All (λ r. recoverable now (now - o.legacy_timeout) locked r ≡ false) t
      → backlog now o t ≡ 0
  not_expired locked [] free h = refl
  not_expired locked (x ∷ xs) free h =
      let miss : expired now (now - o.legacy_timeout) x ≡ false = ground (arith, h.0, free x.id) in
      rw miss (not_expired locked xs free h.1)

  -- The result of a loop that has gone through everything.
  abbrev Drains : RelayResult → Table → Result RelayResult × Table → Type 0
  Drains r t result =
      (q : RelayResult) × (after : Table) × (result ≡ (ok q, after))
      × (backlog now o after ≡ 0)
      × (handled q ≡ handled r + backlog now o t)

  recover_loop-Drains :
      (n : ℕ) (turns : ℕ → RecoveryTurn) (r : RelayResult) (t : Table)
      → IsKeyed key t
      → ((i : ℕ) → IsAlone now (turns i))
      → backlog now o t ≤ n
      → Drains r t (recover_loop n o turns r t)
  unfolding recover_loop
  recover_loop-Drains zero turns r t k a le' = (r, t, refl, omega arith, omega arith)
  recover_loop-Drains (suc n) turns r t k a le' =
      elim (recover_one-cases now (now - o.legacy_timeout) o.max_attempts (retry_schedule o now)
        (turns n).locked t k) [
          | inl (e, none_left) ↦
              let empty = not_expired (turns n).locked t (a n).unlocked none_left in
              (
                r,
                t,
                ap (and_then (recover_loop n o turns)) (round ∙ ap (recovery_round r) e),
                empty,
                omega (arith, empty),
              )
          | inr (c, s, e) ↦ more (λ r' t' k' b. recover_loop-Drains n turns r' t' k' a b) c s e
        ]
    where
      fixed : Outbox → Outbox
      fixed = recovered now o.max_attempts (retry_schedule o now)

      put_back : Outbox → Table
      put_back c = update_where (at_key key c.id (expired now (now - o.legacy_timeout))) fixed t

      keyed : (c : Outbox) → IsKeyed key (put_back c)
      keyed c =
          IsKeyed-update_where key (at_key key c.id (expired now (now - o.legacy_timeout))) fixed
            (λ x. unfold recovered in refl) t k

      round : recover_turn o (turns n) r t ≡ recovery_round r (recovery_of (turns n).locked t)
      round = recover_turn-alone (turns n) r t (a n)

      more :
          ((r' : RelayResult) (t' : Table)
            → IsKeyed key t'
            → backlog now o t' ≤ n
            → Drains r' t' (recover_loop n o turns r' t'))
          → (c : Outbox)
          → Selected key by_updated (recoverable now (now - o.legacy_timeout) (turns n).locked) t c
          → recovery_of (turns n).locked t ≡ (some (fixed c).status, put_back c)
          → Drains r t (recover_loop (suc n) o turns r t)
      more rest c s e =
          let (r', step, one) = recovery_round-some (fixed c).status (put_back c) r in
          let is_expired =
            (&&_true (expired now (now - o.legacy_timeout) c) (not ((turns n).locked c.id))
              s.passes).0 in
          let fewer =
            length-filter-update_at key (expired now (now - o.legacy_timeout))
              (expired now (now - o.legacy_timeout)) fixed c.id t c k s.found is_expired is_expired
              (recovered-not_expired now o.max_attempts now (now - o.legacy_timeout)
                (retry_schedule o now) c) in
          let (q, after, eq, done, total) = rest r' (put_back c) (keyed c) (omega (arith, fewer)) in
          (
            q,
            after,
            ap (and_then (recover_loop n o turns)) (round ∙ ap (recovery_round r) e ∙ step) ∙ eq,
            done,
            omega (arith, fewer, one, total),
          )

  -- With one clock and no other worker in the way, a recovery whose batch is large enough for the
  -- expired claims returns normally, leaves none of them behind, and reports exactly their number.
  pub recover-Drains :
      (turns : ℕ → RecoveryTurn) (t : Table)
      → IsKeyed key t
      → ((i : ℕ) → IsAlone now (turns i))
      → backlog now o t ≤ o.batch_size
      → (q : RelayResult) × (after : Table) × (recover o turns t ≡ (ok q, after))
        × (backlog now o after ≡ 0)
        × (handled q ≡ backlog now o t)
  unfolding recover
  recover-Drains turns t k a le' =
      let (q, after, eq, done, total) =
        recover_loop-Drains o.batch_size turns no_result t k a le' in
      (q, after, eq, done, omega (arith, total))
