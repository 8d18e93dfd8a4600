-- ===== src/Outbox/Repo/Lifecycle/Leases.antt =====
-- Claims as leases: who may write to a row, and when.
use app_common.Common.{
  ◌≤◌, ◌==◌, ap, ◌∙◌, true, ℕ, ◌≡◌, ◌≢◌, refl, ap, ◌∙◌, Bool, true, false, Option, none, some, List,
  arith, ◌==◌, if◌then◌else◌, Bool-cases, inl, inr, ==_iff,
}
use app_common.Table.{get, holds, IsKeyed, IsKeyed-update_where}
use app_common.Table.Update.{get-update_where_kept}
use app_common.Outbox.Model.{processing, status_eq, Outbox}
use app_common.Outbox.Repo.Rows.{key, claim_one-some, fenced}
use app_common.Outbox.Repo.{
  Table, due, claimed_by, claim_row, claim_one, holds_lease, owned, renewed, renew_claim,
  Completion, finished, finish_claim, expired, recovered, recover_row, recover_one, requeued,
  requeue_failed,
}
use app_common.Outbox.Repo.Lifecycle.{
  Op, claims, renews, finishes, recovers, requeues, or_unchanged, apply,
}

-- A statement that does not come with `token`; a recovery, by a clock that is at most `now`.
abbrev Foreign : ℕ → ℕ → Op → Type 0
Foreign token now (claims at lease other locked) = Unit
Foreign token now (renews i other at lease) = other ≢ token
Foreign token now (finishes i other at c) = other ≢ token
Foreign token now (recovers at legacy n schedule locked) = at ≤ now
Foreign token now (requeues i at) = Unit

claim_row-IsKeyed :
    (now lease token : ℕ) (t : Table) (o : Option Outbox)
    → IsKeyed key t
    → IsKeyed key (claim_row now lease token t o).1
unfolding claim_row claimed_by
claim_row-IsKeyed now lease token t none k = k
claim_row-IsKeyed now lease token t (some c) k =
    IsKeyed-update_where key _ (claimed_by now lease token) (λ x. refl) t k

-- The key stays unique under a claim.
claim_one-IsKeyed :
    (now lease token : ℕ) (locked : ℕ → Bool) (t : Table)
    → IsKeyed key t
    → IsKeyed key (claim_one now lease token locked t).1
unfolding claim_one
claim_one-IsKeyed now lease token locked t k = claim_row-IsKeyed now lease token t _ k

not_held :
    (now lease token other later : ℕ) (r : Outbox)
    → token ≢ other
    → holds_lease token later (claimed_by now lease other r) ≡ false
unfolding holds_lease claimed_by
not_held now lease token other later r ne = ground arith

id-claimed : (now lease token : ℕ) (r : Outbox) → key (claimed_by now lease token r) ≡ r.id
unfolding claimed_by
id-claimed now lease token r = refl

if_hit {ℓ} : {A : Type ℓ} (i j : ℕ) (x y : A) → i ≡ j → (if i == j then x else y) ≡ x
if_hit i j x y e = rw ((==_iff i j).1 e)

-- When a worker has claimed an event, every other token is fenced off: whenever its holder comes
-- back, it can neither complete nor renew the event, and its attempt changes nothing.
pub claim_fences :
    (now lease token other later extended : ℕ) (locked : ℕ → Bool) (c : Completion) (t : Table)
    (row : Outbox)
    → IsKeyed key t
    → (claim_one now lease other locked t).0 ≡ some row
    → token ≢ other
    → status_eq c.status processing ≡ false
    → let after = (claim_one now lease other locked t).1 in
      (finish_claim row.id token later c after ≡ some (false, after))
      × (renew_claim row.id token later extended after ≡ (false, after))
claim_fences now lease token other later extended locked c t row k e ne ok =
    fenced row.id token later extended c _ (claim_one-IsKeyed now lease other locked t k) ok lost
  where
    lost :
        holds (holds_lease token later) (get key row.id (claim_one now lease other locked t).1)
        ≡ false
    lost =
        let (r, eq, s, effect) = claim_one-some now lease other locked t row k e in
        ap (holds (holds_lease token later)) (
          effect row.id
          ∙ if_hit row.id r.id (some row) _ (ap key eq ∙ id-claimed now lease other r))
        ∙ ap (holds_lease token later) eq
        ∙ not_held now lease token other later r ne

module _ (now token : ℕ) (t : Table) (j : ℕ) (r : Outbox) (e : get key j t ≡ some r)
    (h : holds_lease token now r ≡ true) where
  claim_row-kept :
      (at lease other : ℕ) (o : Option Outbox) → get key j (claim_row at lease other t o).1 ≡ some r
  unfolding claim_row claimed_by due holds_lease
  claim_row-kept at lease other none = e
  claim_row-kept at lease other (some c) =
      get-update_where_kept key _ (claimed_by at lease other) (λ x. refl) j t r e (ground arith)

  recover_row-kept :
      (at legacy n : ℕ) (schedule : List ℕ) (o : Option Outbox)
      → at ≤ now
      → get key j (recover_row at legacy n schedule t o).1 ≡ some r
  unfolding recover_row recovered expired holds_lease
  recover_row-kept at legacy n schedule none le = e
  recover_row-kept at legacy n schedule (some c) le =
      get-update_where_kept key _ (recovered at n schedule) (λ x. refl) j t r e (ground arith)

  other_misses : (i other at : ℕ) → other ≢ token → owned i other at r ≡ false
  unfolding owned holds_lease
  other_misses i other at ne = ground arith

  finish_claim-kept :
      (i other at : ℕ) (c : Completion)
      → other ≢ token
      → get key j (or_unchanged t (finish_claim i other at c t)) ≡ some r
  unfolding finish_claim finished
  finish_claim-kept i other at c ne = elim (Bool-cases (status_eq c.status processing)) [
    | inl bad ↦ rw bad e
    | inr fine ↦ rw fine (
        get-update_where_kept key (owned i other at) (finished at c) (λ x. refl) j t r e
          (other_misses i other at ne))
  ]

  -- The holder of a live lease works alone: while `token` holds the event's lease, no claim, no
  -- recovery by a clock that is not ahead, no administrator's replay and no completion or renewal
  -- under another token changes the row.
  pub lease_excludes : (op : Op) → Foreign token now op → get key j (apply op t) ≡ some r
  unfolding apply claim_one recover_one renew_claim renewed requeue_failed requeued
  lease_excludes (claims at lease other locked) f = claim_row-kept at lease other _
  lease_excludes (renews i other at lease) f =
      get-update_where_kept key (owned i other at) (renewed at lease) (λ x. refl) j t r e
        (other_misses i other at f)
  lease_excludes (finishes i other at c) f = finish_claim-kept i other at c f
  lease_excludes (recovers at legacy n schedule locked) f =
      recover_row-kept at legacy n schedule _ f
  lease_excludes (requeues i at) f =
      get-update_where_kept key _ (requeued at) (λ x. refl) j t r e
        (unfold holds_lease in ground arith)
