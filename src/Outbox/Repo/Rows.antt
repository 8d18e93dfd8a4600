-- ===== src/Outbox/Repo/Rows.antt =====
-- What each statement of the outbox repository does to the rows, seen through lookups by key.
use mathlib.Core.Option.{some-injective}
use mathlib.Core.Option
use app_common.Common.{
  ℕ, ◌≡◌, refl, sym, ap, ◌∙◌, Bool, true, false, not, ◌&&◌, Option, none, some, ◌==◌, if◌then◌else◌,
  &&_true, filter, any, All,
}
use app_common.Table.{update_where, least, get, holds, IsKeyed, any-get}
use app_common.Table.Select.{Selected, least-Selected, least-none}
use app_common.Table.Update.{at_key, find-at_key, get-update_at, update_at-missed}
use app_common.Outbox.Model.{processing, status_eq, Outbox}
use app_common.Outbox.Repo.{
  Table, by_created, due, claimed_by, claim_row, claim_one, holds_lease, owned, renewed,
  renew_claim, Completion, finished, finish_claim,
}

abbrev pub key : Outbox → ℕ
key r = r.id

-- What `claim_one` looks for.
abbrev claimable : ℕ → (ℕ → Bool) → Outbox → Bool
claimable now locked r = due now r && not (locked r.id)

claim_row-some :
    (now lease token : ℕ) (table : Table) (c : Outbox)
    → get key c.id table ≡ some c
    → due now c ≡ true
    → ((claim_row now lease token table (some c)).0 ≡ some (claimed_by now lease token c))
      × ((j : ℕ)
          → get key j (claim_row now lease token table (some c)).1
            ≡ (if j == c.id then some (claimed_by now lease token c) else get key j table))
unfolding claim_row claimed_by
claim_row-some now lease token table c e d = (
  ap (Option.map (claimed_by now lease token)) (find-at_key key c.id (due now) table c e d),
  λ j. get-update_at key (due now) (claimed_by now lease token) (λ x. refl) c.id j table c e d,
)

module _ (now lease token : ℕ) (locked : ℕ → Bool) (table : Table) (k : IsKeyed key table) where
  -- A row was claimed: it is the first of the rows that could be, and the only one changed.
  abbrev Claims : Outbox → Table → Type 0
  Claims row after =
      (r : Outbox) × (row ≡ claimed_by now lease token r)
      × Selected key by_created (claimable now locked) table r
      × ((j : ℕ) → get key j after ≡ (if j == r.id then some row else get key j table))

  claim_row-Claims :
      (row : Outbox) (o : Option Outbox)
      → least by_created (filter (claimable now locked) table) ≡ o
      → (claim_row now lease token table o).0 ≡ some row
      → Claims row (claim_row now lease token table o).1
  claim_row-Claims row none found e = unfold claim_row in cc
  claim_row-Claims row (some c) found e =
      (c, eq, s, λ j. effect.1 j ∙ ap (λ x. if j == c.id then some x else get key j table) (sym eq))
    where
      s : Selected key by_created (claimable now locked) table c
      s = least-Selected key by_created (claimable now locked) table c k found

      effect :
          ((claim_row now lease token table (some c)).0 ≡ some (claimed_by now lease token c))
          × ((j : ℕ)
              → get key j (claim_row now lease token table (some c)).1
                ≡ (if j == c.id then some (claimed_by now lease token c) else get key j table))
      effect =
          claim_row-some now lease token table c s.found
            (&&_true (due now c) (not (locked c.id)) s.passes).0

      eq : row ≡ claimed_by now lease token c
      eq = some-injective _ _ (sym e ∙ effect.0)

  claim_row-none :
      (o : Option Outbox)
      → least by_created (filter (claimable now locked) table) ≡ o
      → (claim_row now lease token table o).0 ≡ none
      → ((claim_row now lease token table o).1 ≡ table)
        × All (λ r. claimable now locked r ≡ false) table
  claim_row-none none found e =
      (unfold claim_row in refl, least-none by_created (claimable now locked) table found)
  claim_row-none (some c) found e =
      let s = least-Selected key by_created (claimable now locked) table c k found in
      let d = (&&_true (due now c) (not (locked c.id)) s.passes).0 in
      cc ((claim_row-some now lease token table c s.found d).0)

-- A claimed row was due and not locked, it comes first by creation time and key among such rows,
-- it now carries the token and the lease, and every other row is as it was.
pub claim_one-some :
    (now lease token : ℕ) (locked : ℕ → Bool) (table : Table) (row : Outbox)
    → IsKeyed key table
    → (claim_one now lease token locked table).0 ≡ some row
    → (r : Outbox) × (row ≡ claimed_by now lease token r)
      × Selected key by_created (claimable now locked) table r
      × ((j : ℕ)
          → get key j (claim_one now lease token locked table).1
            ≡ (if j == r.id then some row else get key j table))
unfolding claim_one
claim_one-some now lease token locked table row k e =
    claim_row-Claims now lease token locked table k row _ refl e

-- Nothing is claimed only if no row is due and unlocked; then the table is as it was.
pub claim_one-none :
    (now lease token : ℕ) (locked : ℕ → Bool) (table : Table)
    → IsKeyed key table
    → (claim_one now lease token locked table).0 ≡ none
    → ((claim_one now lease token locked table).1 ≡ table)
      × All (λ r. claimable now locked r ≡ false) table
unfolding claim_one
claim_one-none now lease token locked table k e =
    claim_row-none now lease token locked table k _ refl e

-- The holder of a live lease completes its event: the row gets the result and gives up the claim,
-- and every other row is as it was.
pub finish_claim-owned :
    (event_id token now : ℕ) (c : Completion) (table : Table) (r : Outbox)
    → IsKeyed key table
    → status_eq c.status processing ≡ false
    → get key event_id table ≡ some r
    → holds_lease token now r ≡ true
    → (after : Table) × (finish_claim event_id token now c table ≡ some (true, after))
      × ((j : ℕ)
          → get key j after ≡ (if j == event_id then some (finished now c r) else get key j table))
unfolding finish_claim owned
finish_claim-owned event_id token now c table r k ok found held = (
  update_where (at_key key event_id (holds_lease token now)) (finished now c) table,
  rw (ok, met),
  λ j.
      get-update_at key (holds_lease token now) (finished now c) (λ x. unfold finished in refl)
        event_id j table r found held,
)
  where
    met : any (at_key key event_id (holds_lease token now)) table ≡ true
    met =
        any-get key (holds_lease token now) event_id table k
        ∙ ap (holds (holds_lease token now)) found
        ∙ held

-- A token that does not hold the event's lease, because the event is not being processed, was
-- claimed under another token, or its lease has run out, can neither complete nor renew it:
-- both report failure and change nothing.
pub fenced :
    (event_id token now lease : ℕ) (c : Completion) (table : Table)
    → IsKeyed key table
    → status_eq c.status processing ≡ false
    → holds (holds_lease token now) (get key event_id table) ≡ false
    → (finish_claim event_id token now c table ≡ some (false, table))
      × (renew_claim event_id token now lease table ≡ (false, table))
unfolding finish_claim renew_claim owned
fenced event_id token now lease c table k ok lost =
    let f = update_at-missed key (holds_lease token now) (finished now c) event_id table k lost in
    let g =
      update_at-missed key (holds_lease token now) (renewed now lease) event_id table k lost in
    (rw (ok, f.0, f.1), λ i. (g.0 i, g.1 i))

-- A renewal reports success exactly when the token holds the lease.
renew_claim-holds :
    (event_id token now lease : ℕ) (table : Table)
    → IsKeyed key table
    → (renew_claim event_id token now lease table).0
      ≡ holds (holds_lease token now) (get key event_id table)
unfolding renew_claim owned
renew_claim-holds event_id token now lease table k =
    any-get key (holds_lease token now) event_id table k

-- A claim leaves the table alone or is one UPDATE by `claimed_by`.
pub claim_one-table {ℓ} :
    (P : Table → Type ℓ) (now lease token : ℕ) (locked : ℕ → Bool) (table : Table)
    → P table
    → ((p : Outbox → Bool) → P (update_where p (claimed_by now lease token) table))
    → P (claim_one now lease token locked table).1
unfolding claim_one
claim_one-table P now lease token locked table h k =
    row (least by_created (filter (claimable now locked) table))
  where
    row : (o : Option Outbox) → P (claim_row now lease token table o).1
    row none = h
    row (some c) = k _
