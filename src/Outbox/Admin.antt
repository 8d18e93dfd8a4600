-- ===== src/Outbox/Admin.antt =====
-- services.py of the outbox, and the queries of repos.py that do not belong to the relay's protocol.
use mathlib.Core.Option
use app_common.Common.{
  ℕ, ◌≡◌, refl, ap, sym, ◌∙◌, inl, inr, Bool-cases, Bool, true, false, not, ◌&&◌, ◌||◌, Option,
  none, some, [], ◌∷◌, ◌++◌, ltb, ◌==◌, if◌then◌else◌, filter, find, take, arith,
}
use app_common.Table.{update_where, get, get-update_where}
use app_common.Outbox.Model.{
  EventStatus, pending, processing, published, failed, status_eq, Outbox, OutboxCreate,
  OutboxUpdate,
}
use app_common.Outbox.Repo.{Table}
use app_common.Outbox.Repo.Rows.{key}

-- ORDER BY one column; rows that are equal in it keep the order of the table.
abbrev insert_by : (Outbox → ℕ) → Outbox → Table → Table
insert_by column r [] = r ∷ []
insert_by column r (x ∷ xs) =
    let rest = insert_by column r xs in if ltb (column x) (column r) then x ∷ rest else r ∷ x ∷ xs

abbrev pub order_by : (Outbox → ℕ) → Table → Table
order_by column [] = []
order_by column (r ∷ rows) = insert_by column r (order_by column rows)

unfoldable pub get_and_lock_pending_events : ℕ → (ℕ → Bool) → Table → Table
get_and_lock_pending_events limit locked table = take limit (
    order_by (λ r. r.created_at)
      (filter (λ r. status_eq r.status pending && not (locked r.id)) table))

abbrev is_zombie : ℕ → Outbox → Bool
is_zombie timeout_threshold r = status_eq r.status processing && ltb r.updated_at timeout_threshold

unfoldable pub get_zombie_events : ℕ → ℕ → (ℕ → Bool) → Table → Table
get_zombie_events timeout_threshold limit locked table = take limit (
    order_by (λ r. r.updated_at)
      (filter (λ r. is_zombie timeout_threshold r && not (locked r.id)) table))

abbrev pub is_null : Option ℕ → Bool
is_null none = true
is_null (some t) = false

abbrev or_old {ℓ} : {A : Type ℓ} → Option A → A → A
or_old none old = old
or_old (some new) old = new

abbrev or_old_null : Option ℕ → Option ℕ → Option ℕ
or_old_null none old = old
or_old_null (some new) old = some new

-- `values(**values.model_dump(exclude_unset=True))`
unfoldable pub updated_by : OutboxUpdate → Outbox → Outbox
updated_by values r = record r {
  status = or_old values.status r.status;
  retry_count = or_old values.retry_count r.retry_count;
  processed_at = or_old_null values.processed_at r.processed_at;
}

unfoldable pub unclaimed : ℕ → Outbox → Bool
unclaimed event_id r =
    r.id == event_id && (not (status_eq r.status processing) && is_null r.claim_token)

abbrev enters_processing : Option EventStatus → Bool
enters_processing none = false
enters_processing (some s) = status_eq s processing

-- `none` is the ValueError.
unfoldable pub update_unclaimed_status : ℕ → OutboxUpdate → Table → Option (Option Outbox × Table)
unfolding updated_by unclaimed
update_unclaimed_status event_id values table =
    if enters_processing values.status
    then none
    else some (
      Option.map (updated_by values) (find (unclaimed event_id) table),
      update_where (unclaimed event_id) (updated_by values) table,
    )

-- The row that is inserted, with the columns' defaults.
unfoldable pub add_event : ℕ → ℕ → OutboxCreate → Table → Outbox × Table
add_event id now event_data table =
    let row : Outbox = record {
      id = id;
      created_at = now;
      updated_at = now;
      aggregate_type = event_data.aggregate_type;
      aggregate_id = event_data.aggregate_id;
      event_type = event_data.event_type;
      payload = event_data.payload;
      status = pending;
      retry_count = 0;
      processed_at = none;
      next_attempt_at = none;
      claim_token = none;
      lease_expires_at = none;
      last_error = none;
    } in
    (row, table ++ row ∷ [])

abbrev status_update : EventStatus → Option ℕ → ℕ → OutboxUpdate
status_update status retry_count now = record {
  status = some status;
  retry_count = retry_count;
  processed_at = if status_eq status published then some now else none;
}

unfoldable pub update_event_status :
    ℕ → EventStatus → Option ℕ → ℕ → Table → Option (Option Outbox × Table)
unfolding update_unclaimed_status
update_event_status event_id status retry_count now table =
    update_unclaimed_status event_id (status_update status retry_count now) table

abbrev pub table_after : Table → Option (Option Outbox × Table) → Table
table_after table none = table
table_after table (some (row, table')) = table'

updated_by-status :
    (values : OutboxUpdate) (r : Outbox)
    → enters_processing values.status ≡ false
    → status_eq r.status processing ≡ false
    → status_eq (updated_by values r).status processing ≡ false
unfolding updated_by
updated_by-status values r h k = ground (arith, h, k)

-- What the statement makes of one row.
abbrev made : ℕ → OutboxUpdate → Outbox → Outbox
made event_id values r = if unclaimed event_id r then updated_by values r else r

made-spares :
    (event_id : ℕ) (values : OutboxUpdate) (r : Outbox)
    → enters_processing values.status ≡ false
    → ((status_eq r.status processing || not (is_null r.claim_token)) ≡ true
        → made event_id values r ≡ r)
      × (status_eq (made event_id values r).status processing ≡ status_eq r.status processing)
made-spares event_id values r h = elim (Bool-cases (unclaimed event_id r)) [
  | inl free ↦
      let out : status_eq r.status processing ≡ false = unfold unclaimed in ground (arith, free) in
      (
        λ k. let bad : true ≡ false = unfold unclaimed in ground (arith, free, k) in cc,
        ap (λ b. status_eq (if b then updated_by values r else r).status processing) free
            ∙ updated_by-status values r h out
            ∙ sym out,
      )
  | inr taken ↦ (
    λ k. ap (λ b. if b then updated_by values r else r) taken,
    ap (λ b. status_eq (if b then updated_by values r else r).status processing) taken,
  )
]

spared :
    (event_id : ℕ) (values : OutboxUpdate) (table : Table) (j : ℕ) (r : Outbox)
    → get key j table ≡ some r
    → enters_processing values.status ≡ false
    → (s : Outbox) × (get key j (update_where (unclaimed event_id) (updated_by values) table)
        ≡ some s)
      × ((status_eq r.status processing || not (is_null r.claim_token)) ≡ true → s ≡ r)
      × (status_eq s.status processing ≡ status_eq r.status processing)
spared event_id values table j r h out =
    let (same, still) = made-spares event_id values r out in
    (
      made event_id values r,
      get-update_where key (unclaimed event_id) (updated_by values) (λ x. unfold updated_by in refl)
            j table
          ∙ ap (Option.map (made event_id values)) h,
      same,
      still,
    )

-- The administrative update spares the relay: a row that is being processed, or that carries a claim
-- token, is the same after it, and no row that is not being processed comes to be.
pub update_event_status-spares :
    (event_id : ℕ) (status : EventStatus) (retry_count : Option ℕ) (now : ℕ) (table : Table) (j : ℕ)
    (r : Outbox)
    → get key j table ≡ some r
    → let after = table_after table (update_event_status event_id status retry_count now table) in
      (s : Outbox) × (get key j after ≡ some s)
      × ((status_eq r.status processing || not (is_null r.claim_token)) ≡ true → s ≡ r)
      × (status_eq s.status processing ≡ status_eq r.status processing)
unfolding update_event_status update_unclaimed_status
update_event_status-spares event_id processing retry_count now table j r h = (r, h, λ k. refl, refl)
update_event_status-spares event_id pending retry_count now table j r h =
    spared event_id (status_update pending retry_count now) table j r h refl
update_event_status-spares event_id published retry_count now table j r h =
    spared event_id (status_update published retry_count now) table j r h refl
update_event_status-spares event_id failed retry_count now table j r h =
    spared event_id (status_update failed retry_count now) table j r h refl
