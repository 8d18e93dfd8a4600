-- ===== src/Layer/Repository/Writing.antt =====
-- base/repos/base.py: updates, and what becomes of rows that are deleted softly.
pub mod Restoring
use app_common.Common.{
  ℕ, Bool, true, false, not, ◌&&◌, Option, none, some, List, leb, ◌==◌, if◌then◌else◌, length,
  filter, any, take,
}
use app_common.Table.{get, update_where}
use app_common.Layer.Services.{Try, good, bad}
use app_common.Layer.Repository.{Model, screened}

abbrev at_most : ℕ → Option ℕ → Bool
at_most cutoff none = false
at_most cutoff (some t) = leb t cutoff

abbrev is_zero : Option ℕ → Bool
is_zero none = false
is_zero (some n) = n == 0

abbrev is_given : Option ℕ → Bool
is_given none = false
is_given (some n) = true

module _ {R : Type 0} where
  -- The change is what the data set on a row, or nothing if there are none.
  unfoldable pub update_row :
      Model R → ℕ → Option (R → R) → Bool → List R → Option R → Try (Option R × List R)
  update_row m pk change partial rows none = good (none, rows)
  update_row m pk none true rows (some r) = bad "Update data cannot be empty."
  update_row m pk none false rows (some r) = good (some r, rows)
  update_row m pk (some f) partial rows (some r) =
      good (some (f r), update_where (λ x. m.id x == pk) f rows)

  unfoldable pub update_by_pk :
      Model R → ℕ → Option (R → R) → Bool → List R → Try (Option R × List R)
  unfolding update_row
  update_by_pk m pk change partial rows =
      update_row m pk change partial rows (screened m false (get m.id pk rows))

  unfoldable pub restore_row : Model R → ℕ → List R → Option R → Option R × List R
  restore_row m pk rows none = (none, rows)
  restore_row m pk rows (some r) =
      if m.is_deleted r
      then (some (m.restored r), update_where (λ x. m.id x == pk) m.restored rows)
      else (some r, rows)

  unfoldable pub restore_by_pk : Model R → ℕ → List R → Try (Option R × List R)
  unfolding restore_row
  restore_by_pk m pk rows =
      if m.soft_delete_enabled
      then good (restore_row m pk rows (get m.id pk rows))
      else bad "restore_by_pk requires soft_delete_enabled"

  -- The rows that a purge is about; without `older_than`, all that are deleted.
  unfoldable pub purgeable : Model R → Option ℕ → R → Bool
  purgeable m none r = m.is_deleted r
  purgeable m (some cutoff) r = m.is_deleted r && at_most cutoff (m.deleted_at r)

  -- A limited purge takes the keys of the first rows in the order of the database's scan.
  unfoldable pub purge_rows :
      Model R → Option ℕ → Option ℕ → (List R → List R) → List R → ℕ × List R
  unfolding purgeable
  purge_rows m cutoff none scan rows =
      (length (filter (purgeable m cutoff) rows), filter (λ r. not (purgeable m cutoff r)) rows)
  purge_rows m cutoff (some limit) scan rows =
      let chosen = take limit (scan (filter (purgeable m cutoff) rows)) in
      let hit = λ (r : R). any (λ c. m.id c == m.id r) chosen in
      (length (filter hit rows), filter (λ r. not (hit r)) rows)

  unfoldable pub purge_soft_deleted :
      Model R → Option ℕ → Option ℕ → (List R → List R) → List R → Try (ℕ × List R)
  unfolding purge_rows
  purge_soft_deleted m cutoff limit scan rows =
      if not m.soft_delete_enabled
      then bad "purge_soft_deleted requires soft_delete_enabled"
      else if is_given cutoff && not m.deleted_at_column
      then bad "purge_soft_deleted(older_than=...) requires deleted_at_column to be configured."
      else if is_zero limit
      then bad "purge_soft_deleted(limit=...) must be positive."
      else good (purge_rows m cutoff limit scan rows)
