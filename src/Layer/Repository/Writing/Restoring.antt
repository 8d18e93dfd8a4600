-- ===== src/Layer/Repository/Writing/Restoring.antt =====
-- A row that is deleted softly and then restored.
use app_common.Common.{
  ℕ, ◌≡◌, ap, ◌∙◌, true, false, ◌&&◌, none, some, List, [], ◌∷◌, ◌==◌, if◌then◌else◌, arith,
}
use mathlib.Core.Option
use app_common.Table.{get, update_where, id-get, get-update_where}
use app_common.Layer.Services.{good}
use app_common.Layer.Repository.{
  Model, active_rows_filter, assert_soft_delete_readable, get_by_pk, delete_by_pk,
}
use app_common.Layer.Repository.Deleting.{Marks, delete_rows-soft}
use app_common.Layer.Repository.Writing.{restore_by_pk, restore_row}

module _ {R : Type 0} (m : Model R) (k : Marks m) (soft : m.soft_delete_enabled ≡ true) where
  marked_row :
      (now pk : ℕ) (rows : List R) (r : R)
      → get m.id pk rows ≡ some r
      → m.is_deleted r ≡ false
      → get m.id pk (
          update_where
            (λ x. m.id x == pk && active_rows_filter m false x)
            (m.soft_delete_values now)
            rows)
        ≡ some (m.soft_delete_values now r)
  unfolding active_rows_filter
  marked_row now pk [] r found live = cc
  marked_row now pk (x ∷ rows) r found live =
      ground (arith, soft, k.kept now x, found, live, marked_row now pk rows r)

  deleted_row :
      (now pk : ℕ) (rows : List R) (r : R)
      → get m.id pk rows ≡ some r
      → m.is_deleted r ≡ false
      → get m.id pk (delete_by_pk m now pk rows).1 ≡ some (m.soft_delete_values now r)
  unfolding delete_by_pk
  deleted_row now pk rows r found live =
      ap (λ p. get m.id pk p.1) (delete_rows-soft m k now (λ x. m.id x == pk) rows soft)
      ∙ marked_row now pk rows r found live

  -- In a model with soft deletion, whose mark can be set and cleared without a change of the key,
  -- a row that could be seen is not found by its key once it is deleted; restoring it by that key
  -- returns it with the mark cleared, and from then on it is found again.
  pub restore-delete_by_pk :
      (now pk : ℕ) (rows : List R) (r : R)
      → get m.id pk rows ≡ some r
      → m.is_deleted r ≡ false
      → ((x : R) → m.is_deleted (m.restored x) ≡ false)
      → ((x : R) → m.id (m.restored x) ≡ m.id x)
      → let back = m.restored (m.soft_delete_values now r) in
        let after = (delete_by_pk m now pk rows).1 in
        (get_by_pk m pk false after ≡ good none)
        × (again : List R) × (restore_by_pk m pk after ≡ good (some back, again))
        × (get_by_pk m pk false again ≡ good (some back))
  unfolding get_by_pk assert_soft_delete_readable restore_by_pk restore_row
  restore-delete_by_pk now pk rows r found live clears keeps =
      let there = deleted_row now pk rows r found live in
      let after = (delete_by_pk m now pk rows).1 in
      let again = update_where (λ x. m.id x == pk) m.restored after in
      let same = id-get m.id pk after (m.soft_delete_values now r) there in
      let refound : get m.id pk again ≡ some (m.restored (m.soft_delete_values now r)) =
        get-update_where m.id (λ x. m.id x == pk) m.restored keeps pk after
        ∙ ap (Option.map (λ x. if m.id x == pk then m.restored x else x)) there
        ∙ ground (arith, same) in
      (
        ground (arith, there, soft, k.marked now r),
        again,
        ground (arith, there, soft, k.marked now r),
        ground (arith, refound, soft, clears (m.soft_delete_values now r)),
      )
