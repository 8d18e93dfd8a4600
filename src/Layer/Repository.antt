-- ===== src/Layer/Repository.antt =====
-- base/repos/base.py: `BaseRepository` over a table of rows. A model with its configuration is a
-- record of what the statements read and set on a row; a composite key is its number. A WHERE clause
-- is the list of its conditions, an ORDER BY a function that reorders rows. `rowcount` is the number
-- of the rows that a statement met.
pub mod Counting
mod Examples
pub mod Deleting
pub mod Writing
use app_common.Common.{
  ℕ, zero, suc, ◌+◌, ◌-◌, String, Bool, true, false, not, ◌&&◌, ◌||◌, Option, none, some, List, [],
  ◌∷◌, ◌++◌, ltb, leb, ◌==◌, if◌then◌else◌, length, filter, any, all, find, take, drop,
}
use app_common.Table.{get, update_where}
use app_common.Layer.Services.{Try, good, bad}

pub record Model (R : Type 0) : Type 0 where
  pub id : R → ℕ
  pub soft_delete_enabled : Bool
  pub is_deleted : R → Bool
  pub deleted_at_column : Bool
  pub deleted_at : R → Option ℕ
  pub soft_delete_values : ℕ → R → R
  pub restored : R → R
  pub default_order_by : List R → List R

-- An argument that Python lets be negative.
pub data Amount : Type 0 where
  amount : ℕ → Amount
  negative : Amount

abbrev pub checked : {A : Type 0} → Try (Unit {0}) → A → Try A
checked (good u) a = good a
checked (bad e) a = bad e

module _ {R : Type 0} where
  unfoldable pub assert_soft_delete_readable : Model R → Bool → Try (Unit {0})
  assert_soft_delete_readable m include_deleted =
      if include_deleted && not m.soft_delete_enabled
      then bad "include_deleted=True requires soft_delete_enabled"
      else good tt

  unfoldable pub active_rows_filter : Model R → Bool → R → Bool
  active_rows_filter m include_deleted r =
      if not m.soft_delete_enabled || include_deleted then true else not (m.is_deleted r)

  unfoldable pub matches : Model R → List (R → Bool) → Bool → R → Bool
  unfolding active_rows_filter
  matches m conditions include_deleted r =
      active_rows_filter m include_deleted r && all (λ c. c r) conditions

  abbrev pub ordered : Model R → Option (List R → List R) → List R → List R
  ordered m none rows = m.default_order_by rows
  ordered m (some order_by) rows = order_by rows

  unfoldable pub select :
      Model R → List (R → Bool) → Option (List R → List R) → Bool → List R → List R
  unfolding matches
  select m conditions order_by include_deleted rows =
      ordered m order_by (filter (matches m conditions include_deleted) rows)

  abbrev head : List R → Option R
  head [] = none
  head (r ∷ rs) = some r

  -- `get`: the first row of the selection.
  unfoldable pub get_first :
      Model R → List (R → Bool) → Option (List R → List R) → Bool → List R → Try (Option R)
  unfolding assert_soft_delete_readable select
  get_first m conditions order_by include_deleted rows =
      checked (assert_soft_delete_readable m include_deleted)
        (head (select m conditions order_by include_deleted rows))

  abbrev pub screened : Model R → Bool → Option R → Option R
  screened m include_deleted none = none
  screened m include_deleted (some r) =
      if m.soft_delete_enabled && not include_deleted && m.is_deleted r then none else some r

  unfoldable pub get_by_pk : Model R → ℕ → Bool → List R → Try (Option R)
  unfolding assert_soft_delete_readable
  get_by_pk m pk include_deleted rows =
      checked (assert_soft_delete_readable m include_deleted)
        (screened m include_deleted (get m.id pk rows))

  unfoldable pub exists : Model R → List (R → Bool) → Bool → List R → Try Bool
  unfolding assert_soft_delete_readable matches
  exists m conditions include_deleted rows =
      checked (assert_soft_delete_readable m include_deleted)
        (any (matches m conditions include_deleted) rows)

  unfoldable pub get_all :
      Model R → List (R → Bool) → Option (List R → List R) → Bool → List R → Try (List R)
  unfolding assert_soft_delete_readable select
  get_all m conditions order_by include_deleted rows =
      checked (assert_soft_delete_readable m include_deleted)
        (select m conditions order_by include_deleted rows)

pub record PaginatedList (R : Type 0) : Type 0 where
  pub items : List R
  pub total_count : Option ℕ

abbrev pub page : {R : Type 0} → ℕ → Option ℕ → List R → List R
page offset none rows = drop offset rows
page offset (some limit) rows = take limit (drop offset rows)

-- Whether the page alone tells the number of all rows: `limit is None or (len(data) < limit and …)`.
abbrev pub tells_total : ℕ → Option ℕ → ℕ → Bool
tells_total offset none got = true
tells_total offset (some limit) got = ltb got limit && (ltb 0 got || offset == 0)

module _ {R : Type 0} where
  -- A listing with an offset and a limit that are not negative.
  unfoldable pub listed :
      Model R
      → List (R → Bool)
      → Option (List R → List R)
      → Bool
      → Bool
      → ℕ
      → Option ℕ
      → List R
      → PaginatedList R
  unfolding select matches
  listed m conditions order_by include_deleted skip_count offset limit rows =
      let got = page offset limit (select m conditions order_by include_deleted rows) in
      record {
        items = got;
        total_count =
            if skip_count
            then none
            else some (
                if tells_total offset limit (length got)
                then offset + length got
                else length (filter (matches m conditions include_deleted) rows));
      }

  abbrev with_amounts :
      Option Amount → Amount → (ℕ → Option ℕ → PaginatedList R) → Try (PaginatedList R)
  with_amounts (some negative) offset list = bad "Limit must be non-negative."
  with_amounts limit negative list = bad "Offset must be non-negative."
  with_amounts none (amount offset) list = good (list offset none)
  with_amounts (some (amount limit)) (amount offset) list = good (list offset (some limit))

  abbrev after_check : Try (Unit {0}) → Try (PaginatedList R) → Try (PaginatedList R)
  after_check (good u) result = result
  after_check (bad e) result = bad e

  unfoldable pub get_page :
      Model R
      → List (R → Bool)
      → Option (List R → List R)
      → Bool
      → Bool
      → Amount
      → Option Amount
      → List R
      → Try (PaginatedList R)
  unfolding assert_soft_delete_readable listed
  get_page m conditions order_by include_deleted skip_count offset limit rows =
      after_check (assert_soft_delete_readable m include_deleted) (
        with_amounts limit offset
          (λ o l. listed m conditions order_by include_deleted skip_count o l rows))

  -- A DELETE, or the UPDATE that stands for it, of the rows that pass: how many it met, and the table.
  unfoldable pub delete_rows : Model R → ℕ → (R → Bool) → List R → ℕ × List R
  unfolding active_rows_filter
  delete_rows m now hit rows =
      if m.soft_delete_enabled
      then (
        length (filter (λ r. hit r && active_rows_filter m false r) rows),
        update_where (λ r. hit r && active_rows_filter m false r) (m.soft_delete_values now) rows,
      )
      else (length (filter hit rows), filter (λ r. not (hit r)) rows)

  unfoldable pub delete_by_pk : Model R → ℕ → ℕ → List R → Bool × List R
  unfolding delete_rows
  delete_by_pk m now pk rows =
      let (count, rows') = delete_rows m now (λ r. m.id r == pk) rows in (ltb 0 count, rows')

  abbrev pub is_in : Model R → List ℕ → R → Bool
  is_in m pks r = any (λ pk. m.id r == pk) pks

  -- `for i in range(0, len(pks), BATCH_SIZE)`, on as much fuel as there are keys.
  -- The clock is read for each batch.
  unfoldable pub delete_batches : Model R → (ℕ → ℕ) → ℕ → ℕ → List ℕ → List R → ℕ × List R
  unfolding delete_rows
  delete_batches m clock batch zero pks rows = (0, rows)
  delete_batches m clock batch (suc n) [] rows = (0, rows)
  delete_batches m clock batch (suc n) (pk ∷ pks) rows =
      let (count, rows') = delete_rows m (clock n) (is_in m (take batch (pk ∷ pks))) rows in
      let (rest, rows'') = delete_batches m clock batch n (drop batch (pk ∷ pks)) rows' in
      (count + rest, rows'')

  unfoldable pub delete_by_pk_multi : Model R → ℕ → (ℕ → ℕ) → List ℕ → List R → ℕ × List R
  unfolding delete_batches
  delete_by_pk_multi m batch clock pks rows = delete_batches m clock batch (length pks) pks rows
