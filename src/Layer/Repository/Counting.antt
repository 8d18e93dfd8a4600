-- ===== src/Layer/Repository/Counting.antt =====
-- The total that a listing reports.
use app_common.Common.{
  ℕ, ◌+◌, ◌-◌, ◌≡◌, ap, ◌∙◌, max, min, Bool, false, Option, none, some, List, if◌then◌else◌, length,
  filter, drop, arith, length-take, length-drop,
}
use app_common.Layer.Repository.{Model, ordered, matches, select, page, tells_total, listed}

-- What a listing without a limit says, where the offset may lie behind the last row, and what one
-- with a limit says.
abbrev pub reported : ℕ → Option ℕ → ℕ → ℕ
reported offset none count = max offset count
reported offset (some limit) count = count

-- How many rows are on the page.
abbrev on_page : ℕ → Option ℕ → ℕ → ℕ
on_page offset none count = count - offset
on_page offset (some limit) count = min limit (count - offset)

total :
    (offset : ℕ) (limit : Option ℕ) (got count : ℕ)
    → got ≡ on_page offset limit count
    → (if tells_total offset limit got then offset + got else count) ≡ reported offset limit count
total offset none got count h = omega (arith, h)
total offset (some limit) got count h = ground (arith, h)

module _ {R : Type 0} where
  length-page :
      (offset : ℕ) (limit : Option ℕ) (rows : List R)
      → length (page offset limit rows) ≡ on_page offset limit (length rows)
  length-page offset none rows = length-drop offset rows
  length-page offset (some limit) rows =
      length-take limit (drop offset rows) ∙ ap (min limit) (length-drop offset rows)

  -- If the order keeps the number of rows, a listing with a limit reports how many rows match, on every
  -- page, also behind the last; one without a limit reports the larger of that number and the offset.
  pub listed-total_count :
      (m : Model R) (conditions : List (R → Bool)) (order_by : Option (List R → List R))
      (include_deleted : Bool) (offset : ℕ) (limit : Option ℕ) (rows : List R)
      → ((xs : List R) → length (ordered m order_by xs) ≡ length xs)
      → (listed m conditions order_by include_deleted false offset limit rows).total_count
        ≡ some (reported offset limit (length (filter (matches m conditions include_deleted) rows)))
  unfolding listed select
  listed-total_count m conditions order_by include_deleted offset limit rows keeps = ap some (
      total offset limit _ _ (
        length-page offset limit _
        ∙ ap (on_page offset limit) (keeps (filter (matches m conditions include_deleted) rows))))
