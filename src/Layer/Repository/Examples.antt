-- ===== src/Layer/Repository/Examples.antt =====
-- Tests of the repository, and its theorems at concrete inputs.
use app_common.Common.{
  ℕ, ◌≡◌, refl, Bool, true, false, Option, none, some, List, [], ◌∷◌, length, filter, arith,
}
use app_common.Layer.Services.{good, bad}
use app_common.Layer.Repository.{
  Model, negative, matches, listed, get_page, get_by_pk, delete_by_pk, delete_by_pk_multi,
}
use app_common.Layer.Repository.Counting.{reported, listed-total_count}
use app_common.Layer.Repository.Deleting.{Marks, seen, delete_by_pk_multi-seen}
use app_common.Layer.Repository.Writing.{restore_by_pk, purge_soft_deleted, update_by_pk}
use app_common.Layer.Repository.Writing.Restoring.{restore-delete_by_pk}

record Book : Type 0 where
  key : ℕ
  gone : Bool
  gone_at : Option ℕ

abbrev books : Model Book
books = record {
  id = λ b. b.key;
  soft_delete_enabled = true;
  is_deleted = λ b. b.gone;
  deleted_at_column = true;
  deleted_at = λ b. b.gone_at;
  soft_delete_values = λ t b. record b { gone = true; gone_at = some t };
  restored = λ b. record b { gone = false; gone_at = none };
  default_order_by = λ rows. rows;
}

abbrev book : ℕ → Book
book i = record { key = i; gone = false; gone_at = none }

abbrev shelf : List Book
shelf = book 1 ∷ record { key = 2; gone = true; gone_at = some 5 } ∷ book 3 ∷ []

books-Marks : Marks books
books-Marks = record { marked = λ t b. refl; kept = λ t b. refl }

-- Two books can be seen; an offset of five without a limit reports five.
past_end_test : (listed books [] none false false 5 none shelf).total_count ≡ some 5
unfolding listed
past_end_test = refl

limited_test : (listed books [] none false false 5 (some 10) shelf).total_count ≡ some 2
unfolding listed
limited_test = refl

negative_test :
    get_page books [] none false false negative none shelf ≡ bad "Offset must be non-negative."
unfolding get_page
negative_test = refl

purge_test :
    purge_soft_deleted books (some 9) none (λ rows. rows) shelf ≡ good (1, book 1 ∷ book 3 ∷ [])
unfolding purge_soft_deleted
purge_test = refl

update_missing_test : update_by_pk books 2 none true shelf ≡ good (none, shelf)
unfolding update_by_pk
update_missing_test = refl

listed-total_count_example :
    (listed books [] none false false 5 none shelf).total_count
    ≡ some (reported 5 none (length (filter (matches books [] false) shelf)))
listed-total_count_example = listed-total_count books [] none false 5 none shelf (λ xs. refl)

delete_by_pk_multi-seen_example :
    ((delete_by_pk_multi books 2 (λ n. n) (1 ∷ 2 ∷ 3 ∷ 3 ∷ []) shelf).0
      ≡ seen books books-Marks (1 ∷ 2 ∷ 3 ∷ 3 ∷ []) shelf)
    × (seen books books-Marks
          (1 ∷ 2 ∷ 3 ∷ 3 ∷ [])
          (delete_by_pk_multi books 2 (λ n. n) (1 ∷ 2 ∷ 3 ∷ 3 ∷ []) shelf).1
        ≡ 0)
delete_by_pk_multi-seen_example =
    delete_by_pk_multi-seen books books-Marks 2 (λ n. n) (1 ∷ 2 ∷ 3 ∷ 3 ∷ []) shelf (omega arith)

restore-delete_by_pk_example :
    let back = books.restored (books.soft_delete_values 7 (book 3)) in
    let after = (delete_by_pk books 7 3 shelf).1 in
    (get_by_pk books 3 false after ≡ good none)
    × (again : List Book) × (restore_by_pk books 3 after ≡ good (some back, again))
    × (get_by_pk books 3 false again ≡ good (some back))
restore-delete_by_pk_example =
    restore-delete_by_pk books books-Marks refl 7 3 shelf (book 3) refl refl (λ b. refl) (λ b. refl)
