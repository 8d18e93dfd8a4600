-- ===== src/Layer/Hooks/Examples.antt =====
-- Tests of the shared hooks, and their theorems at concrete inputs.
use app_common.Common.{
  ℕ, ◌≡◌, ◌≢◌, refl, subst, String, Bool, true, false, none, some, List, [], ◌∷◌, str_eq,
}
use app_common.Layer.Services.{good, bad, raised}
use app_common.Layer.Repository.{Model, active_rows_filter, delete_by_pk}
use app_common.Layer.Hooks.{
  exists_check_multi, ensure_ownership, ensure_ownership_multi, check_unique,
}
use app_common.Layer.Services.Operations.{delete}
use app_common.Layer.Hooks.Unique.{visible, unique_create, unique_create-Distinct}
use app_common.Layer.Hooks.Nested.{foreign, is_own, nested_delete, nested_delete-foreign}
use app_common.Common.Members.{Distinct}

record Chapter : Type 0 where
  key : ℕ
  book : ℕ
  title : String
  gone : Bool

abbrev chapters : Model Chapter
chapters = record {
  id = λ c. c.key;
  soft_delete_enabled = true;
  is_deleted = λ c. c.gone;
  deleted_at_column = false;
  deleted_at = λ c. none;
  soft_delete_values = λ t c. record c { gone = true };
  restored = λ c. record c { gone = false };
  default_order_by = λ rows. rows;
}

abbrev chapter : ℕ → ℕ → String → Chapter
chapter i book title = record { key = i; book = book; title = title; gone = false }

abbrev library : List Chapter
library = chapter 1 10 "intro" ∷ chapter 2 20 "setup" ∷ []

missing_test : exists_check_multi chapters (1 ∷ 3 ∷ []) library ≡ bad "NotFoundException"
unfolding exists_check_multi
missing_test = refl

stranger_test :
    ensure_ownership_multi chapters (λ c. c.book) 10 (1 ∷ 2 ∷ []) library ≡ bad "NotFoundException"
unfolding ensure_ownership_multi
stranger_test = refl

-- A row does not stand in its own way.
own_row_test :
    check_unique chapters (some 1) (((λ c. str_eq c.title "intro"), "taken") ∷ []) library ≡ good tt
unfolding check_unique
own_row_test = refl

refused_test :
    nested_delete chapters (λ c. c.book) 10 5 2 library ≡ (raised "NotFoundException", library)
unfolding delete delete_by_pk ensure_ownership
refused_test = refl

nested_delete-foreign_example :
    foreign
      (is_own chapters (λ c. c.book) 10)
      (nested_delete chapters (λ c. c.book) 10 5 1 library).1
    ≡ foreign (is_own chapters (λ c. c.book) 10) library
nested_delete-foreign_example =
    nested_delete-foreign chapters (λ c. c.book) 10 5 1 library (λ t c. refl) (refl, (refl, tt))

abbrev new_chapter : String → ℕ → Chapter
new_chapter title i = chapter i 10 title

titles_differ : ◌≢◌ {A = String} "intro" "setup"
titles_differ e = let bad : false ≡ true = subst (λ t. str_eq "intro" t ≡ true) e refl in cc

unique_create-Distinct_example : Distinct (
    visible chapters
      (λ c. c.title)
      (λ d. d)
      new_chapter
      (unique_create chapters (λ c. c.title) (λ d. d) new_chapter "setup" 3 library).1)
unfolding active_rows_filter
unique_create-Distinct_example =
    unique_create-Distinct chapters (λ c. c.title) (λ d. d) new_chapter "setup" 3 library
      (λ d i. refl) ((titles_differ, tt), (tt, tt))
