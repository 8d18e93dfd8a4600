-- ===== src/Layer/Hooks.antt =====
-- base/services/hooks.py, exists_check_hook.py, unique_constraints_hook.py and
-- nested_resource_hook.py: hooks that services share. A condition on rows is a test, a key is a
-- number.
mod Examples
pub mod Unique
pub mod Nested
use app_common.Common.{
  ℕ, String, Bool, true, false, not, ◌&&◌, Option, none, some, List, [], ◌∷◌, ◌==◌, if◌then◌else◌,
  filter, any, map,
}
use app_common.Layer.Repository.{Model, get_by_pk, get_all, exists, is_in}
use app_common.Layer.Services.{Try, good, bad, Context, Hook, MultiHook}

-- An `@asynccontextmanager` that checks, yields, and does nothing afterwards.
abbrev pub checking : {S : Type 0} → (S → Try (Unit {0})) → Context S
checking check = record { enter = λ s. (check s, s); exit = λ x s. (x, s) }

-- The defaults: no check, and fields and results as they are.
abbrev pub hook_with : {S In F A : Type 0} → (In → S → Try (Unit {0})) → Hook S In F A
hook_with check = record {
  context = λ i. checking (check i);
  prepare = λ i f s. (good f, s);
  post = λ i a s. (good a, s);
}

abbrev pub ensure : Bool → String → Try (Unit {0})
ensure true message = good tt
ensure false message = bad message

abbrev pub found : {R : Type 0} → Option R → Bool
found none = false
found (some r) = true

abbrev pub try_then : {A B : Type 0} → Try A → (A → Try B) → Try B
try_then (good a) f = f a
try_then (bad x) f = bad x

-- The checks read the table of their model.
module _ {R : Type 0} (m : Model R) where
  -- `ExistsCheckHook`
  unfoldable pub exists_check : ℕ → List R → Try (Unit {0})
  unfolding get_by_pk
  exists_check pk rows =
      try_then (get_by_pk m pk false rows) (λ o. ensure (found o) "NotFoundException")

  abbrev pub missing : List R → List ℕ → List ℕ
  missing existing pks = filter (λ pk. not (any (λ r. m.id r == pk) existing)) pks

  abbrev pub none_missing : List ℕ → Try (Unit {0})
  none_missing [] = good tt
  none_missing (pk ∷ pks) = bad "NotFoundException"

  -- One query for all keys.
  unfoldable pub exists_check_multi : List ℕ → List R → Try (Unit {0})
  unfolding get_all
  exists_check_multi [] rows = good tt
  exists_check_multi (pk ∷ pks) rows =
      try_then (get_all m (is_in m (pk ∷ pks) ∷ []) none false rows)
        (λ existing. none_missing (missing existing (pk ∷ pks)))

  -- `UniqueConstraintHook`, with the conditions and messages that `constraints` yields.
  abbrev pub is_not : Option ℕ → R → Bool
  is_not none r = true
  is_not (some pk) r = not (m.id r == pk)

  unfoldable pub check_unique : Option ℕ → List ((R → Bool) × String) → List R → Try (Unit {0})
  unfolding exists
  check_unique exclude_pk [] rows = good tt
  check_unique exclude_pk ((condition, message) ∷ rest) rows =
      let later = check_unique exclude_pk rest rows in
      try_then (exists m ((λ r. condition r && is_not exclude_pk r) ∷ []) false rows)
        (λ b. if b then bad message else later)

  -- `NestedResourceHook`: a child through the wrong parent is refused, a missing one is left alone.
  module _ (parent_of : R → ℕ) (parent_id : ℕ) where
    abbrev pub owned : Option R → Try (Unit {0})
    owned none = good tt
    owned (some r) = ensure (parent_of r == parent_id) "NotFoundException"

    unfoldable pub ensure_ownership : ℕ → List R → Try (Unit {0})
    unfolding get_by_pk
    ensure_ownership pk rows = try_then (get_by_pk m pk false rows) owned

    abbrev pub all_owned : List R → Try (Unit {0})
    all_owned [] = good tt
    all_owned (r ∷ rs) =
        let rest = all_owned rs in
        if parent_of r == parent_id then rest else bad "NotFoundException"

    unfoldable pub ensure_ownership_multi : List ℕ → List R → Try (Unit {0})
    unfolding get_all
    ensure_ownership_multi [] rows = good tt
    ensure_ownership_multi (pk ∷ pks) rows =
        try_then (get_all m (is_in m (pk ∷ pks) ∷ []) none false rows) all_owned

    -- `get_multi_prepare_filters`
    abbrev pub child_filter : R → Bool
    child_filter r = parent_of r == parent_id

-- The parent's repository has a table of its own.
unfoldable pub check_parent_exists : {P : Type 0} → Model P → ℕ → List P → Try (Unit {0})
unfolding exists_check
check_parent_exists parents parent_id rows = exists_check parents parent_id rows
