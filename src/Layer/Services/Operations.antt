-- ===== src/Layer/Services/Operations.antt =====
-- base/services/base.py: the operations of a service, with its hooks and its repository. The
-- repository's statements are parameters.
pub mod Order
use app_common.Common.{ℕ, ◌-◌, Bool, Option, List, [], ◌∷◌, ◌++◌, reverse, map, length}
use app_common.Layer.Services.{
  Try, good, bad, Outcome, Context, Hook, MultiHook, and_then, outcome, with_contexts,
  prepare_fields, post_all,
}

module _ {S In F A : Type 0} where
  -- What `create` and `_update_internal` share: the contexts, the fields, the repository, the result.
  unfoldable pub operate :
      List (Hook S In F A) → (In → F → S → Try A × S) → In → F → S → Outcome A × S
  unfolding with_contexts prepare_fields post_all
  operate hooks repo i fields s =
      with_contexts (map (λ h. h.context i) hooks)
        (λ s'. outcome (
          and_then (prepare_fields hooks i fields s')
            (λ f s1. and_then (repo i f s1) (post_all (reverse hooks) i))))
        s

  unfoldable pub create :
      List (Hook S In F A) → (In → F → S → Try A × S) → In → F → S → Outcome A × S
  unfolding operate
  create create_hooks repo_create obj_data update_fields s =
      operate create_hooks repo_create obj_data update_fields s

-- PUT and PATCH: the input is the key, the data, and whether the update is partial.
unfoldable pub update_internal :
    {S Pk D F A : Type 0}
    → List (Hook S (Pk × D × Bool) F (Option A))
    → (Pk × D × Bool → F → S → Try (Option A) × S)
    → Pk
    → D
    → Bool
    → F
    → S
    → Outcome (Option A) × S
unfolding operate
update_internal update_hooks update_by_pk obj_pk obj_data partial update_fields s =
    operate update_hooks update_by_pk (obj_pk, obj_data, partial) update_fields s

module _ {S In F A : Type 0} where
  unfoldable pub prepare_each : List (MultiHook S In F A) → In → F → S → Try F × S
  prepare_each [] i f s = (good f, s)
  prepare_each (h ∷ hs) i f s = and_then (h.prepare_each i f s) (prepare_each hs i)

  -- `extra_fields_list`
  unfoldable pub prepare_multi : List (MultiHook S In F A) → List In → F → S → Try (List F) × S
  unfolding prepare_each
  prepare_multi hooks [] fields s = (good [], s)
  prepare_multi hooks (i ∷ is) fields s =
      let rest = prepare_multi hooks is fields in
      and_then (prepare_each hooks i fields s)
        (λ f s1. and_then (rest s1) (λ fs s2. (good (f ∷ fs), s2)))

  unfoldable pub post_multi : List (MultiHook S In F A) → List In → A → S → Try A × S
  post_multi [] is a s = (good a, s)
  post_multi (h ∷ hs) is a s = and_then (h.post_multi is a s) (post_multi hs is)

  unfoldable pub create_multi :
      List (MultiHook S In F A)
      → (List In → List F → S → Try A × S)
      → List In
      → F
      → S
      → Outcome A × S
  unfolding with_contexts prepare_multi post_multi
  create_multi create_hooks repo_create_multi obj_data_list update_fields s =
      with_contexts (map (λ h. h.context_multi obj_data_list) create_hooks)
        (λ s'. outcome (
          and_then (prepare_multi create_hooks obj_data_list update_fields s') (λ fs s1.
            and_then (repo_create_multi obj_data_list fs s1)
              (post_multi (reverse create_hooks) obj_data_list))))
        s

pub record DeleteResponse (Pk : Type 0) : Type 0 where
  pub success : Bool
  pub identity : Pk

pub record MultipleDeleteResponse : Type 0 where
  pub deleted_count : ℕ
  pub failed_count : ℕ

-- The operations below have no step that prepares fields.
module _ {S Pk : Type 0} where
  unfoldable pub delete :
      List (Hook S Pk (Unit {0}) (DeleteResponse Pk))
      → (Pk → S → Try Bool × S)
      → Pk
      → S
      → Outcome (DeleteResponse Pk) × S
  unfolding with_contexts post_all
  delete delete_hooks delete_by_pk obj_pk s =
      with_contexts (map (λ h. h.context obj_pk) delete_hooks)
        (λ s'. outcome (
          and_then (delete_by_pk obj_pk s') (λ success.
            post_all (reverse delete_hooks) obj_pk
              (record { success = success; identity = obj_pk }))))
        s

  -- `max(0, …)` is the subtraction of natural numbers.
  unfoldable pub delete_multi :
      List (MultiHook S Pk (Unit {0}) MultipleDeleteResponse)
      → (List Pk → S → Try ℕ × S)
      → List Pk
      → S
      → Outcome MultipleDeleteResponse × S
  unfolding with_contexts post_multi
  delete_multi delete_hooks delete_by_pk_multi obj_pks s =
      with_contexts (map (λ h. h.context_multi obj_pks) delete_hooks)
        (λ s'. outcome (
          and_then (delete_by_pk_multi obj_pks s') (λ deleted_count.
            post_multi (reverse delete_hooks) obj_pks (record {
              deleted_count = deleted_count;
              failed_count = length obj_pks - deleted_count;
            }))))
        s

unfoldable pub get :
    {S Pk A : Type 0}
    → List (Hook S Pk (Unit {0}) (Option A))
    → (Pk → S → Try (Option A) × S)
    → Pk
    → S
    → Outcome (Option A) × S
unfolding with_contexts post_all
get get_hooks get_by_pk obj_pk s =
    with_contexts (map (λ h. h.context obj_pk) get_hooks)
      (λ s'. outcome (and_then (get_by_pk obj_pk s') (post_all (reverse get_hooks) obj_pk))) s

-- The `where` of a query: none, a sequence of conditions, or one condition.
pub data Where (C : Type 0) : Type 0 where
  unset : Where C
  conditions : List C → Where C
  condition : C → Where C

unfoldable pub with_filters : {C : Type 0} → Where C → List C → Where C
with_filters unset extra = conditions extra
with_filters (conditions cs) extra = conditions (cs ++ extra)
with_filters (condition c) [] = condition c
with_filters (condition c) (f ∷ fs) = conditions (c ∷ f ∷ fs)

-- A listing: the hooks' filters are the fields that are prepared, each hook's after the others'.
unfoldable pub get_multi :
    {S C A : Type 0}
    → List (Hook S (Unit {0}) (List C) A)
    → (Where C → S → Try A × S)
    → Where C
    → S
    → Outcome A × S
unfolding with_contexts prepare_fields post_all with_filters
get_multi get_multi_hooks repo_get_multi query s =
    with_contexts (map (λ h. h.context tt) get_multi_hooks)
      (λ s'. outcome (
        and_then (prepare_fields get_multi_hooks tt [] s') (λ extra s1.
          and_then (repo_get_multi (with_filters query extra) s1)
            (post_all (reverse get_multi_hooks) tt))))
      s
