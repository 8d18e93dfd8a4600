-- ===== src/Search/Retrieval/Groups.antt =====
-- usecases.py: the groups of a search, and its steps that may raise.
use app_common.Common.{
  ◌≢◌, true, false, not, ◌||◌, List, [], ◌∷◌, ◌++◌, ◌≡◌, refl, ◌∙◌, sym, subst, arith, eq_iff, any,
  All, Bool-cases, inl, inr,
}
use mathlib.Core.List.{append_assoc, append-nil}
use app_common.Layer.Services.{Try, good, bad}
use app_common.Search.Filters.{Numbers, validate_payload}
use app_common.Search.Schemas.{SearchItem, SearchHit}
use app_common.Search.Retrieval.{
  identity, source, try_then, custom, SearchIndex, World, Query, Group, group_eq, is_item, is_hit,
  by_id,
}

pub try_then-good :
    {A B : Type 0} (r : Try A) (f : A → Try B) (b : B)
    → try_then r f ≡ good b
    → (a : A) × (r ≡ good a) × (f a ≡ good b)
try_then-good (bad x) f b h = absurd (cc)
try_then-good (good a) f b h = (a, refl, h)

group_eq_refl : (g : Group) → group_eq g g ≡ true
group_eq_refl (custom a) = (eq_iff a a).1 refl
group_eq_refl (source a) = (eq_iff a a).1 refl
group_eq_refl (identity a i) = ground (arith, (eq_iff a a).1 refl, (eq_iff i i).1 refl)

-- A group that no test of equality finds is another than each of them.
pub unseen :
    (g : Group) (gs : List Group) → any (group_eq g) gs ≡ false → All (λ other. g ≢ other) gs
unseen g [] h = tt
unseen g (x ∷ xs) h = (
  λ e. let found = subst (λ y. group_eq g y ≡ true) e (group_eq_refl g) in ground arith,
  unseen g xs (ground arith),
)

module _ {N : Type 0} (num : Numbers N) (index : SearchIndex) (world : World N) (q : Query N) where
  -- The items that the source answers are taken as they are.
  pub by_id-good :
      (hits : List (SearchHit N)) (seen xs current : List (SearchItem N))
      → by_id num index world q hits seen xs ≡ good current
      → current ≡ seen ++ xs
  unfolding by_id
  by_id-good hits seen [] current h =
      let same : seen ≡ current = cc in sym same ∙ sym (append-nil seen)
  by_id-good hits seen (x ∷ xs) current h =
      elim (Bool-cases (not (any (is_hit x) hits) || any (is_item x.source_id x.item_id) seen)) [
        | inl refused ↦ let e : bad _ ≡ good current = rw refused at h in absurd (cc)
        | inr accepted ↦
            let (u, valid, rest) =
              try_then-good (validate_payload num index.definitions x.filters) _ current
                (rw accepted at h) in
            by_id-good hits (seen ++ x ∷ []) xs current rest ∙ append_assoc seen (x ∷ []) xs
      ]
