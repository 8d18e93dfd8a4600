-- ===== src/Search/Projection/Stages.antt =====
-- projection.py: which items and ids the stages of `sync_snapshot` are about.
use app_common.Common.{
  String, Bool, true, false, not, ◌&&◌, ◌||◌, Option, none, some, List, [], ◌∷◌, map, ◌≡◌, refl, ap,
  ◌∙◌, sym, arith, str_eq, eq_iff, Bool-cases, ◌⊎◌, inl, inr, if◌then◌else◌, filter, any, find,
}
use app_common.Vector.{is_some, lookup}
use app_common.Vector.Laws.{applied}
use app_common.Vector.Laws.Payloads.{replace_at, replaced, remove_at}
use app_common.Search.Schemas.{ProjectionItem}
use app_common.Search.Projection.{
  insert_text, sorted, is_embed, has_id, duplicated, task, changed, stale,
}
use app_common.Search.Projection.Effects.{place}
use app_common.Search.Projection.Refreshing.{is_refresh, updates}

any-insert_text :
    (p : String → Bool) (x : String) (ys : List String)
    → any p (insert_text x ys) ≡ (p x || any p ys)
any-insert_text p x [] = refl
any-insert_text p x (y ∷ ys) = ground (arith, any-insert_text p x ys)

any-sorted : (p : String → Bool) (xs : List String) → any p (sorted xs) ≡ any p xs
any-sorted p [] = refl
any-sorted p (x ∷ xs) = any-insert_text p x (sorted xs) ∙ ap (λ b. p x || b) (any-sorted p xs)

-- A delete leaves nothing under the ids that it names.
pub applied-remove_at :
    {P : Type 0} (k : String) (ids : List String) (b : Option P)
    → applied (remove_at k) ids b ≡ (if any (λ id. str_eq id k) ids then none else b)
applied-remove_at k [] b = refl
applied-remove_at k (id ∷ ids) b = ground (arith, applied-remove_at k ids (remove_at k id b))

module _ {P : Type 0} where
  any-has_id :
      (j k : String) (items : List (ProjectionItem P))
      → j ≡ k
      → any (has_id j) items ≡ any (has_id k) items
  any-has_id j k items e = ap (λ n. any (has_id n) items) e

  -- The item found is the first one, and no other has its id, or it stands further down.
  find-cases :
      (k : String) (j : ProjectionItem P) (js : List (ProjectionItem P)) (i : ProjectionItem P)
      → duplicated (j ∷ js) ≡ false
      → find (has_id k) (j ∷ js) ≡ some i
      → ((j ≡ i) × (str_eq j.id k ≡ true) × (any (has_id k) js ≡ false))
        ⊎ ((str_eq j.id k ≡ false) × (duplicated js ≡ false) × (find (has_id k) js ≡ some i))
  unfolding duplicated
  find-cases k j js i distinct found = elim (Bool-cases (str_eq j.id k)) [
    | inl here ↦
        let at_head : some j ≡ some i = rw here at found in
        let absent : any (has_id j.id) js ≡ false = ground arith in
        inl (cc, here, sym (any-has_id j.id k js ((eq_iff j.id k).0 here)) ∙ absent)
    | inr other ↦ inr (other, ground arith, rw other at found)
  ]

  any-left :
      (items : List (ProjectionItem P)) (k : String) (existing : List (String × P))
      → any
          (λ id. str_eq id k)
          (filter (λ id. not (any (has_id id) items)) (map (λ (e : String × P). e.0) existing))
        ≡ (is_some (lookup k existing) && not (any (has_id k) items))
  any-left items k [] = refl
  any-left items k ((j, p) ∷ existing) = elim (Bool-cases (str_eq j k)) [
    | inl here ↦
        ground (arith, any-left items k existing, any-has_id j k items ((eq_iff j k).0 here))
    | inr other ↦ ground (arith, any-left items k existing)
  ]

  -- The stale ids are those of the store that no item has.
  pub any-stale :
      (items : List (ProjectionItem P)) (k : String) (existing : List (String × P))
      → any (λ id. str_eq id k) (stale existing items)
        ≡ (is_some (lookup k existing) && not (any (has_id k) items))
  unfolding stale
  any-stale items k existing = any-sorted (λ id. str_eq id k) _ ∙ any-left items k existing

  module _ (fingerprint : P → Option String) (same : P → P → Bool) (existing : List (String × P))
      (k : String) where
    pub changed-absent :
        (items : List (ProjectionItem P)) (b : Option P)
        → any (has_id k) items ≡ false
        → applied (place k) (changed fingerprint same existing items) b ≡ b
    unfolding changed
    changed-absent [] b h = refl
    changed-absent (i ∷ is) b h = ground (arith, changed-absent is b)

    pub updates-absent :
        (items : List (ProjectionItem P)) (b : Option P)
        → any (has_id k) items ≡ false
        → applied (replace_at k) (updates fingerprint same existing items) b ≡ b
    updates-absent [] b h = refl
    updates-absent (i ∷ is) b h = ground (arith, updates-absent is b)

    pub changed-present :
        (items : List (ProjectionItem P)) (b : Option P) (i : ProjectionItem P)
        → duplicated items ≡ false
        → find (has_id k) items ≡ some i
        → applied (place k) (changed fingerprint same existing items) b
          ≡ (if is_embed (task fingerprint same existing i) then some i.payload else b)
    unfolding changed duplicated
    changed-present [] b i distinct found = cc
    changed-present (j ∷ js) b i distinct found = elim (find-cases k j js i distinct found) [
      | inl (same_item, here, absent) ↦
          rw (← same_item) (ground (arith, changed-absent js b, changed-absent js (some j.payload)))
      | inr (other, tail, later) ↦ ground (arith, changed-present js b i tail later)
    ]

    pub updates-present :
        (items : List (ProjectionItem P)) (b : Option P) (i : ProjectionItem P)
        → duplicated items ≡ false
        → find (has_id k) items ≡ some i
        → applied (replace_at k) (updates fingerprint same existing items) b
          ≡ (if is_refresh (task fingerprint same existing i) then replaced i.payload b else b)
    unfolding duplicated
    updates-present [] b i distinct found = cc
    updates-present (j ∷ js) b i distinct found = elim (find-cases k j js i distinct found) [
      | inl (same_item, here, absent) ↦
          rw (← same_item)
            (ground (arith, updates-absent js b, updates-absent js (replaced j.payload b)))
      | inr (other, tail, later) ↦ ground (arith, updates-present js b i tail later)
    ]
