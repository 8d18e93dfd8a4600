-- ===== src/Search/Projection/Settled.antt =====
-- projection.py: the stages of `sync_snapshot` on the payload under one id, against the abstract view.
use app_common.Common.{
  String, Bool, true, false, ◌&&◌, Option, none, some, List, [], ◌∷◌, ◌≡◌, ◌⊎◌, refl, ap, ◌∙◌, sym,
  subst, arith, eq_iff, if◌then◌else◌, any, find, Bool-cases, inl, inr,
}
use app_common.Vector.{is_some, lookup}
use app_common.Vector.Laws.{applied}
use app_common.Vector.Laws.Payloads.{replace_at, replaced, remove_at}
use app_common.Search.Schemas.{ProjectionItem}
use app_common.Search.Projection.{
  is_embed, same_print, task_of, has_id, duplicated, task, changed, stale,
}
use app_common.Search.Projection.Effects.{place}
use app_common.Search.Projection.Refreshing.{is_refresh, updates}
use app_common.Search.Projection.Stages.{
  applied-remove_at, any-stale, changed-absent, updates-absent, changed-present, updates-present,
}

-- What the store has under an id once it reflects the snapshot, by the snapshot's item with that id,
-- what the inventory says of the id, and what was there before: the item's payload, or the payload
-- of the inventory if that has the same fingerprint and the test of equality takes the two for equal.
abbrev pub Projected :
    {P : Type 0}
    → (P → Option String)
    → (P → P → Bool)
    → Option (ProjectionItem P)
    → Option P
    → Option P
    → Option P
    → Type 0
Projected fingerprint same (some i) known before after =
    (p : _) × (after ≡ some p)
    × ((p ≡ i.payload)
        ⊎ ((known ≡ some p)
            × (same_print (fingerprint p) (fingerprint i.payload) ≡ true)
            × (same p i.payload ≡ true)))
Projected fingerprint same none (some p) before after = after ≡ none
Projected fingerprint same none none before after = after ≡ before

&&-false : (b : Bool) → (b && false) ≡ false
&&-false true = refl
&&-false false = refl

find-none : {A : Type 0} (p : A → Bool) (xs : List A) → find p xs ≡ none → any p xs ≡ false
find-none p [] h = refl
find-none p (x ∷ xs) h = ground (arith, find-none p xs)

find-some :
    {A : Type 0} (p : A → Bool) (xs : List A) (x : A)
    → find p xs ≡ some x
    → (p x ≡ true) × (any p xs ≡ true)
find-some p [] x h = absurd (cc)
find-some p (y ∷ ys) x h = elim (Bool-cases (p y)) [
  | inl here ↦
      let at_head : some y ≡ some x = rw here at h in
      let same : y ≡ x = cc in (subst (λ z. p z ≡ true) same here, ground arith)
  | inr other ↦ let later = find-some p ys x (rw other at h) in (later.0, ground arith)
]

module _ {P : Type 0} (fingerprint : P → Option String) (same : P → P → Bool)
    (items : List (ProjectionItem P)) (existing : List (String × P)) (k : String) where
  -- An item that is embedded or refreshed has its payload in the store, and so has one that is skipped.
  settled :
      (i : ProjectionItem P) (known before : Option P)
      → task fingerprint same existing i ≡ task_of fingerprint same existing i known
      → ((p : P) → known ≡ some p → before ≡ some p)
      → Projected fingerprint same (some i) known before (
          if is_refresh (task fingerprint same existing i)
          then replaced i.payload
              (if is_embed (task fingerprint same existing i) then some i.payload else before)
          else (if is_embed (task fingerprint same existing i) then some i.payload else before))
  settled i none before e inventory = rw e (i.payload, refl, inl refl)
  settled i (some p) before e inventory =
      rw (e, inventory p refl)
        (elim (Bool-cases (same_print (fingerprint p) (fingerprint i.payload))) [
          | inl alike ↦ elim (Bool-cases (same p i.payload)) [
            | inl equal ↦ rw (alike, equal) (p, refl, inr (refl, alike, equal))
            | inr differs ↦ rw (alike, differs) (i.payload, refl, inl refl)
          ]
          | inr stale_print ↦ rw stale_print (i.payload, refl, inl refl)
        ])

  removed :
      (known before : Option P)
      → Projected fingerprint same none known before
          (if is_some known && true then none else before)
  removed none before = refl
  removed (some p) before = refl

  -- The stages, one after another, on the payload under `k`.
  abbrev written : Option P → Option P
  written before = applied (remove_at k) (stale existing items) (
      applied (replace_at k) (updates fingerprint same existing items)
        (applied (place k) (changed fingerprint same existing items) before))

  pub stages :
      (before : Option P)
      → duplicated items ≡ false
      → ((p : P) → lookup k existing ≡ some p → before ≡ some p)
      → Projected fingerprint same
          (find (has_id k) items)
          (lookup k existing)
          before
          (written before)
  unfolding task
  stages before distinct inventory = by_item (find (has_id k) items) refl
    where
      by_item :
          (found : Option (ProjectionItem P))
          → find (has_id k) items ≡ found
          → Projected fingerprint same found (lookup k existing) before (written before)
      by_item none e =
          let missing = find-none (has_id k) items e in
          subst (Projected fingerprint same none (lookup k existing) before)
            (sym (
              applied-remove_at k (stale existing items) _
              ∙ rw
                  (
                    any-stale items k existing,
                    missing,
                    changed-absent fingerprint same existing k items before missing,
                    updates-absent fingerprint same existing k items before missing,
                  )
                  refl))
            (removed (lookup k existing) before)
      by_item (some i) e =
          let (here, there) = find-some (has_id k) items i e in
          let own : i.id ≡ k = (eq_iff i.id k).0 here in
          subst (Projected fingerprint same (some i) (lookup k existing) before)
            (sym (
              applied-remove_at k (stale existing items) _
              ∙ rw
                  (
                    any-stale items k existing,
                    there,
                    changed-present fingerprint same existing k items before i distinct e,
                    updates-present fingerprint same existing k items _ i distinct e,
                    &&-false (is_some (lookup k existing)),
                  )
                  refl))
            (settled i (lookup k existing) before
              (ap (λ n. task_of fingerprint same existing i (lookup n existing)) own) inventory)
