-- ===== src/Search/Engine/Inventory.antt =====
-- usecases.py: the inventory that a synchronisation takes of its scope, against the points of the scope.
use app_common.Common.{
  ℕ, String, Bool, true, false, Option, none, some, List, [], ◌∷◌, ◌≡◌, ◌⊎◌, refl, ap, ◌∙◌, sym,
  subst, arith, str_eq, eq_iff, if◌then◌else◌, any, All, concat, Bool-cases, inl, inr,
}
use app_common.Vector.{is_some, lookup, Record, Client}
use app_common.Vector.Laws.{Stored, payload_of}
use app_common.Search.Filters.{Condition, on_scope}
use app_common.Search.Schemas.{ProjectionItem}
use app_common.Search.Projection.{same_print}
use app_common.Search.Projection.Settled.{Projected}
use app_common.Search.Snapshots.{fingerprint, PointPayload, in_scope, kept, inventory}

-- What Qdrant documents of a scroll: its records are points with their payloads, and a scroll by a
-- scope meets every point of the scope.
pub record IsScroll {S N I : Type 0} (c : Client S N (PointPayload N) I (List (Condition N)))
    (view : S → String → Stored N (PointPayload N)) : Type 0 where
  pub exact :
      (f : List (Condition N)) (n : ℕ) (s : S)
      → All
          (λ (r : Record (PointPayload N)). r.payload ≡ payload_of (view s r.id))
          (concat (c.scroll f n s))
  pub complete :
      (scope : String) (n : ℕ) (s : S) (k : String) (p : PointPayload N)
      → payload_of (view s k) ≡ some p
      → in_scope scope p ≡ true
      → any
          (λ (r : Record (PointPayload N)). str_eq r.id k)
          (concat (c.scroll (on_scope scope ∷ []) n s))
        ≡ true

-- The abstract view of a synchronisation of a scope, on the payload under one id: of an item of the
-- snapshot its payload, or the one before if that has the same fingerprint and passes the test of equality; nothing in
-- place of another payload of the scope; and else what was there.
abbrev pub InStep :
    {N : Type 0}
    → (PointPayload N → PointPayload N → Bool)
    → String
    → Option (ProjectionItem (PointPayload N))
    → Option (PointPayload N)
    → Option (PointPayload N)
    → Type 0
InStep same scope (some i) before after =
    (p : _) × (after ≡ some p)
    × ((p ≡ i.payload)
        ⊎ ((before ≡ some p)
            × (same_print (fingerprint p) (fingerprint i.payload) ≡ true)
            × (same p i.payload ≡ true)))
InStep same scope none none after = after ≡ none
InStep same scope none (some p) after = after ≡ (if in_scope scope p then none else some p)

module _ {N : Type 0} (scope k : String) where
  kept_sound :
      (id : String) (payload : Option (PointPayload N)) (rest : List (String × PointPayload N))
      (p : PointPayload N)
      → lookup k (kept scope id payload rest) ≡ some p
      → ((str_eq id k ≡ true) × (payload ≡ some p) × (in_scope scope p ≡ true))
        ⊎ (lookup k rest ≡ some p)
  kept_sound id none rest p h = inr h
  kept_sound id (some o) rest p h = elim (Bool-cases (in_scope scope o)) [
    | inl own ↦ elim (Bool-cases (str_eq id k)) [
      | inl here ↦
          let found : some o ≡ some p = rw (own, here) at h in
          let same : o ≡ p = cc in inl (here, found, subst (λ x. in_scope scope x ≡ true) same own)
      | inr other ↦ inr (rw (own, other) at h)
    ]
    | inr foreign ↦ inr (rw foreign at h)
  ]

  kept-later :
      (id : String) (payload : Option (PointPayload N)) (rest : List (String × PointPayload N))
      → is_some (lookup k rest) ≡ true
      → is_some (lookup k (kept scope id payload rest)) ≡ true
  kept-later id none rest h = h
  kept-later id (some p) rest h = ground arith

  -- What the inventory has under an id is in the store, and of the scope.
  pub inventory_sound :
      (rs : List (Record (PointPayload N))) (at_id : String → Option (PointPayload N))
      (p : PointPayload N)
      → All (λ (r : Record (PointPayload N)). r.payload ≡ at_id r.id) rs
      → lookup k (inventory scope rs) ≡ some p
      → (at_id k ≡ some p) × (in_scope scope p ≡ true)
  inventory_sound [] at_id p exact h = absurd (cc)
  inventory_sound (r ∷ rs) at_id p exact h =
      elim (kept_sound r.id r.payload (inventory scope rs) p h) [
        | inl (here, found, own) ↦
            (ap at_id (sym ((eq_iff r.id k).0 here)) ∙ sym exact.0 ∙ found, own)
        | inr later ↦ inventory_sound rs at_id p exact.1 later
      ]

  -- A payload of the scope whose id the scroll met is in the inventory.
  inventory_complete :
      (rs : List (Record (PointPayload N))) (at_id : String → Option (PointPayload N))
      (p : PointPayload N)
      → All (λ (r : Record (PointPayload N)). r.payload ≡ at_id r.id) rs
      → at_id k ≡ some p
      → in_scope scope p ≡ true
      → any (λ (r : Record (PointPayload N)). str_eq r.id k) rs ≡ true
      → is_some (lookup k (inventory scope rs)) ≡ true
  inventory_complete [] at_id p exact there own met = absurd (cc)
  inventory_complete (r ∷ rs) at_id p exact there own met = elim (Bool-cases (str_eq r.id k)) [
    | inl here ↦
        let payload : r.payload ≡ some p = exact.0 ∙ ap at_id ((eq_iff r.id k).0 here) ∙ there in
        subst (λ o. is_some (lookup k (kept scope r.id o (inventory scope rs))) ≡ true)
          (sym payload) (rw (own, here) refl)
    | inr other ↦
        kept-later r.id r.payload (inventory scope rs)
          (inventory_complete rs at_id p exact.1 there own (rw other at met))
  ]

  pub projected-InStep :
      (same : PointPayload N → PointPayload N → Bool) (rs : List (Record (PointPayload N)))
      (at_id : String → Option (PointPayload N)) (found : Option (ProjectionItem (PointPayload N)))
      (after : Option (PointPayload N))
      → All (λ (r : Record (PointPayload N)). r.payload ≡ at_id r.id) rs
      → ((p : PointPayload N)
          → at_id k ≡ some p
          → in_scope scope p ≡ true
          → any (λ (r : Record (PointPayload N)). str_eq r.id k) rs ≡ true)
      → Projected fingerprint same found (lookup k (inventory scope rs)) (at_id k) after
      → InStep same scope found (at_id k) after
  projected-InStep same rs at_id (some i) after exact complete (p, there, cause) = (
    p,
    there,
    elim cause [
      | inl own ↦ inl own
      | inr (known, print, alike) ↦ inr ((inventory_sound rs at_id p exact known).0, print, alike)
    ],
  )
  projected-InStep same rs at_id none after exact complete left =
      by_known (lookup k (inventory scope rs)) (at_id k) refl refl left
    where
      by_known :
          (known before : Option (PointPayload N))
          → lookup k (inventory scope rs) ≡ known
          → at_id k ≡ before
          → Projected fingerprint same none known before after
          → InStep same scope none before after
      by_known none none unknown there h = h
      by_known none (some p) unknown there h = elim (Bool-cases (in_scope scope p)) [
        | inl own ↦
            let met = inventory_complete rs at_id p exact there own (complete p there own) in
            let never : false ≡ true = rw unknown at met in absurd (cc)
        | inr foreign ↦ rw foreign h
      ]
      by_known (some p) before known there h =
          let (held, own) = inventory_sound rs at_id p exact known in
          let same_row : before ≡ some p = sym there ∙ held in
          subst (λ b. InStep same scope none b after) (sym same_row) (rw own h)
