-- ===== src/Layer/Hooks/Nested.antt =====
-- A deletion through a parent spares the children of all others.
use app_common.Common.{
  ℕ, ◌≡◌, ◌⊎◌, refl, subst, ap, inl, inr, String, Bool, true, false, not, ◌&&◌, none, some, List,
  [], ◌∷◌, arith, ◌==◌, if◌then◌else◌, Bool-cases, filter, length, All, All-map,
}
use app_common.Table.{get, IsKeyed, update_where}
use app_common.Layer.Services.{Try, good, bad, Outcome}
use app_common.Layer.Services.Operations.{DeleteResponse, delete}
use app_common.Layer.Repository.{
  Model, active_rows_filter, get_by_pk, screened, assert_soft_delete_readable, delete_rows,
  delete_by_pk,
}
use app_common.Layer.Hooks.{hook_with, owned, ensure_ownership}

Try-cases : (r : Try (Unit {0})) → (r ≡ good tt) ⊎ ((x : String) × (r ≡ bad x))
Try-cases (good u) = inl refl
Try-cases (bad x) = inr (x, refl)

module _ {R : Type 0} (own : R → Bool) where
  -- The rows of other parents.
  abbrev pub foreign : List R → List R
  foreign rows = filter (λ r. not (own r)) rows

  filter-foreign :
      (hit : R → Bool) (rows : List R)
      → All (λ r. hit r ≡ true → own r ≡ true) rows
      → foreign (filter (λ r. not (hit r)) rows) ≡ foreign rows
  filter-foreign hit [] owns = refl
  filter-foreign hit (r ∷ rows) owns = elim (Bool-cases (hit r)) [
    | inl met ↦ rw (met, owns.0 met) (filter-foreign hit rows owns.1)
    | inr missed ↦ ground (arith, missed, filter-foreign hit rows owns.1)
  ]

  update-foreign :
      (hit : R → Bool) (f : R → R) (rows : List R)
      → ((r : R) → own (f r) ≡ own r)
      → All (λ r. hit r ≡ true → own r ≡ true) rows
      → foreign (update_where hit f rows) ≡ foreign rows
  update-foreign hit f [] keep owns = refl
  update-foreign hit f (r ∷ rows) keep owns = elim (Bool-cases (hit r)) [
    | inl met ↦ rw (met, keep r, owns.0 met) (update-foreign hit f rows keep owns.1)
    | inr missed ↦ ground (arith, missed, update-foreign hit f rows keep owns.1)
  ]

module _ {R : Type 0} (m : Model R) (parent_of : R → ℕ) (parent_id : ℕ) where
  abbrev pub is_own : R → Bool
  is_own r = parent_of r == parent_id

  abbrev Owns : ℕ → List R → Type 0
  Owns pk rows =
      All (λ r. (m.id r == pk && active_rows_filter m false r) ≡ true → is_own r ≡ true) rows

  absent-Owns : (pk : ℕ) (rows : List R) → get m.id pk rows ≡ none → Owns pk rows
  absent-Owns pk [] gone = tt
  absent-Owns pk (r ∷ rows) gone = elim (Bool-cases (m.id r == pk)) [
    | inl here ↦ let bad : some r ≡ none = rw here at gone in absurd (cc)
    | inr other ↦ (λ met. ground (arith, met, other), absent-Owns pk rows (rw other at gone))
  ]

  seen-own :
      (r : R)
      → owned m parent_of parent_id (screened m false (some r)) ≡ good tt
      → active_rows_filter m false r ≡ true
      → is_own r ≡ true
  unfolding active_rows_filter
  seen-own r accepted active = elim (Bool-cases (is_own r)) [
    | inl own ↦ own
    | inr other ↦
        let shown : (m.soft_delete_enabled && not false && m.is_deleted r) ≡ false =
          ground (arith, active) in
        let bad : bad "NotFoundException" ≡ good tt = rw (shown, other) at accepted in absurd (cc)
  ]

  accepted-Owns :
      (pk : ℕ) (rows : List R)
      → IsKeyed m.id rows
      → owned m parent_of parent_id (screened m false (get m.id pk rows)) ≡ good tt
      → Owns pk rows
  accepted-Owns pk [] keyed accepted = tt
  accepted-Owns pk (r ∷ rows) keyed accepted = elim (Bool-cases (m.id r == pk)) [
    | inl here ↦
        let same : m.id r ≡ pk = ground (arith, here) in
        (
          λ met. seen-own r (rw here at accepted) (ground (arith, met)),
          absent-Owns pk rows (subst (λ i. get m.id i rows ≡ none) same keyed.0),
        )
    | inr other ↦
        (λ met. ground (arith, met, other), accepted-Owns pk rows keyed.1 (rw other at accepted))
  ]

  hard_active : (r : R) → m.soft_delete_enabled ≡ false → active_rows_filter m false r ≡ true
  unfolding active_rows_filter
  hard_active r hard = ground (arith, hard)

  -- The soft deletion and the hard one; the counts do not matter.
  chosen-foreign :
      (now pk met gone : ℕ) (rows : List R) (soft : Bool)
      → m.soft_delete_enabled ≡ soft
      → ((t : ℕ) (r : R) → parent_of (m.soft_delete_values t r) ≡ parent_of r)
      → Owns pk rows
      → foreign is_own
          (if◌then◌else◌ {A = ℕ × List R} soft
            (
              met,
              update_where
                  (λ r. m.id r == pk && active_rows_filter m false r)
                  (m.soft_delete_values now)
                  rows,
            )
            (gone, filter (λ r. not (m.id r == pk)) rows)).1
        ≡ foreign is_own rows
  chosen-foreign now pk met gone rows true e keep owns =
      update-foreign is_own (λ r. m.id r == pk && active_rows_filter m false r)
        (m.soft_delete_values now) rows (λ r. ap (λ i. i == parent_id) (keep now r)) owns
  chosen-foreign now pk met gone rows false e keep owns =
      filter-foreign is_own (λ r. m.id r == pk) rows
        (All-map (λ r h met. h (ground (arith, met, hard_active r e))) rows owns)

  delete_rows-foreign :
      (now pk : ℕ) (rows : List R)
      → ((t : ℕ) (r : R) → parent_of (m.soft_delete_values t r) ≡ parent_of r)
      → Owns pk rows
      → foreign is_own (delete_rows m now (λ r. m.id r == pk) rows).1 ≡ foreign is_own rows
  unfolding delete_rows
  delete_rows-foreign now pk rows keep owns =
      chosen-foreign now pk
        (length (filter (λ r. m.id r == pk && active_rows_filter m false r) rows))
        (length (filter (λ r. m.id r == pk) rows)) rows m.soft_delete_enabled refl keep owns

  -- The service's operation, with the hook.
  abbrev pub nested_delete : ℕ → ℕ → List R → Outcome (DeleteResponse ℕ) × List R
  nested_delete now pk rows =
      delete (hook_with (ensure_ownership m parent_of parent_id) ∷ [])
        (λ i s. let (done, s') = delete_by_pk m now i s in (good done, s')) pk rows

  -- A deletion by key through a parent, with the `NestedResourceHook`, leaves all rows of other parents
  -- as they are and in their order, whatever key is asked for, deleted or refused, hard or soft, where
  -- keys are unique and a soft deletion leaves the parent.
  pub nested_delete-foreign :
      (now pk : ℕ) (rows : List R)
      → ((t : ℕ) (r : R) → parent_of (m.soft_delete_values t r) ≡ parent_of r)
      → IsKeyed m.id rows
      → foreign is_own (nested_delete now pk rows).1 ≡ foreign is_own rows
  unfolding delete delete_by_pk ensure_ownership get_by_pk assert_soft_delete_readable
  nested_delete-foreign now pk rows keep keyed =
      elim (Try-cases (ensure_ownership m parent_of parent_id pk rows)) [
        | inl accepted ↦
            rw accepted
              (delete_rows-foreign now pk rows keep (accepted-Owns pk rows keyed accepted))
        | inr (x, refused) ↦ rw refused refl
      ]
