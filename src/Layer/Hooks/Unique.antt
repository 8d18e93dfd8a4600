-- ===== src/Layer/Hooks/Unique.antt =====
-- What one creation through a `UniqueConstraintHook` leaves of the column: if no two visible rows
-- agreed on it before, none do afterwards.
use app_common.Common.{
  ◌≡◌, ◌≢◌, refl, subst, ap, sym, ◌∙◌, inl, inr, String, Bool, false, ◌&&◌, none, List, [], ◌∷◌,
  ◌++◌, arith, str_eq, eq_iff, if◌then◌else◌, Bool-cases, filter, any, map, All,
}
use app_common.Common.Members.{Distinct, Distinct-snoc}
use app_common.Layer.Services.{good, Outcome}
use app_common.Layer.Services.Operations.{create}
use app_common.Layer.Repository.{
  Model, active_rows_filter, matches, exists, assert_soft_delete_readable,
}
use app_common.Layer.Hooks.{hook_with, is_not, check_unique}

module _ {R D F : Type 0} (m : Model R) (column : R → String) (value : D → String)
    (row_of : D → F → R) where
  -- The constraint of one column, as `constraints` yields it.
  abbrev pub column_constraint : D → List ((R → Bool) × String)
  column_constraint d = ((λ r. str_eq (column r) (value d)), "already exists") ∷ []

  -- The visible values of the column.
  abbrev pub visible : List R → List String
  visible rows = map column (filter (active_rows_filter m false) rows)

  -- The service's operation, with the hook and an INSERT.
  abbrev pub unique_create : D → F → List R → Outcome R × List R
  unique_create d f rows =
      create (hook_with (λ i s. check_unique m none (column_constraint i) s) ∷ [])
        (λ i g s. (good (row_of i g), s ++ row_of i g ∷ [])) d f rows

  unseen :
      (v : String) (rows : List R)
      → any (matches m ((λ r. str_eq (column r) v && is_not m none r) ∷ []) false) rows ≡ false
      → All (λ w. v ≢ w) (visible rows)
  unfolding matches
  unseen v [] h = tt
  unseen v (r ∷ rows) h = elim (Bool-cases (active_rows_filter m false r)) [
    | inl active ↦
        let other : str_eq (column r) v ≡ false = ground (arith, h, active) in
        let rest : any (matches m ((λ x. str_eq (column x) v && is_not m none x) ∷ []) false) rows
            ≡ false =
          ground (arith, h) in
        rw active ((λ e. ground (arith, other, e, eq_iff (column r) v)), unseen v rows rest)
    | inr hidden ↦
        let rest : any (matches m ((λ x. str_eq (column x) v && is_not m none x) ∷ []) false) rows
            ≡ false =
          ground (arith, h) in
        rw hidden (unseen v rows rest)
  ]

  visible-snoc :
      (rows : List R) (r : R)
      → visible (rows ++ r ∷ [])
        ≡ (if active_rows_filter m false r then visible rows ++ column r ∷ [] else visible rows)
  visible-snoc [] r = elim (Bool-cases (active_rows_filter m false r)) [
    | inl active ↦ rw active refl
    | inr hidden ↦ rw hidden refl
  ]
  visible-snoc (x ∷ rows) r = elim (Bool-cases (active_rows_filter m false x)) [
    | inl active ↦ elim (Bool-cases (active_rows_filter m false r)) [
      | inl new ↦ rw (active, new) (ap (λ l. column x ∷ l) (visible-snoc rows r ∙ rw new refl))
      | inr hidden ↦
          rw (active, hidden) (ap (λ l. column x ∷ l) (visible-snoc rows r ∙ rw hidden refl))
    ]
    | inr hidden ↦ rw hidden (visible-snoc rows r)
  ]

  grown-Distinct :
      (rows : List R) (r : R)
      → Distinct (visible rows)
      → All (λ w. column r ≢ w) (visible rows)
      → Distinct (visible (rows ++ r ∷ []))
  grown-Distinct rows r distinct new = elim (Bool-cases (active_rows_filter m false r)) [
    | inl active ↦
        rw (visible-snoc rows r, active) (Distinct-snoc (visible rows) (column r) distinct new)
    | inr hidden ↦ rw (visible-snoc rows r, hidden) distinct
  ]

  -- A creation through the hook keeps the values of the column distinct among the rows that can be
  -- seen, whether it succeeds or is refused, where the new row has the value that was checked.
  pub unique_create-Distinct :
      (d : D) (f : F) (rows : List R)
      → ((e : D) (g : F) → column (row_of e g) ≡ value e)
      → Distinct (visible rows)
      → Distinct (visible (unique_create d f rows).1)
  unfolding create check_unique exists assert_soft_delete_readable
  unique_create-Distinct d f rows made distinct =
      elim (Bool-cases
        (any (matches m ((λ r. str_eq (column r) (value d) && is_not m none r) ∷ []) false) rows)) [
          | inl duplicate ↦ rw duplicate distinct
          | inr new ↦ rw new (
              grown-Distinct rows (row_of d f) distinct (
                subst (λ v. All (λ w. v ≢ w) (visible rows)) (sym (made d f))
                  (unseen (value d) rows new)))
        ]
