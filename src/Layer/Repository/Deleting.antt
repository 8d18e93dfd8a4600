-- ===== src/Layer/Repository/Deleting.antt =====
-- What deletion leaves to be seen, and what it counts.
use app_common.Common.{
  ℕ, zero, suc, ◌+◌, ◌≤◌, ◌<◌, ◌≡◌, refl, ap, sym, ◌∙◌, inl, inr, Bool, true, false, not, ◌&&◌,
  ◌||◌, List, [], ◌∷◌, ◌++◌, ◌==◌, if◌then◌else◌, length, filter, any, take, drop, arith,
  Bool-cases, length-drop,
}
use app_common.Table.{update_where}
use app_common.Layer.Repository.{
  Model, active_rows_filter, delete_rows, delete_batches, delete_by_pk_multi, is_in,
}

-- A soft deletion sets the mark and leaves the key.
pub record Marks {R : Type 0} (m : Model R) : Type 0 where
  pub marked : (t : ℕ) (r : R) → m.is_deleted (m.soft_delete_values t r) ≡ true
  pub kept : (t : ℕ) (r : R) → m.id (m.soft_delete_values t r) ≡ m.id r

module _ {R : Type 0} (m : Model R) (k : Marks m) where
  -- The rows of some keys that can be seen.
  abbrev pub seen : List ℕ → List R → ℕ
  seen pks rows = length (filter (λ r. is_in m pks r && active_rows_filter m false r) rows)

  is_in-split :
      (n : ℕ) (pks : List ℕ) (r : R)
      → is_in m pks r ≡ (is_in m (take n pks) r || is_in m (drop n pks) r)
  is_in-split zero pks r = refl
  is_in-split (suc n) [] r = refl
  is_in-split (suc n) (pk ∷ pks) r = ground (arith, is_in-split n pks r)

  soft_deletes :
      (now : ℕ) (now_pks later pks : List ℕ) (rows : List R)
      → m.soft_delete_enabled ≡ true
      → ((r : R) → is_in m pks r ≡ (is_in m now_pks r || is_in m later r))
      → seen pks rows
        ≡ seen now_pks rows
          + seen later (
              update_where
                (λ r. is_in m now_pks r && active_rows_filter m false r)
                (m.soft_delete_values now)
                rows)
  unfolding active_rows_filter
  soft_deletes now now_pks later pks [] e split = refl
  soft_deletes now now_pks later pks (r ∷ rows) e split = ground (
    arith,
    e,
    split r,
    k.marked now r,
    ap (λ i. any (λ pk. i == pk) later) (k.kept now r),
    soft_deletes now now_pks later pks rows e split,
  )

  hard_deletes :
      (now_pks later pks : List ℕ) (rows : List R)
      → m.soft_delete_enabled ≡ false
      → ((r : R) → is_in m pks r ≡ (is_in m now_pks r || is_in m later r))
      → seen pks rows
        ≡ length (filter (is_in m now_pks) rows)
          + seen later (filter (λ r. not (is_in m now_pks r)) rows)
  unfolding active_rows_filter
  hard_deletes now_pks later pks [] e split = refl
  hard_deletes now_pks later pks (r ∷ rows) e split =
      ground (arith, e, split r, hard_deletes now_pks later pks rows e split)

  either : ℕ → (R → Bool) → List R → Bool → ℕ × List R
  either now hit rows soft =
      if soft
      then (
        length (filter (λ r. hit r && active_rows_filter m false r) rows),
        update_where (λ r. hit r && active_rows_filter m false r) (m.soft_delete_values now) rows,
      )
      else (length (filter hit rows), filter (λ r. not (hit r)) rows)

  chosen :
      (now : ℕ) (hit : R → Bool) (rows : List R)
      → delete_rows m now hit rows ≡ either now hit rows m.soft_delete_enabled
  unfolding delete_rows either
  chosen now hit rows = refl

  -- One statement takes what it counts out of sight, and nothing else.
  seen-delete_rows :
      (now : ℕ) (now_pks later pks : List ℕ) (rows : List R)
      → ((r : R) → is_in m pks r ≡ (is_in m now_pks r || is_in m later r))
      → seen pks rows
        ≡ (delete_rows m now (is_in m now_pks) rows).0
          + seen later (delete_rows m now (is_in m now_pks) rows).1
  unfolding either
  seen-delete_rows now now_pks later pks rows split = elim (Bool-cases m.soft_delete_enabled) [
    | inl e ↦
        soft_deletes now now_pks later pks rows e split
        ∙ ap (λ p. p.0 + seen later p.1)
            (sym (chosen now (is_in m now_pks) rows ∙ ap (either now (is_in m now_pks) rows) e))
    | inr e ↦
        hard_deletes now_pks later pks rows e split
        ∙ ap (λ p. p.0 + seen later p.1)
            (sym (chosen now (is_in m now_pks) rows ∙ ap (either now (is_in m now_pks) rows) e))
  ]

  pub delete_rows-soft :
      (now : ℕ) (hit : R → Bool) (rows : List R)
      → m.soft_delete_enabled ≡ true
      → delete_rows m now hit rows ≡ (
        length (filter (λ r. hit r && active_rows_filter m false r) rows),
        update_where (λ r. hit r && active_rows_filter m false r) (m.soft_delete_values now) rows,
      )
  unfolding either
  delete_rows-soft now hit rows e = chosen now hit rows ∙ ap (either now hit rows) e

  seen-nothing : (rows : List R) → seen [] rows ≡ 0
  seen-nothing [] = refl
  seen-nothing (r ∷ rows) = seen-nothing rows

  seen-same :
      (pks rest : List ℕ) (rows : List R)
      → ((r : R) → is_in m pks r ≡ is_in m rest r)
      → seen pks rows ≡ seen rest rows
  seen-same pks rest [] same = refl
  seen-same pks rest (r ∷ rows) same = ground (arith, same r, seen-same pks rest rows same)

  is_in-append : (xs ys : List ℕ) (r : R) → is_in m (xs ++ ys) r ≡ (is_in m xs r || is_in m ys r)
  is_in-append [] ys r = refl
  is_in-append (x ∷ xs) ys r = ground (arith, is_in-append xs ys r)

  seen-delete_batches :
      (clock : ℕ → ℕ) (batch n : ℕ) (pks rest whole : List ℕ) (rows : List R)
      → 0 < batch
      → length pks ≤ n
      → ((r : R) → is_in m whole r ≡ (is_in m pks r || is_in m rest r))
      → seen whole rows
        ≡ (delete_batches m clock batch n pks rows).0
          + seen rest (delete_batches m clock batch n pks rows).1
  unfolding delete_batches
  seen-delete_batches clock batch zero [] rest whole rows pos fuel split =
      omega (arith, seen-same whole rest rows split)
  seen-delete_batches clock batch zero (pk ∷ pks) rest whole rows pos fuel split =
      absurd (omega (arith, fuel))
  seen-delete_batches clock batch (suc n) [] rest whole rows pos fuel split =
      omega (arith, seen-same whole rest rows split)
  seen-delete_batches clock batch (suc n) (pk ∷ pks) rest whole rows pos fuel split =
      let chunk = take batch (pk ∷ pks) in
      let others = drop batch (pk ∷ pks) in
      let first = delete_rows m (clock n) (is_in m chunk) rows in
      let step = seen-delete_rows (clock n) chunk (others ++ rest) whole rows (λ r.
        ground (arith, split r, is_in-split batch (pk ∷ pks) r, is_in-append others rest r)) in
      let shorter : length others ≤ n = omega (arith, length-drop batch (pk ∷ pks), pos, fuel) in
      let more =
        seen-delete_batches clock batch n others rest (others ++ rest) first.1 pos shorter
          (is_in-append others rest) in
      omega (arith, step, more)

  -- Deleting many keys, in batches of any size from one on, hard, or softly where the soft
  -- deletion sets the mark and leaves the key: the answer is the number of the rows with one of
  -- the keys that could be seen before, and none of them can be seen afterwards.
  pub delete_by_pk_multi-seen :
      (batch : ℕ) (clock : ℕ → ℕ) (pks : List ℕ) (rows : List R)
      → 0 < batch
      → ((delete_by_pk_multi m batch clock pks rows).0 ≡ seen pks rows)
        × (seen pks (delete_by_pk_multi m batch clock pks rows).1 ≡ 0)
  unfolding delete_by_pk_multi
  delete_by_pk_multi-seen batch clock pks rows pos =
      let after = delete_batches m clock batch (length pks) pks rows in
      let counted =
        seen-delete_batches clock batch (length pks) pks [] pks rows pos (omega arith)
          (λ r. ground arith) in
      let gone =
        seen-delete_batches clock batch (length pks) pks pks pks rows pos (omega arith)
          (λ r. ground arith) in
      (
        omega (arith, counted, seen-nothing after.1),
        omega (arith, counted, gone, seen-nothing after.1),
      )
