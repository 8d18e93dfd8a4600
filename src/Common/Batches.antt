-- ===== src/Common/Batches.antt =====
-- A list cut into slices of a fixed length, as `for start in range(0, len(xs), n)` visits it.
use Prim.Native.Nat.{ℕ, zero, suc, ◌≤◌, ◌<◌}
use mathlib.Core.Path.{◌≡◌, refl, ap, ◌∙◌}
use mathlib.Core.List.{List, [], ◌∷◌, ◌++◌}
use native.Mathlib.Omega.{arith}
use app_common.Common.Lists.{length, take, drop, All, length-take, length-drop}

module _ {ℓ} {A : Type ℓ} where
  -- The fuel is the number of items, since each slice has at least one.
  unfoldable pub batches_from : ℕ → ℕ → List A → List (List A)
  batches_from zero n xs = []
  batches_from (suc f) n [] = []
  batches_from (suc f) n (x ∷ xs) = take n (x ∷ xs) ∷ batches_from f n (drop n (x ∷ xs))

  unfoldable pub batches : ℕ → List A → List (List A)
  unfolding batches_from
  batches n xs = batches_from (length xs) n xs

  abbrev pub concat : List (List A) → List A
  concat [] = []
  concat (xs ∷ xss) = xs ++ concat xss

  pub take-drop : (n : ℕ) (xs : List A) → take n xs ++ drop n xs ≡ xs
  take-drop zero xs = refl
  take-drop (suc n) [] = refl
  take-drop (suc n) (x ∷ xs) = ap (λ ys. x ∷ ys) (take-drop n xs)

  concat-batches_from :
      (f n : ℕ) (xs : List A) → 0 < n → length xs ≤ f → concat (batches_from f n xs) ≡ xs
  unfolding batches_from
  concat-batches_from zero n [] pos fits = refl
  concat-batches_from zero n (x ∷ xs) pos fits = absurd (omega arith)
  concat-batches_from (suc f) n [] pos fits = refl
  concat-batches_from (suc f) n (x ∷ xs) pos fits =
      let shorter : length (drop n (x ∷ xs)) ≤ f = omega (arith, length-drop n (x ∷ xs)) in
      ap (λ rest. take n (x ∷ xs) ++ rest) (concat-batches_from f n (drop n (x ∷ xs)) pos shorter)
      ∙ take-drop n (x ∷ xs)

  -- The slices hold every item once, in order.
  pub concat-batches : (n : ℕ) (xs : List A) → 0 < n → concat (batches n xs) ≡ xs
  unfolding batches
  concat-batches n xs pos = concat-batches_from (length xs) n xs pos (omega arith)

  batches_from-bounded : (f n : ℕ) (xs : List A) → All (λ ys. length ys ≤ n) (batches_from f n xs)
  unfolding batches_from
  batches_from-bounded zero n xs = tt
  batches_from-bounded (suc f) n [] = tt
  batches_from-bounded (suc f) n (x ∷ xs) =
      (omega (arith, length-take n (x ∷ xs)), batches_from-bounded f n (drop n (x ∷ xs)))

  pub batches-bounded : (n : ℕ) (xs : List A) → All (λ ys. length ys ≤ n) (batches n xs)
  unfolding batches
  batches-bounded n xs = batches_from-bounded (length xs) n xs
