-- ===== src/Table/Update.antt =====
-- UPDATE … WHERE id = i AND p: what one row sees of it, and when it changes nothing.
use mathlib.Core.Option
use app_common.Common.{
  length, filter, Bool-cases, inl, inr, ◌+◌, ℕ, ◌≡◌, refl, ◌∙◌, Bool, true, false, ◌&&◌, Option,
  none, some, List, [], ◌∷◌, arith, ap, ◌==◌, if◌then◌else◌, any, find,
}
use app_common.Table.{update_where, get, holds, IsKeyed, id-get, get-update_where, any-get}

module _ {ℓ} {A : Type ℓ} where
  -- An UPDATE that meets no row changes nothing.
  update_where-none :
      (p : A → Bool) (f : A → A) (xs : List A) → any p xs ≡ false → update_where p f xs ≡ xs
  update_where-none p f [] e = refl
  update_where-none p f (x ∷ xs) e = ground (arith, update_where-none p f xs)

  -- A search by a column that the UPDATE does not write finds the row it found before, updated.
  pub find-update_where :
      (p q : A → Bool) (f : A → A)
      → ((x : A) → p (f x) ≡ p x)
      → (xs : List A)
      → find p (update_where q f xs) ≡ Option.map (λ x. if q x then f x else x) (find p xs)
  find-update_where p q f keep [] = refl
  find-update_where p q f keep (x ∷ xs) = ground (arith, keep x, find-update_where p q f keep xs)

module _ {ℓ} {A : Type ℓ} (id : A → ℕ) where
  abbrev pub at_key : ℕ → (A → Bool) → A → Bool
  at_key i p x = id x == i && p x

  pub find-at_key :
      (i : ℕ) (p : A → Bool) (xs : List A) (x : A)
      → get id i xs ≡ some x
      → p x ≡ true
      → find (at_key i p) xs ≡ some x
  find-at_key i p [] x e h = cc
  find-at_key i p (y ∷ xs) x e h = ground (arith, find-at_key i p xs x)

  -- An UPDATE that meets the row of key `i` sets that row and leaves all others.
  pub get-update_at :
      (p : A → Bool) (f : A → A)
      → ((x : A) → id (f x) ≡ id x)
      → (i j : ℕ) (xs : List A) (x : A) → get id i xs ≡ some x
      → p x ≡ true
      → get id j (update_where (at_key i p) f xs) ≡ (if j == i then some (f x) else get id j xs)
  get-update_at p f keep i j xs x e h =
      get-update_where id (at_key i p) f keep j xs ∙ row (get id j xs) refl
    where
      row :
          (o : Option A)
          → get id j xs ≡ o
          → Option.map (λ y. if at_key i p y then f y else y) o ≡ (if j == i then some (f x) else o)
      row none g = ground (arith, e)
      row (some y) g = ground (arith, e, h, id-get id j xs y g)

  -- Whether it meets a row is told by the row of that key, and where it does not, nothing changes.
  pub update_at-missed :
      (p : A → Bool) (f : A → A) (i : ℕ) (xs : List A)
      → IsKeyed id xs
      → holds p (get id i xs) ≡ false
      → (any (at_key i p) xs ≡ false) × (update_where (at_key i p) f xs ≡ xs)
  update_at-missed p f i xs k h =
      let missed : any (at_key i p) xs ≡ false = any-get id p i xs k ∙ h in
      (missed, update_where-none (at_key i p) f xs missed)

  -- A row that fails the condition is left as it is.
  pub get-update_where_kept :
      (p : A → Bool) (f : A → A)
      → ((x : A) → id (f x) ≡ id x)
      → (j : ℕ) (xs : List A) (x : A) → get id j xs ≡ some x
      → p x ≡ false
      → get id j (update_where p f xs) ≡ some x
  get-update_where_kept p f keep j xs x e h =
      get-update_where id p f keep j xs
      ∙ ap (Option.map (λ y. if p y then f y else y)) e
      ∙ ap (λ b. some (if b then f x else x)) h

  -- An UPDATE that takes the one row of key `i` out of a condition lowers the count by one.
  pub length-filter-update_at :
      (p q : A → Bool) (f : A → A) (i : ℕ) (xs : List A) (x : A)
      → IsKeyed id xs
      → get id i xs ≡ some x
      → q x ≡ true
      → p x ≡ true
      → p (f x) ≡ false
      → length (filter p (update_where (at_key i q) f xs)) + 1 ≡ length (filter p xs)
  length-filter-update_at p q f i [] x k e hq hp hf = cc
  length-filter-update_at p q f i (y ∷ xs) x k e hq hp hf = elim (Bool-cases (id y == i)) [
    | inl hit ↦
        let yx : y ≡ x = ground (arith, e) in
        let gone : holds q (get id i xs) ≡ false = ground (arith, k.0) in
        let rest = (update_at-missed q f i xs k.1 gone).1 in
        let passes : at_key i q y ≡ true = ground (arith, hq, yx) in
        let counted : p y ≡ true = ap p yx ∙ hp in
        let uncounted : p (f y) ≡ false = ap (λ z. p (f z)) yx ∙ hf in
        rw (passes, rest, counted, uncounted) (omega arith)
    | inr miss ↦
        rw miss (ground (arith, length-filter-update_at p q f i xs x k.1 (rw miss at e) hq hp hf))
  ]
