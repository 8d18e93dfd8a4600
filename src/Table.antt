-- ===== src/Table.antt =====
-- A database table as the list of its rows, each with a number for its primary key, and the
-- statements that the repositories issue: UPDATE and DELETE with a WHERE, a lookup by key, and
-- ORDER BY two columns with LIMIT 1. An UPDATE or DELETE is one atomic step, as in the database.
pub mod Select
pub mod Update
use mathlib.Core.Option
use mathlib.Core.Option.{some-injective}
use app_common.Common.{
  ℕ, subst, ◌≡◌, refl, inl, inr, Bool, true, false, ◌&&◌, ◌||◌, Option, none, some, List, [], ◌∷◌,
  arith, ltb, ◌==◌, if◌then◌else◌, Bool-cases, filter, any, find, All, All-map,
}

-- The comparison of two ORDER BY columns.
abbrev pub before : ℕ × ℕ → ℕ × ℕ → Bool
before (a, b) (c, d) = ltb a c || (a == c && ltb b d)

before_trans : (p q r : ℕ × ℕ) → before q p ≡ false → before r q ≡ false → before r p ≡ false
before_trans (a, b) (c, d) (e, f) h k = ground arith

before_asym : (p q : ℕ × ℕ) → before p q ≡ true → before q p ≡ false
before_asym (a, b) (c, d) h = ground arith

before_irrefl : (p : ℕ × ℕ) → before p p ≡ false
before_irrefl (a, b) = ground arith

module _ {ℓ} {A : Type ℓ} where
  -- UPDATE … SET f WHERE p
  abbrev pub update_where : (A → Bool) → (A → A) → List A → List A
  update_where p f [] = []
  update_where p f (x ∷ xs) = (if p x then f x else x) ∷ update_where p f xs

  abbrev least_of : (A → ℕ × ℕ) → A → Option A → A
  least_of key x none = x
  least_of key x (some y) = if before (key y) (key x) then y else x

  -- ORDER BY key LIMIT 1
  abbrev pub least : (A → ℕ × ℕ) → List A → Option A
  least key [] = none
  least key (x ∷ xs) = some (least_of key x (least key xs))

  -- No row of the list comes before `y`.
  abbrev IsLeast : (A → ℕ × ℕ) → List A → A → Type 0
  IsLeast key xs y = All (λ x. before (key x) (key y) ≡ false) xs

module _ {ℓ} {A : Type ℓ} (key : A → ℕ × ℕ) where
  pick-IsLeast :
      (x y : A) (xs : List A) (b : Bool)
      → before (key y) (key x) ≡ b
      → IsLeast key xs y
      → IsLeast key (x ∷ xs) (if b then y else x)
  pick-IsLeast x y xs true e h = (before_asym (key y) (key x) e, h)
  pick-IsLeast x y xs false e h =
      (before_irrefl (key x), All-map (λ z. before_trans (key x) (key y) (key z) e) xs h)

  least_of-IsLeast :
      (x : A) (xs : List A) (o : Option A)
      → least key xs ≡ o
      → ((y : A) → o ≡ some y → IsLeast key xs y)
      → IsLeast key (x ∷ xs) (least_of key x o)
  least_of-IsLeast x [] none e h = (before_irrefl (key x), tt)
  least_of-IsLeast x (z ∷ xs) none e h = cc
  least_of-IsLeast x xs (some y) e h = pick-IsLeast x y xs _ refl (h y refl)

  -- What ORDER BY … LIMIT 1 returns comes first in that order.
  pub least-IsLeast : (xs : List A) (y : A) → least key xs ≡ some y → IsLeast key xs y
  least-IsLeast [] y e = tt
  least-IsLeast (x ∷ xs) y e =
      subst (IsLeast key (x ∷ xs)) (some-injective _ _ e)
        (least_of-IsLeast x xs (least key xs) refl (least-IsLeast xs))

  -- It is one of the rows, so what holds of all rows holds of it.
  pub least-All {κ} :
      (P : A → Type κ) (xs : List A) (y : A) → All P xs → least key xs ≡ some y → P y
  least-All P [] y h e = cc
  least-All P (x ∷ xs) y h e =
      subst P (some-injective _ _ e) (pick (least key xs) (λ z. least-All P xs z h.1))
    where
      pick : (o : Option A) → ((z : A) → o ≡ some z → P z) → P (least_of key x o)
      pick none g = h.0
      pick (some z) g = elim (Bool-cases (before (key z) (key x))) [
        | inl e ↦ rw e (g z refl)
        | inr e ↦ rw e h.0
      ]

-- Whether there is a row, with the property.
abbrev pub holds {ℓ} : {A : Type ℓ} → (A → Bool) → Option A → Bool
holds p none = false
holds p (some x) = p x

-- Rows that are found by their key.
module _ {ℓ} {A : Type ℓ} (id : A → ℕ) where
  -- SELECT … WHERE id = i
  abbrev pub get : ℕ → List A → Option A
  get i = find (λ x. id x == i)

  -- The key is unique.
  abbrev pub IsKeyed : List A → Type ℓ
  IsKeyed [] = Unit
  IsKeyed (x ∷ xs) = (get (id x) xs ≡ none) × IsKeyed xs

  pub id-get : (i : ℕ) (xs : List A) (x : A) → get i xs ≡ some x → id x ≡ i
  id-get i [] x e = cc
  id-get i (y ∷ xs) x e = ground (arith, id-get i xs x)

  -- An UPDATE that keeps the keys acts on each row by itself.
  pub get-update_where :
      (p : A → Bool) (f : A → A)
      → ((x : A) → id (f x) ≡ id x)
      → (i : ℕ) (xs : List A)
      → get i (update_where p f xs) ≡ Option.map (λ x. if p x then f x else x) (get i xs)
  get-update_where p f keep i [] = refl
  get-update_where p f keep i (x ∷ xs) = ground (arith, keep x, get-update_where p f keep i xs)

  pub IsKeyed-update_where :
      (p : A → Bool) (f : A → A)
      → ((x : A) → id (f x) ≡ id x)
      → (xs : List A) → IsKeyed xs
      → IsKeyed (update_where p f xs)
  IsKeyed-update_where p f keep [] k = tt
  IsKeyed-update_where p f keep (x ∷ xs) k = (
    ground (arith, keep x, k.0, get-update_where p f keep (id x) xs),
    IsKeyed-update_where p f keep xs k.1,
  )

  -- Whether an UPDATE by key met a row, as its RETURNING clause tells.
  pub any-get :
      (p : A → Bool) (i : ℕ) (xs : List A)
      → IsKeyed xs
      → any (λ x. id x == i && p x) xs ≡ holds p (get i xs)
  any-get p i [] k = refl
  any-get p i (x ∷ xs) k = ground (arith, any-get p i xs k.1, k.0)

  pub get_keyed : (xs : List A) → IsKeyed xs → All (λ x. get (id x) xs ≡ some x) xs
  get_keyed [] k = tt
  get_keyed (x ∷ xs) k = (ground arith, All-map step xs (get_keyed xs k.1))
    where
      step : (y : A) → get (id y) xs ≡ some y → get (id y) (x ∷ xs) ≡ some y
      step y e = ground (arith, k.0)
