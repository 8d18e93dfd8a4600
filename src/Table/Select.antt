-- ===== src/Table/Select.antt =====
-- SELECT with a WHERE, ORDER BY and LIMIT 1, as the repositories pick the row to work on.
use app_common.Common.{
  arith, subst, find, ◌&&◌, ℕ, ◌≡◌, refl, inl, inr, Bool, true, false, none, some, List, [], ◌∷◌,
  Bool-cases, filter, All,
}
use app_common.Table.{
  some-injective, before, least, get, IsKeyed, get_keyed, least-All, least-IsLeast,
}

-- A statement `SELECT … WHERE p ORDER BY key LIMIT 1`: its row is in the table, passes the
-- condition, and comes first among the rows that pass.
module _ {ℓ} {A : Type ℓ} where
  pub All-filter {κ} :
      (P : A → Type κ) (p : A → Bool) (xs : List A) → All P xs → All P (filter p xs)
  All-filter P p [] h = tt
  All-filter P p (x ∷ xs) h = elim (Bool-cases (p x)) [
    | inl e ↦ rw e (h.0, All-filter P p xs h.1)
    | inr e ↦ rw e (All-filter P p xs h.1)
  ]

  filter-passes : (p : A → Bool) (xs : List A) → All (λ x. p x ≡ true) (filter p xs)
  filter-passes p [] = tt
  filter-passes p (x ∷ xs) = elim (Bool-cases (p x)) [
    | inl e ↦ rw e (e, filter-passes p xs)
    | inr e ↦ rw e (filter-passes p xs)
  ]

  All-of_filter {κ} :
      (P : A → Type κ) (p : A → Bool) (xs : List A)
      → All P (filter p xs)
      → All (λ x. p x ≡ true → P x) xs
  All-of_filter P p [] h = tt
  All-of_filter P p (x ∷ xs) h = elim (Bool-cases (p x)) [
    | inl e ↦ let h' : All P (x ∷ filter p xs) = rw e at h in (λ _. h'.0, All-of_filter P p xs h'.1)
    | inr e ↦ let h' : All P (filter p xs) = rw e at h in (λ passes. cc, All-of_filter P p xs h')
  ]

  filter-nil : (p : A → Bool) (xs : List A) → filter p xs ≡ [] → All (λ x. p x ≡ false) xs
  filter-nil p [] e = tt
  filter-nil p (x ∷ xs) e = elim (Bool-cases (p x)) [
    | inl h ↦ cc
    | inr h ↦ (h, filter-nil p xs (rw h at e))
  ]

  -- Nothing is returned only if nothing passes.
  pub least-none :
      (key : A → ℕ × ℕ) (p : A → Bool) (xs : List A)
      → least key (filter p xs) ≡ none
      → All (λ x. p x ≡ false) xs
  least-none key p xs e = filter-nil p xs (empty (filter p xs) e)
    where
      empty : (ys : List A) → least key ys ≡ none → ys ≡ []
      empty [] h = refl
      empty (y ∷ ys) h = cc

  -- What the selected row `c` is known to be.
  pub record Selected (id : A → ℕ) (key : A → ℕ × ℕ) (p : A → Bool) (xs : List A) (c : A)
      : Type ℓ where
    pub passes : p c ≡ true
    pub found : get id (id c) xs ≡ some c
    pub first : All (λ x. p x ≡ true → before (key x) (key c) ≡ false) xs

  pub least-Selected :
      (id : A → ℕ) (key : A → ℕ × ℕ) (p : A → Bool) (xs : List A) (c : A)
      → IsKeyed id xs
      → least key (filter p xs) ≡ some c
      → Selected id key p xs c
  least-Selected id key p xs c k e = record {
    passes = least-All key (λ x. p x ≡ true) (filter p xs) c (filter-passes p xs) e;
    found =
        least-All key (λ x. get id (id x) xs ≡ some x) (filter p xs) c
          (All-filter (λ x. get id (id x) xs ≡ some x) p xs (get_keyed id xs k)) e;
    first =
        All-of_filter (λ x. before (key x) (key c) ≡ false) p xs
          (least-IsLeast key (filter p xs) c e);
  }

-- The first row that passes.
module _ {ℓ} {A : Type ℓ} where
  pub find-filter :
      (p q : A → Bool) (xs : List A) → find q (filter p xs) ≡ find (λ x. p x && q x) xs
  find-filter p q [] = refl
  find-filter p q (x ∷ xs) = ground (arith, find-filter p q xs)

  pub find-All {κ} :
      (P : A → Type κ) (p : A → Bool) (xs : List A) (x : A) → All P xs → find p xs ≡ some x → P x
  find-All P p [] x h e = cc
  find-All P p (y ∷ xs) x h e = elim (Bool-cases (p y)) [
    | inl hit ↦ subst P (some-injective y x (rw hit at e)) h.0
    | inr miss ↦ find-All P p xs x h.1 (rw miss at e)
  ]
