-- ===== src/Common/Members.antt =====
-- Membership in a list, and lists without a repetition, as predicates that compute.
use mathlib.Core.Path.{◌≡◌, refl, ap, sym, subst}
use mathlib.Core.Logic.{◌≢◌, ◌⊎◌, inl, inr}
use mathlib.Core.Bool.{Bool, true}
use mathlib.Core.Option.{some}
use mathlib.Core.List.{List, [], ◌∷◌, ◌++◌, map}
use app_common.Common.Lists.{All, find}
use app_common.Common.Tests.{Bool-cases}

abbrev pub In : {A : Type 0} → A → List A → Type 0
In x [] = ⊥
In x (y ∷ ys) = (y ≡ x) ⊎ In x ys

pub In-All : {A : Type 0} (xs ys : List A) → ((x : A) → In x xs → In x ys) → All (λ x. In x ys) xs
In-All [] ys keep = tt
In-All (x ∷ xs) ys keep = (keep x (inl refl), In-All xs ys (λ z there. keep z (inr there)))

-- No two are equal.
abbrev pub Distinct : {A : Type 0} → List A → Type 0
Distinct [] = Unit
Distinct (x ∷ xs) = All (λ y. x ≢ y) xs × Distinct xs

pub All-snoc :
    {A : Type 0} (P : A → Type 0) (xs : List A) (x : A) → All P xs → P x → All P (xs ++ x ∷ [])
All-snoc P [] x h p = (p, tt)
All-snoc P (y ∷ ys) x h p = (h.0, All-snoc P ys x h.1 p)

pub Distinct-snoc :
    {A : Type 0} (xs : List A) (x : A) → Distinct xs → All (λ y. x ≢ y) xs → Distinct (xs ++ x ∷ [])
Distinct-snoc [] x d new = (tt, tt)
Distinct-snoc (y ∷ ys) x d new =
    (All-snoc (λ z. y ≢ z) ys x d.0 (λ e. new.0 (sym e)), Distinct-snoc ys x d.1 new.1)

pub map-snoc :
    {A B : Type 0} (f : A → B) (xs : List A) (x : A) → map f (xs ++ x ∷ []) ≡ map f xs ++ f x ∷ []
map-snoc f [] x = refl
map-snoc f (y ∷ ys) x = ap (λ l. f y ∷ l) (map-snoc f ys x)

pub find-In :
    {A : Type 0} (p : A → Bool) (xs : List A) (x : A) → find p xs ≡ some x → In x xs × (p x ≡ true)
find-In p [] x h = absurd (cc)
find-In p (y ∷ ys) x h = elim (Bool-cases (p y)) [
  | inl here ↦
      let at_head : some y ≡ some x = rw here at h in
      let same : y ≡ x = cc in (inl same, subst (λ z. p z ≡ true) same here)
  | inr other ↦ let (there, holds) = find-In p ys x (rw other at h) in (inr there, holds)
]
