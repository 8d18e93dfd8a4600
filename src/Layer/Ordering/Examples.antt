-- ===== src/Layer/Ordering/Examples.antt =====
-- Tests of the order of a listing, and its theorem at a concrete input.
use app_common.Common.{ℕ, ◌≡◌, refl, Bool, true, false, none, some, List, [], ◌∷◌, ◌==◌}
use app_common.Layer.Ordering.{OrderByCriteria, dependency}
use app_common.Layer.Ordering.Parsing.{joined, written, dependency-joined}

-- A blank is whitespace.
abbrev is_blank : ℕ → Bool
is_blank c = c == 32

abbrev title : OrderByCriteria (ℕ × Bool)
title = record { alias = 116 ∷ []; func = λ desc. (1, desc) }

abbrev created : OrderByCriteria (ℕ × Bool)
created = record { alias = 99 ∷ []; func = λ desc. (2, desc) }

abbrev key : OrderByCriteria (ℕ × Bool)
key = record { alias = 105 ∷ []; func = λ desc. (3, desc) }

abbrev options : List (OrderByCriteria (ℕ × Bool))
options = title ∷ created ∷ key ∷ []

-- " -t,,x": blanks, empty fields and unknown names are passed over.
unknown_test :
    dependency is_blank options
      (45 ∷ 99 ∷ [])
      (some key)
      (some (32 ∷ 45 ∷ 116 ∷ 44 ∷ 44 ∷ 120 ∷ []))
    ≡ (1, true) ∷ (3, false) ∷ []
unfolding dependency
unknown_test = refl

default_test : dependency is_blank options (45 ∷ 99 ∷ []) none (some []) ≡ (2, true) ∷ []
unfolding dependency
default_test = refl

dependency-joined_example :
    dependency is_blank options (45 ∷ 99 ∷ []) (some key) (
      some (
        joined is_blank
          (written is_blank options (true, created))
          (written is_blank options (false, title) ∷ [])))
    ≡ (2, true) ∷ (1, false) ∷ (3, false) ∷ []
dependency-joined_example =
    dependency-joined is_blank options (45 ∷ 99 ∷ []) (some key) (true, created)
      ((false, title) ∷ []) (refl, refl)
      ((((refl, refl), tt), refl, refl), ((((refl, refl), tt), refl, refl), tt))
