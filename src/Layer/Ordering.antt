-- ===== src/Layer/Ordering.antt =====
-- base/deps/ordering/base.py and combine.py: the order of a listing as a query parameter. A text is
-- the list of its characters; which characters are whitespace is an argument. A criterion is its
-- alias and the clause it gives for a direction.
mod Examples
pub mod Parsing
use app_common.Common.{
  ℕ, Bool, true, false, not, ◌&&◌, Option, none, some, List, [], ◌∷◌, ◌++◌, ◌==◌, if◌then◌else◌,
  filter, find, any, map, reverse,
}

abbrev pub Characters : Type 0
Characters = List ℕ

abbrev pub same_text : Characters → Characters → Bool
same_text [] [] = true
same_text (c ∷ cs) (d ∷ ds) = c == d && same_text cs ds
same_text _ _ = false

abbrev pub comma : ℕ
comma = 44

abbrev pub dash : ℕ
dash = 45

pub record OrderByCriteria (C : Type 0) : Type 0 where
  pub alias : Characters
  pub func : Bool → C

abbrev pub is_empty : Characters → Bool
is_empty [] = true
is_empty (c ∷ cs) = false

abbrev pub onto_first : ℕ → List Characters → List Characters
onto_first c [] = (c ∷ []) ∷ []
onto_first c (t ∷ ts) = (c ∷ t) ∷ ts

-- `order_by.split(",")`
unfoldable pub split : Characters → List Characters
split [] = [] ∷ []
split (c ∷ cs) = let rest = split cs in if c == comma then [] ∷ rest else onto_first c rest

abbrev pub or_default : Characters → Option Characters → Characters
or_default default_order none = default_order
or_default default_order (some []) = default_order
or_default default_order (some (c ∷ cs)) = c ∷ cs

module _ (is_space : ℕ → Bool) where
  unfoldable pub lstrip : Characters → Characters
  lstrip [] = []
  lstrip (c ∷ cs) = let rest = lstrip cs in if is_space c then rest else c ∷ cs

  unfoldable pub rstrip : Characters → Characters
  rstrip [] = []
  rstrip (c ∷ cs) = let rest = rstrip cs in if is_space c && is_empty rest then [] else c ∷ rest

  abbrev pub strip : Characters → Characters
  strip t = rstrip (lstrip t)

  unfoldable pub tokens : Characters → List Characters
  unfolding split lstrip rstrip
  tokens order_by = filter (λ t. not (is_empty t)) (map strip (split order_by))

-- A leading dash asks for the descending order.
abbrev pub directed : Characters → Bool × Characters
directed [] = (false, [])
directed (c ∷ cs) = if c == dash then (true, cs) else (false, c ∷ cs)

module _ {C : Type 0} where
  -- `{c.alias: c for c in criteria}`: of two with one alias, the later counts.
  abbrev pub registered : List (OrderByCriteria C) → Characters → Option (OrderByCriteria C)
  registered criteria name = find (λ c. same_text c.alias name) (reverse criteria)

  abbrev pub handle : Bool → Option (OrderByCriteria C) → List C → List C
  handle desc none clauses = clauses
  handle desc (some c) clauses = c.func desc ∷ clauses

  unfoldable pub clauses_of : List (OrderByCriteria C) → List Characters → List C
  clauses_of criteria [] = []
  clauses_of criteria (t ∷ ts) =
      handle (directed t).0 (registered criteria (directed t).1) (clauses_of criteria ts)

  abbrev pub is_some : Option (OrderByCriteria C) → Bool
  is_some none = false
  is_some (some c) = true

  abbrev pub is_registered : List (OrderByCriteria C) → Characters → Bool
  is_registered criteria name = is_some (registered criteria name)

  -- Whether the alias is among `used_aliases`.
  abbrev pub is_used : List (OrderByCriteria C) → List Characters → Characters → Bool
  is_used criteria ts alias =
      any (λ t. same_text (directed t).1 alias && is_registered criteria (directed t).1) ts

  abbrev pub tied : Option (OrderByCriteria C) → (Characters → Bool) → List C → List C
  tied tie_breaker used [] = []
  tied none used (c ∷ clauses) = c ∷ clauses
  tied (some tie) used (c ∷ clauses) =
      if used tie.alias then c ∷ clauses else (c ∷ clauses) ++ tie.func false ∷ []

  unfoldable pub dependency :
      (ℕ → Bool)
      → List (OrderByCriteria C)
      → Characters
      → Option (OrderByCriteria C)
      → Option Characters
      → List C
  unfolding tokens clauses_of
  dependency is_space criteria default_order tie_breaker order_by =
      let ts = tokens is_space (or_default default_order order_by) in
      tied tie_breaker (is_used criteria ts) (clauses_of criteria ts)
