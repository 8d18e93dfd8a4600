-- ===== src/Search/Filters.antt =====
-- filters.py: `FilterPolicy`. A number of a payload or a query, an `int` or a `float`, is a value of a
-- type `N` with Python's comparisons. A payload value that is no text, number, Boolean or list (null, or
-- an object), and such an element of a list, is opaque, as its JSON text. The names of the definitions
-- are checked when a policy is made, which is not modelled.
pub mod Readings
pub mod Agreement
use app_common.Common.{
  ℕ, String, Bool, true, false, not, ◌&&◌, ◌||◌, Option, none, some, List, [], ◌∷◌, map, str_eq,
  if◌then◌else◌, any, all,
}
use app_common.Layer.Services.{Try, good, bad}
use app_common.Vector.{lookup}

pub record Numbers (N : Type 0) : Type 0 where
  pub lt : N → N → Bool
  pub le : N → N → Bool
  pub eq : N → N → Bool
  pub is_finite : N → Bool
  -- `True` and `False` are the numbers 1 and 0.
  pub of_bool : Bool → N
  -- `float(x)`, which rounds a long `int`.
  pub to_float : N → N

pub data FilterDefinition : Type 0 where
  keyword keywords numeric boolean : FilterDefinition

pub record NumericRange (N : Type 0) : Type 0 where
  pub gt : Option N
  pub gte : Option N
  pub lt : Option N
  pub lte : Option N

pub data FilterValue (N : Type 0) : Type 0 where
  text : String → FilterValue N
  number : N → FilterValue N
  flag : Bool → FilterValue N
  range : NumericRange N → FilterValue N

pub data Atom (N : Type 0) : Type 0 where
  text : String → Atom N
  number : N → Atom N
  flag : Bool → Atom N
  opaque : String → Atom N

-- A value of a payload.
pub data Json (N : Type 0) : Type 0 where
  atom : Atom N → Json N
  items : List (Atom N) → Json N

abbrev pub Definitions : Type 0
Definitions = List (String × FilterDefinition)

abbrev pub Filters : Type 0 → Type 0
Filters N = List (String × FilterValue N)

-- `models.FieldCondition`: on `scope_id`, or on a field below `filters.`.
pub data Condition (N : Type 0) : Type 0 where
  on_scope : String → Condition N
  match_text : String → String → Condition N
  match_flag : String → Bool → Condition N
  in_range : String → NumericRange N → Condition N

module _ {N : Type 0} where
  abbrev pub is_text : Atom N → Bool
  is_text (text t) = true
  is_text _ = false

  abbrev pub is_given : Option N → Bool
  is_given none = false
  is_given (some x) = true

  abbrev pub bounded : (N → Bool) → Option N → Bool
  bounded test none = true
  bounded test (some bound) = test bound

  abbrev pub exactly : N → NumericRange N
  exactly x = record { gt = none; gte = some x; lt = none; lte = some x }

module _ {N : Type 0} (num : Numbers N) where
  abbrev pub is_valid_value : Option FilterDefinition → Json N → Bool
  is_valid_value (some keyword) (atom (text t)) = true
  is_valid_value (some keywords) (items xs) = all is_text xs
  is_valid_value (some boolean) (atom (flag b)) = true
  is_valid_value (some numeric) (atom (number x)) = num.is_finite x
  is_valid_value _ _ = false

  unfoldable pub validate_payload : Definitions → List (String × Json N) → Try (Unit {0})
  validate_payload ds [] = good tt
  validate_payload ds ((key, value) ∷ rest) =
      if is_valid_value (lookup key ds) value
      then validate_payload ds rest
      else bad "SearchSourceError: invalid or undeclared filter payload"

  abbrev pub bound_is_valid : Option N → Bool
  bound_is_valid none = true
  bound_is_valid (some x) = num.is_finite x

  -- A range has some bound, and its bounds are numbers.
  abbrev pub range_is_valid : NumericRange N → Bool
  range_is_valid r =
      (is_given r.gt || is_given r.gte || is_given r.lt || is_given r.lte)
      && bound_is_valid r.gt
      && bound_is_valid r.gte
      && bound_is_valid r.lt
      && bound_is_valid r.lte

  abbrev pub is_valid_filter : Option FilterDefinition → FilterValue N → Bool
  is_valid_filter (some keyword) (text t) = true
  is_valid_filter (some keywords) (text t) = true
  is_valid_filter (some boolean) (flag b) = true
  is_valid_filter (some numeric) (number x) = num.is_finite x
  is_valid_filter (some numeric) (range r) = range_is_valid r
  is_valid_filter _ _ = false

  unfoldable pub validate_query : Definitions → Filters N → Try (Unit {0})
  validate_query ds [] = good tt
  validate_query ds ((key, value) ∷ rest) =
      if is_valid_filter (lookup key ds) value
      then validate_query ds rest
      else bad "SearchInputError: invalid or undeclared query filter"

  -- Of a valid filter: a number is one of a numeric field, and no other value is. The bounds of a
  -- range are handed to `models.Range` as they are.
  abbrev pub condition : String → FilterValue N → Condition N
  condition key (range r) = in_range key r
  condition key (flag b) = match_flag key b
  condition key (number x) = in_range key (exactly (num.to_float x))
  condition key (text t) = match_text key t

  abbrev pub conditions : Try (Unit {0}) → String → Filters N → Try (List (Condition N))
  conditions (bad x) scope values = bad x
  conditions (good u) scope values =
      good (on_scope scope ∷ map (λ (f : String × FilterValue N). condition f.0 f.1) values)

  unfoldable pub query : Definitions → String → Filters N → Try (List (Condition N))
  unfolding validate_query
  query ds scope values = conditions (validate_query ds values) scope values

  -- `==` between an element and a value of a filter that is no range.
  abbrev pub atom_eq : Atom N → FilterValue N → Bool
  atom_eq (text s) (text t) = str_eq s t
  atom_eq (number x) (number y) = num.eq x y
  atom_eq (number x) (flag b) = num.eq x (num.of_bool b)
  atom_eq (flag b) (number y) = num.eq (num.of_bool b) y
  atom_eq (flag true) (flag b) = b
  atom_eq (flag false) (flag b) = not b
  atom_eq _ _ = false

  abbrev pub within : NumericRange N → N → Bool
  within r x =
      bounded (λ gt. num.lt gt x) r.gt
      && bounded (λ gte. num.le gte x) r.gte
      && bounded (λ lt. num.lt x lt) r.lt
      && bounded (λ lte. num.le x lte) r.lte

  -- Of a valid filter: a key that is not declared is refused before.
  abbrev pub matches_one : Option FilterDefinition → FilterValue N → Option (Json N) → Bool
  matches_one d (range r) (some (atom (number x))) = num.is_finite x && within r x
  matches_one d (range r) _ = false
  matches_one (some keywords) value (some (items xs)) = any (λ x. atom_eq x value) xs
  matches_one (some keywords) value _ = false
  matches_one (some boolean) value (some (atom (flag b))) = atom_eq (flag b) value
  matches_one (some boolean) value _ = false
  matches_one d value (some (atom a)) = atom_eq a value
  matches_one d value _ = false

  unfoldable pub matches : Definitions → List (String × Json N) → Filters N → Bool
  matches ds payload [] = true
  matches ds payload ((key, value) ∷ rest) =
      matches_one (lookup key ds) value (lookup key payload) && matches ds payload rest
