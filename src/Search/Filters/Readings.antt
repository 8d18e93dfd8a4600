-- ===== src/Search/Filters/Readings.antt =====
-- filters.py: how Qdrant reads conditions, and the numbers that it reads as they are.
use mathlib.Core.Option
use app_common.Common.{String, Bool, true, false, not, Option, none, some, List, ◌≡◌, str_eq, any}
use app_common.Vector.{lookup}
use app_common.Search.Filters.{
  Numbers, NumericRange, FilterValue, Atom, Json, atom, items, Condition, on_scope, match_text,
  match_flag, in_range, within,
}

abbrev pub Payload : Type 0 → Type 0
Payload N = List (String × Json N)

module _ {N : Type 0} (num : Numbers N) where
  abbrev pub some_atom : (Atom N → Bool) → Option (Json N) → Bool
  some_atom test none = false
  some_atom test (some (atom a)) = test a
  some_atom test (some (items xs)) = any test xs

  abbrev pub has_text : String → Atom N → Bool
  has_text t (Atom.text s) = str_eq s t
  has_text t _ = false

  abbrev pub has_flag : Bool → Atom N → Bool
  has_flag b (Atom.flag true) = b
  has_flag b (Atom.flag false) = not b
  has_flag b _ = false

  -- The bounds of a `models.Range` are floats.
  abbrev pub floats : NumericRange N → NumericRange N
  floats r = record {
    gt = Option.map num.to_float r.gt;
    gte = Option.map num.to_float r.gte;
    lt = Option.map num.to_float r.lt;
    lte = Option.map num.to_float r.lte;
  }

  abbrev pub has_number : NumericRange N → Atom N → Bool
  has_number r (Atom.number x) = within num (floats r) (num.to_float x)
  has_number r _ = false

  -- What Qdrant documents of a condition on a point: the field has the value or, if it is a list, an
  -- element that has; a range is one of numbers only, and compares them as floats.
  pub record IsQdrant (holds : String → Payload N → Condition N → Bool) : Type 0 where
    pub scopes :
        (own : String) (p : Payload N) (s : String) → holds own p (on_scope s) ≡ str_eq own s
    pub texts :
        (own : String) (p : Payload N) (k t : String)
        → holds own p (match_text k t) ≡ some_atom (has_text t) (lookup k p)
    pub flags :
        (own : String) (p : Payload N) (k : String) (b : Bool)
        → holds own p (match_flag k b) ≡ some_atom (has_flag b) (lookup k p)
    pub ranges :
        (own : String) (p : Payload N) (k : String) (r : NumericRange N)
        → holds own p (in_range k r) ≡ some_atom (has_number r) (lookup k p)

  -- Numbers that a float has exactly.
  abbrev pub IsExact : N → Type 0
  IsExact x = num.to_float x ≡ x

  abbrev pub ExactBound : Option N → Type 0
  ExactBound none = Unit
  ExactBound (some x) = IsExact x

  abbrev pub ExactFilter : FilterValue N → Type 0
  ExactFilter (FilterValue.number x) = IsExact x
  ExactFilter (FilterValue.range r) =
      ExactBound r.gt × ExactBound r.gte × ExactBound r.lt × ExactBound r.lte
  ExactFilter _ = Unit

  abbrev pub ExactJson : Json N → Type 0
  ExactJson (atom (Atom.number x)) = IsExact x
  ExactJson _ = Unit
