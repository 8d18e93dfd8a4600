-- ===== src/Search/Filters/Agreement.antt =====
-- filters.py: the filter that the vector store applies to candidates, against the one that is applied
-- to the current items at the end.
use mathlib.Core.Option
use app_common.Common.{
  All, String, Bool, true, false, ◌&&◌, ◌||◌, Option, none, some, List, [], ◌∷◌, map, ◌≡◌, refl, ap,
  ap₂, subst, ◌∙◌, sym, arith, str_eq, eq_iff, any, all, Bool-cases, inl, inr,
}
use app_common.Layer.Services.{Try, good, bad}
use app_common.Vector.{lookup}
use app_common.Search.Filters.{
  Numbers, FilterDefinition, keyword, keywords, numeric, boolean, NumericRange, FilterValue, Atom,
  opaque, Json, atom, items, Definitions, Filters, Condition, on_scope, exactly, is_valid_value,
  validate_payload, is_valid_filter, validate_query, condition, conditions, query, atom_eq, within,
  matches_one, matches,
}
use app_common.Search.Filters.Readings.{
  Payload, some_atom, has_text, has_flag, floats, has_number, IsQdrant, ExactBound, ExactFilter,
  ExactJson,
}

module _ {N : Type 0} (num : Numbers N) where
  abbrev ExactAt : Option (Json N) → Type 0
  ExactAt none = Unit
  ExactAt (some v) = ExactJson num v

  payload-ExactAt :
      (p : Payload N) (k : String)
      → All (λ (e : String × Json N). ExactJson num e.1) p
      → ExactAt (lookup k p)
  payload-ExactAt [] k h = tt
  payload-ExactAt ((j, v) ∷ p) k h = elim (Bool-cases (str_eq j k)) [
    | inl here ↦ rw here h.0
    | inr other ↦ rw other (payload-ExactAt p k h.1)
  ]

  exact_bound : (o : Option N) → ExactBound num o → Option.map num.to_float o ≡ o
  exact_bound none h = refl
  exact_bound (some x) h = ap some h

  exact_range : (r : NumericRange N) → ExactFilter num (FilterValue.range r) → floats num r ≡ r
  exact_range r h =
      rw (exact_bound r.gt h.0, exact_bound r.gte h.1, exact_bound r.lt h.2, exact_bound r.lte h.3)
        refl

  abbrev ValidAt : Option FilterDefinition → Option (Json N) → Type 0
  ValidAt d none = Unit
  ValidAt d (some v) = is_valid_value num d v ≡ true

  payload-ValidAt :
      (ds : Definitions) (p : Payload N) (k : String)
      → validate_payload num ds p ≡ good tt
      → ValidAt (lookup k ds) (lookup k p)
  unfolding validate_payload
  payload-ValidAt ds [] k h = tt
  payload-ValidAt ds ((j, v) ∷ p) k h = elim (Bool-cases (is_valid_value num (lookup j ds) v)) [
    | inl valid ↦ elim (Bool-cases (str_eq j k)) [
      | inl here ↦
          rw here
            (subst (λ n. is_valid_value num (lookup n ds) v ≡ true) ((eq_iff j k).0 here) valid)
      | inr other ↦ rw other (payload-ValidAt ds p k (rw valid at h))
    ]
    | inr invalid ↦ let e : bad _ ≡ good tt = rw invalid at h in absurd (cc)
  ]

  any-has_text :
      (t : String) (xs : List (Atom N))
      → any (λ x. atom_eq num x (FilterValue.text t)) xs ≡ any (has_text num t) xs
  any-has_text t [] = refl
  any-has_text t (Atom.text s ∷ xs) = ap (λ b. str_eq s t || b) (any-has_text t xs)
  any-has_text t (Atom.number x ∷ xs) = any-has_text t xs
  any-has_text t (Atom.flag b ∷ xs) = any-has_text t xs
  any-has_text t (opaque j ∷ xs) = any-has_text t xs

  module _ (eq-le : (a b : N) → num.eq a b ≡ (num.le b a && num.le a b))
      (holds : String → Payload N → Condition N → Bool) (laws : IsQdrant num holds) where
    -- One filter, by its definition, at a field that is valid.
    agrees_at :
        (d : Option FilterDefinition) (f : FilterValue N) (v : Option (Json N)) (own : String)
        (p : Payload N) (k : String)
        → lookup k p ≡ v
        → ValidAt d v
        → ExactAt v
        → ExactFilter num f
        → is_valid_filter num d f ≡ true
        → holds own p (condition num k f) ≡ matches_one num d f v
    agrees_at (some keyword) (FilterValue.text t) none own p k found w ev ef valid =
        laws.texts own p k t ∙ ap (some_atom num (has_text num t)) found
    agrees_at (some keyword) (FilterValue.text t) (some (atom (Atom.text s))) own p k found w ev ef
          valid =
        laws.texts own p k t ∙ ap (some_atom num (has_text num t)) found
    agrees_at (some keywords) (FilterValue.text t) none own p k found w ev ef valid =
        laws.texts own p k t ∙ ap (some_atom num (has_text num t)) found
    agrees_at (some keywords) (FilterValue.text t) (some (items xs)) own p k found w ev ef valid =
        laws.texts own p k t ∙ ap (some_atom num (has_text num t)) found ∙ sym (any-has_text t xs)
    agrees_at (some boolean) (FilterValue.flag b) none own p k found w ev ef valid =
        laws.flags own p k b ∙ ap (some_atom num (has_flag num b)) found
    agrees_at (some boolean) (FilterValue.flag b) (some (atom (Atom.flag true))) own p k found w ev
          ef valid =
        laws.flags own p k b ∙ ap (some_atom num (has_flag num b)) found
    agrees_at (some boolean) (FilterValue.flag b) (some (atom (Atom.flag false))) own p k found w ev
          ef valid =
        laws.flags own p k b ∙ ap (some_atom num (has_flag num b)) found
    agrees_at (some numeric) (FilterValue.number x) none own p k found w ev ef valid =
        let r = exactly (num.to_float x) in
        laws.ranges own p k r ∙ ap (some_atom num (has_number num r)) found
    agrees_at (some numeric) (FilterValue.number x) (some (atom (Atom.number y))) own p k found w ev
          ef valid =
        let r = exactly (num.to_float x) in
        laws.ranges own p k r
        ∙ ap (some_atom num (has_number num r)) found
        ∙ rw (ef, ef, ev) (ground (arith, eq-le y x))
    agrees_at (some numeric) (FilterValue.range r) none own p k found w ev ef valid =
        laws.ranges own p k r ∙ ap (some_atom num (has_number num r)) found
    agrees_at (some numeric) (FilterValue.range r) (some (atom (Atom.number y))) own p k found w ev
          ef valid =
        laws.ranges own p k r
        ∙ ap (some_atom num (has_number num r)) found
        ∙ ap₂ (within num) (exact_range r ef) ev
        ∙ ap (λ b. b && within num r y) (sym w)
    agrees_at d f v own p k found w ev ef valid = absurd (cc)

    agrees :
        (ds : Definitions) (own : String) (p : Payload N) (values : Filters N)
        → validate_payload num ds p ≡ good tt
        → All (λ (e : String × Json N). ExactJson num e.1) p
        → All (λ (f : String × FilterValue N). ExactFilter num f.1) values
        → validate_query num ds values ≡ good tt
        → all (holds own p) (map (λ (f : String × FilterValue N). condition num f.0 f.1) values)
          ≡ matches num ds p values
    unfolding validate_query matches
    agrees ds own p [] valid_payload ep ev valid = refl
    agrees ds own p ((k, f) ∷ rest) valid_payload ep ev valid =
        elim (Bool-cases (is_valid_filter num (lookup k ds) f)) [
          | inl fits ↦
              ap₂ ◌&&◌
                (agrees_at (lookup k ds) f (lookup k p) own p k refl
                  (payload-ValidAt ds p k valid_payload) (payload-ExactAt p k ep) ev.0 fits)
                (agrees ds own p rest valid_payload ep ev.1 (rw fits at valid))
          | inr refused ↦ let e : bad _ ≡ good tt = rw refused at valid in absurd (cc)
        ]

    -- A point of the queried scope whose payload is valid satisfies every condition of `query`, as
    -- Qdrant reads them, exactly when `matches` holds of its payload and the same filters; a point
    -- of another scope satisfies them never. The numbers of the filters and of the payload are ones
    -- that a float has exactly, since `query` and Qdrant compare floats and `matches` does not; and
    -- equality of numbers is `<=` in both directions.
    pub query-matches :
        (ds : Definitions) (scope own : String) (p : Payload N) (values : Filters N)
        (cs : List (Condition N))
        → validate_payload num ds p ≡ good tt
        → All (λ (e : String × Json N). ExactJson num e.1) p
        → All (λ (f : String × FilterValue N). ExactFilter num f.1) values
        → query num ds scope values ≡ good cs
        → all (holds own p) cs ≡ (str_eq own scope && matches num ds p values)
    unfolding query
    query-matches ds scope own p values cs valid ep ev h =
        by_check (validate_query num ds values) refl h
      where
        by_check :
            (checked : Try (Unit {0}))
            → validate_query num ds values ≡ checked
            → conditions num checked scope values ≡ good cs
            → all (holds own p) cs ≡ (str_eq own scope && matches num ds p values)
        by_check (bad x) e made = absurd (cc)
        by_check (good u) e made =
            let same : on_scope scope
                  ∷ map (λ (f : String × FilterValue N). condition num f.0 f.1) values
                ≡ cs =
              cc in
            ap (all (holds own p)) (sym same)
            ∙ ap₂ ◌&&◌ (laws.scopes own p scope) (agrees ds own p values valid ep ev e)
