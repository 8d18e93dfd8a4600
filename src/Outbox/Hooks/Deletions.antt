-- ===== src/Outbox/Hooks/Deletions.antt =====
-- A deletion of many rows records one event for each row that is gone.
use app_common.Common.{
  ℕ, ◌≡◌, refl, ap, ap₂, sym, ◌∙◌, inl, inr, ◌⊎◌, Bool, true, false, not, Option, none, some, List,
  [], ◌∷◌, ◌++◌, ◌==◌, filter, All, arith, Bool-cases,
}
use mathlib.Core.Option
use mathlib.Core.List.{append_assoc, append-nil}
use app_common.Table.{get, IsKeyed}
use app_common.Outbox.Model.{OutboxCreate}
use app_common.Outbox.Hooks.{
  Subject, Captured, captured_at, popped, event_of, capture, recorded, delete_post, among,
  capture_all, delete_context_multi, delete_posts, survivors_of, delete_post_multi,
}

-- The keys are distinct.
abbrev Distinct : List ℕ → Type 0
Distinct [] = Unit
Distinct (pk ∷ pks) = All (λ q. (pk == q) ≡ false) pks × Distinct pks

-- The events of the keys of which a row was captured and which are not among the survivors.
abbrev event_if : Bool → Option OutboxCreate → List OutboxCreate
event_if true (some e) = e ∷ []
event_if gone found = []

abbrev pub events_for : (ℕ → Option OutboxCreate) → List ℕ → List ℕ → List OutboxCreate
events_for found survivors [] = []
events_for found survivors (pk ∷ pks) =
    event_if (not (among survivors pk)) (found pk) ++ events_for found survivors pks

recorded-event_if :
    (gone : Bool) (found : Option OutboxCreate) (events : List OutboxCreate)
    → recorded gone found events ≡ events ++ event_if gone found
recorded-event_if true (some e) events = refl
recorded-event_if true none events = sym (append-nil events)
recorded-event_if false (some e) events = sym (append-nil events)
recorded-event_if false none events = sym (append-nil events)

captured_at-popped :
    (pk q : ℕ) (c : Captured) → (pk == q) ≡ false → captured_at q (popped pk c) ≡ captured_at q c
unfolding captured_at popped
captured_at-popped pk q [] ne = refl
captured_at-popped pk q ((k, e) ∷ c) ne = ground (arith, ne, captured_at-popped pk q c ne)

events_for-popped :
    (pk : ℕ) (c : Captured) (survivors pks : List ℕ)
    → All (λ q. (pk == q) ≡ false) pks
    → events_for (λ q. captured_at q (popped pk c)) survivors pks
      ≡ events_for (λ q. captured_at q c) survivors pks
events_for-popped pk c survivors [] h = refl
events_for-popped pk c survivors (q ∷ pks) h =
    ap₂ (λ x y. event_if (not (among survivors q)) x ++ y) (captured_at-popped pk q c h.0)
      (events_for-popped pk c survivors pks h.1)

delete_posts-events :
    (survivors pks : List ℕ) (c : Captured) (events : List OutboxCreate)
    → Distinct pks
    → (delete_posts survivors pks c events).1
      ≡ events ++ events_for (λ q. captured_at q c) survivors pks
unfolding delete_posts delete_post
delete_posts-events survivors [] c events d = sym (append-nil events)
delete_posts-events survivors (pk ∷ pks) c events d =
    let gone = not (among survivors pk) in
    delete_posts-events survivors pks (popped pk c) (recorded gone (captured_at pk c) events) d.1
    ∙ ap₂ (λ x y. x ++ y) (recorded-event_if gone (captured_at pk c) events)
        (events_for-popped pk c survivors pks d.0)
    ∙ append_assoc events (event_if gone (captured_at pk c))
        (events_for (λ q. captured_at q c) survivors pks)

module _ {R : Type 0} (s : Subject R) where
  -- The event of the row of a key, if there is one.
  abbrev pub event_at : List R → ℕ → Option OutboxCreate
  event_at rows pk = Option.map (event_of s s.delete_type pk) (get s.primary_key pk rows)

  or_captured : Option OutboxCreate → Option OutboxCreate → Option OutboxCreate
  or_captured none old = old
  or_captured (some e) old = some e

  captured_at-capture_all :
      (rows : List R) (c : Captured) (pk : ℕ)
      → IsKeyed s.primary_key rows
      → captured_at pk (capture_all s rows c) ≡ or_captured (event_at rows pk) (captured_at pk c)
  unfolding capture_all capture captured_at or_captured
  captured_at-capture_all [] c pk k = refl
  captured_at-capture_all (obj ∷ rows) c pk k =
      captured_at-capture_all rows (capture s (s.primary_key obj) obj c) pk k.1
      ∙ step (Bool-cases (s.primary_key obj == pk))
    where
      step :
          ((s.primary_key obj == pk) ≡ true) ⊎ ((s.primary_key obj == pk) ≡ false)
          → or_captured (event_at rows pk) (captured_at pk (capture s (s.primary_key obj) obj c))
            ≡ or_captured (event_at (obj ∷ rows) pk) (captured_at pk c)
      step (inl hit) =
          let same : s.primary_key obj ≡ pk = ground (arith, hit) in
          let alone : get s.primary_key pk rows ≡ none =
            ap (λ i. get s.primary_key i rows) (sym same) ∙ k.0 in
          rw (alone, hit) (ap (λ i. some (event_of s s.delete_type i obj)) same)
      step (inr miss) = rw miss refl

  IsKeyed-filter :
      (p : R → Bool) (rows : List R)
      → IsKeyed s.primary_key rows
      → IsKeyed s.primary_key (filter p rows)
  IsKeyed-filter p [] k = tt
  IsKeyed-filter p (r ∷ rows) k = elim (Bool-cases (p r)) [
    | inl e ↦ rw e (missing p (s.primary_key r) rows k.0, IsKeyed-filter p rows k.1)
    | inr e ↦ rw e (IsKeyed-filter p rows k.1)
  ]
    where
      missing :
          (p : R → Bool) (i : ℕ) (rows : List R)
          → get s.primary_key i rows ≡ none
          → get s.primary_key i (filter p rows) ≡ none
      missing p i [] h = refl
      missing p i (r ∷ rows) h = ground (arith, h, missing p i rows)

  get-filter-among :
      (pks : List ℕ) (pk : ℕ) (rows : List R)
      → among pks pk ≡ true
      → get s.primary_key pk (filter (λ r. among pks (s.primary_key r)) rows)
        ≡ get s.primary_key pk rows
  get-filter-among pks pk [] h = refl
  get-filter-among pks pk (r ∷ rows) h = elim (Bool-cases (s.primary_key r == pk)) [
    | inl hit ↦
        let same : s.primary_key r ≡ pk = ground (arith, hit) in
        let here : among pks (s.primary_key r) ≡ true = ap (among pks) same ∙ h in
        rw (here, hit) refl
    | inr miss ↦ ground (arith, miss, get-filter-among pks pk rows h)
  ]

  or_captured-none : (o : Option OutboxCreate) → or_captured o none ≡ o
  unfolding or_captured
  or_captured-none none = refl
  or_captured-none (some e) = refl

  captured_one :
      (whole : List ℕ) (pk : ℕ) (rows : List R)
      → IsKeyed s.primary_key rows
      → among whole pk ≡ true
      → captured_at pk (delete_context_multi s whole rows []) ≡ event_at rows pk
  unfolding delete_context_multi captured_at
  captured_one whole pk rows k h =
      captured_at-capture_all (filter (λ r. among whole (s.primary_key r)) rows) [] pk
        (IsKeyed-filter (λ r. among whole (s.primary_key r)) rows k)
      ∙ or_captured-none (event_at (filter (λ r. among whole (s.primary_key r)) rows) pk)
      ∙ ap (Option.map (event_of s s.delete_type pk)) (get-filter-among whole pk rows h)

  events_for-captured :
      (whole survivors pks : List ℕ) (rows : List R)
      → IsKeyed s.primary_key rows
      → All (λ q. among whole q ≡ true) pks
      → events_for (λ q. captured_at q (delete_context_multi s whole rows [])) survivors pks
        ≡ events_for (event_at rows) survivors pks
  events_for-captured whole survivors [] rows k h = refl
  events_for-captured whole survivors (pk ∷ pks) rows k h =
      ap₂ (λ x y. event_if (not (among survivors pk)) x ++ y) (captured_one whole pk rows k h.0)
        (events_for-captured whole survivors pks rows k h.1)

  All-among :
      (whole pks : List ℕ)
      → ((q : ℕ) → among pks q ≡ true → among whole q ≡ true)
      → All (λ q. among whole q ≡ true) pks
  All-among whole [] h = tt
  All-among whole (pk ∷ pks) h =
      (h pk (ground arith), All-among whole pks (λ q e. h q (ground (arith, e))))

  -- Where the keys are distinct and no two rows have the same key, a deletion of many rows
  -- records, in the order of the keys, exactly one event for each key of which there was a row
  -- before and which is not among the survivors, with that row's payload.
  pub delete_post_multi-events :
      (pks : List ℕ) (rows remaining : List R) (deleted_count : ℕ) (events : List OutboxCreate)
      → Distinct pks
      → IsKeyed s.primary_key rows
      → (delete_post_multi s pks deleted_count remaining
          (delete_context_multi s pks rows [])
          events).1
        ≡ events ++ events_for (event_at rows) (survivors_of s pks deleted_count remaining) pks
  unfolding delete_post_multi
  delete_post_multi-events [] rows remaining deleted_count events d k = sym (append-nil events)
  delete_post_multi-events (pk ∷ pks) rows remaining deleted_count events d k =
      let survivors = survivors_of s (pk ∷ pks) deleted_count remaining in
      delete_posts-events survivors (pk ∷ pks) (delete_context_multi s (pk ∷ pks) rows []) events d
      ∙ ap (λ ys. events ++ ys)
          (events_for-captured (pk ∷ pks) survivors (pk ∷ pks) rows k
            (All-among (pk ∷ pks) (pk ∷ pks) (λ q e. e)))
