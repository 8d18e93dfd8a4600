-- ===== src/Layer/Services/Operations/Order.antt =====
-- In which order an operation runs its hooks, and what a failure skips.
use app_common.Common.{ℕ, ◌≡◌, refl, ap, sym, ◌∙◌, List, [], ◌∷◌, ◌++◌, map, reverse}
use mathlib.Core.List.{append_assoc, append-nil, reverse-cons, map-append}
use app_common.Layer.Services.{
  Try, good, bad, Outcome, returned, raised, Hook, with_contexts, prepare_fields, post_all,
  and_then, outcome,
}
use app_common.Layer.Services.Unwinding.{
  Mark, enters, prepares, posts, stores, noisy, then_leaves, with_contexts-order,
}
use app_common.Layer.Services.Operations.{
  operate, Where, unset, conditions, condition, with_filters,
}

module _ {A : Type 0} where
  -- What follows the repository.
  abbrev pub afterwards : Try A → List ℕ → List Mark
  afterwards (good a) ns = map posts (reverse ns)
  afterwards (bad x) ns = []

  abbrev pub end_of : Try A → Outcome A
  end_of (good a) = returned a
  end_of (bad x) = raised x

module _ (In F A : Type 0) where
  -- A hook that leaves its marks and changes nothing.
  abbrev pub loud : ℕ → Hook (List Mark) In F A
  loud n = record {
    context = λ i. noisy n;
    prepare = λ i f s. (good f, s ++ prepares n ∷ []);
    post = λ i a s. (good a, s ++ posts n ∷ []);
  }

  -- A repository that ends in `r`.
  abbrev pub storing : Try A → In → F → List Mark → Try A × List Mark
  storing r i f s = (r, s ++ stores ∷ [])

  contexts-loud : (i : In) (ns : List ℕ) → map (λ h. h.context i) (map loud ns) ≡ map noisy ns
  contexts-loud i [] = refl
  contexts-loud i (n ∷ ns) = ap (λ cs. noisy n ∷ cs) (contexts-loud i ns)

  prepare_fields-loud :
      (i : In) (f : F) (ns : List ℕ) (s : List Mark)
      → prepare_fields (map loud ns) i f s ≡ (good f, s ++ map prepares ns)
  unfolding prepare_fields
  prepare_fields-loud i f [] s = ap (λ t. (good f, t)) (sym (append-nil s))
  prepare_fields-loud i f (n ∷ ns) s =
      prepare_fields-loud i f ns (s ++ prepares n ∷ [])
      ∙ ap (λ t. (good f, t)) (append_assoc s (prepares n ∷ []) (map prepares ns))

  post_all-loud :
      (i : In) (a : A) (ns : List ℕ) (s : List Mark)
      → post_all (map loud ns) i a s ≡ (good a, s ++ map posts ns)
  unfolding post_all
  post_all-loud i a [] s = ap (λ t. (good a, t)) (sym (append-nil s))
  post_all-loud i a (n ∷ ns) s =
      post_all-loud i a ns (s ++ posts n ∷ [])
      ∙ ap (λ t. (good a, t)) (append_assoc s (posts n ∷ []) (map posts ns))

  reverse-loud : (ns : List ℕ) → reverse (map loud ns) ≡ map loud (reverse ns)
  reverse-loud [] = refl
  reverse-loud (n ∷ ns) =
      reverse-cons (loud n) (map loud ns)
      ∙ ap (λ hs. hs ++ loud n ∷ []) (reverse-loud ns)
      ∙ sym (ap (map loud) (reverse-cons n ns) ∙ map-append loud (reverse ns) (n ∷ []))

  finishing :
      (r : Try A) (i : In) (ns : List ℕ) (s : List Mark)
      → outcome (and_then (r, s) (post_all (reverse (map loud ns)) i))
        ≡ (end_of r, s ++ afterwards r ns)
  finishing (good a) i ns s =
      ap (λ hs. outcome (post_all hs i a s)) (reverse-loud ns)
      ∙ ap outcome (post_all-loud i a (reverse ns) s)
  finishing (bad x) i ns s = ap (λ t. (raised x, t)) (sym (append-nil s))

  -- With hooks that only leave marks, an operation enters the contexts and prepares the fields in the
  -- hooks' order, calls the repository, and, if that did not raise, runs the post steps in the
  -- opposite order; whether it raised or not, the contexts are then left in the opposite order, and
  -- the operation ends as the repository did.
  pub operate-order :
      (ns : List ℕ) (r : Try A) (i : In) (f : F) (s : List Mark)
      → operate (map loud ns) (storing r) i f s
        ≡ then_leaves ns (
          end_of r,
          (((s ++ map enters ns) ++ map prepares ns) ++ stores ∷ []) ++ afterwards r ns,
        )
  unfolding operate
  operate-order ns r i f s =
      ap (λ cs. with_contexts cs body s) (contexts-loud i ns)
      ∙ with_contexts-order ns body s
      ∙ ap (then_leaves ns) (body-marks (s ++ map enters ns))
    where
      body : List Mark → Outcome A × List Mark
      body s' = outcome (
          and_then (prepare_fields (map loud ns) i f s')
            (λ f' s1. and_then (storing r i f' s1) (post_all (reverse (map loud ns)) i)))

      body-marks :
          (t : List Mark)
          → body t ≡ (end_of r, ((t ++ map prepares ns) ++ stores ∷ []) ++ afterwards r ns)
      body-marks t =
          ap
            (λ p. outcome (
              and_then p
                (λ f' s1. and_then (storing r i f' s1) (post_all (reverse (map loud ns)) i))))
            (prepare_fields-loud i f ns t)
          ∙ finishing r i ns ((t ++ map prepares ns) ++ stores ∷ [])

-- The conditions of a query.
abbrev pub conditions_of : {C : Type 0} → Where C → List C
conditions_of unset = []
conditions_of (conditions cs) = cs
conditions_of (condition c) = c ∷ []

-- The filters of the hooks come on top of the query's own conditions, which all stay, in whichever of
-- its three forms the query gives them.
pub conditions_of-with_filters :
    {C : Type 0} (w : Where C) (extra : List C)
    → conditions_of (with_filters w extra) ≡ conditions_of w ++ extra
unfolding with_filters
conditions_of-with_filters unset extra = refl
conditions_of-with_filters (conditions cs) extra = refl
conditions_of-with_filters (condition c) [] = refl
conditions_of-with_filters (condition c) (f ∷ fs) = refl
