-- ===== src/Layer/Services/Unwinding.antt =====
-- Contexts that leave marks and let exceptions pass are left in the opposite order of their entry.
use app_common.Common.{ℕ, ◌≡◌, refl, ap, ap₂, sym, ◌∙◌, List, [], ◌∷◌, ◌++◌, map, reverse}
use mathlib.Core.List.{append_assoc, append-nil, reverse-cons, map-append}
use app_common.Layer.Services.{
  good, Outcome, returned, swallowed, raised, Context, with_contexts, leave, pending, settled,
}

-- What hook `n` is seen to do.
pub data Mark : Type 0 where
  enters leaves prepares posts : ℕ → Mark
  stores : Mark

-- A context that leaves its marks and lets exceptions pass.
abbrev pub noisy : ℕ → Context (List Mark)
noisy n = record {
  enter = λ s. (good tt, s ++ enters n ∷ []);
  exit = λ x s. (x, s ++ leaves n ∷ []);
}

abbrev pub then_leaves : {A : Type 0} → List ℕ → Outcome A × List Mark → Outcome A × List Mark
then_leaves ns (o, s) = (o, s ++ map leaves (reverse ns))

leaves-reverse :
    (n : ℕ) (ns : List ℕ) (s : List Mark)
    → (s ++ map leaves (reverse ns)) ++ leaves n ∷ [] ≡ s ++ map leaves (reverse (n ∷ ns))
leaves-reverse n ns s =
    append_assoc s (map leaves (reverse ns)) (leaves n ∷ [])
    ∙ ap (λ ys. s ++ ys)
        (sym (ap (map leaves) (reverse-cons n ns) ∙ map-append leaves (reverse ns) (n ∷ [])))

module _ {A : Type 0} where
  settled-pending : (o : Outcome A) → settled o (pending o) ≡ o
  settled-pending (returned a) = refl
  settled-pending swallowed = refl
  settled-pending (raised x) = refl

  then_leaves-nil : (r : Outcome A × List Mark) → then_leaves [] r ≡ r
  then_leaves-nil (o, s) = ap (λ t. (o, t)) (append-nil s)

  leave-noisy :
      (n : ℕ) (ns : List ℕ) (r : Outcome A × List Mark)
      → leave (noisy n) (then_leaves ns r) ≡ then_leaves (n ∷ ns) r
  leave-noisy n ns (o, s) = ap₂ (λ x y. (x, y)) (settled-pending o) (leaves-reverse n ns s)

  -- Whatever the body does or raises, every such context is entered before it, in order, and left after it,
  -- in the opposite order, and the body's end is the block's.
  pub with_contexts-order :
      (ns : List ℕ) (body : List Mark → Outcome A × List Mark) (s : List Mark)
      → with_contexts (map noisy ns) body s ≡ then_leaves ns (body (s ++ map enters ns))
  unfolding with_contexts
  with_contexts-order [] body s =
      ap body (sym (append-nil s)) ∙ sym (then_leaves-nil (body (s ++ [])))
  with_contexts-order (n ∷ ns) body s =
      ap (leave (noisy n)) (
        with_contexts-order ns body (s ++ enters n ∷ [])
        ∙ ap (λ t. then_leaves ns (body t)) (append_assoc s (enters n ∷ []) (map enters ns)))
      ∙ leave-noisy n ns (body (s ++ map enters (n ∷ ns)))
