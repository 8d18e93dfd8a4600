-- ===== src/Vector/Laws/Effects.antt =====
-- store.py: the batched writes of the store, against what one call with all items would do.
use app_common.Common.{
  ℕ, ◌<◌, String, Bool, true, false, List, [], ◌∷◌, ◌≡◌, refl, ap, ◌∙◌, sym, subst, batches,
  concat-batches,
}
use app_common.Layer.Services.{good}
use app_common.Vector.{Run, ◌>>◌, State, remotely, raise_if, for_each}
use app_common.Vector.Laws.{applied, and_then-good, applied-concat}

-- A loop acts as its steps do, one after another.
pub for_each-applied :
    {S X B : Type 0} (f : X → Run S (Unit {0})) (seen : S → B) (step : X → B → B)
    → ((x : X) (s s' : S) → f x s ≡ (good tt, s') → seen s' ≡ step x (seen s))
    → (xs : List X) (s s' : S) → for_each f xs s ≡ (good tt, s')
    → seen s' ≡ applied step xs (seen s)
unfolding for_each
for_each-applied f seen step each [] s s' h = ap seen (ap (λ r. r.1) (sym h))
for_each-applied f seen step each (x ∷ xs) s s' h =
    let (u, s1, first, rest) = and_then-good (f x s) (λ _. for_each f xs) tt s' h in
    for_each-applied f seen step each xs s1 s' rest ∙ ap (applied step xs) (each x s s1 first)

-- The same, where the steps need an invariant that they keep.
pub for_each_inv :
    {S X B : Type 0} (f : X → Run S (Unit {0})) (seen : S → B) (step : X → B → B) (Inv : S → Type 0)
    → ((x : X) (s s' : S) → Inv s → f x s ≡ (good tt, s') → Inv s' × (seen s' ≡ step x (seen s)))
    → (xs : List X) (s s' : S) → Inv s
    → for_each f xs s ≡ (good tt, s')
    → Inv s' × (seen s' ≡ applied step xs (seen s))
unfolding for_each
for_each_inv f seen step Inv each [] s s' inv h =
    let same : s ≡ s' = ap (λ r. r.1) h in (subst Inv same inv, ap seen (sym same))
for_each_inv f seen step Inv each (x ∷ xs) s s' inv h =
    let (u, s1, first, rest) = and_then-good (f x s) (λ _. for_each f xs) tt s' h in
    let (inv1, here) = each x s s1 inv first in
    let (inv2, there) = for_each_inv f seen step Inv each xs s1 s' inv1 rest in
    (inv2, there ∙ ap (applied step xs) here)

-- A loop keeps what each of its steps keeps.
pub for_each-kept :
    {S X B : Type 0} (f : X → Run S (Unit {0})) (seen : S → B)
    → ((x : X) (s s' : S) → f x s ≡ (good tt, s') → seen s' ≡ seen s)
    → (xs : List X) (s s' : S) → for_each f xs s ≡ (good tt, s')
    → seen s' ≡ seen s
unfolding for_each
for_each-kept f seen each [] s s' h = ap seen (ap (λ r. r.1) (sym h))
for_each-kept f seen each (x ∷ xs) s s' h =
    let (u, s1, first, rest) = and_then-good (f x s) (λ _. for_each f xs) tt s' h in
    for_each-kept f seen each xs s1 s' rest ∙ each x s s1 first

-- A call on the remote state, seen from the store's.
pub remotely-good :
    {S A : Type 0} (m : Run S A) (s s' : State S) (a : A)
    → remotely m s ≡ (good a, s')
    → m s.remote ≡ (good a, s'.remote)
remotely-good m s s' a h = ap (λ r. (r.0, r.1.remote)) h

-- The batches of a write act as one call with all items.
pub for_each-batches :
    {S X B : Type 0} (f : List X → Run S (Unit {0})) (seen : S → B) (step : X → B → B)
    → ((xs : List X) (s s' : S) → f xs s ≡ (good tt, s') → seen s' ≡ applied step xs (seen s))
    → (n : ℕ) (xs : List X) (s s' : State S) → 0 < n
    → for_each (λ batch. remotely (f batch)) (batches n xs) s ≡ (good tt, s')
    → seen s'.remote ≡ applied step xs (seen s.remote)
for_each-batches f seen step each n xs s s' pos h =
    for_each-applied (λ batch. remotely (f batch)) (λ t. seen t.remote) (applied step)
      (λ batch t t' e. each batch t.remote t'.remote (remotely-good (f batch) t t' tt e))
      (batches n xs) s s' h
    ∙ applied-concat step (batches n xs) (seen s.remote)
    ∙ ap (λ ys. applied step ys (seen s.remote)) (concat-batches n xs pos)

-- A chain that ends well passed the check that it begins with.
pub checked_good :
    {S B : Type 0} (b : Bool) (e : String) (rest : Run S B) (s s' : S) (r : B)
    → (raise_if b e >> rest) s ≡ (good r, s')
    → (b ≡ false) × (rest s ≡ (good r, s'))
checked_good true e rest s s' r h = absurd (cc)
checked_good false e rest s s' r h = (refl, h)
