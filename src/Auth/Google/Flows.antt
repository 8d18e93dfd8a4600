-- ===== src/Auth/Google/Flows.antt =====
-- google/repos.py: what the statements do to the flows under one key.
use app_common.Common.{
  ℕ, ◌≡◌, refl, sym, ◌∙◌, subst, inl, inr, String, false, not, none, some, List, [], ◌∷◌, arith,
  str_eq, eq_iff, Bool-cases, find, All, All-append,
}
use app_common.Table.Select.{All-filter}
use app_common.Auth.Google.{GoogleLoginFlow, GoogleStore, is_consumable, consume, save_flow}

-- No flow has the key.
abbrev pub Absent : String → List GoogleLoginFlow → Type 0
Absent k flows = All (λ f. str_eq f.key k ≡ false) flows

-- The primary key.
abbrev pub IsUnique : List GoogleLoginFlow → Type 0
IsUnique [] = Unit
IsUnique (f ∷ fs) = Absent f.key fs × IsUnique fs

-- A step of others that stores no flow under the key.
abbrev pub Keeps : String → (GoogleStore → GoogleStore) → Type 0
Keeps k h = (s : GoogleStore) → Absent k s.flows → Absent k (h s).flows

pub consume-none :
    (k b : String) (now : ℕ) (flows : List GoogleLoginFlow)
    → Absent k flows
    → (consume k b now flows).0 ≡ none
unfolding consume
consume-none k b now [] h = refl
consume-none k b now (f ∷ fs) h = rw h.0 (consume-none k b now fs h.1)

pub consume-kept :
    (k j b : String) (now : ℕ) (flows : List GoogleLoginFlow)
    → Absent k flows
    → Absent k (consume j b now flows).1
unfolding consume
consume-kept k j b now flows h =
    All-filter (λ f. str_eq f.key k ≡ false) (λ f. not (is_consumable j b now f)) flows h

find-Absent :
    (k b : String) (now : ℕ) (fs : List GoogleLoginFlow) (f : GoogleLoginFlow)
    → Absent k fs
    → find (is_consumable k b now) fs ≡ some f
    → ⊥
unfolding consume
find-Absent k b now fs f h e =
    let gone = consume-none k b now fs h in let bad : none ≡ some f = sym gone ∙ e in cc

-- What is consumed is gone.
pub consume-Absent :
    (k b : String) (now : ℕ) (flows : List GoogleLoginFlow) (f : GoogleLoginFlow)
    → IsUnique flows
    → (consume k b now flows).0 ≡ some f
    → Absent k (consume k b now flows).1
unfolding consume
consume-Absent k b now [] f unique h = tt
consume-Absent k b now (x ∷ xs) f unique h = elim (Bool-cases (is_consumable k b now x)) [
  | inl hit ↦
      let same : x.key ≡ k = ground (arith, hit, eq_iff x.key k) in
      rw hit (consume-kept k k b now xs (subst (λ j. Absent j xs) same unique.0))
  | inr missed ↦
      let later : find (is_consumable k b now) xs ≡ some f = rw missed at h in
      let rest = consume-Absent k b now xs f unique.1 later in
      elim (Bool-cases (str_eq x.key k)) [
        | inl same_key ↦
            let same : x.key ≡ k = ground (arith, same_key, eq_iff x.key k) in
            absurd (find-Absent k b now xs f (subst (λ j. Absent j xs) same unique.0) later)
        | inr other ↦ rw missed (other, rest)
      ]
]

pub save-Absent :
    (k : String) (f : GoogleLoginFlow) (s : GoogleStore)
    → Absent k s.flows
    → str_eq f.key k ≡ false
    → Absent k (save_flow f s).flows
save-Absent k f s h new = All-append (λ x. str_eq x.key k ≡ false) s.flows (f ∷ []) h (new, tt)
