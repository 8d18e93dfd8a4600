-- ===== src/Auth/Throttle/Callers.antt =====
-- The table of callers: its bound, and what a lookup finds after a failure is recorded.
use app_common.Common.{
  inr, inl, Bool-cases, ℕ, ◌≤◌, ◌<◌, ◌≡◌, ◌≢◌, refl, ap, ◌∙◌, String, none, some, [], ◌∷◌, ◌++◌,
  eq_iff, length, length-append, arith,
}
use app_common.Auth.Throttle.{
  suc, ltb, str_eq, Caller, Callers, Throttle, max_tracked_callers, lookup, without, evict, or_new,
  updated, record_failure,
}

length-evict : (cs : Callers) → length (evict cs) ≤ max_tracked_callers
unfolding evict
length-evict [] = omega arith
length-evict (c ∷ rest) = ground (arith, length-evict rest)

-- However many callers there are, at most `max_tracked_callers` are remembered.
pub record_failure-bounded :
    (th : Throttle) (caller : String) (now : ℕ)
    → length (record_failure th caller now).1.callers ≤ max_tracked_callers
unfolding record_failure
record_failure-bounded th caller now = length-evict (
    without caller th.callers
    ++ (caller, (updated th now (or_new (lookup caller th.callers))).0) ∷ [])

-- No key stands twice, as in a dict.
abbrev pub IsDict : Callers → Type 0
IsDict [] = Unit
IsDict ((k, e) ∷ rest) = (lookup k rest ≡ none) × IsDict rest

pub lookup-without : (c : String) (cs : Callers) → IsDict cs → lookup c (without c cs) ≡ none
unfolding lookup without
lookup-without c [] d = refl
lookup-without c ((k, e) ∷ rest) d = ground (arith, eq_iff k c, lookup-without c rest d.1, d.0)

pub lookup-last :
    (c : String) (e : Caller) (cs : Callers)
    → lookup c cs ≡ none
    → lookup c (cs ++ (c, e) ∷ []) ≡ some e
unfolding lookup
lookup-last c e [] h = ground (arith, eq_iff c c)
lookup-last c e ((k, x) ∷ rest) h = ground (arith, eq_iff k c, lookup-last c e rest)

lookup-evict_last :
    (c : String) (e : Caller) (cs : Callers)
    → lookup c cs ≡ none
    → lookup c (evict (cs ++ (c, e) ∷ [])) ≡ some e
unfolding lookup evict
lookup-evict_last c e [] h = ground (arith, eq_iff c c)
lookup-evict_last c e ((k, x) ∷ rest) h =
    ground (arith, eq_iff k c, lookup-last c e rest, lookup-evict_last c e rest)

-- In a table where no caller stands twice, the caller whose failure is recorded is never the one
-- that is forgotten: its entry is there afterwards, with the failure in it.
pub lookup-record_failure :
    (th : Throttle) (caller : String) (now : ℕ)
    → IsDict th.callers
    → lookup caller (record_failure th caller now).1.callers
      ≡ some (updated th now (or_new (lookup caller th.callers))).0
unfolding record_failure
lookup-record_failure th caller now d =
    lookup-evict_last caller _ (without caller th.callers) (lookup-without caller th.callers d)

pub lookup-without_ne :
    (c j : String) (cs : Callers) → c ≢ j → lookup j (without c cs) ≡ lookup j cs
unfolding lookup without
lookup-without_ne c j [] ne = refl
lookup-without_ne c j ((k, e) ∷ rest) ne =
    ground (arith, eq_iff k c, eq_iff k j, eq_iff c j, lookup-without_ne c j rest ne)

pub lookup-append_ne :
    (c j : String) (e : Caller) (cs : Callers) → c ≢ j → lookup j (cs ++ (c, e) ∷ []) ≡ lookup j cs
unfolding lookup
lookup-append_ne c j e [] ne = ground (arith, eq_iff c j)
lookup-append_ne c j e ((k, x) ∷ rest) ne =
    ground (arith, eq_iff k j, lookup-append_ne c j e rest ne)

evict-room : (cs : Callers) → length cs ≤ max_tracked_callers → evict cs ≡ cs
unfolding evict
evict-room [] h = refl
evict-room (c ∷ rest) h = ground arith

pub length-without-le : (c : String) (cs : Callers) → length (without c cs) ≤ length cs
unfolding without
length-without-le c [] = omega arith
length-without-le c ((k, e) ∷ rest) = ground (arith, length-without-le c rest)

-- While there is room in the table, a failure of one caller leaves every other caller's entry as
-- it was.
lookup-record_failure_ne :
    (th : Throttle) (caller other : String) (now : ℕ)
    → length th.callers < max_tracked_callers
    → caller ≢ other
    → lookup other (record_failure th caller now).1.callers ≡ lookup other th.callers
unfolding record_failure
lookup-record_failure_ne th caller other now room ne =
    let e = (updated th now (or_new (lookup caller th.callers))).0 in
    let fits : length (without caller th.callers ++ (caller, e) ∷ []) ≤ max_tracked_callers =
      omega (
        arith,
        length-append (without caller th.callers) ((caller, e) ∷ []),
        length-without-le caller th.callers,
      ) in
    ap (lookup other) (evict-room (without caller th.callers ++ (caller, e) ∷ []) fits)
    ∙ lookup-append_ne caller other e (without caller th.callers) ne
    ∙ lookup-without_ne caller other th.callers ne

IsDict-without : (c : String) (cs : Callers) → IsDict cs → IsDict (without c cs)
unfolding without
IsDict-without c [] d = tt
IsDict-without c ((k, e) ∷ rest) d = elim (Bool-cases (str_eq k c)) [
  | inl hit ↦ rw hit d.1
  | inr miss ↦ rw miss (absent, IsDict-without c rest d.1)
]
  where
    absent : lookup k (without c rest) ≡ none
    absent = elim (Bool-cases (str_eq c k)) [
      | inl same ↦ rw ((eq_iff c k).0 same) (lookup-without k rest d.1)
      | inr other ↦ lookup-without_ne c k rest (λ p. cc ((eq_iff c k).1 p)) ∙ d.0
    ]

IsDict-append :
    (c : String) (e : Caller) (cs : Callers)
    → IsDict cs
    → lookup c cs ≡ none
    → IsDict (cs ++ (c, e) ∷ [])
unfolding lookup
IsDict-append c e [] d h = (refl, tt)
IsDict-append c e ((k, x) ∷ rest) d h = (
  ground (arith, eq_iff k c, lookup-append_ne c k e rest, d.0),
  IsDict-append c e rest d.1 (ground arith),
)

IsDict-evict : (cs : Callers) → IsDict cs → IsDict (evict cs)
unfolding evict
IsDict-evict [] d = tt
IsDict-evict (c ∷ rest) d = elim (Bool-cases (ltb max_tracked_callers (suc (length rest)))) [
  | inl over ↦ rw over (IsDict-evict rest d.1)
  | inr fits ↦ rw fits d
]

-- No caller stands twice in the table after a failure, if none did before.
pub record_failure-IsDict :
    (th : Throttle) (caller : String) (now : ℕ)
    → IsDict th.callers
    → IsDict (record_failure th caller now).1.callers
unfolding record_failure
record_failure-IsDict th caller now d =
    IsDict-evict
      (without caller th.callers
        ++ (caller, (updated th now (or_new (lookup caller th.callers))).0) ∷ [])
      (IsDict-append caller _ (without caller th.callers) (IsDict-without caller th.callers d)
        (lookup-without caller th.callers d))
