-- ===== src/Auth/Throttle/Tracked.antt =====
-- The table of callers: a caller's entry is forgotten only after as many failures of others as the
-- table has room for.
use app_common.Common.{
  inr, inl, Bool-cases, ℕ, ◌≤◌, ◌<◌, ◌≡◌, ◌≢◌, ◌∙◌, String, true, false, none, some, [], ◌∷◌, ◌++◌,
  eq_iff, length, length-append, arith, if◌then◌else◌,
}
use app_common.Auth.Throttle.{
  suc, ltb, str_eq, Caller, Callers, Throttle, max_tracked_callers, lookup, without, evict, or_new,
  updated, record_failure,
}
use app_common.Auth.Throttle.Callers.{
  IsDict, lookup-without, lookup-without_ne, lookup-append_ne, length-without-le, lookup-last,
}

-- How many entries are younger than the caller's.
abbrev pub behind : String → Callers → ℕ
behind c [] = 0
behind c ((k, e) ∷ rest) = if str_eq k c then length rest else behind c rest

behind-without : (o c : String) (cs : Callers) → o ≢ c → behind c (without o cs) ≤ behind c cs
unfolding without
behind-without o c [] ne = omega arith
behind-without o c ((k, e) ∷ rest) ne = ground (
  arith,
  eq_iff k o,
  eq_iff k c,
  eq_iff o c,
  behind-without o c rest ne,
  length-without-le o rest,
)

behind-append :
    (c k : String) (e : Caller) (cs : Callers) → behind c (cs ++ (k, e) ∷ []) ≤ suc (behind c cs)
behind-append c k e [] = ground arith
behind-append c k e ((j, x) ∷ rest) =
    ground (arith, behind-append c k e rest, length-append rest ((k, e) ∷ []))

behind-last :
    (c : String) (e : Caller) (cs : Callers) → lookup c cs ≡ none → behind c (cs ++ (c, e) ∷ []) ≡ 0
unfolding lookup
behind-last c e [] h = ground (arith, eq_iff c c)
behind-last c e ((k, x) ∷ rest) h = ground (arith, behind-last c e rest)

-- An entry with room behind it is not evicted.
lookup-evict :
    (c : String) (e : Caller) (cs : Callers)
    → lookup c cs ≡ some e
    → behind c cs < max_tracked_callers
    → (lookup c (evict cs) ≡ some e) × (behind c (evict cs) ≤ behind c cs)
unfolding lookup evict
lookup-evict c e [] found room = absurd (cc)
lookup-evict c e ((k, x) ∷ rest) found room =
    elim (Bool-cases (ltb max_tracked_callers (suc (length rest)))) [
      | inr fits ↦ rw fits (found, omega arith)
      | inl over ↦ elim (Bool-cases (str_eq k c)) [
        | inl own ↦ let bad : true ≡ false = ground (arith, own, over, room) in absurd (cc)
        | inr other ↦
            let (kept, less) = lookup-evict c e rest (rw other at found) (rw other at room) in
            rw (over, other) (kept, less)
      ]
    ]

-- The failure of another caller leaves the entry, with at most one more behind it.
pub behind-record_failure_ne :
    (th : Throttle) (other c : String) (now : ℕ) (e : Caller)
    → other ≢ c
    → lookup c th.callers ≡ some e
    → suc (behind c th.callers) < max_tracked_callers
    → (lookup c (record_failure th other now).1.callers ≡ some e)
      × (behind c (record_failure th other now).1.callers ≤ suc (behind c th.callers))
unfolding record_failure
behind-record_failure_ne th other c now e ne found room =
    let x = (updated th now (or_new (lookup other th.callers))).0 in
    let left = without other th.callers in
    let more = behind-append c other x left in
    let less = behind-without other c th.callers ne in
    let (kept, bound) =
      lookup-evict c e (left ++ (other, x) ∷ [])
        (lookup-append_ne other c x left ne ∙ lookup-without_ne other c th.callers ne ∙ found)
        (omega (arith, more, less, room)) in
    (kept, omega (arith, bound, more, less))

-- The caller's own failure puts its entry at the end.
pub behind-record_failure :
    (th : Throttle) (c : String) (now : ℕ)
    → IsDict th.callers
    → behind c (record_failure th c now).1.callers ≡ 0
unfolding record_failure lookup
behind-record_failure th c now d =
    let x = (updated th now (or_new (lookup c th.callers))).0 in
    let left = without c th.callers in
    let absent = lookup-without c th.callers d in
    let zero = behind-last c x left absent in
    let (kept, bound) =
      lookup-evict c x (left ++ (c, x) ∷ []) (lookup-last c x left absent) (omega (arith, zero)) in
    omega (arith, bound, zero)
