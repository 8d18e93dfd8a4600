-- ===== src/Layer/Ordering/Parsing.antt =====
-- What is written as an order is read as that order.
use app_common.Common.{
  ℕ, ◌≡◌, refl, ap, ◌∙◌, Bool, true, false, not, Option, none, some, List, [], ◌∷◌, ◌++◌, ◌==◌,
  if◌then◌else◌, filter, map, any, All, All-map, arith,
}
use app_common.Layer.Ordering.{
  Characters, same_text, comma, dash, OrderByCriteria, is_empty, split, lstrip, rstrip, strip,
  tokens, directed, registered, clauses_of, is_some, is_registered, is_used, tied, or_default,
  dependency,
}

module _ (is_space : ℕ → Bool) where
  -- A character that can stand in an alias.
  abbrev pub IsPlain : ℕ → Type 0
  IsPlain c = ((c == comma) ≡ false) × (is_space c ≡ false)

  split_plain : (t : Characters) → All IsPlain t → split t ≡ t ∷ []
  unfolding split
  split_plain [] h = refl
  split_plain (c ∷ cs) h = rw (h.0.0, split_plain cs h.1) refl

  split_join : (t rest : Characters) → All IsPlain t → split (t ++ comma ∷ rest) ≡ t ∷ split rest
  unfolding split
  split_join [] rest h = refl
  split_join (c ∷ cs) rest h = rw (h.0.0, split_join cs rest h.1) refl

  lstrip_plain : (t : Characters) → All IsPlain t → lstrip is_space t ≡ t
  unfolding lstrip
  lstrip_plain [] h = refl
  lstrip_plain (c ∷ cs) h = rw h.0.1 refl

  rstrip_plain : (t : Characters) → All IsPlain t → rstrip is_space t ≡ t
  unfolding rstrip
  rstrip_plain [] h = refl
  rstrip_plain (c ∷ cs) h = rw (h.0.1, rstrip_plain cs h.1) refl

  strip_plain : (t : Characters) → All IsPlain t → strip is_space t ≡ t
  strip_plain t h = ap (rstrip is_space) (lstrip_plain t h) ∙ rstrip_plain t h

  -- Texts joined by commas.
  abbrev pub joined : Characters → List Characters → Characters
  joined t [] = t
  joined t (u ∷ us) = t ++ comma ∷ joined u us

  split-joined :
      (t : Characters) (ts : List Characters)
      → All IsPlain t
      → All (All IsPlain) ts
      → split (joined t ts) ≡ t ∷ ts
  split-joined t [] h hs = split_plain t h
  split-joined t (u ∷ us) h hs =
      split_join t (joined u us) h ∙ ap (λ l. t ∷ l) (split-joined u us hs.0 hs.1)

  -- A text that `tokens` keeps.
  abbrev pub IsToken : Characters → Type 0
  IsToken t = All IsPlain t × (is_empty t ≡ false)

  kept :
      (ts : List Characters)
      → All IsToken ts
      → filter (λ t. not (is_empty t)) (map (strip is_space) ts) ≡ ts
  kept [] h = refl
  kept (t ∷ ts) h = rw (strip_plain t h.0.0, h.0.1) (ap (λ l. t ∷ l) (kept ts h.1))

  tokens-joined :
      (t : Characters) (ts : List Characters)
      → All IsToken (t ∷ ts)
      → tokens is_space (joined t ts) ≡ t ∷ ts
  unfolding tokens
  tokens-joined t ts h =
      ap (λ l. filter (λ u. not (is_empty u)) (map (strip is_space) l))
        (split-joined t ts h.0.0 (All-map (λ u k. k.0) ts h.1))
      ∙ kept (t ∷ ts) h

  module _ {C : Type 0} (criteria : List (OrderByCriteria C)) where
    -- A field that is asked for, and whether descending.
    abbrev pub Ask : Type 0
    Ask = Bool × OrderByCriteria C

    abbrev pub written : Ask → Characters
    written a = if a.0 then dash ∷ (a.1).alias else (a.1).alias

    abbrev pub starts_plain : Characters → Bool
    starts_plain [] = false
    starts_plain (c ∷ cs) = not (c == dash)

    -- The criterion is registered, and its alias can be written.
    abbrev pub IsAsk : Ask → Type 0
    IsAsk a =
        All IsPlain (a.1).alias
        × (starts_plain (a.1).alias ≡ true)
        × (registered criteria (a.1).alias ≡ some a.1)

    spelled :
        (d : Bool) (t : Characters)
        → starts_plain t ≡ true
        → directed (if d then dash ∷ t else t) ≡ (d, t)
    spelled true t h = refl
    spelled false [] h = absurd (cc)
    spelled false (c ∷ cs) h = let other : (c == dash) ≡ false = ground (arith, h) in rw other refl

    directed-written :
        (a : Ask) → starts_plain (a.1).alias ≡ true → directed (written a) ≡ (a.0, (a.1).alias)
    directed-written a h = spelled a.0 (a.1).alias h

    spelled-IsToken :
        (d : Bool) (t : Characters)
        → IsPlain dash
        → All IsPlain t
        → starts_plain t ≡ true
        → IsToken (if d then dash ∷ t else t)
    spelled-IsToken true t plain h first = ((plain, h), refl)
    spelled-IsToken false [] plain h first = absurd (cc)
    spelled-IsToken false (c ∷ cs) plain h first = (h, refl)

    written-IsToken :
        (more : List Ask) → IsPlain dash → All IsAsk more → All IsToken (map written more)
    written-IsToken [] plain h = tt
    written-IsToken (a ∷ more) plain h =
        (spelled-IsToken a.0 (a.1).alias plain h.0.0 h.0.1, written-IsToken more plain h.1)

    -- The clauses that are asked for.
    abbrev pub asked : List Ask → List C
    asked more = map (λ a. (a.1).func a.0) more

    clauses_of-written :
        (more : List Ask) → All IsAsk more → clauses_of criteria (map written more) ≡ asked more
    unfolding clauses_of
    clauses_of-written [] h = refl
    clauses_of-written (a ∷ more) h =
        rw (directed-written a h.0.1, h.0.2)
          (ap (λ l. (a.1).func a.0 ∷ l) (clauses_of-written more h.1))

    abbrev pub is_asked : List Ask → Characters → Bool
    is_asked more alias = any (λ a. same_text (a.1).alias alias) more

    is_used-written :
        (more : List Ask) (alias : Characters)
        → All IsAsk more
        → is_used criteria (map written more) alias ≡ is_asked more alias
    is_used-written [] alias h = refl
    is_used-written (a ∷ more) alias h =
        let known : is_registered criteria (a.1).alias ≡ true = ap is_some h.0.2 in
        rw (directed-written a h.0.1, known) (ground (arith, is_used-written more alias h.1))

    tied-same :
        (tie : Option (OrderByCriteria C)) (u v : Characters → Bool) (clauses : List C)
        → ((t : Characters) → u t ≡ v t)
        → tied tie u clauses ≡ tied tie v clauses
    tied-same tie u v [] same = refl
    tied-same none u v (c ∷ clauses) same = refl
    tied-same (some t) u v (c ∷ clauses) same = rw (same t.alias) refl

    given :
        (default_order t : Characters) (ts : List Characters)
        → is_empty t ≡ false
        → or_default default_order (some (joined t ts)) ≡ joined t ts
    given default_order [] ts h = absurd (cc)
    given default_order (c ∷ cs) [] h = refl
    given default_order (c ∷ cs) (u ∷ us) h = refl

    -- What is written as an order is read as that order: for one or more registered criteria whose
    -- aliases have no comma and no whitespace and start with no dash, joined by commas, each with a dash
    -- in front if it is to be descending, the dependency gives their clauses in that order, and behind
    -- them the tie-breaker, ascending, if there is one and its alias is not among them.
    pub dependency-joined :
        (default_order : Characters) (tie : Option (OrderByCriteria C)) (a : Ask) (more : List Ask)
        → IsPlain dash
        → All IsAsk (a ∷ more)
        → dependency is_space criteria default_order tie
            (some (joined (written a) (map written more)))
          ≡ tied tie (is_asked (a ∷ more)) (asked (a ∷ more))
    unfolding dependency
    dependency-joined default_order tie a more plain h =
        let all_tokens = written-IsToken (a ∷ more) plain h in
        let read = tokens-joined (written a) (map written more) all_tokens in
        rw (given default_order (written a) (map written more) all_tokens.0.1, read)
          (ap (tied tie (is_used criteria (map written (a ∷ more))))
              (clauses_of-written (a ∷ more) h)
            ∙ tied-same tie (is_used criteria (map written (a ∷ more))) (is_asked (a ∷ more))
                (asked (a ∷ more)) (λ t. is_used-written (a ∷ more) t h))
