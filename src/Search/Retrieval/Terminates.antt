-- ===== src/Search/Retrieval/Terminates.antt =====
-- usecases.py: the search loop ends, and what each of its pages keeps holds at its end.
use app_common.Common.{
  ℕ, zero, suc, ◌+◌, ◌-◌, ◌<◌, Bool, true, false, ◌&&◌, Option, none, some, List, [], ◌∷◌, ◌≡◌,
  refl, ap, sym, subst, arith, ltb, length, Bool-cases, inl, inr, &&_true, ltb→lt,
}
use app_common.Layer.Services.{Try, good, bad}
use app_common.Search.Filters.{Numbers}
use app_common.Search.Schemas.{SearchResult}
use app_common.Search.Retrieval.{
  Candidate, SearchIndex, World, Query, Found, page, Round, proceed, turn, page_size, loop,
  nothing_found, result, concluded, retrieve,
}

module _ {N : Type 0} (num : Numbers N) (index : SearchIndex) (world : World N) (q : Query N) where
  abbrev Ends : Option (Try (Found N × ℕ)) → Type 0
  Ends o = (r : Try (Found N × ℕ)) × (o ≡ some r)

  proceed-Ends :
      (next : Round N) (last : Bool) (offset : ℕ) (r : Try (Found N))
      → ((f : Found N) → Ends (next offset f))
      → Ends (proceed next last offset r)
  proceed-Ends next last offset (bad x) go_on = (bad x, refl)
  proceed-Ends next true offset (good f) go_on = (good (f, offset), refl)
  proceed-Ends next false offset (good f) go_on = go_on f

  turn-Ends :
      (next : Round N) (read : List (Candidate N) → Try (Found N)) (size offset : ℕ) (f : Found N)
      (r : Try (List (Candidate N)))
      → ((later : ℕ) (g : Found N) → offset < later → Ends (next later g))
      → Ends (turn next read size offset f r)
  turn-Ends next read size offset f (bad x) go_on = (bad x, refl)
  turn-Ends next read size offset f (good []) go_on = (good (f, offset), refl)
  turn-Ends next read size offset f (good (c ∷ cs)) go_on =
      proceed-Ends next _ (offset + length (c ∷ cs)) _
        (λ g. go_on (offset + length (c ∷ cs)) g (omega arith))

  loop-Ends :
      (fuel offset : ℕ) (f : Found N)
      → index.candidate_budget - offset < fuel
      → Ends (loop num index world q fuel offset f)
  unfolding loop
  loop-Ends zero offset f enough = absurd (omega arith)
  loop-Ends (suc fuel) offset f enough =
      elim (Bool-cases (ltb offset index.candidate_budget && ltb (length f.items) q.limit)) [
        | inl goes ↦
            let before : offset < index.candidate_budget =
              ltb→lt offset index.candidate_budget
                (&&_true (ltb offset index.candidate_budget) _ goes).0 in
            rw goes (
              turn-Ends (loop num index world q fuel) (page num index world q offset f)
                (page_size num index world q offset) offset f
                (world.fetch (page_size num index world q offset) offset)
                (λ later g further. loop-Ends fuel later g (omega arith)))
        | inr stops ↦ rw stops (good (f, offset), refl)
      ]

  concluded-some :
      (r : Try (Found N × ℕ)) → (a : Try (SearchResult N)) × (concluded index q (some r) ≡ some a)
  concluded-some (bad x) = (bad x, refl)
  concluded-some (good f) = (good (result index q f), refl)

  -- The search loop ends with a result or an exception, whatever the store and the source answer from
  -- page to page: a page that is not empty moves the offset, so that the budget bounds the rounds.
  pub retrieve_ends : (r : Try (SearchResult N)) × (retrieve num index world q ≡ some r)
  unfolding retrieve
  retrieve_ends =
      let (r, e) = loop-Ends (suc index.candidate_budget) 0 nothing_found (omega arith) in
      rw e (concluded-some r)

  -- The offsets at which the search asks for a page: the first, and behind each page of its size that
  -- it was answered within the budget.
  pub data Reached : ℕ → Type 0 where
    first_page : Reached 0
    later_page :
        (offset : ℕ) (points : List (Candidate N))
        → Reached offset
        → offset < index.candidate_budget
        → world.fetch (page_size num index world q offset) offset ≡ good points
        → Reached (offset + length points)

  module _ (Inv : Found N → Type 0)
      (keeps : (offset : ℕ) (f g : Found N) (points : List (Candidate N))
        → Reached offset
        → offset < index.candidate_budget
        → world.fetch (page_size num index world q offset) offset ≡ good points
        → Inv f
        → length f.items < q.limit
        → page num index world q offset f points ≡ good g
        → Inv g) where
    abbrev After : Option (Try (Found N × ℕ)) → Type 0
    After o = (g : Found N) (end : ℕ) → o ≡ some (good (g, end)) → Inv g

    proceed-After :
        (next : Round N) (last : Bool) (offset : ℕ) (r : Try (Found N))
        → ((f : Found N) → r ≡ good f → Inv f)
        → ((f : Found N) → Inv f → After (next offset f))
        → After (proceed next last offset r)
    proceed-After next last offset (bad x) now go_on g end h = absurd (cc)
    proceed-After next true offset (good f) now go_on g end h =
        let same : f ≡ g = cc in subst Inv same (now f refl)
    proceed-After next false offset (good f) now go_on g end h = go_on f (now f refl) g end h

    turn-After :
        (next : Round N) (read : List (Candidate N) → Try (Found N)) (size offset : ℕ) (f : Found N)
        (r : Try (List (Candidate N)))
        → Inv f
        → ((cs : List (Candidate N)) (g : Found N) → r ≡ good cs → read cs ≡ good g → Inv g)
        → ((cs : List (Candidate N)) (g : Found N)
            → r ≡ good cs
            → Inv g
            → After (next (offset + length cs) g))
        → After (turn next read size offset f r)
    turn-After next read size offset f (bad x) inv reads go_on g end h = absurd (cc)
    turn-After next read size offset f (good []) inv reads go_on g end h =
        let same : f ≡ g = cc in subst Inv same inv
    turn-After next read size offset f (good (c ∷ cs)) inv reads go_on g end h =
        proceed-After next _ (offset + length (c ∷ cs)) _ (λ g. reads (c ∷ cs) g refl)
          (λ f. go_on (c ∷ cs) f refl) g end h

    loop-After :
        (fuel offset : ℕ) (f : Found N)
        → Reached offset
        → Inv f
        → After (loop num index world q fuel offset f)
    unfolding loop
    loop-After zero offset f reached inv g end h = absurd (cc)
    loop-After (suc fuel) offset f reached inv g end h =
        elim (Bool-cases (ltb offset index.candidate_budget && ltb (length f.items) q.limit)) [
          | inl goes ↦
              let (in_budget, wanting) = &&_true (ltb offset index.candidate_budget) _ goes in
              let before : offset < index.candidate_budget =
                ltb→lt offset index.candidate_budget in_budget in
              turn-After (loop num index world q fuel) (page num index world q offset f)
                (page_size num index world q offset) offset f
                (world.fetch (page_size num index world q offset) offset) inv
                (λ cs t fetched done.
                  keeps offset f t cs reached before fetched inv
                    (ltb→lt (length f.items) q.limit wanting) done)
                (λ cs t fetched.
                  loop-After fuel (offset + length cs) t
                    (later_page offset cs reached before fetched))
                g end (rw goes at h)
          | inr stops ↦
              let ended : ◌≡◌ {A = Option (Try (Found N × ℕ))} (some (good (f, offset)))
                  (some (good (g, end))) =
                rw stops at h in
              let same : f ≡ g = cc in subst Inv same inv
        ]

    -- What every page keeps holds of what the search finds.
    pub retrieve-Inv :
        (r : SearchResult N)
        → Inv nothing_found
        → retrieve num index world q ≡ some (good r)
        → (f : Found N) × (r.items ≡ f.items) × Inv f
    unfolding retrieve
    retrieve-Inv r start h =
        by_end (loop num index world q (suc index.candidate_budget) 0 nothing_found) refl h
      where
        by_end :
            (o : Option (Try (Found N × ℕ)))
            → loop num index world q (suc index.candidate_budget) 0 nothing_found ≡ o
            → concluded index q o ≡ some (good r)
            → (f : Found N) × (r.items ≡ f.items) × Inv f
        by_end none e made = absurd (cc)
        by_end (some (bad x)) e made = absurd (cc)
        by_end (some (good (f, end))) e made =
            let same : result index q (f, end) ≡ r = cc in
            (
              f,
              ap (λ (t : SearchResult N). t.items) (sym same),
              loop-After (suc index.candidate_budget) 0 nothing_found first_page start f end e,
            )
