-- ===== src/Search/Retrieval/Authorized.antt =====
-- usecases.py: what `SearchEngine.search` returns: current items of the source that pass the filters,
-- one of a group, and no more than were asked for.
use app_common.Common.{
  ℕ, ◌≤◌, ◌<◌, true, false, ◌&&◌, Option, none, some, List, [], ◌∷◌, ◌++◌, map, ◌≡◌, refl, ap, ◌∙◌,
  sym, subst, arith, eq_iff, str_eq, ◌==◌, length, any, find, All, length-append, Bool-cases, inl,
  inr, &&_true,
}
use app_common.Layer.Services.{good}
use app_common.Search.Filters.{Numbers, Atom, atom, matches}
use app_common.Search.Schemas.{SearchItem, SearchHit, SearchResultItem, SearchResult}
use app_common.Search.Retrieval.{
  Candidate, SearchIndex, World, Query, Found, Group, group_eq, group_of, hits_of, is_item, by_id,
  shown, current_item, placed, onward, collect, page, page_size, retrieve,
}
use app_common.Common.Members.{In, In-All, Distinct, All-snoc, Distinct-snoc, map-snoc, find-In}
use app_common.Search.Retrieval.Hits.{EntryIs, StandsFor, hits_of-Stands}
use app_common.Search.Retrieval.Terminates.{Reached, retrieve-Inv}
use app_common.Search.Retrieval.Groups.{try_then-good, unseen, by_id-good}

module _ {N : Type 0} (num : Numbers N) (index : SearchIndex) (world : World N) (q : Query N) where
  -- The result is of a candidate of the scope, with its ids and score, on a page that was fetched, and
  -- its item is one that the source had when it was asked for the hits of that page; it has text, and
  -- it passes the filters.
  pub record Authorized (r : SearchResultItem N) : Type 0 where
    pub offset : ℕ
    pub reached : Reached num index world q offset
    pub in_budget : offset < index.candidate_budget
    pub points : List (Candidate N)
    pub fetched : world.fetch (page_size num index world q offset) offset ≡ good points
    pub hits : List (SearchHit N)
    pub current : List (SearchItem N)
    pub hit : SearchHit N
    pub read : hits_of q.scope points ≡ good hits
    pub candidate : Candidate N
    pub on_page : In candidate points
    pub stands : StandsFor q.scope hit candidate
    pub hydrated : world.hydrate offset hits ≡ good current
    pub held : In r.item current
    pub asked : In hit hits
    pub same_source : EntryIs candidate.source_id r.item.source_id
    pub same_item : EntryIs candidate.item_id r.item.item_id
    pub scored : r.score ≡ candidate.score
    pub nonempty : world.has_text r.item.text ≡ true
    pub passes : matches num index.definitions r.item.filters q.filters ≡ true

  abbrev pub group : SearchResultItem N → Group
  group r = group_of q.grouping r.item

  record Inv (f : Found N) : Type 0 where
    bounded : length f.items ≤ q.limit
    authorized : All Authorized f.items
    grouped : f.seen ≡ map group f.items
    distinct : Distinct f.seen

  abbrev extended : SearchHit N → SearchItem N → Found N → Found N
  extended h x f = record {
    items = f.items ++ record { item = x; score = h.score } ∷ [];
    seen = f.seen ++ group_of q.grouping x ∷ [];
  }

  extended-Inv :
      (h : SearchHit N) (x : SearchItem N) (f : Found N)
      → Inv f
      → Authorized (record { item = x; score = h.score })
      → length f.items < q.limit
      → any (group_eq (group_of q.grouping x)) f.seen ≡ false
      → Inv (extended h x f)
  extended-Inv h x f inv allowed room new = record {
    bounded = omega (arith, length-append f.items (record { item = x; score = h.score } ∷ []));
    authorized =
        All-snoc Authorized f.items (record { item = x; score = h.score }) inv.authorized allowed;
    grouped =
        ap (λ l. l ++ group_of q.grouping x ∷ []) inv.grouped
        ∙ sym (map-snoc group f.items (record { item = x; score = h.score }));
    distinct =
        Distinct-snoc f.seen (group_of q.grouping x) inv.distinct
          (unseen (group_of q.grouping x) f.seen new);
  }

  placed-Inv :
      (offset : ℕ) (points : List (Candidate N)) (hits : List (SearchHit N))
      (current : List (SearchItem N)) (h : SearchHit N) (f g : Found N)
      → Reached num index world q offset
      → offset < index.candidate_budget
      → world.fetch (page_size num index world q offset) offset ≡ good points
      → hits_of q.scope points ≡ good hits
      → world.hydrate offset hits ≡ good current
      → In h hits
      → Inv f
      → length f.items < q.limit
      → placed num index world q h
          (shown num index world q (current_item num index world q current h))
          f
        ≡ some g
      → Inv g
  placed-Inv offset points hits current h f g reached in_budget fetched read hydrated asked inv room
        e =
      by_item (current_item num index world q current h) refl e
    where
      by_item :
          (found : Option (SearchItem N))
          → find (is_item h.source_id h.item_id) current ≡ found
          → placed num index world q h (shown num index world q found) f ≡ some g
          → Inv g
      by_item none found made = absurd (cc)
      by_item (some x) found made =
          elim (Bool-cases
            (world.has_text x.text && matches num index.definitions x.filters q.filters)) [
              | inr hidden ↦ let none_made : none ≡ some g = rw hidden at made in absurd (cc)
              | inl visible ↦ elim (Bool-cases (any (group_eq (group_of q.grouping x)) f.seen)) [
                | inl known ↦
                    let none_made : none ≡ some g = rw (visible, known) at made in absurd (cc)
                | inr new ↦
                    let made_some : some (extended h x f) ≡ some g = rw (visible, new) at made in
                    let same : extended h x f ≡ g = cc in
                    subst Inv same (
                      extended-Inv h x f inv
                        (let (held, matching) =
                            find-In (is_item h.source_id h.item_id) current x found in
                          let (nonempty, passes) = &&_true (world.has_text x.text) _ visible in
                          let (c, on_page, stands) =
                            hits_of-Stands q.scope points hits h read asked in
                          let ids = &&_true (str_eq x.source_id h.source_id) _ matching in
                          record {
                            offset = offset;
                            reached = reached;
                            in_budget = in_budget;
                            points = points;
                            fetched = fetched;
                            read = read;
                            candidate = c;
                            on_page = on_page;
                            stands = stands;
                            hits = hits;
                            current = current;
                            hit = h;
                            hydrated = hydrated;
                            held = held;
                            asked = asked;
                            same_source =
                                stands.source_id
                                ∙ ap (λ s. some (atom (Atom.text s)))
                                    (sym ((eq_iff x.source_id h.source_id).0 ids.0));
                            same_item =
                                stands.item_id
                                ∙ ap (λ s. some (atom (Atom.text s)))
                                    (sym ((eq_iff x.item_id h.item_id).0 ids.1));
                            scored = stands.score;
                            nonempty = nonempty;
                            passes = passes;
                          })
                        room new)
              ]
            ]

  module _ (offset : ℕ) (points : List (Candidate N)) (hits : List (SearchHit N))
      (current : List (SearchItem N)) (reached : Reached num index world q offset)
      (in_budget : offset < index.candidate_budget)
      (fetched : world.fetch (page_size num index world q offset) offset ≡ good points)
      (read : hits_of q.scope points ≡ good hits)
      (hydrated : world.hydrate offset hits ≡ good current) where
    collect-Inv :
        (hs : List (SearchHit N)) (f : Found N)
        → All (λ h. In h hits) hs
        → Inv f
        → length f.items < q.limit
        → Inv (collect num index world q current hs f)
    unfolding collect
    collect-Inv [] f asked inv room = inv
    collect-Inv (h ∷ hs) f asked inv room =
        by_place
          (placed num index world q h
            (shown num index world q (current_item num index world q current h)) f)
          refl (collect-Inv hs) (asked.1)
      where
        by_place :
            (o : Option (Found N))
            → placed num index world q h
                (shown num index world q (current_item num index world q current h))
                f
              ≡ o
            → ((g : Found N)
                → All (λ x. In x hits) hs
                → Inv g
                → length g.items < q.limit
                → Inv (collect num index world q current hs g))
            → All (λ x. In x hits) hs
            → Inv (onward num index world q (collect num index world q current hs) f o)
        by_place none e rest later = rest f later inv room
        by_place (some g) e rest later =
            let now =
              placed-Inv offset points hits current h f g reached in_budget fetched read hydrated
                asked.0 inv room e in
            elim (Bool-cases (length g.items == q.limit)) [
              | inl full ↦ rw full now
              | inr some_room ↦
                  let bound : length g.items ≤ q.limit = now.bounded in
                  rw some_room (rest g later now (ground arith))
            ]

  page-Inv :
      (offset : ℕ) (f g : Found N) (points : List (Candidate N))
      → Reached num index world q offset
      → offset < index.candidate_budget
      → world.fetch (page_size num index world q offset) offset ≡ good points
      → Inv f
      → length f.items < q.limit
      → page num index world q offset f points ≡ good g
      → Inv g
  unfolding page
  page-Inv offset f g points reached in_budget fetched inv room h =
      let (hits, read, rest) = try_then-good (hits_of q.scope points) _ g h in
      let (fresh, hydrated, rest2) = try_then-good (world.hydrate offset hits) _ g rest in
      let (current, checked, ends) =
        try_then-good (by_id num index world q hits [] fresh) _ g rest2 in
      let all_fresh : current ≡ fresh =
        by_id-good num index world q hits [] fresh current checked in
      let same : collect num index world q current hits f ≡ g = cc in
      subst Inv same (
        collect-Inv offset points hits current reached in_budget fetched read
          (hydrated ∙ ap good (sym all_fresh)) hits f (In-All hits hits (λ x there. there)) inv
          room)

  -- What a search returns without an exception is at most as many items as were asked for, no two of
  -- one group. Each has the ids and the score of a candidate of the queried scope on a page that this
  -- search was answered: within the budget, at the first offset or behind another page that it was
  -- answered. Its item is among those that the source answered when it was asked, for that page, for
  -- the page's hits; and it has text and passes the filters of the query.
  pub retrieve-Authorized :
      (r : SearchResult N)
      → retrieve num index world q ≡ some (good r)
      → (length r.items ≤ q.limit) × Distinct (map group r.items) × All Authorized r.items
  retrieve-Authorized r h =
      let (f, same, inv) =
        retrieve-Inv num index world q Inv page-Inv r
          (record { bounded = omega arith; authorized = tt; grouped = refl; distinct = tt }) h in
      rw same (inv.bounded, rw (← inv.grouped) inv.distinct, inv.authorized)
