-- ===== src/Search/Retrieval.antt =====
-- usecases.py: the loop of `SearchEngine.search`, which pages through candidates. A page and what the
-- source has of its hits are parameters, by the offset of the page: both may change from page to page.
pub mod Terminates
pub mod Hits
pub mod Groups
pub mod Authorized
use app_common.Common.{
  ℕ, zero, suc, ◌+◌, ◌-◌, ◌≤◌, ◌<◌, String, Bool, true, false, not, ◌&&◌, ◌||◌, Option, none, some,
  List, [], ◌∷◌, ◌++◌, min, str_eq, ◌==◌, ltb, leb, if◌then◌else◌, length, any, find,
}
use app_common.Layer.Services.{Try, good, bad}
use app_common.Search.Filters.{
  Numbers, Definitions, Filters, Json, atom, Atom, validate_payload, matches,
}
use app_common.Search.Schemas.{SearchItem, SearchHit, SearchResultItem, SearchResult}

-- What the loop reads of a point: entries of its payload, none of them certain to be there. The
-- metadata are an error if a `SearchHit` refuses them.
pub record Candidate (N : Type 0) : Type 0 where
  pub scope_id : Option (Json N)
  pub source_id : Option (Json N)
  pub item_id : Option (Json N)
  pub score : N
  pub index_metadata : Try String

pub record SearchIndex : Type 0 where
  pub name : String
  pub recipe_version : String
  pub definitions : Definitions
  pub batch_size : ℕ
  pub candidate_batch_size : ℕ
  pub candidate_budget : ℕ

-- `group_by`, `group_by_source`, or neither of them.
pub data Grouping (N : Type 0) : Type 0 where
  by : (SearchItem N → String) → Grouping N
  by_source : Grouping N
  by_identity : Grouping N

pub data Group : Type 0 where
  custom : String → Group
  source : String → Group
  identity : String → String → Group

-- The store and the runtime, each at the time of the page with the offset.
pub record World (N : Type 0) : Type 0 where
  pub fetch : ℕ → ℕ → Try (List (Candidate N))
  pub hydrate : ℕ → List (SearchHit N) → Try (List (SearchItem N))
  -- `str.strip` leaves something.
  pub has_text : String → Bool

pub record Query (N : Type 0) : Type 0 where
  pub scope : String
  pub filters : Filters N
  pub limit : ℕ
  pub grouping : Grouping N

-- `result.items` and `seen`.
pub record Found (N : Type 0) : Type 0 where
  pub items : List (SearchResultItem N)
  pub seen : List Group

abbrev pub group_eq : Group → Group → Bool
group_eq (custom a) (custom b) = str_eq a b
group_eq (source a) (source b) = str_eq a b
group_eq (identity a i) (identity b j) = str_eq a b && str_eq i j
group_eq _ _ = false

abbrev pub is_scope : String → Option String → Bool
is_scope scope none = false
is_scope scope (some s) = str_eq s scope

abbrev pub try_then : {A B : Type 0} → Try A → (A → Try B) → Try B
try_then (bad x) f = bad x
try_then (good a) f = f a

module _ {N : Type 0} where
  abbrev pub group_of : Grouping N → SearchItem N → Group
  group_of (by f) i = custom (f i)
  group_of by_source i = source i.source_id
  group_of by_identity i = identity i.source_id i.item_id

  abbrev pub text_of : Option (Json N) → Option String
  text_of (some (atom (Atom.text t))) = some t
  text_of _ = none

  abbrev pub hit_with :
      Candidate N → Option String → Option String → Try String → Try (Option (SearchHit N))
  hit_with c (some s) (some i) (good m) =
      good (some (record { source_id = s; item_id = i; score = c.score; index_metadata = m }))
  hit_with c (some s) (some i) (bad x) = bad "SearchSourceError: invalid indexed hit metadata"
  hit_with c _ _ m = good none

  -- A point of another scope, or with ids that are no texts, is passed over.
  unfoldable pub hit_of : String → Candidate N → Try (Option (SearchHit N))
  hit_of scope c =
      if is_scope scope (text_of c.scope_id)
      then hit_with c (text_of c.source_id) (text_of c.item_id) c.index_metadata
      else good none

  abbrev pub with_hit :
      Try (Option (SearchHit N)) → Try (List (SearchHit N)) → Try (List (SearchHit N))
  with_hit (bad x) rest = bad x
  with_hit (good h) (bad x) = bad x
  with_hit (good none) (good hs) = good hs
  with_hit (good (some h)) (good hs) = good (h ∷ hs)

  unfoldable pub hits_of : String → List (Candidate N) → Try (List (SearchHit N))
  unfolding hit_of
  hits_of scope [] = good []
  hits_of scope (c ∷ cs) = with_hit (hit_of scope c) (hits_of scope cs)

  abbrev pub is_item : String → String → SearchItem N → Bool
  is_item s i x = str_eq x.source_id s && str_eq x.item_id i

  abbrev pub is_hit : SearchItem N → SearchHit N → Bool
  is_hit x h = str_eq h.source_id x.source_id && str_eq h.item_id x.item_id

-- What is found, and the offset behind it. None: the fuel ran out.
abbrev pub Round : Type 0 → Type 0
Round N = ℕ → Found N → Option (Try (Found N × ℕ))

module _ {N : Type 0} where
  abbrev pub proceed : Round N → Bool → ℕ → Try (Found N) → Option (Try (Found N × ℕ))
  proceed next last offset (bad x) = some (bad x)
  proceed next last offset (good f) = if last then some (good (f, offset)) else next offset f

  -- `read` is what a page that is not empty makes of what was found.
  abbrev pub turn :
      Round N
      → (List (Candidate N) → Try (Found N))
      → ℕ
      → ℕ
      → Found N
      → Try (List (Candidate N))
      → Option (Try (Found N × ℕ))
  turn next read size offset f (bad x) = some (bad x)
  turn next read size offset f (good []) = some (good (f, offset))
  turn next read size offset f (good (c ∷ cs)) =
      proceed next (ltb (length (c ∷ cs)) size) (offset + length (c ∷ cs)) (read (c ∷ cs))

  abbrev pub nothing_found : Found N
  nothing_found = record { items = []; seen = [] }

module _ {N : Type 0} (index : SearchIndex) (q : Query N) where
  abbrev pub result : Found N × ℕ → SearchResult N
  result (f, offset) = record {
    items = f.items;
    index_ready = true;
    candidate_limit_reached = leb index.candidate_budget offset && ltb (length f.items) q.limit;
  }

  abbrev pub concluded : Option (Try (Found N × ℕ)) → Option (Try (SearchResult N))
  concluded none = none
  concluded (some (bad x)) = some (bad x)
  concluded (some (good f)) = some (good (result f))

module _ {N : Type 0} (num : Numbers N) (index : SearchIndex) (world : World N) (q : Query N) where
  -- `by_id`: the current items, each asked for, none twice, with filters that are declared.
  unfoldable pub by_id :
      List (SearchHit N) → List (SearchItem N) → List (SearchItem N) → Try (List (SearchItem N))
  by_id hits seen [] = good seen
  by_id hits seen (x ∷ xs) =
      let rest = by_id hits (seen ++ x ∷ []) xs in
      if not (any (is_hit x) hits) || any (is_item x.source_id x.item_id) seen
      then bad "SearchSourceError: hydrate returned an unrequested or duplicate item"
      else try_then (validate_payload num index.definitions x.filters) (λ _. rest)

  -- A hit shows its current item if that has text and passes the filters that were asked for.
  abbrev pub shown : Option (SearchItem N) → Option (SearchItem N)
  shown none = none
  shown (some x) =
      if world.has_text x.text && matches num index.definitions x.filters q.filters
      then some x
      else none

  abbrev pub current_item : List (SearchItem N) → SearchHit N → Option (SearchItem N)
  current_item current h = find (is_item h.source_id h.item_id) current

  -- Only the first item of a group is taken.
  abbrev pub placed : SearchHit N → Option (SearchItem N) → Found N → Option (Found N)
  placed h none f = none
  placed h (some x) f =
      if any (group_eq (group_of q.grouping x)) f.seen
      then none
      else some (record {
        items = f.items ++ record { item = x; score = h.score } ∷ [];
        seen = f.seen ++ group_of q.grouping x ∷ [];
      })

  abbrev pub onward : (Found N → Found N) → Found N → Option (Found N) → Found N
  onward next f none = next f
  onward next f (some f') = if length f'.items == q.limit then f' else next f'

  unfoldable pub collect : List (SearchItem N) → List (SearchHit N) → Found N → Found N
  collect current [] f = f
  collect current (h ∷ hs) f =
      onward (collect current hs) f (placed h (shown (current_item current h)) f)

  -- One page of candidates.
  unfoldable pub page : ℕ → Found N → List (Candidate N) → Try (Found N)
  unfolding hits_of by_id collect
  page offset f points = try_then (hits_of q.scope points) (λ hits.
      try_then (world.hydrate offset hits)
        (λ items. try_then (by_id hits [] items) (λ current. good (collect current hits f))))

  abbrev pub page_size : ℕ → ℕ
  page_size offset = min index.candidate_batch_size (index.candidate_budget - offset)

  unfoldable pub loop : ℕ → Round N
  unfolding page
  loop zero offset f = none
  loop (suc fuel) offset f =
      if ltb offset index.candidate_budget && ltb (length f.items) q.limit
      then turn (loop fuel) (page offset f) (page_size offset) offset f
          (world.fetch (page_size offset) offset)
      else some (good (f, offset))

  -- Each page moves the offset, so that the budget bounds the rounds.
  unfoldable pub retrieve : Option (Try (SearchResult N))
  unfolding loop
  retrieve = concluded index q (loop (suc index.candidate_budget) 0 nothing_found)
