-- ===== src/Search/Examples.antt =====
-- Tests of the search engine, and its theorems at concrete inputs.
use app_common.Common.{
  if◌then◌else◌, ℕ, ◌/◌, ◌*◌, zero, suc, ◌≤◌, ◌⊎◌, String, Bool, true, false, not, ◌&&◌, none, some,
  List, [], ◌∷◌, map, ◌≡◌, refl, sym, subst, any, All, arith, str_eq, ltb, leb, ◌==◌, all, batches,
}
use app_common.Layer.Services.{Try, good}
use mathlib.Core.List.{append-nil}
use app_common.Vector.{
  validate_collection, ensure_payload_indexes, scroll, upsert, overwrite_payloads, delete, State,
  named, QdrantVectorStore, lookup, Record,
}
use app_common.Vector.Laws.{payload_of}
use app_common.Vector.Laws.Payloads.{Present, payload_at}
use app_common.Search.Filters.{
  on_scope, match_text, match_flag, in_range, exactly, items, validate_payload, Numbers, Condition,
  atom, Atom, FilterValue, Definitions, keyword, keywords, numeric, Filters, query, matches,
}
use app_common.Search.Filters.Readings.{
  Payload, some_atom, has_text, has_flag, has_number, IsQdrant,
}
use app_common.Search.Filters.Agreement.{query-matches}
use app_common.Search.Projection.Settled.{Projected}
use app_common.Search.Projection.Projects.{sync_snapshot-projected}
use app_common.Search.Retrieval.Terminates.{retrieve_ends}
use app_common.Search.Retrieval.Authorized.{Authorized, group, retrieve-Authorized}
use app_common.Search.Engine.Ready.{sync-ready}
use app_common.Common.Members.{Distinct}
use app_common.Search.Schemas.{ProjectionItem, SearchItem, SearchHit, SyncResult, SearchResult}
use app_common.Search.Projection.{sync_snapshot}
use app_common.Search.Retrieval.{SearchIndex, World, Query, Candidate, by_identity, retrieve}
use app_common.Search.Snapshots.{
  PointPayload, entry, marker, SearchEngine, Snapshot, SyncState, fingerprint,
}
use app_common.Search.Engine.{reconcile, sync, index_ready}
use app_common.Search.Engine.Inventory.{IsScroll, InStep}
use app_common.Search.Engine.InStep.{reconcile-InStep}
use app_common.Search.Shelf.{
  records, Shelf, shelf_client, shelf_client-IsClient, view, records_exact, records_complete,
}

-- A float with so short a mantissa that it has no odd number from 16 on.
abbrev rounded : ℕ → ℕ
rounded n = if ltb n 16 then n else n / 2 * 2

abbrev naturals : Numbers ℕ
naturals = record {
  lt = ltb;
  le = leb;
  eq = λ a b. a == b;
  is_finite = λ _. true;
  of_bool = λ b. elim b [ true ↦ 1 | false ↦ 0 ];
  to_float = rounded;
}

abbrev definitions : Definitions
definitions = ("kind", keyword) ∷ ("tags", keywords) ∷ ("year", numeric) ∷ []

abbrev index : SearchIndex
index = record {
  name = "documents";
  recipe_version = "v1";
  definitions = definitions;
  batch_size = 2;
  candidate_batch_size = 2;
  candidate_budget = 5;
}

-- Equality of the payloads of the tests, which have no filters. The metadata are compared as numbers
-- are: "1.0" is taken for "1".
abbrev as_number : String → String
as_number t = if str_eq t "1.0" then "1" else t

abbrev same_dict : PointPayload ℕ → PointPayload ℕ → Bool
same_dict (entry a) (entry b) =
    str_eq a.scope_id b.scope_id
    && str_eq a.source_id b.source_id
    && str_eq a.item_id b.item_id
    && str_eq a.fingerprint b.fingerprint
    && str_eq (as_number a.index_metadata) (as_number b.index_metadata)
same_dict _ _ = false

abbrev engine : SearchEngine ℕ
engine = record {
  index = index;
  numbers = naturals;
  embedder = record {
    embed_documents = λ texts. good (map (λ t. 1 ∷ 2 ∷ []) texts);
    is_finite = λ _. true;
  };
  embed_query = λ t. good (1 ∷ 2 ∷ []);
  point_id = λ scope source item. item;
  marker_id = λ scope. "marker";
  fingerprint_of = λ t. t;
  has_text = λ t. not (str_eq t "");
  same_payload = same_dict;
}

abbrev store : QdrantVectorStore (Shelf (PointPayload ℕ)) ℕ (PointPayload ℕ) ℕ (List (Condition ℕ))
store = record {
  client = shelf_client (λ a b. true);
  dimension = 2;
  embedding_id = "profile";
  distance = "Cosine";
}

abbrev with_metadata : String → String → String → String → PointPayload ℕ
with_metadata metadata scope id text = entry (record {
  scope_id = scope;
  source_id = "doc";
  item_id = id;
  fingerprint = text;
  filters = [];
  index_metadata = metadata;
})

abbrev stored : String → String → String → PointPayload ℕ
stored = with_metadata "1"

-- A point of the scope to keep, one to replace, one to drop, and one of another scope.
abbrev before : State (Shelf (PointPayload ℕ))
before = record {
  ready = false;
  remote = record {
    collection = some (named (("profile", record { size = 2; distance = "Cosine" }) ∷ []));
    points =
        ("a", (3 ∷ 3 ∷ [], with_metadata "1.0" "mine" "a" "kept"))
        ∷ ("b", (4 ∷ 4 ∷ [], stored "mine" "b" "old"))
        ∷ ("c", (5 ∷ 5 ∷ [], stored "mine" "c" "gone"))
        ∷ ("d", (6 ∷ 6 ∷ [], stored "other" "d" "foreign"))
        ∷ [];
  };
}

abbrev item : String → String → ProjectionItem (PointPayload ℕ)
item id text = record { id = id; text = text; payload = stored "mine" id text }

abbrev snapshot : List (ProjectionItem (PointPayload ℕ))
snapshot = item "a" "kept" ∷ item "b" "new" ∷ item "e" "more" ∷ []

abbrev outcome : Try SyncResult × State (Shelf (PointPayload ℕ))
outcome = reconcile engine store [] "mine" "u1" snapshot before

-- One item is skipped, two are embedded, one is dropped, and the other scope is left alone.
reconcile_test :
    (payload_at store view outcome.1 "c" ≡ none)
    × (payload_at store view outcome.1 "d" ≡ some (stored "other" "d" "foreign"))
unfolding reconcile ensure_payload_indexes scroll sync_snapshot batches upsert overwrite_payloads
    delete
reconcile_test = (refl, refl)

abbrev synced : SyncResult
synced = record {
  generation = some "u1";
  scanned = 3;
  embedded = 2;
  refreshed = 0;
  skipped = 1;
  deleted = 1;
}

shelf-IsScroll : IsScroll store.client view
shelf-IsScroll = record {
  exact = λ f n s.
      subst (All (λ (r : Record (PointPayload ℕ)). r.payload ≡ payload_of (view s r.id)))
        (sym (append-nil (records s.points s.points))) (records_exact s.points s.points);
  complete = λ scope n s k p there own.
      subst (λ l. any (λ (r : Record (PointPayload ℕ)). str_eq r.id k) l ≡ true)
        (sym (append-nil (records s.points s.points)))
        (records_complete s.points s.points k p there);
}

reconcile_runs : reconcile engine store [] "mine" "u1" snapshot before ≡ (good synced, outcome.1)
unfolding reconcile ensure_payload_indexes scroll sync_snapshot batches upsert overwrite_payloads
    delete
reconcile_runs = refl

reconcile-InStep_example :
    (payload_at store view outcome.1 "marker" ≡ some (marker "mine" "u1"))
    × (synced.generation ≡ some "u1")
    × ((false ≡ true)
        ⊎ InStep same_dict "mine"
            (some (item "a" "kept"))
            (some (with_metadata "1.0" "mine" "a" "kept"))
            (payload_at store view outcome.1 "a"))
reconcile-InStep_example =
    reconcile-InStep engine store [] view (shelf_client-IsClient _) shelf-IsScroll "mine" "u1" "a"
      snapshot before outcome.1 synced reconcile_runs

-- Projection alone, on the same points.
abbrev existing : List (String × PointPayload ℕ)
existing =
    ("a", with_metadata "1.0" "mine" "a" "kept")
    ∷ ("b", stored "mine" "b" "old")
    ∷ ("c", stored "mine" "c" "gone")
    ∷ []

abbrev projection : Try SyncResult × State (Shelf (PointPayload ℕ))
projection =
    sync_snapshot store fingerprint engine.same_payload engine.embedder snapshot existing 2 none
      before

projection_runs : projection ≡ (good (record synced { generation = none }), projection.1)
unfolding sync_snapshot batches upsert overwrite_payloads delete
projection_runs = refl

existing_held :
    (p : PointPayload ℕ) → lookup "a" existing ≡ some p → payload_at store view before "a" ≡ some p
existing_held p h = h

sync_snapshot-projected_example :
    Projected fingerprint same_dict
      (some (item "a" "kept"))
      (some (with_metadata "1.0" "mine" "a" "kept"))
      (some (with_metadata "1.0" "mine" "a" "kept"))
      (payload_at store view projection.1 "a")
sync_snapshot-projected_example =
    sync_snapshot-projected store view (shelf_client-IsClient _) fingerprint same_dict
      engine.embedder snapshot existing 2 none "a" before projection.1
      (record synced { generation = none }) refl existing_held projection_runs

abbrev no_state : SyncState
no_state = record { last_synced_at = none; last_result = none }

abbrev document : String → String → SearchItem ℕ
document id text = record {
  source_id = "doc";
  item_id = id;
  text = text;
  title = "";
  filters = ("kind", atom (Atom.text "note")) ∷ [];
  metadata = "";
  index_metadata = "";
}

abbrev source : Snapshot ℕ
source = record { items = document "a" "kept" ∷ document "b" "new" ∷ []; failure = none }

abbrev after_sync : Try SyncResult × State (Shelf (PointPayload ℕ)) × SyncState
after_sync = sync engine store [] "mine" source "u1" 7 false before no_state

abbrev ready_result : SyncResult
ready_result = record {
  generation = some "u1";
  scanned = 2;
  embedded = 1;
  refreshed = 1;
  skipped = 0;
  deleted = 1;
}

ready_runs :
    index_ready engine store [] "mine" after_sync.2 after_sync.1 ≡ (good true, after_sync.1)
unfolding index_ready sync reconcile ensure_payload_indexes scroll sync_snapshot batches upsert
    overwrite_payloads delete validate_payload validate_collection
ready_runs = refl

sync_keeps_collection : Present store after_sync.1
unfolding sync reconcile ensure_payload_indexes scroll sync_snapshot batches upsert
    overwrite_payloads delete validate_payload
sync_keeps_collection = refl

sync_runs : after_sync ≡ (good ready_result, after_sync.1, after_sync.2)
unfolding sync reconcile ensure_payload_indexes scroll sync_snapshot batches upsert
    overwrite_payloads delete validate_payload
sync_runs = refl

sync-ready_example :
    (after_sync.2.last_synced_at ≡ some 7)
    × (after_sync.2.last_result ≡ some ready_result)
    × (ready_result.generation ≡ some "u1")
    × (true ≡ true)
sync-ready_example =
    sync-ready engine store [] view (shelf_client-IsClient _) shelf-IsScroll (λ k s p e. rw e refl)
      "mine" source "u1" 7 false before after_sync.1 after_sync.1 no_state after_sync.2 ready_result
      true sync_runs sync_keeps_collection ready_runs

-- A search whose first page has a hit of another scope, and whose second is short.
abbrev candidate : String → String → Candidate ℕ
candidate scope id = record {
  scope_id = some (atom (Atom.text scope));
  source_id = some (atom (Atom.text "doc"));
  item_id = some (atom (Atom.text id));
  score = 9;
  index_metadata = good "";
}

abbrev pages : ℕ → Try (List (Candidate ℕ))
pages zero = good (candidate "mine" "a" ∷ candidate "other" "d" ∷ [])
pages (suc n) = good (candidate "mine" "b" ∷ [])

abbrev current : ℕ → List (SearchHit ℕ) → Try (List (SearchItem ℕ))
current zero hits = good (document "a" "kept" ∷ [])
current (suc n) hits = good (document "b" "new" ∷ [])

abbrev world : World ℕ
world = record {
  fetch = λ size offset. pages offset;
  hydrate = current;
  has_text = λ t. not (str_eq t "");
}

abbrev request : Query ℕ
request = record {
  scope = "mine";
  filters = ("kind", FilterValue.text "note") ∷ [];
  limit = 10;
  grouping = by_identity;
}

abbrev answer : SearchResult ℕ
answer = record {
  items =
      record { item = document "a" "kept"; score = 9 }
      ∷ record { item = document "b" "new"; score = 9 }
      ∷ [];
  index_ready = true;
  candidate_limit_reached = false;
}

search_runs : retrieve naturals index world request ≡ some (good answer)
unfolding retrieve validate_payload matches
search_runs = refl

retrieve-Authorized_example :
    (2 ≤ 10)
    × Distinct (map (group naturals index world request) answer.items)
    × All (Authorized naturals index world request) answer.items
retrieve-Authorized_example = retrieve-Authorized naturals index world request answer search_runs

retrieve_ends_example :
    (r : Try (SearchResult ℕ)) × (retrieve naturals index world request ≡ some r)
retrieve_ends_example = retrieve_ends naturals index world request

-- A reading of conditions that keeps Qdrant's documentation.
abbrev holds : String → Payload ℕ → Condition ℕ → Bool
holds own p (on_scope s) = str_eq own s
holds own p (match_text k t) = some_atom naturals (has_text naturals t) (lookup k p)
holds own p (match_flag k b) = some_atom naturals (has_flag naturals b) (lookup k p)
holds own p (in_range k r) = some_atom naturals (has_number naturals r) (lookup k p)

holds-IsQdrant : IsQdrant naturals holds
holds-IsQdrant = record {
  scopes = λ own p s. refl;
  texts = λ own p k t. refl;
  flags = λ own p k b. refl;
  ranges = λ own p k r. refl;
}

eq-le : (a b : ℕ) → naturals.eq a b ≡ (naturals.le b a && naturals.le a b)
eq-le a b = ground arith

abbrev tagged : Payload ℕ
tagged =
    ("kind", atom (Atom.text "note"))
    ∷ ("tags", items (Atom.text "x" ∷ Atom.text "y" ∷ []))
    ∷ ("year", atom (Atom.number 7))
    ∷ []

abbrev asked : Filters ℕ
asked = ("tags", FilterValue.text "y") ∷ ("year", FilterValue.number 7) ∷ []

abbrev conditions_asked : List (Condition ℕ)
conditions_asked = on_scope "mine" ∷ match_text "tags" "y" ∷ in_range "year" (exactly 7) ∷ []

tagged_valid : validate_payload naturals definitions tagged ≡ good tt
unfolding validate_payload
tagged_valid = refl

asked_query : query naturals definitions "mine" asked ≡ good conditions_asked
unfolding query
asked_query = refl

query-matches_example :
    all (holds "mine" tagged) conditions_asked ≡ (true && matches naturals definitions tagged asked)
query-matches_example =
    query-matches naturals eq-le holds holds-IsQdrant definitions "mine" "mine" tagged asked
      conditions_asked tagged_valid (tt, (tt, (refl, tt))) (tt, (refl, tt)) asked_query
