-- ===== src/Search/Engine.antt =====
-- usecases.py: the operations of `SearchEngine`, over the store of Vector and a runtime whose state of one scope is a
-- record. The source and the UUID drawn are parameters. Synchronisation holds the runtime's lock, so that
-- it is one step; a cancellation that arrives during it is raised at its end.
pub mod Inventory
pub mod InStep
pub mod Ready
use Prim.Native.String.{count}
use app_common.Common.{
  ℕ, String, Bool, true, false, not, ◌&&◌, ◌||◌, Option, none, some, List, [], ◌∷◌, ◌++◌, map,
  str_eq, ◌==◌, leb, ltb, if◌then◌else◌, length, any, all,
}
use app_common.Layer.Services.{Try, good, bad, and_then}
use app_common.Vector.{
  Run, ◌>>=◌, ◌>>◌, pure, raise_if, State, remotely, is_some, VectorPoint, QdrantVectorStore,
  Record, validate_collection, ensure_payload_indexes, scroll,
}
use app_common.Search.Filters.{
  Numbers, FilterDefinition, keyword, keywords, numeric, boolean, Definitions, Filters, Json,
  Condition, on_scope, validate_payload, validate_query,
}
use app_common.Search.Schemas.{
  ProjectionItem, DocumentEmbedder, SyncResult, SearchItem, SearchHit, SearchResult,
}
use app_common.Search.Projection.{has_id, is_valid, lift, sync_snapshot}
use app_common.Search.Retrieval.{SearchIndex, World, Query, retrieve, try_then}
use app_common.Search.Snapshots.{
  PointPayload, marker, SearchEngine, Snapshot, SyncState, fingerprint, is_marker, generation_of,
  inventory, check_scope, read_items,
}

module _ {S N I : Type 0} (self : SearchEngine N)
    (q : QdrantVectorStore S N (PointPayload N) I (List (Condition N)))
    (indexes : List (String × I)) where
  abbrev pub marker_point : String → String → VectorPoint N (PointPayload N)
  marker_point scope generation = record {
    id = self.marker_id scope;
    vector = [];
    payload = marker scope generation;
  }

  -- `_reconcile`, with the UUID that it draws.
  unfoldable pub reconcile :
      String → String → List (ProjectionItem (PointPayload N)) → Run (State S) SyncResult
  reconcile scope uuid items = do
    ensure_payload_indexes q indexes
    records ← scroll q (on_scope scope ∷ []) 256
    r ←
        sync_snapshot q fingerprint self.same_payload self.embedder items (inventory scope records)
          self.index.batch_size none
    remotely (q.client.upsert (marker_point scope uuid ∷ []))
    pure (record r { generation = some uuid })

  -- The runtime records a success in the transaction that holds its lock.
  abbrev pub recorded :
      ℕ → Bool → SyncState → Try SyncResult × State S → Try SyncResult × State S × SyncState
  recorded now cancelled before (bad x, s) = (bad x, s, before)
  recorded now cancelled before (good r, s) = (
    (if cancelled then bad "CancelledError" else good r),
    s,
    record { last_synced_at = some now; last_result = some r },
  )

  abbrev pub reconciled :
      String
      → String
      → Try (List (ProjectionItem (PointPayload N)))
      → State S
      → Try SyncResult × State S
  reconciled scope uuid (bad x) s = (bad x, s)
  reconciled scope uuid (good items) s = reconcile scope uuid items s

  unfoldable pub sync :
      String
      → Snapshot N
      → String
      → ℕ
      → Bool
      → State S
      → SyncState
      → Try SyncResult × State S × SyncState
  unfolding reconcile read_items
  sync scope source uuid now cancelled s before = recorded now cancelled before (
      reconciled scope uuid
        (try_then (check_scope self scope)
          (λ _. read_items self scope source.failure [] source.items))
        s)

  -- Whether the last success recorded is the one whose marker the collection has.
  unfoldable pub index_ready : String → SyncState → Run (State S) Bool
  index_ready scope state = do
    lift (check_scope self scope)
    exists ← validate_collection q
    λ s. (
      good (
          exists
          && is_some state.last_synced_at
          && is_marker scope (generation_of state.last_result)
              (q.client.retrieve (self.marker_id scope) s.remote)),
      s,
    )

  abbrev pub check_search : Query N → String → Bool → Try (Unit {0})
  check_search query text threshold_is_valid =
      if not (self.has_text text)
        || ltb 4000 (count text)
        || leb query.limit 0
        || ltb 100 query.limit
      then bad "SearchInputError: query must contain 1..4000 characters and limit must be 1..100"
      else (if not threshold_is_valid
          then bad "SearchInputError: Cosine score_threshold must be between -1 and 1"
          else good tt)

  -- The filters of the query, and those of the candidates, are checked before the index is asked.
  unfoldable pub check_request : Query N → String → String → Bool → Filters N → Try (Unit {0})
  unfolding validate_query
  check_request query text source_scope threshold_is_valid candidates =
      try_then (check_scope self query.scope) (λ _.
        try_then (check_search query text threshold_is_valid) (λ _.
          try_then (check_scope self source_scope) (λ _.
            try_then (validate_query self.numbers self.index.definitions query.filters)
              (λ _. validate_query self.numbers self.index.definitions candidates))))

  abbrev not_ready : SearchResult N
  not_ready = record { items = []; index_ready = false; candidate_limit_reached = false }

  abbrev pub with_vector : World N → Query N → Try (List N) → Option (Try (SearchResult N))
  with_vector world query (bad x) = some (bad x)
  with_vector world query (good v) =
      if is_valid q.dimension self.embedder.is_finite v
      then retrieve self.numbers self.index world query
      else some (bad "SearchSourceError: invalid vector")

  abbrev pub searched :
      World N → Query N → String → Try Bool × State S → Option (Try (SearchResult N)) × State S
  searched world query text (bad x, s) = (some (bad x), s)
  searched world query text (good false, s) = (some (good not_ready), s)
  searched world query text (good true, s) = (with_vector world query (self.embed_query text), s)

  -- The candidates that `world` fetches are those of the query's vector, filters and threshold.
  unfoldable pub search :
      World N
      → Query N
      → String
      → String
      → Bool
      → Filters N
      → SyncState
      → State S
      → Option (Try (SearchResult N)) × State S
  unfolding check_request index_ready retrieve
  search world query text source_scope threshold_is_valid candidates state s =
      searched world query text (
        and_then (check_request query text source_scope threshold_is_valid candidates, s)
          (λ _. index_ready query.scope state))
