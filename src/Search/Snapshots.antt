-- ===== src/Search/Snapshots.antt =====
-- usecases.py: `SearchIndex`, what `SearchEngine` stores of an item, and how it reads a snapshot of the
-- source. Hashes and UUIDs are parameters.
use Prim.Native.String.{count}
use app_common.Common.{
  ℕ, String, Bool, false, not, ◌&&◌, ◌||◌, Option, none, some, List, [], ◌∷◌, ◌++◌, str_eq, leb,
  ltb, if◌then◌else◌, any,
}
use app_common.Layer.Services.{Try, good, bad}
use app_common.Vector.{Record}
use app_common.Search.Filters.{Numbers, Json, validate_payload}
use app_common.Search.Schemas.{ProjectionItem, DocumentEmbedder, SyncResult, SearchItem}
use app_common.Search.Projection.{has_id}
use app_common.Search.Retrieval.{SearchIndex, try_then}

-- What a point of the collection carries: an item of a scope, or a scope's sync marker.
pub record ItemPayload (N : Type 0) : Type 0 where
  pub scope_id : String
  pub source_id : String
  pub item_id : String
  pub fingerprint : String
  pub filters : List (String × Json N)
  pub index_metadata : String

pub data PointPayload (N : Type 0) : Type 0 where
  entry : ItemPayload N → PointPayload N
  marker : String → String → PointPayload N

-- `self`, with what it computes by the libraries: `uuid5`, SHA-256, and `str.strip` being nonempty.
pub record SearchEngine (N : Type 0) : Type 0 where
  pub index : SearchIndex
  pub numbers : Numbers N
  pub embedder : DocumentEmbedder N
  pub embed_query : String → Try (List N)
  pub point_id : String → String → String → String
  pub marker_id : String → String
  pub fingerprint_of : String → String
  pub has_text : String → Bool
  pub same_payload : PointPayload N → PointPayload N → Bool

-- What the source yields, and the exception that ends it early.
pub record Snapshot (N : Type 0) : Type 0 where
  pub items : List (SearchItem N)
  pub failure : Option String

pub record SyncState : Type 0 where
  pub last_synced_at : Option ℕ
  pub last_result : Option SyncResult

module _ {N : Type 0} where
  abbrev pub fingerprint : PointPayload N → Option String
  fingerprint (entry p) = some p.fingerprint
  fingerprint (marker scope generation) = none

  -- `payload.get("scope_id") == scope`
  abbrev pub in_scope : String → PointPayload N → Bool
  in_scope scope (entry p) = str_eq p.scope_id scope
  in_scope scope (marker s generation) = false

  abbrev marks : String → String → Option (PointPayload N) → Bool
  marks scope generation (some (marker s g)) = str_eq s scope && str_eq g generation
  marks scope generation _ = false

  abbrev pub is_marker : String → Option String → Option (Record (PointPayload N)) → Bool
  is_marker scope (some generation) (some r) = marks scope generation r.payload
  is_marker scope _ _ = false

abbrev pub generation_of : Option SyncResult → Option String
generation_of none = none
generation_of (some r) = r.generation

-- One record of the inventory, if its payload is of the scope.
abbrev pub kept :
    {N : Type 0}
    → String
    → String
    → Option (PointPayload N)
    → List (String × PointPayload N)
    → List (String × PointPayload N)
kept scope id none rest = rest
kept scope id (some p) rest = if in_scope scope p then (id, p) ∷ rest else rest

abbrev pub inventory :
    {N : Type 0} → String → List (Record (PointPayload N)) → List (String × PointPayload N)
inventory scope [] = []
inventory scope (r ∷ rs) = kept scope r.id r.payload (inventory scope rs)

-- `SearchIndex.__post_init__`.
unfoldable pub post_init : (String → Bool) → SearchIndex → Try (Unit {0})
post_init has_text i =
    if not (has_text i.name) || ltb 128 (count i.name) || not (has_text i.recipe_version)
    then bad "SearchConfigurationError: name and recipe_version are required"
    else (if leb i.batch_size 0 || leb i.candidate_batch_size 0 || leb i.candidate_budget 0
        then bad "SearchConfigurationError: sizes must be positive"
        else good tt)

module _ {N : Type 0} (self : SearchEngine N) where
  abbrev pub check_scope : String → Try (Unit {0})
  check_scope scope =
      if not (self.has_text scope) || ltb 255 (count scope)
      then bad "SearchInputError: scope must contain 1..255 characters"
      else good tt

  abbrev pub projection_of : String → SearchItem N → ProjectionItem (PointPayload N)
  projection_of scope x = record {
    id = self.point_id scope x.source_id x.item_id;
    text = x.text;
    payload = entry (record {
      scope_id = scope;
      source_id = x.source_id;
      item_id = x.item_id;
      fingerprint = self.fingerprint_of x.text;
      filters = x.filters;
      index_metadata = x.index_metadata;
    });
  }

  -- The whole snapshot is read and checked before anything is written.
  unfoldable pub read_items :
      String
      → Option String
      → List (ProjectionItem (PointPayload N))
      → List (SearchItem N)
      → Try (List (ProjectionItem (PointPayload N)))
  read_items scope (some x) acc [] = bad x
  read_items scope none acc [] = good acc
  read_items scope failure acc (x ∷ xs) =
      let rest = read_items scope failure (acc ++ projection_of scope x ∷ []) xs in
      if not (self.has_text x.text)
      then bad "SearchSourceError: empty text"
      else try_then (validate_payload self.numbers self.index.definitions x.filters) (λ _.
        if any (has_id (projection_of scope x).id) acc
        then bad "SearchSourceError: duplicate identity in source snapshot"
        else rest)
