-- ===== src/Search/Schemas.antt =====
-- schemas.py and the records of projection.py. A vector's numbers have any type `N`, and a payload is
-- a value of any type `P`. The metadata of an item are JSON, as text.
use app_common.Common.{ℕ, String, Bool, Option, List}
use app_common.Layer.Services.{Try}
use app_common.Search.Filters.{Json}

pub record ProjectionItem (P : Type 0) : Type 0 where
  pub id : String
  pub text : String
  pub payload : P

-- A `DocumentEmbedder`, with `math.isfinite` of what it computes with.
pub record DocumentEmbedder (N : Type 0) : Type 0 where
  pub embed_documents : List String → Try (List (List N))
  pub is_finite : N → Bool

pub record SyncResult : Type 0 where
  pub generation : Option String
  pub scanned : ℕ
  pub embedded : ℕ
  pub refreshed : ℕ
  pub skipped : ℕ
  pub deleted : ℕ

pub record SearchItem (N : Type 0) : Type 0 where
  pub source_id : String
  pub item_id : String
  pub text : String
  pub title : String
  pub filters : List (String × Json N)
  pub metadata : String
  pub index_metadata : String

pub record SearchHit (N : Type 0) : Type 0 where
  pub source_id : String
  pub item_id : String
  pub score : N
  pub index_metadata : String

pub record SearchResultItem (N : Type 0) : Type 0 where
  pub item : SearchItem N
  pub score : N

pub record SearchResult (N : Type 0) : Type 0 where
  pub items : List (SearchResultItem N)
  pub index_ready : Bool
  pub candidate_limit_reached : Bool
