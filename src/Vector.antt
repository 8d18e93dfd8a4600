-- ===== src/Vector.antt =====
-- adapters/app-vector-store/src/app_vector_store/store.py: `QdrantVectorStore`, one collection of
-- points behind a Qdrant client. The client is a parameter: its calls change a remote state `S`,
-- and any of them may raise. Vectors are lists of numbers of any type `N`, payloads are values of
-- any type `P`, and point ids are texts. A delete by a filter instead of by ids is not modelled.
pub mod Laws
use app_common.Common.{
  ℕ, String, Bool, true, false, not, ◌&&◌, ◌||◌, Option, none, some, List, [], ◌∷◌, str_eq, ◌==◌,
  leb, if◌then◌else◌, length, batches, concat,
}
use app_common.Layer.Services.{Try, good, bad, and_then}

-- A call on a state, which may raise and keeps what it has changed until then.
abbrev pub Run : Type 0 → Type 0 → Type 0
Run S A = S → Try A × S

infixl 5 ◌>>=◌ ◌>>◌
abbrev pub ◌>>=◌ : {S A B : Type 0} → Run S A → (A → Run S B) → Run S B
◌>>=◌ m f s = and_then (m s) f

abbrev pub ◌>>◌ : {S B : Type 0} → Run S (Unit {0}) → Run S B → Run S B
m >> k = m >>= λ _. k

abbrev pub pure : {S A : Type 0} → A → Run S A
pure a s = (good a, s)

-- `if bad: raise e`
abbrev pub raise_if : {S : Type 0} → Bool → String → Run S (Unit {0})
raise_if true e s = (bad e, s)
raise_if false e s = (good tt, s)

pub record VectorParams : Type 0 where
  pub size : ℕ
  pub distance : String

-- `info.config.params.vectors`: one unnamed vector, or a dict of named ones.
pub data Vectors : Type 0 where
  unnamed : VectorParams → Vectors
  named : List (String × VectorParams) → Vectors

pub record VectorPoint (N P : Type 0) : Type 0 where
  pub id : String
  pub vector : List N
  pub payload : P

pub record PayloadUpdate (P : Type 0) : Type 0 where
  pub id : String
  pub payload : P

-- A payload may be missing.
pub record ScoredPoint (N P : Type 0) : Type 0 where
  pub id : String
  pub score : N
  pub payload : Option P

pub record Record (P : Type 0) : Type 0 where
  pub id : String
  pub payload : Option P

-- What `create_collection` answers: `UnexpectedResponse` has a status code.
pub data Created : Type 0 where
  created : Created
  response : ℕ → Created
  failed : String → Created

-- `AsyncQdrantClient`, at one collection. The field `schema` is the payload schema, by field.
pub record Client (S N P I F : Type 0) : Type 0 where
  pub is_local : Bool
  pub collection : S → Option Vectors
  pub schema : S → List (String × I)
  pub index_matches : I → I → Bool
  pub create_collection : String → VectorParams → S → Created × S
  pub create_payload_index : String → I → Run S (Unit {0})
  pub upsert : List (VectorPoint N P) → Run S (Unit {0})
  pub batch_update_points : List (PayloadUpdate P) → Run S (Unit {0})
  pub overwrite_payload : P → List String → Run S (Unit {0})
  pub delete : List String → Run S (Unit {0})
  pub query_points : List N → F → ℕ → ℕ → Run S (List (ScoredPoint N P))
  pub retrieve : String → S → Option (Record P)
  -- The pages that one scroll goes through, by the offset that each page gives for the next.
  pub scroll : F → ℕ → S → List (List (Record P))

-- `self`: the fields that no method assigns.
pub record QdrantVectorStore (S N P I F : Type 0) : Type 0 where
  pub client : Client S N P I F
  pub dimension : ℕ
  pub embedding_id : String
  pub distance : String

-- `self._ready`, beside the remote state.
pub record State (S : Type 0) : Type 0 where
  pub ready : Bool
  pub remote : S

module _ {S : Type 0} where
  abbrev pub set_ready : Bool → Run (State S) (Unit {0})
  set_ready b s = (good tt, record s { ready = b })

  abbrev pub with_remote : {A : Type 0} → Bool → Try A × S → Try A × State S
  with_remote b (r, s) = (r, record { ready = b; remote = s })

  abbrev pub remotely : {A : Type 0} → Run S A → Run (State S) A
  remotely m s = with_remote s.ready (m s.remote)

  -- A loop that awaits one call for each item.
  unfoldable pub for_each : {X : Type 0} → (X → Run S (Unit {0})) → List X → Run S (Unit {0})
  for_each f [] = pure tt
  for_each f (x ∷ xs) = do f x; for_each f xs

abbrev pub is_some : {A : Type 0} → Option A → Bool
is_some none = false
is_some (some a) = true

abbrev pub lookup : {V : Type 0} → String → List (String × V) → Option V
lookup k [] = none
lookup k ((j, v) ∷ m) = if str_eq j k then some v else lookup k m

module _ {S N P I F : Type 0} (q : QdrantVectorStore S N P I F) where
  -- The parameters of the vector if the collection has this one only.
  abbrev pub own_params : Vectors → Option VectorParams
  own_params (named ((name, p) ∷ [])) = if str_eq name q.embedding_id then some p else none
  own_params _ = none

  abbrev pub check_params : Option VectorParams → Run (State S) (Unit {0})
  check_params none s = (bad "CollectionMismatchError: a different embedding_id", s)
  check_params (some p) s =
      if p.size == q.dimension && str_eq p.distance q.distance
      then set_ready true s
      else (bad "CollectionMismatchError: incompatible dimension or distance", s)

  -- `get_collection` raises on a collection that is not there.
  abbrev pub check_info : Option Vectors → Run (State S) (Unit {0})
  check_info none s = (bad "UnexpectedResponse: 404", s)
  check_info (some v) s = check_params (own_params v) s

  abbrev pub collection_exists : State S → Bool
  collection_exists s = is_some (q.client.collection s.remote)

  -- `_validate_collection`
  unfoldable pub validate_schema : Run (State S) (Unit {0})
  validate_schema s = check_info (q.client.collection s.remote) s

  unfoldable pub validate_collection : Run (State S) Bool
  unfolding validate_schema
  validate_collection s =
      if collection_exists s
      then (validate_schema >>= λ _. pure true) s
      else (set_ready false >>= λ _. pure false) s

  -- Another process may have created the collection in the meantime.
  abbrev pub settle : Bool → Created × S → Try (Unit {0}) × State S
  settle ready (created, r) = with_remote ready (good tt, r)
  settle ready (response status, r) =
      with_remote ready (if status == 409 then good tt else bad "UnexpectedResponse", r)
  settle ready (failed x, r) = with_remote ready (bad x, r)

  unfoldable pub create_if_absent : Run (State S) (Unit {0})
  create_if_absent s =
      if collection_exists s
      then (good tt, s)
      else settle s.ready (
          q.client.create_collection q.embedding_id
            (record { size = q.dimension; distance = q.distance }) s.remote)

  unfoldable pub ensure_collection : Run (State S) (Unit {0})
  unfolding create_if_absent validate_schema
  ensure_collection s =
      if s.ready && collection_exists s
      then (good tt, s)
      else (create_if_absent >>= λ _. validate_schema) s

  abbrev pub ensure_index : List (String × I) → String × I → Run S (Unit {0})
  ensure_index schema (name, requested) = elim (lookup name schema) [
    | some existing ↦
        raise_if (not (q.client.index_matches existing requested))
          "CollectionMismatchError: payload index differs"
    | none ↦ q.client.create_payload_index name requested
  ]

  unfoldable pub ensure_payload_indexes : List (String × I) → Run (State S) (Unit {0})
  unfolding ensure_collection for_each
  ensure_payload_indexes indexes = do
    ensure_collection
    λ s.
        if q.client.is_local
        then (good tt, s)
        else remotely (for_each (ensure_index (q.client.schema s.remote)) indexes) s

  unfoldable pub validate_vector : List N → Run (State S) (Unit {0})
  validate_vector v = raise_if (not (length v == q.dimension)) "ValueError: vector dimension"

  -- The whole input is validated before the first batch is written.
  unfoldable pub upsert_points : ℕ → List (VectorPoint N P) → Run (State S) ℕ
  unfolding ensure_collection for_each
  upsert_points n [] = pure 0
  upsert_points n (p ∷ ps) = do
    ensure_collection
    for_each (λ batch. remotely (q.client.upsert batch)) (batches n (p ∷ ps))
    pure (length (p ∷ ps))

  unfoldable pub upsert : List (VectorPoint N P) → ℕ → Run (State S) ℕ
  unfolding upsert_points validate_vector for_each
  upsert points batch_size = do
    raise_if (leb batch_size 0) "ValueError: batch_size must be positive"
    for_each (λ (p : VectorPoint N P). validate_vector p.vector) points
    upsert_points batch_size points

  -- Only in a collection that is there.
  abbrev pub if_valid : {A : Type 0} → A → Run (State S) A → Run (State S) A
  if_valid a run = validate_collection >>= λ valid. if valid then run else pure a

  unfoldable pub overwrite_updates : ℕ → List (PayloadUpdate P) → Run (State S) ℕ
  unfolding validate_collection for_each
  overwrite_updates n [] = pure 0
  overwrite_updates n (u ∷ us) = if_valid 0 (do
    for_each (λ batch. remotely (q.client.batch_update_points batch)) (batches n (u ∷ us))
    pure (length (u ∷ us)))

  unfoldable pub overwrite_payloads : List (PayloadUpdate P) → ℕ → Run (State S) ℕ
  unfolding overwrite_updates
  overwrite_payloads updates batch_size = do
    raise_if (leb batch_size 0) "ValueError: batch_size must be positive"
    overwrite_updates batch_size updates

  unfoldable pub overwrite_payload : P → List String → Run (State S) (Unit {0})
  unfolding validate_collection
  overwrite_payload payload ids = if_valid tt (remotely (q.client.overwrite_payload payload ids))

  unfoldable pub delete : List String → Run (State S) (Unit {0})
  unfolding validate_collection
  delete ids = if_valid tt (remotely (q.client.delete ids))

  -- A filter stands for `query_filter` and `score_threshold`. An offset is never negative here.
  unfoldable pub search : List N → F → ℕ → ℕ → Run (State S) (List (ScoredPoint N P))
  unfolding validate_vector validate_collection
  search vector filter limit offset = do
    validate_vector vector
    raise_if (leb limit 0) "ValueError: limit must be positive"
    if_valid [] (remotely (q.client.query_points vector filter limit offset))

  unfoldable pub scroll : F → ℕ → Run (State S) (List (Record P))
  unfolding validate_collection
  scroll filter batch_size = do
    raise_if (leb batch_size 0) "ValueError: batch_size must be positive"
    if_valid [] (λ s. (good (concat (q.client.scroll filter batch_size s.remote)), s))
