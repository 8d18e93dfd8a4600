-- ===== src/Search/Projection.antt =====
-- projection.py: `sync_snapshot`. The store is that of Vector, and embedding is a parameter. A
-- payload is a value of type `P` with its `fingerprint` entry (none: it has none, or no text) and a
-- test of equality. The staged rows hold the item instead of its id. The callback for progress and
-- a publication scope, which has no default, are left out.
pub mod Effects
pub mod Refreshing
pub mod Stages
pub mod Settled
pub mod Projects
use Prim.Native.String.{compare}
use Prim.Native.Nat.{Ordering}
use app_common.Common.{
  ℕ, ◌+◌, String, Bool, true, false, not, ◌&&◌, ◌||◌, Option, none, some, List, [], ◌∷◌, ◌++◌, map,
  str_eq, ◌==◌, leb, if◌then◌else◌, length, filter, any, all, batches,
}
use app_common.Layer.Services.{Try, good, bad, and_then}
use app_common.Vector.{
  Run, ◌>>=◌, ◌>>◌, pure, raise_if, State, for_each, is_some, lookup, VectorPoint, PayloadUpdate,
  QdrantVectorStore, ensure_payload_indexes, upsert, overwrite_payloads, delete,
}
use app_common.Search.Schemas.{ProjectionItem, DocumentEmbedder, SyncResult}

-- `sorted`, on texts.
abbrev pub insert_text : String → List String → List String
insert_text x [] = x ∷ []
insert_text x (y ∷ ys) = elim (compare x y) [ Ordering.gt ↦ y ∷ insert_text x ys | _ ↦ x ∷ y ∷ ys ]

abbrev pub sorted : List String → List String
sorted [] = []
sorted (x ∷ xs) = insert_text x (sorted xs)

-- What becomes of an item: its vector is computed, its payload is replaced, or nothing.
pub data Task : Type 0 where
  embed refresh skip : Task

abbrev pub is_embed : Task → Bool
is_embed embed = true
is_embed _ = false

abbrev pub same_print : Option String → Option String → Bool
same_print (some a) (some b) = str_eq a b
same_print _ _ = false

module _ {P : Type 0} where
  abbrev pub has_id : String → ProjectionItem P → Bool
  has_id k i = str_eq i.id k

  abbrev pub unprinted : (P → Option String) → ProjectionItem P → Bool
  unprinted fingerprint i = not (is_some (fingerprint i.payload))

  -- `len(desired) != len(items)`, where `desired` is the dict of the items by id.
  unfoldable pub duplicated : List (ProjectionItem P) → Bool
  duplicated [] = false
  duplicated (i ∷ is) = any (has_id i.id) is || duplicated is

  module _ (fingerprint : P → Option String) (same : P → P → Bool)
      (existing : List (String × P)) where
    abbrev pub task_of : ProjectionItem P → Option P → Task
    task_of i none = embed
    task_of i (some previous) =
        if same_print (fingerprint previous) (fingerprint i.payload)
        then (if same previous i.payload then skip else refresh)
        else embed

    unfoldable pub task : ProjectionItem P → Task
    task i = task_of i (lookup i.id existing)

    unfoldable pub changed : List (ProjectionItem P) → List (ProjectionItem P)
    changed items = filter (λ i. is_embed (task i)) items

  -- The ids that the store has and the snapshot does not.
  unfoldable pub stale : List (String × P) → List (ProjectionItem P) → List String
  stale existing items =
      sorted (filter (λ k. not (any (has_id k) items)) (map (λ (e : String × P). e.0) existing))

abbrev pub is_valid : {N : Type 0} → ℕ → (N → Bool) → List N → Bool
is_valid dimension is_finite v = (length v == dimension) && all is_finite v

abbrev pub cons_try : {A : Type 0} → Try A → Try (List A) → Try (List A)
cons_try (bad x) rest = bad x
cons_try (good a) (bad x) = bad x
cons_try (good a) (good as') = good (a ∷ as')

module _ {N P : Type 0} where
  abbrev pub zip_vectors : List (ProjectionItem P) → List (List N) → List (VectorPoint N P)
  zip_vectors (i ∷ is) (v ∷ vs) =
      record { id = i.id; vector = v; payload = i.payload } ∷ zip_vectors is vs
  zip_vectors _ _ = []

  abbrev pub staged_batch :
      ℕ → (N → Bool) → List (ProjectionItem P) → Try (List (List N)) → Try (List (VectorPoint N P))
  staged_batch dimension is_finite batch (bad x) = bad x
  staged_batch dimension is_finite batch (good vectors) =
      if length vectors == length batch
      then (if all (is_valid dimension is_finite) vectors
          then good (zip_vectors batch vectors)
          else bad "SearchSourceError: invalid vector")
      else bad "SearchSourceError: incorrect vector count"

  -- Every vector is computed and checked before the store is written.
  unfoldable pub staged :
      DocumentEmbedder N → ℕ → List (List (ProjectionItem P)) → Try (List (List (VectorPoint N P)))
  staged e dimension [] = good []
  staged e dimension (batch ∷ rest) =
      cons_try
        (staged_batch dimension e.is_finite batch
          (e.embed_documents (map (λ (i : ProjectionItem P). i.text) batch)))
        (staged e dimension rest)

abbrev pub lift : {S A : Type 0} → Try A → Run S A
lift r s = (r, s)

abbrev pub update_of : {P : Type 0} → ProjectionItem P → PayloadUpdate P
update_of i = record { id = i.id; payload = i.payload }

abbrev pub refreshed_by : SyncResult → ℕ → SyncResult
refreshed_by r n = record r { refreshed = r.refreshed + n }

abbrev pub counted : ℕ → ℕ → SyncResult
counted scanned embedded = record {
  generation = none;
  scanned = scanned;
  embedded = embedded;
  refreshed = 0;
  skipped = 0;
  deleted = 0;
}

module _ {S N P I F : Type 0} (q : QdrantVectorStore S N P I F) where
  -- A full batch of updates is written at once.
  unfoldable pub flush_full :
      ℕ → List (PayloadUpdate P) → SyncResult → Run (State S) (List (PayloadUpdate P) × SyncResult)
  flush_full n acc r =
      if length acc == n
      then (do m ← overwrite_payloads q acc n; pure ([], refreshed_by r m))
      else pure (acc, r)

  unfoldable pub flush_rest : ℕ → List (PayloadUpdate P) → SyncResult → Run (State S) SyncResult
  flush_rest n [] r = pure r
  flush_rest n (u ∷ us) r = do m ← overwrite_payloads q (u ∷ us) n; pure (refreshed_by r m)

  -- One staged line.
  abbrev pub write_line : ℕ → List (VectorPoint N P) → Run (State S) (Unit {0})
  write_line n points = upsert q points n >>= λ _. pure tt

  abbrev pub ensure_indexes : Option (List (String × I)) → Run (State S) (Unit {0})
  ensure_indexes none = pure tt
  ensure_indexes (some indexes) = ensure_payload_indexes q indexes

module _ {S N P I F : Type 0} (q : QdrantVectorStore S N P I F) (fingerprint : P → Option String)
    (same : P → P → Bool) where
  -- The loop over `desired` that collects `refreshed`.
  unfoldable pub refresh_all :
      List (String × P)
      → ℕ
      → List (ProjectionItem P)
      → List (PayloadUpdate P)
      → SyncResult
      → Run (State S) SyncResult
  unfolding task flush_full flush_rest
  refresh_all existing n [] acc r = flush_rest q n acc r
  refresh_all existing n (i ∷ is) acc r = elim (task fingerprint same existing i) [
    | embed ↦ refresh_all existing n is acc r
    | skip ↦ refresh_all existing n is acc (record r { skipped = r.skipped + 1 })
    | refresh ↦ flush_full q n (acc ++ update_of i ∷ []) r >>= λ next.
        refresh_all existing n is next.0 next.1
  ]

  -- What follows once every vector is staged.
  unfoldable pub publish :
      List (ProjectionItem P)
      → List (String × P)
      → ℕ
      → Option (List (String × I))
      → List (List (VectorPoint N P))
      → Run (State S) SyncResult
  unfolding refresh_all stale changed for_each
  publish items existing n indexes lines = do
    ensure_indexes q indexes
    for_each (write_line q n) lines
    r ←
        refresh_all existing n items []
          (counted (length items) (length (changed fingerprint same existing items)))
    for_each (delete q) (batches n (stale existing items))
    pure (record r { deleted = length (stale existing items) })

  unfoldable pub sync_snapshot :
      DocumentEmbedder N
      → List (ProjectionItem P)
      → List (String × P)
      → ℕ
      → Option (List (String × I))
      → Run (State S) SyncResult
  unfolding publish duplicated changed staged
  sync_snapshot e items existing n indexes = do
    raise_if (leb n 0) "SearchInputError: batch_size must be positive"
    raise_if (duplicated items) "SearchSourceError: duplicate projection identity"
    raise_if (any (unprinted fingerprint) items)
        "SearchSourceError: a string fingerprint is required"
    lines ← lift (staged e q.dimension (batches n (changed fingerprint same existing items)))
    publish items existing n indexes lines
