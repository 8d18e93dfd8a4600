-- ===== src/Search/Projection/Effects.antt =====
-- projection.py: the payload under one id, behind each stage of `sync_snapshot` that succeeded.
use app_common.Common.{
  ℕ, ◌<◌, String, Bool, Option, some, List, [], ◌∷◌, ◌≡◌, refl, ap, ◌∙◌, sym, arith, str_eq, ◌==◌,
  if◌then◌else◌, length, all, concat, batches, concat-batches, Bool-cases, inl, inr,
}
use app_common.Layer.Services.{Try, good, bad}
use app_common.Vector.{State, for_each, VectorPoint, QdrantVectorStore, upsert, delete}
use app_common.Vector.Laws.{
  Stored, applied, applied-append, applied-concat, IsClient, and_then-good,
}
use app_common.Vector.Laws.Effects.{for_each_inv}
use app_common.Vector.Laws.Payloads.{
  payload_at, Present, place_point, remove_at, upsert-payload, delete-payload,
}
use app_common.Search.Schemas.{ProjectionItem, DocumentEmbedder}
use app_common.Search.Projection.{zip_vectors, is_valid, staged_batch, cons_try, staged, write_line}

-- What an item does to the payload under `k` if it is written.
abbrev pub place : {P : Type 0} → String → ProjectionItem P → Option P → Option P
place k i before = if str_eq i.id k then some i.payload else before

cons_try-good :
    {A : Type 0} (r : Try A) (rest : Try (List A)) (xs : List A)
    → cons_try r rest ≡ good xs
    → (a : A) × (others : List A) × (r ≡ good a) × (rest ≡ good others) × (a ∷ others ≡ xs)
cons_try-good (bad x) rest xs h = absurd (cc)
cons_try-good (good a) (bad x) xs h = absurd (cc)
cons_try-good (good a) (good others) xs h = (a, others, refl, refl, cc)

module _ {N P : Type 0} where
  zip_vectors-place :
      (k : String) (is : List (ProjectionItem P)) (vs : List (List N)) (b : Option P)
      → length vs ≡ length is
      → applied (place_point k) (zip_vectors is vs) b ≡ applied (place k) is b
  zip_vectors-place k [] [] b h = refl
  zip_vectors-place k [] (v ∷ vs) b h = absurd (omega arith)
  zip_vectors-place k (i ∷ is) [] b h = absurd (omega arith)
  zip_vectors-place k (i ∷ is) (v ∷ vs) b h = zip_vectors-place k is vs (place k i b) (omega arith)

  staged_batch-good :
      (d : ℕ) (f : N → Bool) (batch : List (ProjectionItem P)) (vs : List (List N))
      (line : List (VectorPoint N P))
      → staged_batch d f batch (good vs) ≡ good line
      → (length vs ≡ length batch) × (zip_vectors batch vs ≡ line)
  staged_batch-good d f batch vs line h = elim (Bool-cases (length vs == length batch)) [
    | inl counts ↦ elim (Bool-cases (all (is_valid d f) vs)) [
      | inl valid ↦
          let e : good (zip_vectors batch vs) ≡ good line = rw (counts, valid) at h in
          (ground arith, cc)
      | inr invalid ↦ let e : bad _ ≡ good line = rw (counts, invalid) at h in absurd (cc)
    ]
    | inr miscounted ↦ let e : bad _ ≡ good line = rw miscounted at h in absurd (cc)
  ]

  staged_batch-place :
      (k : String) (d : ℕ) (f : N → Bool) (batch : List (ProjectionItem P))
      (r : Try (List (List N))) (line : List (VectorPoint N P)) (b : Option P)
      → staged_batch d f batch r ≡ good line
      → applied (place_point k) line b ≡ applied (place k) batch b
  staged_batch-place k d f batch (bad x) line b h = absurd (cc)
  staged_batch-place k d f batch (good vs) line b h =
      let (counts, same) = staged_batch-good d f batch vs line h in
      ap (λ l. applied (place_point k) l b) (sym same) ∙ zip_vectors-place k batch vs b counts

  -- Staged lines write the items that they were made of.
  pub staged-place :
      (e : DocumentEmbedder N) (d : ℕ) (k : String) (bs : List (List (ProjectionItem P)))
      (lines : List (List (VectorPoint N P))) (b : Option P)
      → staged e d bs ≡ good lines
      → applied (place_point k) (concat lines) b ≡ applied (place k) (concat bs) b
  unfolding staged
  staged-place e d k [] lines b h =
      let none_left : [] ≡ lines = cc in
      ap (λ l. applied (place_point k) (concat l) b) (sym none_left)
  staged-place e d k (batch ∷ bs) lines b h =
      let (line, rest, first, others, joined) = cons_try-good _ (staged e d bs) lines h in
      ap (λ l. applied (place_point k) (concat l) b) (sym joined)
      ∙ applied-append (place_point k) line (concat rest) b
      ∙ staged-place e d k bs rest (applied (place_point k) line b) others
      ∙ ap (applied (place k) (concat bs)) (staged_batch-place k d e.is_finite batch _ line b first)
      ∙ sym (applied-append (place k) batch (concat bs) b)

module _ {S N P I F : Type 0} (q : QdrantVectorStore S N P I F) (view : S → String → Stored N P)
    (laws : IsClient q.client view) (k : String) where
  pub write_lines-payload :
      (n : ℕ) (lines : List (List (VectorPoint N P))) (s s' : State S)
      → Present q s
      → for_each (write_line q n) lines s ≡ (good tt, s')
      → Present q s'
        × (payload_at q view s' k ≡ applied (place_point k) (concat lines) (payload_at q view s k))
  write_lines-payload n lines s s' present h =
      let (kept, there) =
        for_each_inv (write_line q n) (λ t. payload_at q view t k) (applied (place_point k))
          (Present q)
          (λ line t t' now done.
            let (m, t1, written, ends) = and_then-good (upsert q line n t) _ tt t' done in
            let same : t1 ≡ t' = ap (λ r. r.1) ends in
            upsert-payload q view laws line n t t' m now (rw same at written) k)
          lines s s' present h in
      (kept, there ∙ applied-concat (place_point k) lines (payload_at q view s k))

  pub delete_all-payload :
      (n : ℕ) (ids : List String) (s s' : State S)
      → 0 < n
      → Present q s
      → for_each (delete q) (batches n ids) s ≡ (good tt, s')
      → payload_at q view s' k ≡ applied (remove_at k) ids (payload_at q view s k)
  delete_all-payload n ids s s' pos present h =
      (for_each_inv (delete q) (λ t. payload_at q view t k) (applied (remove_at k)) (Present q)
        (λ batch t t' now done. delete-payload q view laws batch t t' tt now done k) (batches n ids)
        s s' present h).1
      ∙ applied-concat (remove_at k) (batches n ids) (payload_at q view s k)
      ∙ ap (λ l. applied (remove_at k) l (payload_at q view s k)) (concat-batches n ids pos)
