-- ===== src/Search/Projection/Projects.antt =====
-- projection.py: `sync_snapshot` as it writes to the store, against its abstract view, id by id.
use app_common.Common.{
  ℕ, ◌<◌, String, Bool, Option, none, some, List, [], ◌≡◌, ap, ◌∙◌, sym, subst, arith, leb, any,
  find, concat, batches, concat-batches,
}
use app_common.Layer.Services.{good}
use app_common.Vector.{State, for_each, lookup, QdrantVectorStore, VectorPoint, delete}
use app_common.Vector.Laws.{Stored, applied, IsClient, and_then-good}
use app_common.Vector.Laws.Effects.{checked_good}
use app_common.Vector.Laws.Payloads.{payload_at, Present, replace_at, remove_at, place_point}
use app_common.Vector.Laws.Indexes.{ensure_payload_indexes-payload}
use app_common.Search.Schemas.{ProjectionItem, DocumentEmbedder, SyncResult}
use app_common.Search.Projection.{
  has_id, duplicated, unprinted, changed, stale, staged, lift, ensure_indexes, write_line,
  refresh_all, publish, sync_snapshot,
}
use app_common.Search.Projection.Effects.{
  place, staged-place, write_lines-payload, delete_all-payload,
}
use app_common.Search.Projection.Refreshing.{updates, refresh_all-payload}
use app_common.Search.Projection.Settled.{Projected, stages}

module _ {S N P I F : Type 0} (q : QdrantVectorStore S N P I F) (view : S → String → Stored N P)
    (laws : IsClient q.client view) (fingerprint : P → Option String) (same : P → P → Bool)
    (e : DocumentEmbedder N) (items : List (ProjectionItem P)) (existing : List (String × P))
    (n : ℕ) (indexes : Option (List (String × I))) (k : String) where
  ensure_indexes-payload :
      (wanted : Option (List (String × I))) (s s' : State S)
      → Present q s
      → ensure_indexes q wanted s ≡ (good tt, s')
      → Present q s' × (payload_at q view s' k ≡ payload_at q view s k)
  ensure_indexes-payload none s s' present h =
      let kept : s ≡ s' = ap (λ t. t.1) h in
      (subst (Present q) kept present, ap (λ t. payload_at q view t k) (sym kept))
  ensure_indexes-payload (some entries) s s' present h =
      ensure_payload_indexes-payload q view laws k entries s s' h

  publish-payload :
      (lines : List (List (VectorPoint N P))) (s s' : State S) (r : SyncResult)
      → 0 < n
      → Present q s
      → publish q fingerprint same items existing n indexes lines s ≡ (good r, s')
      → payload_at q view s' k
        ≡ applied (remove_at k) (stale existing items) (
            applied
              (replace_at k)
              (updates fingerprint same existing items)
              (applied (place_point k) (concat lines) (payload_at q view s k)))
  unfolding publish
  publish-payload lines s s' r pos present h =
      let (u1, s1, indexed, rest1) = and_then-good (ensure_indexes q indexes s) _ r s' h in
      let (u2, s2, written, rest2) =
        and_then-good (for_each (write_line q n) lines s1) _ r s' rest1 in
      let (r3, s3, refreshed, rest3) =
        and_then-good (refresh_all q fingerprint same existing n items [] _ s2) _ r s' rest2 in
      let (u4, s4, removed, ends) = and_then-good (for_each (delete q) _ s3) _ r s' rest3 in
      let (there1, now1) = ensure_indexes-payload indexes s s1 present indexed in
      let (there2, now2) = write_lines-payload q view laws k n lines s1 s2 there1 written in
      let (there3, now3) =
        refresh_all-payload q view laws k fingerprint same existing n items [] _ r3 s2 s3 there2
          refreshed in
      ap (λ t. payload_at q view t.1 k) (sym ends)
      ∙ delete_all-payload q view laws k n (stale existing items) s3 s4 pos there3 removed
      ∙ ap (applied (remove_at k) (stale existing items)) (
          now3
          ∙ ap (applied (replace_at k) (updates fingerprint same existing items))
              (now2 ∙ ap (applied (place_point k) (concat lines)) now1))

  -- A `sync_snapshot` that succeeds on an existing collection leaves under every id: of an item of the
  -- snapshot its payload, or the inventory's if that has the same fingerprint and is equal to the item's
  -- by `==`, which may be any test; nothing, if the inventory has the id and the snapshot does not; and else what was
  -- there. The inventory's payload under the id is the one in the store, and the client keeps its
  -- contract.
  pub sync_snapshot-projected :
      (s s' : State S) (r : SyncResult)
      → Present q s
      → ((p : P) → lookup k existing ≡ some p → payload_at q view s k ≡ some p)
      → sync_snapshot q fingerprint same e items existing n indexes s ≡ (good r, s')
      → Projected fingerprint same
          (find (has_id k) items)
          (lookup k existing)
          (payload_at q view s k)
          (payload_at q view s' k)
  unfolding sync_snapshot
  sync_snapshot-projected s s' r present inventory h =
      let (positive, rest1) = checked_good (leb n 0) _ _ s s' r h in
      let (distinct, rest2) = checked_good (duplicated items) _ _ s s' r rest1 in
      let (printed, rest3) = checked_good (any (unprinted fingerprint) items) _ _ s s' r rest2 in
      let to_embed = batches n (changed fingerprint same existing items) in
      let (lines, t, embedded, rest4) =
        and_then-good (lift (staged e q.dimension to_embed) s) _ r s' rest3 in
      let kept : s ≡ t = ap (λ x. x.1) embedded in
      let pos : 0 < n = ground (arith, positive) in
      subst
        (Projected fingerprint same (find (has_id k) items) (lookup k existing)
          (payload_at q view s k))
        (sym (
          publish-payload lines t s' r pos (subst (Present q) kept present) rest4
          ∙ ap
              (λ x. applied (remove_at k) (stale existing items) (
                applied (replace_at k) (updates fingerprint same existing items)
                  (applied (place_point k) (concat lines) (payload_at q view x k))))
              (sym kept)
          ∙ ap
              (λ b.
                applied (remove_at k) (stale existing items)
                  (applied (replace_at k) (updates fingerprint same existing items) b))
              (staged-place e q.dimension k to_embed lines (payload_at q view s k)
                  (ap (λ x. x.0) embedded)
                ∙ ap (λ l. applied (place k) l (payload_at q view s k))
                    (concat-batches n (changed fingerprint same existing items) pos))))
        (stages fingerprint same items existing k (payload_at q view s k) distinct inventory)
