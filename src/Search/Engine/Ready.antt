-- ===== src/Search/Engine/Ready.antt =====
-- usecases.py: when `SearchEngine.status` says that an index is ready.
use app_common.Common.{
  if◌then◌else◌, ℕ, String, Bool, true, false, ◌&&◌, some, List, ◌≡◌, refl, ap, ◌∙◌, sym, subst,
  eq_iff,
}
use app_common.Layer.Services.{Try, good, bad}
use app_common.Vector.{State, is_some, QdrantVectorStore, validate_collection}
use app_common.Vector.Laws.{Stored, payload_of, IsClient, and_then-good}
use app_common.Vector.Laws.Store.{validate_collection-good, validate_collection-remote}
use app_common.Vector.Laws.Payloads.{payload_at, Present}
use app_common.Search.Filters.{Condition}
use app_common.Search.Schemas.{ProjectionItem, SyncResult}
use app_common.Search.Projection.{lift}
use app_common.Search.Snapshots.{
  PointPayload, marker, SearchEngine, Snapshot, SyncState, is_marker, generation_of, check_scope,
}
use app_common.Search.Engine.{reconcile, recorded, reconciled, sync, index_ready}
use app_common.Search.Engine.Inventory.{IsScroll}
use app_common.Search.Engine.InStep.{reconcile-InStep}

module _ {S N I : Type 0} (self : SearchEngine N)
    (q : QdrantVectorStore S N (PointPayload N) I (List (Condition N)))
    (indexes : List (String × I)) (view : S → String → Stored N (PointPayload N))
    (laws : IsClient q.client view) (scrolls : IsScroll q.client view)
    (retrieves : (k : String) (s : S) (p : PointPayload N)
      → payload_of (view s k) ≡ some p
      → q.client.retrieve k s ≡ some (record { id = k; payload = some p })) where
  -- What a synchronisation that succeeds records, and the marker that it leaves.
  abbrev Marked : String → String → ℕ → State S → SyncState → SyncResult → Type 0
  Marked scope uuid now s' after r =
      (after.last_synced_at ≡ some now)
      × (after.last_result ≡ some r)
      × (r.generation ≡ some uuid)
      × (payload_at q view s' (self.marker_id scope) ≡ some (marker scope uuid))

  delivered_result :
      (cancelled : Bool) (r1 r : SyncResult)
      → ◌≡◌ {A = Try SyncResult} (if cancelled then bad "CancelledError" else good r1) (good r)
      → r1 ≡ r
  delivered_result true r1 r h = absurd (cc)
  delivered_result false r1 r h = cc

  recorded-Marked :
      (scope uuid : String) (items : Try (List (ProjectionItem (PointPayload N)))) (now : ℕ)
      (cancelled : Bool) (s s' : State S) (before after : SyncState) (r : SyncResult)
      → recorded self q indexes now cancelled before (reconciled self q indexes scope uuid items s)
        ≡ (good r, s', after)
      → Marked scope uuid now s' after r
  recorded-Marked scope uuid (bad x) now cancelled s s' before after r h =
      let e : ◌≡◌ {A = Try SyncResult} (bad x) (good r) = ap (λ x. x.0) h in absurd (cc)
  recorded-Marked scope uuid (good items) now cancelled s s' before after r h =
      by_end (reconcile self q indexes scope uuid items s) refl h
    where
      by_end :
          (o : Try SyncResult × State S)
          → reconcile self q indexes scope uuid items s ≡ o
          → recorded self q indexes now cancelled before o ≡ (good r, s', after)
          → Marked scope uuid now s' after r
      by_end (bad x, s1) e made =
          let never : ◌≡◌ {A = Try SyncResult} (bad x) (good r) = ap (λ x. x.0) made in absurd (cc)
      by_end (good r1, s1) e made =
          let (here, drawn, _) =
            reconcile-InStep self q indexes view laws scrolls scope uuid (self.marker_id scope)
              items s s1 r1 e in
          let same : r1 ≡ r = delivered_result cancelled r1 r (ap (λ x. x.0) made) in
          (
            ap (λ (x : Try SyncResult × State S × SyncState). x.2.last_synced_at) (sym made),
            ap (λ (x : Try SyncResult × State S × SyncState). x.2.last_result) (sym made)
                ∙ ap some same,
            ap (λ (x : SyncResult). x.generation) (sym same) ∙ drawn,
            ap
                  (λ (x : Try SyncResult × State S × SyncState).
                    payload_at q view x.1 (self.marker_id scope))
                  (sym made)
                ∙ here,
          )

  -- A synchronisation that returns a result records it with the time, its generation is the UUID that
  -- was drawn, and `index_ready`, if it answers on the collection as it was left, with the collection
  -- there, says that the index is ready. The client keeps its contract, a scroll by a scope meets
  -- every point of it, and a point that is there is retrieved with its payload.
  pub sync-ready :
      (scope : String) (source : Snapshot N) (uuid : String) (now : ℕ) (cancelled : Bool)
      (s s' s2 : State S) (before after : SyncState) (r : SyncResult) (answer : Bool)
      → sync self q indexes scope source uuid now cancelled s before ≡ (good r, s', after)
      → Present q s'
      → index_ready self q indexes scope after s' ≡ (good answer, s2)
      → (after.last_synced_at ≡ some now)
        × (after.last_result ≡ some r)
        × (r.generation ≡ some uuid)
        × (answer ≡ true)
  unfolding sync index_ready
  sync-ready scope source uuid now cancelled s s' s2 before after r answer h present asked =
      let (synced, result, drawn, here) =
        recorded-Marked scope uuid _ now cancelled s s' before after r h in
      let generation : generation_of after.last_result ≡ some uuid =
        ap generation_of result ∙ drawn in
      let (u, s3, checked, rest) =
        and_then-good (lift (check_scope self scope) s') _ answer s2 asked in
      let (exists, s4, valid, ends) = and_then-good (validate_collection q s3) _ answer s2 rest in
      let kept : s' ≡ s3 = ap (λ x. x.1) checked in
      let there = validate_collection-good q s3 s4 exists (subst (Present q) kept present) valid in
      let same : s4.remote ≡ s'.remote =
        ap (λ x. x.1.remote) (sym valid)
        ∙ validate_collection-remote q s3
        ∙ ap (λ (x : State S). x.remote) (sym kept) in
      let found =
        retrieves (self.marker_id scope) s4.remote (marker scope uuid)
          (ap (λ x. payload_of (view x (self.marker_id scope))) same ∙ here) in
      let answered : good (
            exists
            && is_some after.last_synced_at
            && is_marker scope (generation_of after.last_result)
                (q.client.retrieve (self.marker_id scope) s4.remote))
          ≡ good answer =
        ap (λ x. x.0) ends in
      let all_true : (exists
            && is_some after.last_synced_at
            && is_marker scope (generation_of after.last_result)
                (q.client.retrieve (self.marker_id scope) s4.remote))
          ≡ true =
        rw
          (
            ← there,
            synced,
            generation,
            found,
            (eq_iff scope scope).1 refl,
            (eq_iff uuid uuid).1 refl,
          )
          refl in
      (synced, result, drawn, (let both : _ ≡ answer = cc in sym both ∙ all_true))
