-- ===== src/Search/Engine/InStep.antt =====
-- usecases.py: what a synchronisation leaves in the collection, for the scope and for the others.
use app_common.Common.{
  if◌then◌else◌, ℕ, String, true, Bool-cases, inl, inr, ◌⊎◌, refl, eq_iff, none, some, List, [],
  ◌∷◌, ◌≡◌, ap, ◌∙◌, sym, subst, str_eq, leb, any, find, All, concat,
}
use app_common.Layer.Services.{good}
use app_common.Vector.{
  pure, State, remotely, is_some, lookup, QdrantVectorStore, Record, ensure_payload_indexes, scroll,
}
use app_common.Vector.Laws.{Stored, payload_of, IsClient, and_then-good}
use app_common.Vector.Laws.Effects.{remotely-good, checked_good}
use app_common.Vector.Laws.Store.{if_valid-good}
use app_common.Vector.Laws.Payloads.{put-shown, payload_at, Present}
use app_common.Vector.Laws.Indexes.{ensure_payload_indexes-payload}
use app_common.Search.Filters.{Condition, on_scope}
use app_common.Search.Schemas.{ProjectionItem, SyncResult}
use app_common.Search.Projection.{has_id, sync_snapshot}
use app_common.Search.Projection.Settled.{Projected}
use app_common.Search.Projection.Projects.{sync_snapshot-projected}
use app_common.Search.Snapshots.{PointPayload, marker, SearchEngine, fingerprint, inventory}
use app_common.Search.Engine.Inventory.{IsScroll, InStep, inventory_sound, projected-InStep}
use app_common.Search.Engine.{marker_point, reconcile}

module _ {S N I : Type 0} (self : SearchEngine N)
    (q : QdrantVectorStore S N (PointPayload N) I (List (Condition N)))
    (indexes : List (String × I)) (view : S → String → Stored N (PointPayload N))
    (laws : IsClient q.client view) (scrolls : IsScroll q.client view) where
  -- The records of a scroll are those of the client, in a collection that is there.
  scroll-records :
      (f : List (Condition N)) (n : ℕ) (s s' : State S) (rs : List (Record (PointPayload N)))
      → Present q s
      → scroll q f n s ≡ (good rs, s')
      → (rs ≡ concat (q.client.scroll f n s.remote)) × (s'.remote ≡ s.remote)
  unfolding scroll
  scroll-records f n s s' rs present h =
      let (positive, rest) = checked_good (leb n 0) _ _ s s' rs h in
      let (t, same, ends) = if_valid-good q [] rs _ s s' present rest in
      let made : good (concat (q.client.scroll f n t.remote)) ≡ good rs = ap (λ x. x.0) ends in
      let listed : rs ≡ concat (q.client.scroll f n t.remote) = cc in
      (
        listed ∙ ap (λ x. concat (q.client.scroll f n x)) same,
        ap (λ x. x.1.remote) (sym ends) ∙ same,
      )

  synced-InStep :
      (scope k : String) (items : List (ProjectionItem (PointPayload N)))
      (rs : List (Record (PointPayload N))) (s1 s2 s3 : State S) (r : SyncResult)
      → Present q s1
      → scroll q (on_scope scope ∷ []) 256 s1 ≡ (good rs, s2)
      → sync_snapshot q fingerprint self.same_payload self.embedder items
          (inventory scope rs)
          self.index.batch_size
          none
          s2
        ≡ (good r, s3)
      → InStep self.same_payload scope
          (find (has_id k) items)
          (payload_at q view s1 k)
          (payload_at q view s3 k)
  synced-InStep scope k items rs s1 s2 s3 r present scrolled synced =
      let (listed, same) = scroll-records (on_scope scope ∷ []) 256 s1 s2 rs present scrolled in
      let kept_there : Present q s2 = ap (λ x. is_some (q.client.collection x)) same ∙ present in
      let exact : All (λ (x : Record (PointPayload N)). x.payload ≡ payload_at q view s1 x.id) rs =
        subst (All (λ (x : Record (PointPayload N)). x.payload ≡ payload_at q view s1 x.id))
          (sym listed) (scrolls.exact (on_scope scope ∷ []) 256 s1.remote) in
      let at_k : payload_at q view s2 k ≡ payload_at q view s1 k =
        ap (λ x. payload_of (view x k)) same in
      projected-InStep scope k self.same_payload rs (payload_at q view s1) (find (has_id k) items)
        (payload_at q view s3 k) exact
        (λ p there own.
          subst (λ l. any (λ (x : Record (PointPayload N)). str_eq x.id k) l ≡ true) (sym listed)
            (scrolls.complete scope 256 s1.remote k p there own))
        (subst
          (λ b.
            Projected fingerprint self.same_payload (find (has_id k) items)
              (lookup k (inventory scope rs)) b (payload_at q view s3 k))
          at_k
          (sync_snapshot-projected q view laws fingerprint self.same_payload self.embedder items
            (inventory scope rs) self.index.batch_size none k s2 s3 r kept_there
            (λ p held. at_k ∙ (inventory_sound scope k rs (payload_at q view s1) p exact held).0)
            synced))

  marker-payload :
      (scope uuid k : String) (s3 s4 s' : State S) (r r3 : SyncResult)
      → remotely (q.client.upsert (marker_point self q indexes scope uuid ∷ [])) s3 ≡ (good tt, s4)
      → pure (record r3 { generation = some uuid }) s4 ≡ (good r, s')
      → (payload_at q view s' k ≡ (
          if str_eq (self.marker_id scope) k
          then some (marker scope uuid)
          else payload_at q view s3 k))
        × (r.generation ≡ some uuid)
  marker-payload scope uuid k s3 s4 s' r r3 marked ends =
      let upserted =
        laws.upserts (marker_point self q indexes scope uuid ∷ []) s3.remote s4.remote (
          remotely-good (q.client.upsert (marker_point self q indexes scope uuid ∷ [])) s3 s4 tt
            marked) in
      let end : s4 ≡ s' = ap (λ x. x.1) ends in
      let made : good (record r3 { generation = some uuid }) ≡ good r = ap (λ x. x.0) ends in
      let same : record r3 { generation = some uuid } ≡ r = cc in
      (
        ap (λ x. payload_at q view x k) (sym end)
            ∙ ap payload_of (upserted k)
            ∙ put-shown k (marker_point self q indexes scope uuid) (view s3.remote k),
        ap (λ (x : SyncResult). x.generation) (sym same),
      )

  -- A reconciliation that succeeds leaves the scope's marker with the drawn UUID under the marker's id,
  -- and the UUID is the generation of the result. Under every other id it leaves: of an item of the
  -- snapshot its payload, or the one before if that has the same fingerprint and is equal to the item's by
  -- `==`, which may be any test; nothing in place of another payload of the scope; and else what was there. The
  -- client keeps its contract, and a scroll by a scope meets every point of it.
  pub reconcile-InStep :
      (scope uuid k : String) (items : List (ProjectionItem (PointPayload N))) (s s' : State S)
      (r : SyncResult)
      → reconcile self q indexes scope uuid items s ≡ (good r, s')
      → (payload_at q view s' (self.marker_id scope) ≡ some (marker scope uuid))
        × (r.generation ≡ some uuid)
        × ((str_eq (self.marker_id scope) k ≡ true)
            ⊎ InStep self.same_payload scope
                (find (has_id k) items)
                (payload_at q view s k)
                (payload_at q view s' k))
  unfolding reconcile
  reconcile-InStep scope uuid k items s s' r h =
      let (u1, s1, indexed, rest1) = and_then-good (ensure_payload_indexes q indexes s) _ r s' h in
      let (rs, s2, scrolled, rest2) =
        and_then-good (scroll q (on_scope scope ∷ []) 256 s1) _ r s' rest1 in
      let (r3, s3, synced, rest3) =
        and_then-good
          (sync_snapshot q fingerprint self.same_payload self.embedder items (inventory scope rs)
            self.index.batch_size none s2)
          _ r s' rest2 in
      let (u4, s4, marked, ends) =
        and_then-good (remotely (q.client.upsert (marker_point self q indexes scope uuid ∷ [])) s3)
          _ r s' rest3 in
      let (present, unchanged) =
        ensure_payload_indexes-payload q view laws k indexes s s1 indexed in
      let m = self.marker_id scope in
      let (here, drawn) = marker-payload scope uuid m s3 s4 s' r r3 marked ends in
      let (elsewhere, _) = marker-payload scope uuid k s3 s4 s' r r3 marked ends in
      (
        here ∙ rw ((eq_iff m m).1 refl) refl,
        drawn,
        elim (Bool-cases (str_eq m k)) [
          | inl own ↦ inl own
          | inr other ↦ inr (
              subst (InStep self.same_payload scope (find (has_id k) items) (payload_at q view s k))
                (sym (elsewhere ∙ rw other refl))
                (subst
                  (λ b.
                    InStep self.same_payload scope (find (has_id k) items) b
                      (payload_at q view s3 k))
                  unchanged (synced-InStep scope k items rs s1 s2 s3 r3 present scrolled synced)))
        ],
      )
