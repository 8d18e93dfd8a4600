-- ===== src/Search/Projection/Refreshing.antt =====
-- projection.py: the loop that refreshes payloads in batches, and the counts that it returns.
use app_common.Common.{
  ℕ, ◌+◌, String, Bool, true, false, Option, List, [], ◌∷◌, ◌++◌, ◌≡◌, ◌⊎◌, refl, ap, ap₂, ◌∙◌, sym,
  subst, ◌==◌, if◌then◌else◌, length, Bool-cases, inl, inr,
}
use app_common.Layer.Services.{Try, good}
use app_common.Vector.{pure, State, PayloadUpdate, QdrantVectorStore, overwrite_payloads}
use app_common.Vector.Laws.{Stored, applied, applied-append, IsClient, and_then-good}
use app_common.Vector.Laws.Payloads.{payload_at, Present, replace_at, overwrite_payloads-payload}
use app_common.Search.Schemas.{ProjectionItem, SyncResult}
use app_common.Search.Projection.{
  Task, embed, refresh, skip, task, update_of, flush_full, flush_rest, refresh_all, refreshed_by,
}

abbrev pub is_refresh : Task → Bool
is_refresh refresh = true
is_refresh _ = false

-- The updates that the loop collects.
abbrev pub updates :
    {P : Type 0}
    → (P → Option String)
    → (P → P → Bool)
    → List (String × P)
    → List (ProjectionItem P)
    → List (PayloadUpdate P)
updates fingerprint same existing [] = []
updates fingerprint same existing (i ∷ is) =
    let rest = updates fingerprint same existing is in
    if is_refresh (task fingerprint same existing i) then update_of i ∷ rest else rest

good_pair :
    {A B C : Type 0} (a a' : A) (b b' : B) (c c' : C)
    → ◌≡◌ {A = Try (A × B) × C} (good (a, b), c) (good (a', b'), c')
    → (a ≡ a') × (c ≡ c')
good_pair a a' b b' c c' h = (cc, cc)

Task-cases : (t : Task) → (t ≡ embed) ⊎ (t ≡ skip) ⊎ (t ≡ refresh)
Task-cases embed = inl refl
Task-cases skip = inr (inl refl)
Task-cases refresh = inr (inr refl)

module _ {S N P I F : Type 0} (q : QdrantVectorStore S N P I F) (view : S → String → Stored N P)
    (laws : IsClient q.client view) (k : String) where
  -- The payload under `k` behind the updates `us`, from what it was in `s`.
  abbrev Updated : List (PayloadUpdate P) → State S → State S → Type 0
  Updated us s s' =
      Present q s' × (payload_at q view s' k ≡ applied (replace_at k) us (payload_at q view s k))

  flush_rest-payload :
      (n : ℕ) (acc : List (PayloadUpdate P)) (r r' : SyncResult) (s s' : State S)
      → Present q s
      → flush_rest q n acc r s ≡ (good r', s')
      → Updated acc s s'
  unfolding flush_rest
  flush_rest-payload n [] r r' s s' present h =
      let kept : s ≡ s' = ap (λ t. t.1) h in
      (subst (Present q) kept present, ap (λ t. payload_at q view t k) (sym kept))
  flush_rest-payload n (u ∷ us) r r' s s' present h =
      let (m, t, written, ends) = and_then-good (overwrite_payloads q (u ∷ us) n s) _ r' s' h in
      let same : t ≡ s' = ap (λ x. x.1) ends in
      overwrite_payloads-payload q view laws (u ∷ us) n s s' m present (rw same at written) k

  flush_full-payload :
      (n : ℕ) (acc acc' : List (PayloadUpdate P)) (r r' : SyncResult) (s s' : State S)
      → Present q s
      → flush_full q n acc r s ≡ (good (acc', r'), s')
      → Present q s'
        × (applied (replace_at k) acc' (payload_at q view s' k)
            ≡ applied (replace_at k) acc (payload_at q view s k))
  unfolding flush_full
  flush_full-payload n acc acc' r r' s s' present h = elim (Bool-cases (length acc == n)) [
    | inl full ↦
        let written = rw full at h in
        let (m, t, done, ends) =
          and_then-good (overwrite_payloads q acc n s) _ (acc', r') s' written in
        let same : t ≡ s' = ap (λ x. x.1) ends in
        let (kept, now) =
          overwrite_payloads-payload q view laws acc n s s' m present (rw same at done) k in
        let emptied = sym (good_pair [] acc' (refreshed_by r m) r' t s' ends).0 in
        (kept, rw emptied now)
    | inr some_room ↦
        let ends : pure (acc, r) s ≡ (good (acc', r'), s') = rw some_room at h in
        let (same, kept) = good_pair acc acc' r r' s s' ends in
        (
          subst (Present q) kept present,
          ap₂ (λ l t. applied (replace_at k) l (payload_at q view t k)) (sym same) (sym kept),
        )
  ]

  module _ (fingerprint : P → Option String) (same : P → P → Bool)
      (existing : List (String × P)) where
    pub refresh_all-payload :
        (n : ℕ) (is : List (ProjectionItem P)) (acc : List (PayloadUpdate P)) (r r' : SyncResult)
        (s s' : State S)
        → Present q s
        → refresh_all q fingerprint same existing n is acc r s ≡ (good r', s')
        → Present q s'
          × (payload_at q view s' k
              ≡ applied
                  (replace_at k)
                  (updates fingerprint same existing is)
                  (applied (replace_at k) acc (payload_at q view s k)))
    unfolding refresh_all
    refresh_all-payload n [] acc r r' s s' present h = flush_rest-payload n acc r r' s s' present h
    refresh_all-payload n (i ∷ is) acc r r' s s' present h =
        elim (Task-cases (task fingerprint same existing i)) [
          | inl e ↦ rw e (refresh_all-payload n is acc r r' s s' present (rw (e, refresh_all) at h))
          | inr (inl e) ↦ rw e (
              refresh_all-payload n is acc (record r { skipped = r.skipped + 1 }) r' s s' present
                (rw (e, refresh_all) at h))
          | inr (inr e) ↦
              let run = rw (e, refresh_all) at h in
              let (next, t, flushed, rest) =
                and_then-good (flush_full q n (acc ++ update_of i ∷ []) r s) _ r' s' run in
              let (there, now) =
                flush_full-payload n (acc ++ update_of i ∷ []) next.0 r next.1 s t present
                  flushed in
              let (last, then_on) = refresh_all-payload n is next.0 next.1 r' t s' there rest in
              (
                last,
                rw e (
                    then_on
                    ∙ ap (applied (replace_at k) (updates fingerprint same existing is)) (
                        now
                        ∙ applied-append (replace_at k) acc (update_of i ∷ [])
                            (payload_at q view s k))),
              )
        ]
