-- ===== src/Vector/Laws/Store.antt =====
-- store.py: what the calls of the store do to the points, and that they keep the collection.
use app_common.Common.{
  ℕ, ◌<◌, String, Bool, true, false, List, [], ◌∷◌, ◌≡◌, refl, ap, ◌∙◌, sym, arith, leb, ◌&&◌,
  Bool-cases, inl, inr, batches,
}
use app_common.Layer.Services.{good}
use app_common.Vector.{
  Run, ◌>>=◌, pure, State, for_each, is_some, VectorPoint, PayloadUpdate, QdrantVectorStore,
  raise_if, validate_schema, validate_collection, create_if_absent, ensure_collection,
  upsert_points, upsert, overwrite_updates, overwrite_payloads, delete, validate_vector, if_valid,
}
use app_common.Vector.Laws.{applied, and_then-good}
use app_common.Vector.Laws.Effects.{for_each-kept, remotely-good, for_each-batches}

-- A check that passed, and that it changed nothing.
pub raise_if-good :
    {S : Type 0} (b : Bool) (e : String) (s s' : S) (u : Unit {0})
    → raise_if b e s ≡ (good u, s')
    → (b ≡ false) × (s ≡ s')
raise_if-good true e s s' u h = cc
raise_if-good false e s s' u h = (refl, ap (λ r. r.1) h)

module _ {S N P I F : Type 0} (q : QdrantVectorStore S N P I F) where
  pub validate_schema-remote : (s : State S) → (validate_schema q s).1.remote ≡ s.remote
  unfolding validate_schema
  validate_schema-remote s = ground arith

  pub validate_collection-remote : (s : State S) → (validate_collection q s).1.remote ≡ s.remote
  unfolding validate_collection
  validate_collection-remote s = ground (arith, validate_schema-remote s)

  pub validate_collection-good :
      (s t : State S) (answer : Bool)
      → is_some (q.client.collection s.remote) ≡ true
      → validate_collection q s ≡ (good answer, t)
      → true ≡ answer
  unfolding validate_collection
  validate_collection-good s t answer present h =
      let inner : (validate_schema q >>= λ _. pure true) s ≡ (good answer, t) = rw present at h in
      let (u, t1, fits, ends) = and_then-good (validate_schema q s) _ answer t inner in
      let made : good true ≡ good answer = ap (λ r. r.0) ends in cc

  -- In a collection that is there, a call goes on behind the check of its schema.
  pub if_valid-good :
      {A : Type 0} (a b : A) (run : Run (State S) A) (s s' : State S)
      → is_some (q.client.collection s.remote) ≡ true
      → if_valid q a run s ≡ (good b, s')
      → (t : State S) × (t.remote ≡ s.remote) × (run t ≡ (good b, s'))
  unfolding validate_collection
  if_valid-good a b run s s' present h =
      let (valid, t, checked, rest) = and_then-good (validate_collection q s) _ b s' h in
      let same : t.remote ≡ s.remote =
        ap (λ r. r.1.remote) (sym checked) ∙ validate_collection-remote s in
      let goes_on = validate_collection-good s t valid present checked in
      (t, same, rw (← goes_on) at rest)

  pub ensure_collection-present :
      (s : State S)
      → is_some (q.client.collection s.remote) ≡ true
      → (ensure_collection q s).1.remote ≡ s.remote
  unfolding ensure_collection create_if_absent
  ensure_collection-present s present =
      elim (Bool-cases (s.ready && is_some (q.client.collection s.remote))) [
        | inl known ↦ rw known refl
        | inr unknown ↦ rw (unknown, present) (validate_schema-remote s)
      ]

  vector_checked : (v : List N) (t t' : State S) → validate_vector q v t ≡ (good tt, t') → t' ≡ t
  unfolding validate_vector
  vector_checked v t t' e = sym (raise_if-good _ _ t t' tt e).1

  -- What each item of a call does to what is seen of the remote state.
  module _ {B : Type 0} (seen : S → B) where
    module _ (step : VectorPoint N P → B → B)
        (acts : (ps : List (VectorPoint N P)) (s s' : S)
          → q.client.upsert ps s ≡ (good tt, s')
          → seen s' ≡ applied step ps (seen s)) where
      upsert_points-seen :
          (ps : List (VectorPoint N P)) (n : ℕ) (s s' : State S) (m : ℕ)
          → 0 < n
          → seen (ensure_collection q s).1.remote ≡ seen s.remote
          → upsert_points q n ps s ≡ (good m, s')
          → seen s'.remote ≡ applied step ps (seen s.remote)
      unfolding upsert_points
      upsert_points-seen [] n s s' m pos kept h = ap (λ r. seen r.1.remote) (sym h)
      upsert_points-seen (p ∷ ps) n s s' m pos kept h =
          let (u, s1, ensured, rest) = and_then-good (ensure_collection q s) _ m s' h in
          let (u2, s2, written, ends) =
            and_then-good (for_each _ (batches n (p ∷ ps)) s1) _ m s' rest in
          ap (λ r. seen r.1.remote) (sym ends)
          ∙ for_each-batches q.client.upsert seen step acts n (p ∷ ps) s1 s2 pos written
          ∙ ap (applied step (p ∷ ps)) (ap (λ r. seen r.1.remote) (sym ensured) ∙ kept)

      -- A write that succeeded is one call of the client with all points.
      pub upsert-seen :
          (ps : List (VectorPoint N P)) (n : ℕ) (s s' : State S) (m : ℕ)
          → seen (ensure_collection q s).1.remote ≡ seen s.remote
          → upsert q ps n s ≡ (good m, s')
          → seen s'.remote ≡ applied step ps (seen s.remote)
      unfolding upsert
      upsert-seen ps n s s' m kept h =
          let (u, s1, positive, rest) = and_then-good (raise_if (leb n 0) _ s) _ m s' h in
          let (u2, s2, valid, writes) = and_then-good (for_each _ ps s1) _ m s' rest in
          let checked = raise_if-good (leb n 0) _ s s1 u positive in
          let pos : 0 < n = ground (arith, checked.0) in
          let same : s2 ≡ s =
            for_each-kept (λ (p : VectorPoint N P). validate_vector q p.vector) (λ t. t)
              (λ p t t' e. vector_checked p.vector t t' e) ps s1 s2 valid
            ∙ sym checked.1 in
          upsert_points-seen ps n s s' m pos kept (rw same at writes)

    module _ (step : PayloadUpdate P → B → B)
        (acts : (us : List (PayloadUpdate P)) (s s' : S)
          → q.client.batch_update_points us s ≡ (good tt, s')
          → seen s' ≡ applied step us (seen s)) where
      overwrite_updates-seen :
          (us : List (PayloadUpdate P)) (n : ℕ) (s s' : State S) (m : ℕ)
          → 0 < n
          → is_some (q.client.collection s.remote) ≡ true
          → overwrite_updates q n us s ≡ (good m, s')
          → seen s'.remote ≡ applied step us (seen s.remote)
      unfolding overwrite_updates
      overwrite_updates-seen [] n s s' m pos present h = ap (λ r. seen r.1.remote) (sym h)
      overwrite_updates-seen (x ∷ us) n s s' m pos present h =
          let (t, same, rest) = if_valid-good 0 m _ s s' present h in
          let (u2, s2, written, ends) =
            and_then-good (for_each _ (batches n (x ∷ us)) t) _ m s' rest in
          ap (λ r. seen r.1.remote) (sym ends)
          ∙ for_each-batches q.client.batch_update_points seen step acts n (x ∷ us) t s2 pos written
          ∙ ap (λ r. applied step (x ∷ us) (seen r)) same

      pub overwrite_payloads-seen :
          (us : List (PayloadUpdate P)) (n : ℕ) (s s' : State S) (m : ℕ)
          → is_some (q.client.collection s.remote) ≡ true
          → overwrite_payloads q us n s ≡ (good m, s')
          → seen s'.remote ≡ applied step us (seen s.remote)
      unfolding overwrite_payloads
      overwrite_payloads-seen us n s s' m present h =
          let (u, s1, positive, rest) = and_then-good (raise_if (leb n 0) _ s) _ m s' h in
          let checked = raise_if-good (leb n 0) _ s s1 u positive in
          let pos : 0 < n = ground (arith, checked.0) in
          overwrite_updates-seen us n s s' m pos present (rw (← checked.1) at rest)

    pub delete-seen :
        (step : String → B → B)
        → ((ids : List String) (s s' : S)
            → q.client.delete ids s ≡ (good tt, s')
            → seen s' ≡ applied step ids (seen s))
        → (ids : List String) (s s' : State S) (u : Unit {0})
        → is_some (q.client.collection s.remote) ≡ true
        → delete q ids s ≡ (good u, s')
        → seen s'.remote ≡ applied step ids (seen s.remote)
    unfolding delete
    delete-seen step acts ids s s' u present h =
        let (t, same, rest) = if_valid-good tt u _ s s' present h in
        acts ids t.remote s'.remote (remotely-good (q.client.delete ids) t s' tt rest)
        ∙ ap (λ r. applied step ids (seen r)) same
