-- ===== src/Vector/Laws/Payloads.antt =====
-- store.py: the payload that the store has under an id, after a call that succeeded.
use app_common.Common.{
  ℕ, String, true, Option, none, some, List, ◌≡◌, ap, ◌∙◌, sym, arith, str_eq, if◌then◌else◌,
}
use app_common.Layer.Services.{good}
use app_common.Vector.{
  State, is_some, VectorPoint, PayloadUpdate, QdrantVectorStore, upsert, overwrite_payloads, delete,
}
use app_common.Vector.Laws.{
  Stored, payload_of, put, overwrite, remove, applied, IsClient, applied-kept, applied-shown,
}
use app_common.Vector.Laws.Store.{
  ensure_collection-present, upsert-seen, overwrite_payloads-seen, delete-seen,
}

abbrev pub place_point : {N P : Type 0} → String → VectorPoint N P → Option P → Option P
place_point k p before = if str_eq p.id k then some p.payload else before

abbrev pub replaced : {P : Type 0} → P → Option P → Option P
replaced payload none = none
replaced payload (some _) = some payload

abbrev pub replace_at : {P : Type 0} → String → PayloadUpdate P → Option P → Option P
replace_at k u before = if str_eq u.id k then replaced u.payload before else before

abbrev pub remove_at : {P : Type 0} → String → String → Option P → Option P
remove_at k id before = if str_eq id k then none else before

module _ {N P : Type 0} where
  pub put-shown :
      (k : String) (p : VectorPoint N P) (b : Stored N P)
      → payload_of (put k p b) ≡ place_point k p (payload_of b)
  put-shown k p b = ground arith

  overwrite-shown :
      (k : String) (u : PayloadUpdate P) (b : Stored N P)
      → payload_of (overwrite k u b) ≡ replace_at k u (payload_of b)
  overwrite-shown k u none = ground arith
  overwrite-shown k u (some (v, p)) = ground arith

  remove-shown :
      (k id : String) (b : Stored N P) → payload_of (remove k id b) ≡ remove_at k id (payload_of b)
  remove-shown k id b = ground arith

module _ {S N P I F : Type 0} (q : QdrantVectorStore S N P I F)
    (view : S → String → Stored N P) where
  abbrev pub payload_at : State S → String → Option P
  payload_at s k = payload_of (view s.remote k)

-- The collection is there.
abbrev pub Present : {S N P I F : Type 0} → QdrantVectorStore S N P I F → State S → Type 0
Present q s = is_some (q.client.collection s.remote) ≡ true

module _ {S N P I F : Type 0} (q : QdrantVectorStore S N P I F) (view : S → String → Stored N P)
    (laws : IsClient q.client view) where
  pub upsert-payload :
      (ps : List (VectorPoint N P)) (n : ℕ) (s s' : State S) (m : ℕ)
      → Present q s
      → upsert q ps n s ≡ (good m, s')
      → (k : String)
      → Present q s' × (payload_at q view s' k ≡ applied (place_point k) ps (payload_at q view s k))
  upsert-payload ps n s s' m present h k = (
    rw
        (upsert-seen q q.client.collection (λ _ c. c)
            (λ xs t t' done.
              ap (λ r. q.client.collection r.1) (sym done)
              ∙ laws.keeps_upsert xs t
              ∙ sym (applied-kept xs _))
            ps n s s' m (ap q.client.collection (ensure_collection-present q s present)) h
          ∙ applied-kept ps _)
        present,
    ap payload_of (
          upsert-seen q (λ r. view r k) (put k) (λ xs t t' done. laws.upserts xs t t' done k) ps n s
            s' m (ap (λ r. view r k) (ensure_collection-present q s present)) h)
        ∙ applied-shown payload_of (put k) (place_point k) (put-shown k) ps (view s.remote k),
  )

  pub overwrite_payloads-payload :
      (us : List (PayloadUpdate P)) (n : ℕ) (s s' : State S) (m : ℕ)
      → Present q s
      → overwrite_payloads q us n s ≡ (good m, s')
      → (k : String)
      → Present q s' × (payload_at q view s' k ≡ applied (replace_at k) us (payload_at q view s k))
  overwrite_payloads-payload us n s s' m present h k = (
    rw
        (overwrite_payloads-seen q q.client.collection (λ _ c. c)
            (λ xs t t' done.
              ap (λ r. q.client.collection r.1) (sym done)
              ∙ laws.keeps_update xs t
              ∙ sym (applied-kept xs _))
            us n s s' m present h
          ∙ applied-kept us _)
        present,
    ap payload_of (
          overwrite_payloads-seen q (λ r. view r k) (overwrite k)
            (λ xs t t' done. laws.updates xs t t' done k) us n s s' m present h)
        ∙ applied-shown payload_of (overwrite k) (replace_at k) (overwrite-shown k) us
            (view s.remote k),
  )

  pub delete-payload :
      (ids : List String) (s s' : State S) (u : Unit {0})
      → Present q s
      → delete q ids s ≡ (good u, s')
      → (k : String)
      → Present q s' × (payload_at q view s' k ≡ applied (remove_at k) ids (payload_at q view s k))
  delete-payload ids s s' u present h k = (
    rw
        (delete-seen q q.client.collection (λ _ c. c)
            (λ xs t t' done.
              ap (λ r. q.client.collection r.1) (sym done)
              ∙ laws.keeps_delete xs t
              ∙ sym (applied-kept xs _))
            ids s s' u present h
          ∙ applied-kept ids _)
        present,
    ap payload_of (
          delete-seen q (λ r. view r k) (remove k) (λ xs t t' done. laws.deletes xs t t' done k) ids
            s s' u present h)
        ∙ applied-shown payload_of (remove k) (remove_at k) (remove-shown k) ids (view s.remote k),
  )
