-- ===== src/Vector/Laws/Indexes.antt =====
-- store.py: `ensure_collection` and `ensure_payload_indexes`: the collection is there afterwards, and
-- the points are as before.
use app_common.Common.{
  String, Bool, true, ◌&&◌, Option, none, some, List, ◌≡◌, refl, ap, ap₂, ◌∙◌, sym, subst, arith,
  Bool-cases, inl, inr,
}
use app_common.Layer.Services.{Try, good, bad, and_then}
use app_common.Vector.{
  State, remotely, for_each, is_some, lookup, Vectors, QdrantVectorStore, Created, created,
  response, failed, settle, check_info, validate_schema, create_if_absent, ensure_collection,
  ensure_index, ensure_payload_indexes,
}
use app_common.Vector.Laws.{Stored, payload_of, IsClient, and_then-good}
use app_common.Vector.Laws.Effects.{for_each-kept, remotely-good}
use app_common.Vector.Laws.Store.{raise_if-good, validate_schema-remote}
use app_common.Vector.Laws.Payloads.{payload_at, Present}

-- What the second step of a chain never changes is as the first step left it.
kept_through :
    {S A B C : Type 0} (seen : S → C) (r : Try A × S) (f : A → S → Try B × S)
    → ((a : A) (s : S) → seen (f a s).1 ≡ seen s)
    → seen (and_then r f).1 ≡ seen r.1
kept_through seen (good a, s) f kept = kept a s
kept_through seen (bad x, s) f kept = refl

module _ {S N P I F : Type 0} (q : QdrantVectorStore S N P I F) where
  settle-remote : (b : Bool) (r : Created × S) → (settle q b r).1.remote ≡ r.1
  settle-remote b (created, r) = refl
  settle-remote b (response n, r) = refl
  settle-remote b (failed x, r) = refl

  validate_schema-Present :
      (s s' : State S) (u : Unit {0}) → validate_schema q s ≡ (good u, s') → Present q s
  unfolding validate_schema
  validate_schema-Present s s' u h = by_info (q.client.collection s.remote) h
    where
      by_info : (v : Option Vectors) → check_info q v s ≡ (good u, s') → is_some v ≡ true
      by_info none e = absurd (cc)
      by_info (some v) e = refl

  ensure_collection-good :
      (s s' : State S) (u : Unit {0}) → ensure_collection q s ≡ (good u, s') → Present q s'
  unfolding ensure_collection
  ensure_collection-good s s' u h =
      elim (Bool-cases (s.ready && is_some (q.client.collection s.remote))) [
        | inl known ↦
            let same : ◌≡◌ {A = Try (Unit {0}) × State S} (good tt, s) (good u, s') =
              rw known at h in
            subst (Present q) (ap (λ r. r.1) same) (ground arith)
        | inr unknown ↦
            let run = rw unknown at h in
            let (v, t, made, checked) = and_then-good (create_if_absent q s) _ u s' run in
            let same : t.remote ≡ s'.remote =
              sym (validate_schema-remote q t) ∙ ap (λ r. r.1.remote) checked in
            ap (λ r. is_some (q.client.collection r)) (sym same)
            ∙ validate_schema-Present t s' u checked
      ]

  module _ (view : S → String → Stored N P) (laws : IsClient q.client view) (k : String) where
    create_if_absent-view : (s : State S) → view (create_if_absent q s).1.remote k ≡ view s.remote k
    unfolding create_if_absent
    create_if_absent-view s = elim (Bool-cases (is_some (q.client.collection s.remote))) [
      | inl there ↦ rw there refl
      | inr absent ↦ rw absent (
          ap (λ r. view r k)
            (settle-remote s.ready (q.client.create_collection q.embedding_id _ s.remote))
          ∙ laws.creates q.embedding_id _ s.remote k)
    ]

    ensure_collection-view :
        (s : State S) → view (ensure_collection q s).1.remote k ≡ view s.remote k
    unfolding ensure_collection
    ensure_collection-view s =
        elim (Bool-cases (s.ready && is_some (q.client.collection s.remote))) [
          | inl known ↦ rw known refl
          | inr unknown ↦ rw unknown (
              kept_through (λ t. view t.remote k) (create_if_absent q s) (λ _. validate_schema q)
                (λ a t. ap (λ r. view r k) (validate_schema-remote q t))
              ∙ create_if_absent-view s)
        ]

    -- One index: it was there, or it is created.
    ensure_index-kept :
        (schema : List (String × I)) (entry : String × I) (s s' : S)
        → ensure_index q schema entry s ≡ (good tt, s')
        → (view s' k ≡ view s k) × (q.client.collection s' ≡ q.client.collection s)
    ensure_index-kept schema (name, requested) s s' h = by_existing (lookup name schema) refl
      where
        by_existing :
            (found : Option I)
            → lookup name schema ≡ found
            → (view s' k ≡ view s k) × (q.client.collection s' ≡ q.client.collection s)
        by_existing none e =
            let done = ap (λ r. r.1) (rw (e, ensure_index) at h) in
            (
              ap (λ r. view r k) (sym done) ∙ laws.indexes name requested s k,
              ap q.client.collection (sym done) ∙ laws.keeps_index name requested s,
            )
        by_existing (some existing) e =
            let same = (raise_if-good _ _ s s' tt (rw (e, ensure_index) at h)).1 in
            (ap (λ r. view r k) (sym same), ap q.client.collection (sym same))

    pub ensure_payload_indexes-payload :
        (entries : List (String × I)) (s s' : State S)
        → ensure_payload_indexes q entries s ≡ (good tt, s')
        → Present q s' × (payload_at q view s' k ≡ payload_at q view s k)
    unfolding ensure_payload_indexes
    ensure_payload_indexes-payload entries s s' h =
        let (u, t, ensured, rest) = and_then-good (ensure_collection q s) _ tt s' h in
        let there = ensure_collection-good s t u ensured in
        let before = ap (λ r. view r.1.remote k) (sym ensured) ∙ ensure_collection-view s in
        elim (Bool-cases q.client.is_local) [
          | inl embedded ↦
              let same : ◌≡◌ {A = Try (Unit {0}) × State S} (good tt, t) (good tt, s') =
                rw embedded at rest in
              (
                subst (Present q) (ap (λ r. r.1) same) there,
                ap payload_of (ap (λ r. view r.1.remote k) (sym same) ∙ before),
              )
          | inr served ↦
              let run : remotely (for_each (ensure_index q (q.client.schema t.remote)) entries) t
                  ≡ (good tt, s') =
                rw served at rest in
              let kept =
                for_each-kept {B = Stored N P × Option Vectors}
                  (ensure_index q (q.client.schema t.remote))
                  (λ r. (view r k, q.client.collection r))
                  (λ entry r r' e.
                    let both = ensure_index-kept _ entry r r' e in
                    ap₂ (λ a b. (a, b)) both.0 both.1)
                  entries t.remote s'.remote
                  (remotely-good (for_each (ensure_index q (q.client.schema t.remote)) entries) t s'
                    tt run) in
              (ap is_some (ap (λ r. r.1) kept) ∙ there, ap payload_of (ap (λ r. r.0) kept ∙ before))
        ]
