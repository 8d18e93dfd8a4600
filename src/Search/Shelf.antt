-- ===== src/Search/Shelf.antt =====
-- A collection that keeps its points in memory, as a client that the theorems can be tried on.
use app_common.Common.{
  ℕ, String, Bool, true, Option, none, some, List, [], ◌∷◌, map, ◌≡◌, refl, ap, ◌∙◌, sym, arith,
  str_eq, eq_iff, if◌then◌else◌, any, All, Bool-cases, inl, inr,
}
use app_common.Layer.Services.{good}
use app_common.Vector.{lookup, Vectors, named, VectorPoint, PayloadUpdate, Record, created, Client}
use app_common.Vector.Laws.{Stored, payload_of, put, overwrite, remove, applied, IsClient}

abbrev pub Points : Type 0 → Type 0
Points P = List (String × (List ℕ × P))

pub record Shelf (P : Type 0) : Type 0 where
  pub collection : Option Vectors
  pub points : Points P

module _ {P : Type 0} where
  abbrev pub placed : List (VectorPoint ℕ P) → Points P → Points P
  placed [] es = es
  placed (p ∷ ps) es = placed ps ((p.id, (p.vector, p.payload)) ∷ es)

  abbrev updated : PayloadUpdate P → Points P → Points P
  updated u [] = []
  updated u ((id, (v, p)) ∷ es) = (id, (v, if str_eq u.id id then u.payload else p)) ∷ updated u es

  abbrev pub updated_all : List (PayloadUpdate P) → Points P → Points P
  updated_all [] es = es
  updated_all (u ∷ us) es = updated_all us (updated u es)

  abbrev removed : String → Points P → Points P
  removed id [] = []
  removed id ((j, x) ∷ es) = if str_eq id j then removed id es else (j, x) ∷ removed id es

  abbrev pub removed_all : List String → Points P → Points P
  removed_all [] es = es
  removed_all (id ∷ ids) es = removed_all ids (removed id es)

  abbrev pub records : Points P → Points P → List (Record P)
  records all [] = []
  records all ((id, x) ∷ es) =
      record { id = id; payload = payload_of (lookup id all) } ∷ records all es

  abbrev pub view : Shelf P → String → Stored ℕ P
  view s k = lookup k s.points

  abbrev retrieved : String → Option P → Option (Record P)
  retrieved k none = none
  retrieved k (some p) = some (record { id = k; payload = some p })

  abbrev pub shelf_client : {I F : Type 0} → (I → I → Bool) → Client (Shelf P) ℕ P I F
  shelf_client index_matches = record {
    is_local = true;
    collection = λ s. s.collection;
    schema = λ s. [];
    index_matches = index_matches;
    create_collection =
        λ name p s. (created, record s { collection = some (named ((name, p) ∷ [])) });
    create_payload_index = λ name i s. (good tt, s);
    upsert = λ ps s. (good tt, record s { points = placed ps s.points });
    batch_update_points = λ us s. (good tt, record s { points = updated_all us s.points });
    overwrite_payload = λ p ids s. (
      good tt,
      record s { points = updated_all (map (λ id. record { id = id; payload = p }) ids) s.points },
    );
    delete = λ ids s. (good tt, record s { points = removed_all ids s.points });
    query_points = λ v f limit offset s. (good [], s);
    retrieve = λ k s. retrieved k (payload_of (lookup k s.points));
    scroll = λ f n s. records s.points s.points ∷ [];
  }

  lookup-placed :
      (k : String) (ps : List (VectorPoint ℕ P)) (es : Points P)
      → lookup k (placed ps es) ≡ applied (put k) ps (lookup k es)
  lookup-placed k [] es = refl
  lookup-placed k (p ∷ ps) es = lookup-placed k ps ((p.id, (p.vector, p.payload)) ∷ es)

  lookup-updated :
      (k : String) (u : PayloadUpdate P) (es : Points P)
      → lookup k (updated u es) ≡ overwrite k u (lookup k es)
  lookup-updated k u [] = ground arith
  lookup-updated k u ((id, (v, p)) ∷ es) =
      ground (arith, lookup-updated k u es, eq_iff id k, eq_iff u.id id, eq_iff u.id k)

  lookup-updated_all :
      (k : String) (us : List (PayloadUpdate P)) (es : Points P)
      → lookup k (updated_all us es) ≡ applied (overwrite k) us (lookup k es)
  lookup-updated_all k [] es = refl
  lookup-updated_all k (u ∷ us) es =
      lookup-updated_all k us (updated u es) ∙ ap (applied (overwrite k) us) (lookup-updated k u es)

  lookup-removed :
      (k id : String) (es : Points P) → lookup k (removed id es) ≡ remove k id (lookup k es)
  lookup-removed k id [] = ground arith
  lookup-removed k id ((j, x) ∷ es) =
      ground (arith, lookup-removed k id es, eq_iff id j, eq_iff j k, eq_iff id k)

  lookup-removed_all :
      (k : String) (ids : List String) (es : Points P)
      → lookup k (removed_all ids es) ≡ applied (remove k) ids (lookup k es)
  lookup-removed_all k [] es = refl
  lookup-removed_all k (id ∷ ids) es =
      lookup-removed_all k ids (removed id es)
      ∙ ap (applied (remove k) ids) (lookup-removed k id es)

  pub shelf_client-IsClient :
      {I F : Type 0} (index_matches : I → I → Bool)
      → IsClient (shelf_client {I = I} {F = F} index_matches) view
  shelf_client-IsClient index_matches = record {
    upserts = λ ps s s' e k. ap (λ r. view r.1 k) (sym e) ∙ lookup-placed k ps s.points;
    updates = λ us s s' e k. ap (λ r. view r.1 k) (sym e) ∙ lookup-updated_all k us s.points;
    deletes = λ ids s s' e k. ap (λ r. view r.1 k) (sym e) ∙ lookup-removed_all k ids s.points;
    creates = λ name p s k. refl;
    indexes = λ name i s k. refl;
    keeps_index = λ name i s. refl;
    keeps_upsert = λ ps s. refl;
    keeps_update = λ us s. refl;
    keeps_delete = λ ids s. refl;
  }

  pub records_exact :
      (all es : Points P)
      → All (λ (r : Record P). r.payload ≡ payload_of (lookup r.id all)) (records all es)
  records_exact all [] = tt
  records_exact all ((id, x) ∷ es) = (refl, records_exact all es)

  pub records_complete :
      (all es : Points P) (k : String) (p : P)
      → payload_of (lookup k es) ≡ some p
      → any (λ (r : Record P). str_eq r.id k) (records all es) ≡ true
  records_complete all [] k p h = cc
  records_complete all ((id, x) ∷ es) k p h = elim (Bool-cases (str_eq id k)) [
    | inl here ↦ rw here refl
    | inr other ↦ rw other (records_complete all es k p (rw other at h))
  ]
