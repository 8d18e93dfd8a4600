-- ===== src/Vector/Laws.antt =====
-- store.py: what a successful call of the store does to the points that are in the collection.
pub mod Effects
pub mod Store
pub mod Payloads
pub mod Indexes
use app_common.Common.{
  ℕ, ◌<◌, String, Bool, true, false, Option, none, some, List, [], ◌∷◌, ◌++◌, ◌≡◌, refl, ap, ◌∙◌,
  sym, str_eq, if◌then◌else◌, concat,
}
use app_common.Layer.Services.{Try, good, bad, and_then}
use app_common.Vector.{Run, for_each, is_some, VectorParams, VectorPoint, PayloadUpdate, Client}

-- The point under an id: its vector and its payload.
abbrev pub Stored : Type 0 → Type 0 → Type 0
Stored N P = Option (List N × P)

module _ {N P : Type 0} where
  -- What one item of a call does to the point under `k`.
  abbrev pub put : String → VectorPoint N P → Stored N P → Stored N P
  put k p before = if str_eq p.id k then some (p.vector, p.payload) else before

  abbrev pub overwritten : P → Stored N P → Stored N P
  overwritten payload none = none
  overwritten payload (some (vector, _)) = some (vector, payload)

  abbrev pub overwrite : String → PayloadUpdate P → Stored N P → Stored N P
  overwrite k u before = if str_eq u.id k then overwritten u.payload before else before

  abbrev pub remove : String → String → Stored N P → Stored N P
  remove k id before = if str_eq id k then none else before

abbrev pub payload_of : {N P : Type 0} → Stored N P → Option P
payload_of none = none
payload_of (some (_, payload)) = some payload

abbrev pub applied : {X B : Type 0} → (X → B → B) → List X → B → B
applied step [] b = b
applied step (x ∷ xs) b = applied step xs (step x b)

-- What Qdrant documents of its calls, for a view of the points: a call that does not raise acts on
-- the points that it names and on no other, an update never creates a point, and no call removes the
-- collection. What is seen of the points is the same when a collection or an index is created.
pub record IsClient {S N P I F : Type 0} (c : Client S N P I F) (view : S → String → Stored N P)
    : Type 0 where
  pub upserts :
      (ps : List (VectorPoint N P)) (s s' : S)
      → c.upsert ps s ≡ (good tt, s')
      → (k : String) → view s' k ≡ applied (put k) ps (view s k)
  pub updates :
      (us : List (PayloadUpdate P)) (s s' : S)
      → c.batch_update_points us s ≡ (good tt, s')
      → (k : String) → view s' k ≡ applied (overwrite k) us (view s k)
  pub deletes :
      (ids : List String) (s s' : S)
      → c.delete ids s ≡ (good tt, s')
      → (k : String) → view s' k ≡ applied (remove k) ids (view s k)
  pub creates :
      (name : String) (p : VectorParams) (s : S) (k : String)
      → view (c.create_collection name p s).1 k ≡ view s k
  pub indexes :
      (name : String) (i : I) (s : S) (k : String)
      → view (c.create_payload_index name i s).1 k ≡ view s k
  pub keeps_index :
      (name : String) (i : I) (s : S)
      → c.collection (c.create_payload_index name i s).1 ≡ c.collection s
  pub keeps_upsert :
      (ps : List (VectorPoint N P)) (s : S) → c.collection (c.upsert ps s).1 ≡ c.collection s
  pub keeps_update :
      (us : List (PayloadUpdate P)) (s : S)
      → c.collection (c.batch_update_points us s).1 ≡ c.collection s
  pub keeps_delete : (ids : List String) (s : S) → c.collection (c.delete ids s).1 ≡ c.collection s

-- A chain that ends well had a first step that ended well.
pub and_then-good :
    {A B S : Type 0} (r : Try A × S) (f : A → S → Try B × S) (b : B) (s' : S)
    → and_then r f ≡ (good b, s')
    → (a : A) × (s : S) × (r ≡ (good a, s)) × (f a s ≡ (good b, s'))
and_then-good (good a, s) f b s' h = (a, s, refl, h)
and_then-good (bad x, s) f b s' h = cc

pub applied-append :
    {X B : Type 0} (step : X → B → B) (xs ys : List X) (b : B)
    → applied step (xs ++ ys) b ≡ applied step ys (applied step xs b)
applied-append step [] ys b = refl
applied-append step (x ∷ xs) ys b = applied-append step xs ys (step x b)

pub applied-concat :
    {X B : Type 0} (step : X → B → B) (xss : List (List X)) (b : B)
    → applied (applied step) xss b ≡ applied step (concat xss) b
applied-concat step [] b = refl
applied-concat step (xs ∷ xss) b =
    applied-concat step xss (applied step xs b) ∙ sym (applied-append step xs (concat xss) b)

pub applied-kept : {X B : Type 0} (xs : List X) (b : B) → applied (λ _ c. c) xs b ≡ b
applied-kept [] b = refl
applied-kept (x ∷ xs) b = applied-kept xs b

-- Steps on one view are steps on what it shows.
pub applied-shown :
    {X B C : Type 0} (show : B → C) (step : X → B → B) (shown : X → C → C)
    → ((x : X) (b : B) → show (step x b) ≡ shown x (show b))
    → (xs : List X) (b : B) → show (applied step xs b) ≡ applied shown xs (show b)
applied-shown show step shown each [] b = refl
applied-shown show step shown each (x ∷ xs) b =
    applied-shown show step shown each xs (step x b) ∙ ap (applied shown xs) (each x b)
