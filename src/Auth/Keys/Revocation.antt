-- ===== src/Auth/Keys/Revocation.antt =====
-- Whom `authenticate` lets in, and that a revoked key is never let in again.
use app_common.Common.{
  ℕ, ◌≡◌, ◌≢◌, refl, ap, sym, ◌∙◌, inl, inr, String, Bool, true, false, not, ◌||◌, Option, none,
  some, List, [], ◌∷◌, ◌++◌, arith, ◌==◌, Bool-cases,
}
use app_common.Table.{get, holds, update_where, id-get}
use app_common.Auth.Users.{Result, ok, err, bind-ok, require-ok, refuse_if-ok, ok-injective}
use app_common.Auth.Keys.{
  Text, Platform, Machine, MachineKey, Store, MachinePrincipal, machine_key, key_key, text_eq,
  is_past, is_set, parsed, raw_key, new_key, revoke_key, machine, scopes, authenticate, create,
  update, issue, revoke, revoked,
}

-- What a successful authentication says of the stores: the key that the text names has the hash of the
-- text, is neither revoked nor expired, and belongs to an active machine, whose name and scopes are
-- the answer.
pub record Authentic (p : Platform) (now : ℕ) (raw : Text) (s : Store) (pr : MachinePrincipal)
    : Type 0 where
  pub key : MachineKey
  pub owner : Machine
  pub named : parsed p raw ≡ ok key.id
  pub key_found : get key_key key.id s.keys ≡ some key
  pub hash : not (text_eq key.secret_hash (p.digest raw)) ≡ false
  pub live : (is_set key.revoked_at || is_past now key.expires_at) ≡ false
  pub owner_found : get machine_key key.machine_id s.machines ≡ some owner
  pub active : not owner.is_active ≡ false
  pub answer :
      record { machine_id = owner.id; key_id = key.id; name = owner.name; scopes = owner.scopes }
      ≡ pr

-- The guards that a successful authentication has passed.
authenticate-Authentic :
    (p : Platform) (now : ℕ) (raw : Text) (s : Store) (pr : MachinePrincipal)
    → authenticate p now raw s ≡ ok pr
    → Authentic p now raw s pr
unfolding authenticate
authenticate-Authentic p now raw s pr h =
    let (key_id, h1, r1) = bind-ok _ _ _ h in
    let (k, h2, r2) = bind-ok _ _ _ r1 in
    let (t3, h3, r3) = bind-ok _ _ _ r2 in
    let (t4, h4, r4) = bind-ok _ _ _ r3 in
    let (m, h5, r5) = bind-ok _ _ _ r4 in
    let (t6, h6, r6) = bind-ok _ _ _ r5 in
    let found = require-ok (get key_key key_id s.keys) _ k h2 in
    let same : key_id ≡ k.id = sym (id-get key_key key_id s.keys k found) in
    record {
      key = k;
      owner = m;
      named = h1 ∙ ap ok same;
      key_found = ap (λ i. get key_key i s.keys) (sym same) ∙ found;
      hash = refuse_if-ok _ _ _ h3;
      live = refuse_if-ok _ _ _ h4;
      owner_found = require-ok _ _ _ h5;
      active = refuse_if-ok _ _ _ h6;
      answer = ok-injective r6;
    }

-- The operations that change the stores.
pub data Op : Type 0 where
  creating : List ℕ → ℕ → String → List ℕ → Op
  updating : List ℕ → ℕ → Option (List ℕ) → Option Bool → Op
  issuing : Platform → ℕ → Text → ℕ → ℕ → String → Option ℕ → Op
  revoking : ℕ → ℕ → ℕ → Op

abbrev store_of : Store → Result Store → Store
store_of s (ok s') = s'
store_of s (err e) = s

abbrev store_after {ℓ} : {A : Type ℓ} → Store → Result (A × Store) → Store
store_after s (ok (a, s')) = s'
store_after s (err e) = s

unfoldable pub apply : Op → Store → Store
unfolding create update issue revoke
apply (creating allowed id name values) s = store_of s (create allowed id name values s)
apply (updating allowed id values is_active) s = store_of s (update allowed id values is_active s)
apply (issuing p key_id secret now machine_id label expires_at) s =
    store_after s (issue p key_id secret now machine_id label expires_at s)
apply (revoking now machine_id key_id) s = store_after s (revoke now machine_id key_id s)

unfoldable pub run : List Op → Store → Store
unfolding apply
run [] s = s
run (o ∷ os) s = run os (apply o s)

-- The key of identifier `i` is there and revoked.
abbrev is_revoked : ℕ → Store → Bool
is_revoked i s = holds (λ k. is_set k.revoked_at) (get key_key i s.keys)

holds-append :
    (q : MachineKey → Bool) (i : ℕ) (xs ys : List MachineKey)
    → holds q (get key_key i xs) ≡ true
    → holds q (get key_key i (xs ++ ys)) ≡ true
holds-append q i [] ys h = cc
holds-append q i (x ∷ xs) ys h = ground (arith, holds-append q i xs ys, h)

holds-update_where :
    (q hit : MachineKey → Bool) (f : MachineKey → MachineKey)
    → ((k : MachineKey) → key_key (f k) ≡ key_key k)
    → ((k : MachineKey) → q (f k) ≡ true)
    → (i : ℕ) (xs : List MachineKey) → holds q (get key_key i xs) ≡ true
    → holds q (get key_key i (update_where hit f xs)) ≡ true
holds-update_where q hit f keep good i [] h = cc
holds-update_where q hit f keep good i (x ∷ xs) h =
    ground (arith, holds-update_where q hit f keep good i xs, h, keep x, good x)

create-keys :
    (allowed : List ℕ) (id : ℕ) (name : String) (values : List ℕ) (s : Store)
    → (store_of s (create allowed id name values s)).keys ≡ s.keys
unfolding create scopes
create-keys allowed id name values s = ground arith

update-keys :
    (allowed : List ℕ) (id : ℕ) (values : Option (List ℕ)) (is_active : Option Bool) (s : Store)
    → (store_of s (update allowed id values is_active s)).keys ≡ s.keys
unfolding update machine scopes
update-keys allowed id values is_active s = ground arith

issue-revoked :
    (i : ℕ) (p : Platform) (key_id : ℕ) (secret : Text) (now machine_id : ℕ) (label : String)
    (expires_at : Option ℕ) (s : Store)
    → is_revoked i s ≡ true
    → is_revoked i (store_after s (issue p key_id secret now machine_id label expires_at s)) ≡ true
unfolding issue machine raw_key
issue-revoked i p key_id secret now machine_id label expires_at s h = ground (
  arith,
  h,
  holds-append (λ k. is_set k.revoked_at) i s.keys
      (new_key p key_id secret machine_id label expires_at ∷ []) h,
)

revoke-revoked :
    (i now machine_id key_id : ℕ) (s : Store)
    → is_revoked i s ≡ true
    → is_revoked i (store_after s (revoke now machine_id key_id s)) ≡ true
unfolding revoke revoke_key revoked
revoke-revoked i now machine_id key_id s h = ground (
  arith,
  h,
  holds-update_where (λ k. is_set k.revoked_at) (λ x. x.id == key_id) (revoked now) (λ x. refl)
      (λ x. refl) i s.keys h,
)

run-revoked :
    (i : ℕ) (os : List Op) (s : Store) → is_revoked i s ≡ true → is_revoked i (run os s) ≡ true
unfolding run apply
run-revoked i [] s h = h
run-revoked i (creating allowed id name values ∷ os) s h = run-revoked i os _ (
    ap (λ ks. holds (λ k. is_set k.revoked_at) (get key_key i ks))
      (create-keys allowed id name values s)
    ∙ h)
run-revoked i (updating allowed id values is_active ∷ os) s h = run-revoked i os _ (
    ap (λ ks. holds (λ k. is_set k.revoked_at) (get key_key i ks))
      (update-keys allowed id values is_active s)
    ∙ h)
run-revoked i (issuing p key_id secret now machine_id label expires_at ∷ os) s h =
    run-revoked i os _ (issue-revoked i p key_id secret now machine_id label expires_at s h)
run-revoked i (revoking now machine_id key_id ∷ os) s h =
    run-revoked i os _ (revoke-revoked i now machine_id key_id s h)

found-revoked :
    (now i : ℕ) (xs : List MachineKey) (k : MachineKey)
    → get key_key i xs ≡ some k
    → holds
        (λ x. is_set x.revoked_at)
        (get key_key i (update_where (λ x. x.id == i) (revoked now) xs))
      ≡ true
unfolding revoked
found-revoked now i [] k h = cc
found-revoked now i (x ∷ xs) k h = ground (arith, found-revoked now i xs k, h)

revoke-is_revoked :
    (now machine_id key_id : ℕ) (s s' : Store) (key : MachineKey)
    → revoke now machine_id key_id s ≡ ok (key, s')
    → is_revoked key_id s' ≡ true
unfolding revoke revoke_key
revoke-is_revoked now machine_id key_id s s' key h = found (get key_key key_id s.keys) refl h
  where
    found :
        (o : Option MachineKey)
        → get key_key key_id s.keys ≡ o
        → revoke_key now machine_id key_id s o ≡ ok (key, s')
        → is_revoked key_id s' ≡ true
    found none e r = cc
    found (some k) e r = elim (Bool-cases (k.machine_id == machine_id)) [
      | inl mine ↦
          let pair : revoke_key now machine_id key_id s (some k)
              ≡ ok (
                revoked now k,
                record s { keys = update_where (λ x. x.id == key_id) (revoked now) s.keys },
              ) =
            rw mine refl in
          ap (λ x. holds (λ y. is_set y.revoked_at) (get key_key key_id x.1.keys))
            (sym (ok-injective (sym pair ∙ r)))
          ∙ found-revoked now key_id s.keys k e
      | inr other ↦ ground (arith, r, other)
    ]

-- Once a key is revoked, no text authenticates as that key, at any instant and after any further
-- creations, updates, issues and revocations, a second revocation of it included.
pub revoked_forever :
    (now machine_id key_id : ℕ) (s s' : Store) (key : MachineKey) (os : List Op) (p : Platform)
    (later : ℕ) (raw : Text) (pr : MachinePrincipal)
    → revoke now machine_id key_id s ≡ ok (key, s')
    → authenticate p later raw (run os s') ≡ ok pr
    → pr.key_id ≢ key_id
revoked_forever now machine_id key_id s s' key os p later raw pr h a same =
    let who = authenticate-Authentic p later raw (run os s') pr a in
    let dead = run-revoked key_id os s' (revoke-is_revoked now machine_id key_id s s' key h) in
    let same' : who.key.id ≡ key_id = ap (λ x. x.key_id) who.answer ∙ same in
    let found : get key_key key_id (run os s').keys ≡ some who.key =
      ap (λ i. get key_key i (run os s').keys) (sym same') ∙ who.key_found in
    let set : is_set who.key.revoked_at ≡ true =
      sym (ap (holds (λ y. is_set y.revoked_at)) found) ∙ dead in
    let bad : true ≡ false = ground (arith, set, who.live) in cc
