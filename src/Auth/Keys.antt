-- ===== src/Auth/Keys.antt =====
-- api_key/services.py, api_key/repos.py and api_key/models.py: machines and their keys. A text that
-- is looked into is the list of its characters; a scope is its number in the sorted order of the
-- scopes' names. Instants are in UTC, as `utc` makes them. SHA-256 and the hexadecimal form of a
-- UUID are an argument, and so are the fresh identifiers and secrets.
mod Examples
pub mod Issue
pub mod Revocation
use app_common.Common.{
  ℕ, ◌+◌, String, Bool, true, false, not, ◌&&◌, ◌||◌, Option, none, some, List, [], ◌∷◌, ◌++◌, ltb,
  leb, ◌==◌, str_eq, if◌then◌else◌, length, any, all, find,
}
use app_common.Table.{get, update_where}
use app_common.Auth.Users.{
  AuthError, Result, ok, err, ◌>>=◌, ◌>>◌, refuse_if, require, invalid_api_key, bad_request,
  not_found, conflict,
}

abbrev pub Text : Type 0
Text = List ℕ

abbrev pub text_eq : Text → Text → Bool
text_eq [] [] = true
text_eq (c ∷ cs) (d ∷ ds) = c == d && text_eq cs ds
text_eq _ _ = false

pub record Platform : Type 0 where
  pub digest : Text → Text
  pub hex : ℕ → Text
  pub uuid : Text → Option ℕ

pub record Machine : Type 0 where
  pub id : ℕ
  pub name : String
  pub scopes : List ℕ
  pub is_active : Bool

pub record MachineKey : Type 0 where
  pub id : ℕ
  pub machine_id : ℕ
  pub label : String
  pub secret_hash : Text
  pub expires_at : Option ℕ
  pub revoked_at : Option ℕ

pub record Store : Type 0 where
  pub machines : List Machine
  pub keys : List MachineKey

pub record MachinePrincipal : Type 0 where
  pub machine_id : ℕ
  pub key_id : ℕ
  pub name : String
  pub scopes : List ℕ

abbrev pub machine_key : Machine → ℕ
machine_key m = m.id

abbrev pub key_key : MachineKey → ℕ
key_key k = k.id

-- `sorted(set(values))`
abbrev insert_scope : ℕ → List ℕ → List ℕ
insert_scope n [] = n ∷ []
insert_scope n (m ∷ ms) =
    let rest = insert_scope n ms in
    if n == m then m ∷ ms else (if ltb n m then n ∷ m ∷ ms else m ∷ rest)

abbrev pub sorted_set : List ℕ → List ℕ
sorted_set [] = []
sorted_set (n ∷ ns) = insert_scope n (sorted_set ns)

unfoldable pub scopes : List ℕ → List ℕ → Result (List ℕ)
scopes allowed values = do
  refuse_if (not (all (λ v. any (λ a. a == v) allowed) values))
      (bad_request "Unsupported machine scopes")
  ok (sorted_set values)

unfoldable pub machine : ℕ → Store → Result Machine
machine machine_id s =
    require (get machine_key machine_id s.machines) (not_found "Machine not found")

unfoldable pub create : List ℕ → ℕ → String → List ℕ → Store → Result Store
unfolding scopes
create allowed id name values s = do
  refuse_if (any (λ m. str_eq m.name name) s.machines) (conflict "Machine name already exists")
  granted ← scopes allowed values
  ok (record s {
    machines =
        s.machines ++ record { id = id; name = name; scopes = granted; is_active = true } ∷ [];
  })

-- A field that the request leaves out is kept.
abbrev new_scopes : List ℕ → Option (List ℕ) → List ℕ → Result (List ℕ)
new_scopes allowed none old = ok old
new_scopes allowed (some values) old = scopes allowed values

abbrev or_kept : Option Bool → Bool → Bool
or_kept none old = old
or_kept (some new) old = new

unfoldable pub update : List ℕ → ℕ → Option (List ℕ) → Option Bool → Store → Result Store
unfolding machine scopes
update allowed machine_id values is_active s = do
  m ← machine machine_id s
  granted ← new_scopes allowed values m.scopes
  ok (record s {
    machines =
        update_where (λ x. x.id == machine_id)
          (λ x. record x { scopes = granted; is_active = or_kept is_active x.is_active })
          s.machines;
  })

abbrev pub is_past : ℕ → Option ℕ → Bool
is_past now none = false
is_past now (some t) = leb t now

-- `f"ak_{key_id.hex}_{secret}"`
unfoldable pub raw_key : Platform → ℕ → Text → Text
raw_key p key_id secret = 97 ∷ 107 ∷ 95 ∷ p.hex key_id ++ 95 ∷ secret

unfoldable pub new_key : Platform → ℕ → Text → ℕ → String → Option ℕ → MachineKey
unfolding raw_key
new_key p key_id secret machine_id label expires_at = record {
  id = key_id;
  machine_id = machine_id;
  label = label;
  secret_hash = p.digest (raw_key p key_id secret);
  expires_at = expires_at;
  revoked_at = none;
}

-- The answer is the raw key.
unfoldable pub issue :
    Platform → ℕ → Text → ℕ → ℕ → String → Option ℕ → Store → Result (Text × Store)
unfolding machine raw_key new_key
issue p key_id secret now machine_id label expires_at s = do
  m ← machine machine_id s
  refuse_if (not m.is_active) (bad_request "Activate the machine before issuing a key")
  refuse_if (is_past now expires_at) (bad_request "Expiry must be in the future")
  ok (
    raw_key p key_id secret,
    record s { keys = s.keys ++ new_key p key_id secret machine_id label expires_at ∷ [] },
  )

-- A key that is revoked already keeps its instant.
unfoldable pub revoked : ℕ → MachineKey → MachineKey
revoked now k = record k { revoked_at = some (at k.revoked_at) }
  where
    at : Option ℕ → ℕ
    at none = now
    at (some t) = t

unfoldable pub revoke_key : ℕ → ℕ → ℕ → Store → Option MachineKey → Result (MachineKey × Store)
unfolding revoked
revoke_key now machine_id key_id s found = do
  k ← require found (not_found "API key not found")
  refuse_if (not (k.machine_id == machine_id)) (not_found "API key not found")
  ok (revoked now k, record s { keys = update_where (λ x. x.id == key_id) (revoked now) s.keys })

unfoldable pub revoke : ℕ → ℕ → ℕ → Store → Result (MachineKey × Store)
unfolding revoke_key
revoke now machine_id key_id s = revoke_key now machine_id key_id s (get key_key key_id s.keys)

abbrev pub longer : ℕ → Option (Text × Text) → Option (Text × Text)
longer c none = none
longer c (some (a, b)) = some (c ∷ a, b)

-- What stands before the first underscore and after it: `raw.split("_", 2)` cuts twice.
abbrev pub cut : Text → Option (Text × Text)
cut [] = none
cut (c ∷ cs) = if c == 95 then some ([], cs) else longer c (cut cs)

unfoldable pub parsed : Platform → Text → Result ℕ
parsed p raw = do
  (prefix, rest) ← require (cut raw) invalid_api_key
  (identifier, secret) ← require (cut rest) invalid_api_key
  refuse_if (not (text_eq prefix (97 ∷ 107 ∷ [])) || ltb (length secret) 32 || ltb 256 (length raw))
      invalid_api_key
  require (p.uuid identifier) invalid_api_key

abbrev pub is_set : Option ℕ → Bool
is_set none = false
is_set (some t) = true

unfoldable pub authenticate : Platform → ℕ → Text → Store → Result MachinePrincipal
unfolding parsed
authenticate p now raw s = do
  key_id ← parsed p raw
  k ← require (get key_key key_id s.keys) invalid_api_key
  refuse_if (not (text_eq k.secret_hash (p.digest raw))) invalid_api_key
  refuse_if (is_set k.revoked_at || is_past now k.expires_at) invalid_api_key
  m ← require (get machine_key k.machine_id s.machines) invalid_api_key
  refuse_if (not m.is_active) invalid_api_key
  ok (record { machine_id = m.id; key_id = k.id; name = m.name; scopes = m.scopes })
