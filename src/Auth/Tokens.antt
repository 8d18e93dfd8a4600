-- ===== src/Auth/Tokens.antt =====
-- user/services.py, user/deps.py and user/token_schemas.py: the tokens that stand for an account. PyJWT with the deployment's key and algorithm, the text of a UUID and
-- SHA-256 are an argument (`Signer`), as are the clock, salts and fresh identifiers.
pub mod Accepted
pub mod Ending
use Prim.Native.String.{slice}
use app_common.Common.{
  ℕ, ◌+◌, ◌*◌, ◌/◌, String, Bool, true, false, not, ◌&&◌, ◌||◌, Option, none, some, List, [], ◌∷◌,
  ◌++◌, ◌≡◌, leb, ◌==◌, str_eq, if◌then◌else◌, find,
}
use app_common.Table.{get, update_where}
use app_common.Auth.Users.{
  User, Result, ok, err, ◌>>=◌, ◌>>◌, refuse_if, require, permission_denied, invalid_credentials,
  user_not_found, is_approved,
}
use app_common.Auth.Access.{user_key}
use app_common.Auth.Passwords.{Hashers, hash, verify, needs_rehash}

pub record AuthSettings : Type 0 where
  pub jwt_issuer : String
  pub jwt_audience : String
  pub jwt_leeway_seconds : ℕ
  pub access_token_expire_minutes : ℕ
  pub refresh_token_expire_days : ℕ
  pub first_user_email : String
  pub first_user_password : String
  pub first_user_sync_password : Bool
  pub registration_require_approval : Bool

-- The payload of a token. Its instants are whole seconds.
pub record Claims : Type 0 where
  pub iss : String
  pub aud : String
  pub sub : String
  pub iat : ℕ
  pub nbf : ℕ
  pub exp : ℕ
  pub jti : ℕ
  pub ver : Option ℕ
  pub typ : String
  pub user_id : Option String
  pub pwd : Option String

-- A token is of a type `T` of its own.
pub record Signer (T : Type 0) : Type 0 where
  pub encode : Claims → T
  pub decode : String → String → ℕ → ℕ → T → Option Claims
  pub uuid_text : ℕ → String
  pub uuid : String → Option ℕ
  pub sha256 : String → String

abbrev pub second : ℕ
second = 1000000

abbrev pub is_open : User → Bool
is_open u = u.is_active && is_approved u

abbrev pub text_or_empty : Option String → String
text_or_empty none = ""
text_or_empty (some t) = t

unfoldable pub password_fingerprint : {T : Type 0} → Signer T → User → String
password_fingerprint g u = slice (g.sha256 (text_or_empty u.hashed_password)) 0 16

-- The payload of a new token.
abbrev pub claims_of :
    {T : Type 0} → Signer T → AuthSettings → ℕ → ℕ → User → String → ℕ → Option String → Claims
claims_of g s now jti u typ lifetime pwd = record {
  iss = s.jwt_issuer;
  aud = s.jwt_audience;
  sub = g.uuid_text u.id;
  iat = now / second;
  nbf = now / second;
  exp = (now + lifetime) / second;
  jti = jti;
  ver = some u.auth_version;
  typ = typ;
  user_id = some (g.uuid_text u.id);
  pwd = pwd;
}

unfoldable pub create_token :
    {T : Type 0} → Signer T → AuthSettings → ℕ → ℕ → User → String → ℕ → Option String → Result T
create_token g s now jti u typ lifetime pwd = do
  refuse_if (not u.is_active || not (is_approved u)) permission_denied
  ok (g.encode (claims_of g s now jti u typ lifetime pwd))

abbrev pub access_lifetime : AuthSettings → ℕ
access_lifetime s = s.access_token_expire_minutes * 60 * second

abbrev pub refresh_lifetime : AuthSettings → ℕ
refresh_lifetime s = s.refresh_token_expire_days * 86400 * second

unfoldable pub create_access_token :
    {T : Type 0} → Signer T → AuthSettings → ℕ → ℕ → User → Result T
unfolding create_token
create_access_token g s now jti u = create_token g s now jti u "access" (access_lifetime s) none

unfoldable pub create_refresh_token :
    {T : Type 0} → Signer T → AuthSettings → ℕ → ℕ → User → Result T
unfolding create_token password_fingerprint
create_refresh_token g s now jti u =
    create_token g s now jti u "refresh" (refresh_lifetime s) (some (password_fingerprint g u))

abbrev pub decoded : {T : Type 0} → Signer T → AuthSettings → ℕ → T → Option Claims
decoded g s now token = g.decode s.jwt_issuer s.jwt_audience s.jwt_leeway_seconds now token

abbrev pub version : Claims → ℕ
version c = elim (c.ver) [ none ↦ 0 | some v ↦ v ]

abbrev pub is_text : String → Option String → Bool
is_text t none = false
is_text t (some u) = str_eq u t

-- The account of a refresh token, if the token is still good for it.
unfoldable pub refreshable : {T : Type 0} → Signer T → Claims → Option User → Option User
unfolding password_fingerprint
refreshable g c none = none
refreshable g c (some u) =
    if not u.is_active
      || not (is_approved u)
      || not (version c == u.auth_version)
      || not (is_text (password_fingerprint g u) c.pwd)
    then none
    else some u

abbrev pub refresh_subject : {T : Type 0} → Signer T → List User → Claims → Option ℕ → Option User
refresh_subject g users c none = none
refresh_subject g users c (some i) = refreshable g c (get user_key i users)

abbrev pub refresh_claims : {T : Type 0} → Signer T → List User → Option Claims → Option User
refresh_claims g users none = none
refresh_claims g users (some c) =
    if not (str_eq c.typ "refresh") then none else refresh_subject g users c (g.uuid c.sub)

unfoldable pub refresh_user :
    {T : Type 0} → Signer T → AuthSettings → ℕ → List User → T → Option User
unfolding refreshable
refresh_user g s now users token = refresh_claims g users (decoded g s now token)

-- What `TokenPayload` makes of the claims: it reads `sub` where there is no `user_id`.
pub record TokenPayload : Type 0 where
  pub ver : ℕ
  pub user_id : Option ℕ
  pub typ : String

abbrev pub named_by : Claims → Option String
named_by c = elim (c.user_id) [
  | some t ↦ some t
  | none ↦ if str_eq c.sub "" then none else some c.sub
]

abbrev payload_with : Claims → Option ℕ → TokenPayload
payload_with c i = record { ver = version c; user_id = i; typ = c.typ }

abbrev pub parsed_payload : {T : Type 0} → Signer T → Claims → Option String → Option TokenPayload
parsed_payload g c none = some (payload_with c none)
parsed_payload g c (some t) = elim (g.uuid t) [
  | none ↦ none
  | some i ↦ some (payload_with c (some i))
]

unfoldable pub get_token_data : {T : Type 0} → Signer T → AuthSettings → ℕ → T → Result TokenPayload
get_token_data g s now token = do
  c ← require (decoded g s now token) invalid_credentials
  payload ← require (parsed_payload g c (named_by c)) invalid_credentials
  refuse_if (not (str_eq payload.typ "access")) invalid_credentials
  ok payload

unfoldable pub get_current_user : List User → TokenPayload → Result User
get_current_user users token = do
  i ← require token.user_id invalid_credentials
  u ← require (get user_key i users) user_not_found
  refuse_if (not u.is_active || not (is_approved u) || not (token.ver == u.auth_version))
      invalid_credentials
  ok u

abbrev pub get_current_superuser : User → Result User
get_current_superuser u = refuse_if (not u.is_superadmin) permission_denied >> ok u

-- The dependencies of a request, one after the other.
unfoldable pub signed_in : {T : Type 0} → Signer T → AuthSettings → ℕ → List User → T → Result User
unfolding get_token_data get_current_user
signed_in g s now users token = do
  payload ← get_token_data g s now token
  get_current_user users payload

-- An instant at which a token is accepted.
abbrev pub is_timely : ℕ → ℕ → Claims → Bool
is_timely leeway now c =
    not (leb ((c.exp + leeway) * second) now)
    && leb (c.nbf * second) (now + leeway * second)
    && leb (c.iat * second) (now + leeway * second)

-- What PyJWT and the UUID library document.
pub record IsSigner {T : Type 0} (g : Signer T) : Type 0 where
  pub decodes :
      (c : Claims) (leeway now : ℕ)
      → g.decode c.iss c.aud leeway now (g.encode c)
        ≡ (if is_timely leeway now c then some c else none)
  pub reads : (i : ℕ) → g.uuid (g.uuid_text i) ≡ some i
