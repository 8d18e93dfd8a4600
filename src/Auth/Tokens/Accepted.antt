-- ===== src/Auth/Tokens/Accepted.antt =====
-- Which tokens stand for which account, and until when.
use app_common.Common.{
  ℕ, ◌+◌, ◌*◌, ◌/◌, ◌≤◌, ◌≡◌, refl, ap, sym, ◌∙◌, String, Bool, true, false, ◌&&◌, Option, none,
  some, List, arith, ltb, ◌==◌, str_eq, if◌then◌else◌,
}
use app_common.Table.{get}
use app_common.Auth.Users.{User, Result, ok, err, invalid_credentials, user_not_found}
use app_common.Auth.Access.{user_key}
use app_common.Auth.Tokens.{
  AuthSettings, Claims, Signer, IsSigner, second, is_open, password_fingerprint, claims_of,
  create_token, access_lifetime, refresh_lifetime, create_access_token, create_refresh_token,
  version, refreshable, refresh_claims, refresh_user, get_token_data, get_current_user, signed_in,
  is_timely, decoded,
}

-- The account as it is now, if it may sign in and is what it was when it was given a token.
abbrev pub unchanged : {T : Type 0} → Signer T → User → Option User → Option User
unchanged g u none = none
unchanged g u (some v) =
    if is_open v
      && (u.auth_version == v.auth_version)
      && str_eq (password_fingerprint g u) (password_fingerprint g v)
    then some v
    else none

abbrev pub current : User → Option User → Result User
current u none = err user_not_found
current u (some v) =
    if is_open v && (u.auth_version == v.auth_version) then ok v else err invalid_credentials

-- A token of this lifetime, made at `now`, is accepted before this instant.
abbrev pub expiry : AuthSettings → ℕ → ℕ → ℕ
expiry s now lifetime = ((now + lifetime) / second + s.jwt_leeway_seconds) * second

module _ {T : Type 0} (g : Signer T) (laws : IsSigner g) (s : AuthSettings) where
  created :
      (now jti : ℕ) (u : User) (typ : String) (lifetime : ℕ) (pwd : Option String) (token : T)
      → create_token g s now jti u typ lifetime pwd ≡ ok token
      → g.encode (claims_of g s now jti u typ lifetime pwd) ≡ token
  unfolding create_token
  created now jti u typ lifetime pwd token h = ground (arith, h)

  claims_timely :
      (now later jti : ℕ) (u : User) (typ : String) (lifetime : ℕ) (pwd : Option String)
      → now ≤ later
      → is_timely s.jwt_leeway_seconds later (claims_of g s now jti u typ lifetime pwd)
        ≡ ltb later (expiry s now lifetime)
  claims_timely now later jti u typ lifetime pwd before = ground arith

  pub decoded-created :
      (now later jti : ℕ) (u : User) (typ : String) (lifetime : ℕ) (pwd : Option String) (token : T)
      → now ≤ later
      → create_token g s now jti u typ lifetime pwd ≡ ok token
      → decoded g s later token ≡ (
          if ltb later (expiry s now lifetime)
          then some (claims_of g s now jti u typ lifetime pwd)
          else none)
  decoded-created now later jti u typ lifetime pwd token before h =
      ap (decoded g s later) (sym (created now jti u typ lifetime pwd token h))
      ∙ laws.decodes (claims_of g s now jti u typ lifetime pwd) s.jwt_leeway_seconds later
      ∙ ap (λ b. if b then some (claims_of g s now jti u typ lifetime pwd) else none)
          (claims_timely now later jti u typ lifetime pwd before)

  refreshable-unchanged :
      (c : Claims) (u : User) (o : Option User)
      → c.ver ≡ some u.auth_version
      → c.pwd ≡ some (password_fingerprint g u)
      → refreshable g c o ≡ unchanged g u o
  unfolding refreshable
  refreshable-unchanged c u none same_version same_print = refl
  refreshable-unchanged c u (some v) same_version same_print =
      rw (same_version, same_print) (ground arith)

  refresh_claims-unchanged :
      (now jti : ℕ) (u : User) (users : List User) (b : Bool)
      → refresh_claims g users (
          if b
          then some (
              claims_of g s now jti u "refresh"
                (refresh_lifetime s)
                (some (password_fingerprint g u)))
          else none)
        ≡ (if b then unchanged g u (get user_key u.id users) else none)
  refresh_claims-unchanged now jti u users true = rw (laws.reads u.id) (
      refreshable-unchanged
        (claims_of g s now jti u "refresh" (refresh_lifetime s) (some (password_fingerprint g u))) u
        (get user_key u.id users) refl refl)
  refresh_claims-unchanged now jti u users false = refl

  -- A refresh token that was made for an account gives, until it expires, the account's row of that
  -- moment if it is active and approved, and its version and the fingerprint of its password are those
  -- under which the token was made; otherwise it gives nothing, and so it does once it has expired.
  pub refresh_user-create_refresh_token :
      (now later jti : ℕ) (u : User) (users : List User) (token : T)
      → now ≤ later
      → create_refresh_token g s now jti u ≡ ok token
      → refresh_user g s later users token ≡ (
          if ltb later (expiry s now (refresh_lifetime s))
          then unchanged g u (get user_key u.id users)
          else none)
  unfolding create_refresh_token refresh_user
  refresh_user-create_refresh_token now later jti u users token before h =
      ap (refresh_claims g users) (
        decoded-created now later jti u "refresh" (refresh_lifetime s)
          (some (password_fingerprint g u)) token before h)
      ∙ refresh_claims-unchanged now jti u users (ltb later (expiry s now (refresh_lifetime s)))

  current_user-current :
      (u : User) (o : Option User) (users : List User)
      → get user_key u.id users ≡ o
      → get_current_user users
          (record { ver = u.auth_version; user_id = some u.id; typ = "access" })
        ≡ current u o
  unfolding get_current_user
  current_user-current u none users found = rw found refl
  current_user-current u (some v) users found = rw found (ground arith)

  pub token_data-payload :
      (later : ℕ) (token : T) (c : Claims) (i : ℕ)
      → decoded g s later token ≡ some c
      → c.user_id ≡ some (g.uuid_text i)
      → get_token_data g s later token ≡ (
          if str_eq c.typ "access"
          then ok (record { ver = version c; user_id = some i; typ = c.typ })
          else err invalid_credentials)
  unfolding get_token_data
  token_data-payload later token c i read named = rw (read, named, laws.reads i) (ground arith)

  pub token_data-expired :
      (later : ℕ) (token : T)
      → decoded g s later token ≡ none
      → get_token_data g s later token ≡ err invalid_credentials
  unfolding get_token_data
  token_data-expired later token read = rw read refl

  signed_in-created :
      (later : ℕ) (u : User) (users : List User) (token : T) (c : Claims) (b : Bool)
      → c.typ ≡ "access"
      → c.ver ≡ some u.auth_version
      → c.user_id ≡ some (g.uuid_text u.id)
      → decoded g s later token ≡ (if b then some c else none)
      → signed_in g s later users token
        ≡ (if b then current u (get user_key u.id users) else err invalid_credentials)
  unfolding signed_in
  signed_in-created later u users token c true typ ver named read =
      rw (token_data-payload later token c u.id read named, typ, ver)
        (current_user-current u (get user_key u.id users) users refl)
  signed_in-created later u users token c false typ ver named read =
      rw (token_data-expired later token read) refl

  -- An access token that was made for an account signs in, until it expires, the account's row of that
  -- moment if it is active and approved and its version is that of the token; the account is reported
  -- missing if it is gone, and in every other case, also once the token has expired, the credentials
  -- are refused.
  pub signed_in-create_access_token :
      (now later jti : ℕ) (u : User) (users : List User) (token : T)
      → now ≤ later
      → create_access_token g s now jti u ≡ ok token
      → signed_in g s later users token ≡ (
          if ltb later (expiry s now (access_lifetime s))
          then current u (get user_key u.id users)
          else err invalid_credentials)
  unfolding create_access_token
  signed_in-create_access_token now later jti u users token before h =
      signed_in-created later u users token
        (claims_of g s now jti u "access" (access_lifetime s) none)
        (ltb later (expiry s now (access_lifetime s))) refl refl refl
        (decoded-created now later jti u "access" (access_lifetime s) none token before h)
