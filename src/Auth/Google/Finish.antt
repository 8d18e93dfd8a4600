-- ===== src/Auth/Google/Finish.antt =====
-- google/usecases.py: `finish`, which trades the one-time exchange for tokens.
use app_common.Common.{ℕ, ◌+◌, ◌*◌, String, Option, none, some, List, str_eq, if◌then◌else◌}
use app_common.Table.{get}
use app_common.Auth.Users.{User, Result, ok, err, ◌>>=◌, invalid_credentials}
use app_common.Auth.Access.{user_key}
use app_common.Auth.Tokens.{AuthSettings, Signer, create_access_token, create_refresh_token}
use app_common.Auth.Google.{GoogleLoginFlow, GoogleStore, consume}

pub record Token (T : Type 0) : Type 0 where
  pub access_token : T
  pub refresh_token : T
  pub expires_in : ℕ

pub record GoogleLoginResult (T : Type 0) : Type 0 where
  pub status : String
  pub email : String
  pub tokens : Option (Token T)

module _ {T : Type 0} (g : Signer T) (settings : AuthSettings) where
  abbrev pub user_at : List User → Option ℕ → Option User
  user_at users none = none
  user_at users (some i) = get user_key i users

  abbrev pub flow_user : List User → Option GoogleLoginFlow → Option User
  flow_user users none = none
  flow_user users (some f) = user_at users f.user_id

  unfoldable pub tokens_for : ℕ → ℕ → User → Result (Token T)
  tokens_for now jti u = do
    access ← create_access_token g settings now jti u
    refresh ← create_refresh_token g settings now (jti + 1) u
    ok (record {
      access_token = access;
      refresh_token = refresh;
      expires_in = settings.access_token_expire_minutes * 60;
    })

  abbrev pub status_of : User → String
  status_of u = if u.is_active then u.approval_status else "suspended"

  abbrev pub with_tokens : User → Option (Token T) → GoogleLoginResult T
  with_tokens u t = record { status = status_of u; email = u.email; tokens = t }

  abbrev pub traded :
      GoogleStore
      → GoogleStore
      → User
      → Result (Token T)
      → Result (GoogleLoginResult T) × GoogleStore
  traded s done u (err e) = (err e, s)
  traded s done u (ok t) = (ok (with_tokens u (some t)), done)

  -- `done` is the store without the exchange. A refusal rolls back to `s`, where it still is.
  abbrev pub finished :
      ℕ → ℕ → GoogleStore → GoogleStore → Option User → Result (GoogleLoginResult T) × GoogleStore
  finished now jti s done none = (err invalid_credentials, s)
  finished now jti s done (some u) =
      if str_eq (status_of u) "approved"
      then traded s done u (tokens_for now jti u)
      else (ok (with_tokens u none), done)

  unfoldable pub finish : ℕ → ℕ → String → GoogleStore → Result (GoogleLoginResult T) × GoogleStore
  unfolding consume tokens_for
  finish now jti exchange s =
      let taken = consume (g.sha256 exchange) (g.sha256 exchange) now s.flows in
      finished now jti s (record s { flows = taken.1 }) (flow_user s.users taken.0)
