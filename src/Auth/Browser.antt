-- ===== src/Auth/Browser.antt =====
-- browser/services.py, browser/repos.py and browser/models.py: sessions of browsers. A key and its
-- hash are texts. The digest, the fingerprint of an account's password and the lifetime are an
-- argument; an access token is the account that it is made for. An exception rolls back the
-- transaction, so a refused refresh leaves the table as it was.
pub mod Ending
use mathlib.Core.Option
use app_common.Common.{
  ℕ, ◌+◌, Bool, true, false, not, ◌&&◌, ◌||◌, Option, none, some, List, [], ◌∷◌, ◌++◌, ltb, leb,
  ◌==◌, if◌then◌else◌, filter, find,
}
use app_common.Table.{get, update_where}
use app_common.Auth.Users.{
  User, AuthError, Result, ok, err, ◌>>=◌, ◌>>◌, refuse_if, require, invalid_credentials, is_usable,
}
use app_common.Auth.Access.{user_key}
use app_common.Auth.Keys.{Text, text_eq}

pub record Issuer : Type 0 where
  pub hash : Text → Text
  pub password_fingerprint : User → Text
  pub lifetime : ℕ

pub record BrowserSession : Type 0 where
  pub key_hash : Text
  pub user_id : ℕ
  pub auth_version : ℕ
  pub password_fingerprint : Text
  pub expires_at : ℕ

unfoldable pub is_live : Text → ℕ → BrowserSession → Bool
is_live key_hash now b = text_eq b.key_hash key_hash && ltb now b.expires_at

abbrev pub extended : ℕ → BrowserSession → BrowserSession
extended expires_at b = record b { expires_at = expires_at }

-- The renewed session, as RETURNING gives it, and the table.
unfoldable pub renew :
    Text → ℕ → ℕ → List BrowserSession → Option BrowserSession × List BrowserSession
unfolding is_live
renew key_hash now expires_at sessions = (
  Option.map (extended expires_at) (find (is_live key_hash now) sessions),
  update_where (is_live key_hash now) (extended expires_at) sessions,
)

unfoldable pub end_session : Text → List BrowserSession → List BrowserSession
end_session key_hash sessions = filter (λ b. not (text_eq b.key_hash key_hash)) sessions

unfoldable pub prune : ℕ → List BrowserSession → List BrowserSession
prune now sessions = filter (λ b. not (leb b.expires_at now)) sessions

unfoldable pub session_of : Issuer → ℕ → Text → User → BrowserSession
session_of p now key user = record {
  key_hash = p.hash key;
  user_id = user.id;
  auth_version = user.auth_version;
  password_fingerprint = p.password_fingerprint user;
  expires_at = now + p.lifetime;
}

-- `user` is what `refresh_user` makes of the refresh token, and `key` is fresh.
unfoldable pub begin :
    Issuer
    → ℕ
    → Text
    → Text
    → Option User
    → List BrowserSession
    → Result (Text × List BrowserSession)
unfolding end_session prune session_of
begin p now key previous user sessions = do
  u ← require user invalid_credentials
  ok (key, end_session (p.hash previous) (prune now sessions) ++ session_of p now key u ∷ [])

-- The account of a session, if it may go on.
unfoldable pub admitted : Issuer → BrowserSession → Option User → Result User
admitted p held none = err invalid_credentials
admitted p held (some user) =
    if not (is_usable user)
      || not (held.auth_version == user.auth_version)
      || not (text_eq held.password_fingerprint (p.password_fingerprint user))
    then err invalid_credentials
    else ok user

unfoldable pub user_of : Issuer → List User → Option BrowserSession → Result User
unfolding admitted
user_of p users none = err invalid_credentials
user_of p users (some held) = admitted p held (get user_key held.user_id users)

unfoldable pub refresh :
    Issuer → ℕ → Text → List User → List BrowserSession → Result (User × List BrowserSession)
unfolding renew user_of
refresh p now key users sessions = do
  let (held, after) = renew (p.hash key) now (now + p.lifetime) sessions
  user ← user_of p users held
  ok (user, after)
