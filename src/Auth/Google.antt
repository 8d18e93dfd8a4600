-- ===== src/Auth/Google.antt =====
-- google/services.py, google/usecases.py, google/repos.py, google/models.py and the checks of
-- google/provider.py: signing in with Google. A flow is stored under the hash of a secret, is taken
-- out by the statement that reads it, and ends in a one-time exchange for tokens. What other requests
-- commit meanwhile is an argument, as are the clock and the fresh secrets and identifiers. The HTTP
-- request to Google, with the check of the token's signature, is an argument of `exchange`.
pub mod Callback
pub mod Finish
pub mod Flows
mod Examples
pub mod Once
pub mod Registers
pub mod Accounts
pub mod Finishing
use app_common.Common.{
  ℕ, ◌+◌, ◌*◌, String, Bool, true, false, not, ◌&&◌, ◌||◌, Option, none, some, List, [], ◌∷◌, ◌++◌,
  leb, ltb, str_eq, if◌then◌else◌, find, filter, any,
}
use Prim.Native.String.{count}
use app_common.Table.{get}
use app_common.Auth.Users.{
  require, User, AuthError, Result, ok, err, ◌>>=◌, ◌>>◌, refuse_if, require, invalid_credentials,
  user_already_exists, integrity_error, failure,
}
use app_common.Auth.Access.{user_key}
use app_common.Auth.Tokens.{AuthSettings, Signer, second, create_access_token, create_refresh_token}

pub record GoogleLoginFlow : Type 0 where
  pub key : String
  pub browser_hash : String
  pub nonce : Option String
  pub verifier : Option String
  pub user_id : Option ℕ
  pub expires_at : ℕ

pub record ExternalIdentity : Type 0 where
  pub user_id : ℕ
  pub issuer : String
  pub subject : String

pub record GoogleStore : Type 0 where
  pub users : List User
  pub identities : List ExternalIdentity
  pub flows : List GoogleLoginFlow

pub record GoogleIdentity : Type 0 where
  pub subject : String
  pub email : String

-- The claims of Google's token. `email_verified` is whether the claim is True.
pub record GoogleClaims : Type 0 where
  pub sub : String
  pub email : String
  pub nonce : String
  pub azp : Option String
  pub email_verified : Bool

-- Python's and the database's functions on texts, and the client's settings.
pub record Google : Type 0 where
  pub casefold : String → String
  pub lower : String → String
  pub sql_lower : String → String
  pub challenge : String → String
  -- The address as `EmailStr` normalises it, if it is valid.
  pub email_str : String → Option String
  pub urlencode : List (String × String) → String
  pub client_id : String
  pub redirect_uri : String
  pub response_mode : String

unfoldable pub authorization_url : Google → String → String → String → String
authorization_url o state nonce challenge =
    Prim.Native.String.◌++◌ "https://accounts.google.com/o/oauth2/v2/auth?" (
      o.urlencode (
        ("client_id", o.client_id)
        ∷ ("redirect_uri", o.redirect_uri)
        ∷ ("response_type", "code")
        ∷ ("response_mode", o.response_mode)
        ∷ ("scope", "openid email profile")
        ∷ ("state", state)
        ∷ ("nonce", nonce)
        ∷ ("code_challenge", challenge)
        ∷ ("code_challenge_method", "S256")
        ∷ []))

abbrev or_own : Google → Option String → String
or_own o none = o.client_id
or_own o (some t) = t

-- The identity that the claims tell of, if they answer this flow.
unfoldable pub identity_of : Google → String → GoogleClaims → Result GoogleIdentity
identity_of o nonce c = do
  refuse_if (not (str_eq (or_own o c.azp) o.client_id))
      (failure "Unexpected Google authorized party")
  refuse_if (not (str_eq c.nonce nonce) || not c.email_verified)
      (failure "Google identity verification failed")
  refuse_if (str_eq c.sub "" || ltb 255 (count c.sub)) (failure "Invalid Google subject")
  email ← require (o.email_str c.email) (failure "value is not a valid email address")
  ok (record { subject = c.sub; email = email })

abbrev pub is_consumable : String → String → ℕ → GoogleLoginFlow → Bool
is_consumable key browser_hash now f =
    str_eq f.key key && str_eq f.browser_hash browser_hash && ltb now f.expires_at

-- DELETE … RETURNING
unfoldable pub consume :
    String → String → ℕ → List GoogleLoginFlow → Option GoogleLoginFlow × List GoogleLoginFlow
consume key browser_hash now flows = (
  find (is_consumable key browser_hash now) flows,
  filter (λ f. not (is_consumable key browser_hash now f)) flows,
)

abbrev pub save_flow : GoogleLoginFlow → GoogleStore → GoogleStore
save_flow f s = record s { flows = s.flows ++ f ∷ [] }

unfoldable pub clean_expired : ℕ → List GoogleLoginFlow → List GoogleLoginFlow
clean_expired now flows = filter (λ f. not (leb f.expires_at now)) flows

abbrev pub google_issuer : String
google_issuer = "https://accounts.google.com"

abbrev pub is_subject : String → ExternalIdentity → Bool
is_subject subject i = str_eq i.issuer google_issuer && str_eq i.subject subject

abbrev pub account_of : List User → Option ExternalIdentity → Option User
account_of users none = none
account_of users (some i) = get user_key i.user_id users

unfoldable pub identity_user : String → GoogleStore → Option User
identity_user subject s = account_of s.users (find (is_subject subject) s.identities)

abbrev pub email_user : Google → String → List User → Option User
email_user o email users = find (λ u. str_eq (o.sql_lower u.email) (o.lower email)) users

module _ {T : Type 0} (g : Signer T) (o : Google) where
  unfoldable pub begin :
      ℕ → String → String → String → String → GoogleStore → (String × String) × GoogleStore
  unfolding clean_expired authorization_url
  begin now state browser nonce verifier s = (
    (authorization_url o state nonce (o.challenge verifier), browser),
    save_flow
        (record {
          key = g.sha256 state;
          browser_hash = g.sha256 browser;
          nonce = some nonce;
          verifier = some verifier;
          user_id = none;
          expires_at = now + 600 * second;
        })
        (record s { flows = clean_expired now s.flows }),
  )
