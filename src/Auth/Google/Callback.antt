-- ===== src/Auth/Google/Callback.antt =====
-- google/services.py and google/usecases.py: the registration of an account, and the callback that
-- Google sends the browser to.
use app_common.Common.{
  ℕ, ◌+◌, ◌*◌, String, Bool, true, false, ◌||◌, Option, none, some, List, [], ◌∷◌, ◌++◌, str_eq,
  if◌then◌else◌, any,
}
use app_common.Auth.Users.{
  User, AuthError, Result, ok, err, ◌>>=◌, invalid_credentials, user_already_exists,
  integrity_error,
}
use app_common.Auth.Tokens.{AuthSettings, Signer, second}
use app_common.Auth.Google.{
  GoogleLoginFlow, GoogleStore, GoogleIdentity, GoogleClaims, Google, identity_of, consume,
  save_flow, google_issuer, is_subject, identity_user,
}

-- The account of a new identity.
abbrev pub new_user : AuthSettings → ℕ → ℕ → GoogleIdentity → User
new_user settings id now identity = record {
  id = id;
  email = identity.email;
  hashed_password = none;
  approval_status = if settings.registration_require_approval then "pending" else "approved";
  auth_version = 0;
  is_active = true;
  is_verified = true;
  is_superadmin = false;
  updated_at = now;
}

abbrev pub breaks_unique : User → String → GoogleStore → Bool
breaks_unique u subject s =
    any (λ x. str_eq x.email u.email) s.users || any (is_subject subject) s.identities

-- The two INSERTs under the tables' unique constraints.
unfoldable pub insert_user : User → String → GoogleStore → Result User × GoogleStore
insert_user u subject s = if breaks_unique u subject s then (err integrity_error, s) else (
  ok u,
  record s {
    users = s.users ++ u ∷ [];
    identities =
        s.identities ++ record { user_id = u.id; issuer = google_issuer; subject = subject } ∷ [];
  },
)

module _ (o : Google) where
  abbrev pub is_taken : AuthSettings → GoogleIdentity → List User → Bool
  is_taken settings identity users =
      str_eq (o.casefold identity.email) (o.casefold settings.first_user_email)
      || any (λ u. str_eq (o.sql_lower u.email) (o.lower identity.email)) users

  -- `others` is what other transactions commit between the reads and the INSERTs.
  abbrev pub registered :
      AuthSettings
      → ℕ
      → ℕ
      → GoogleIdentity
      → (GoogleStore → GoogleStore)
      → GoogleStore
      → Option User
      → Result User × GoogleStore
  registered settings id now identity others s (some u) = (ok u, s)
  registered settings id now identity others s none =
      if is_taken settings identity s.users
      then (err user_already_exists, s)
      else insert_user (new_user settings id now identity) identity.subject (others s)

  unfoldable pub register :
      AuthSettings
      → ℕ
      → ℕ
      → GoogleIdentity
      → (GoogleStore → GoogleStore)
      → GoogleStore
      → Result User × GoogleStore
  unfolding identity_user insert_user
  register settings id now identity others s =
      registered settings id now identity others s (identity_user identity.subject s)

module _ {T : Type 0} (g : Signer T) where
  abbrev pub handoff : ℕ → String → User → GoogleStore → GoogleStore
  handoff now exchange u s =
      save_flow
        (record {
          key = g.sha256 exchange;
          browser_hash = g.sha256 exchange;
          nonce = none;
          verifier = none;
          user_id = some u.id;
          expires_at = now + 60 * second;
        })
        s

-- What a callback meets: the instant at which it is served, what Google answers to the code, the
-- verifier and the nonce, what others commit before its second transaction and inside it, the
-- identifier of a new account, and the one-time exchange with the instant at which it is stored.
pub record Visit : Type 0 where
  pub at : ℕ
  pub answer : String → String → Result GoogleClaims
  pub between : GoogleStore → GoogleStore
  pub others : GoogleStore → GoogleStore
  pub id : ℕ
  pub exchange : String
  pub stored_at : ℕ

abbrev pub is_integrity_error : AuthError → Bool
is_integrity_error integrity_error = true
is_integrity_error _ = false

module _ {T : Type 0} (g : Signer T) (o : Google) (settings : AuthSettings) where
  -- The second attempt, after an IntegrityError: only a link by the subject counts.
  abbrev pub retried : Visit → GoogleStore → Option User → Result String × GoogleStore
  retried v s none = (err invalid_credentials, s)
  retried v s (some u) = (ok v.exchange, handoff g v.stored_at v.exchange u s)

  abbrev pub handed :
      Visit → GoogleIdentity → Result User × GoogleStore → Result String × GoogleStore
  handed v identity (ok u, s) = (ok v.exchange, handoff g v.stored_at v.exchange u s)
  handed v identity (err e, s) =
      if is_integrity_error e then retried v s (identity_user identity.subject s) else (err e, s)

  abbrev pub identified : Visit → GoogleStore → Result GoogleIdentity → Result String × GoogleStore
  identified v s (err e) = (err e, s)
  identified v s (ok identity) =
      handed v identity (register o settings v.id v.stored_at identity v.others (v.between s))

  abbrev pub asked : Visit → String → String → Result GoogleIdentity
  asked v verifier nonce = v.answer verifier nonce >>= identity_of o nonce

  -- The flow's nonce and verifier; a flow that holds an exchange has neither.
  abbrev pub asked_with :
      Visit → GoogleStore → Option String → Option String → Result String × GoogleStore
  asked_with v s none verifier = (err invalid_credentials, s)
  asked_with v s (some nonce) none = (err invalid_credentials, s)
  asked_with v s (some nonce) (some verifier) = identified v s (asked v verifier nonce)

  abbrev pub answered : Visit → Option GoogleLoginFlow → GoogleStore → Result String × GoogleStore
  answered v none s = (err invalid_credentials, s)
  answered v (some f) s = asked_with v s f.nonce f.verifier

  -- The flow is consumed in a transaction of its own, whatever comes after it.
  unfoldable pub callback : String → String → Visit → GoogleStore → Result String × GoogleStore
  unfolding consume register identity_of
  callback state browser v s =
      let taken = consume (g.sha256 state) (g.sha256 browser) v.at s.flows in
      answered v taken.0 (record s { flows = taken.1 })
