-- ===== src/Auth/Google/Examples.antt =====
-- Tests of tokens and of sign-ins, and their theorems at concrete inputs.
use Prim.Native.String
use Prim.Native.String.{len}
use text.Mathlib.TextPositions.{len-append}
use app_common.Common.{
  ℕ, zero, suc, ◌≡◌, ◌⊎◌, inl, inr, Bool-cases, refl, ap, ◌∙◌, String, true, false, none, some,
  List, [], ◌∷◌, arith, ltb, str_eq, if◌then◌else◌,
}
use app_common.Table.{get}
use app_common.Auth.Users.{User, is_approved, ok, err, invalid_credentials}
use app_common.Auth.Access.{UserAccessChange, Accounts, suspend, change, user_key}
use app_common.Auth.Passwords.{Hashers, IsHashers, verify, needs_rehash}
use app_common.Auth.Tokens.{
  AuthSettings, Claims, Signer, IsSigner, is_timely, create_access_token, create_refresh_token,
  refresh_user, signed_in, claims_of, access_lifetime, refresh_lifetime, password_fingerprint,
}
use app_common.Auth.Tokens.Accepted.{unchanged, expiry, refresh_user-create_refresh_token}
use app_common.Auth.Tokens.Ending.{change_ends_tokens}
use app_common.Auth.Google.{GoogleStore, Google, begin}
use app_common.Auth.Google.Callback.{Visit, callback}
use app_common.Auth.Google.Finish.{GoogleLoginResult, finish}
use app_common.Auth.Google.Flows.{Absent}
use app_common.Auth.Google.Once.{finishing, steps, state_once}
use app_common.Auth.Google.Finishing.{Answers, finish-Answers}
use app_common.Auth.Login.{authenticate}
use app_common.Auth.Login.Again.{authenticate_again}

-- A UUID is written in unary, a digest is the text, and a token is its claims.
abbrev unary : ℕ → String
unary zero = ""
unary (suc n) = Prim.Native.String.◌++◌ "1" (unary n)

len-unary : (n : ℕ) → len (unary n) ≡ n
len-unary zero = refl
len-unary (suc n) = len-append "1" (unary n) ∙ omega (arith, len-unary n)

abbrev plain : Signer Claims
plain = record {
  encode = λ c. c;
  decode = λ iss aud leeway now c. if is_timely leeway now c then some c else none;
  uuid_text = unary;
  uuid = λ t. some (len t);
  sha256 = λ t. t;
}

plain-IsSigner : IsSigner plain
plain-IsSigner = record { decodes = λ c leeway now. refl; reads = λ i. ap some (len-unary i) }

abbrev site : AuthSettings
site = record {
  jwt_issuer = "app-base";
  jwt_audience = "app-base";
  jwt_leeway_seconds = 10;
  access_token_expire_minutes = 10;
  refresh_token_expire_days = 14;
  first_user_email = "admin@example.com";
  first_user_password = "secret";
  first_user_sync_password = false;
  registration_require_approval = false;
}

abbrev account : ℕ → String → User
account i email = record {
  id = i;
  email = email;
  hashed_password = some "$argon2id$1";
  approval_status = "approved";
  auth_version = 0;
  is_active = true;
  is_verified = true;
  is_superadmin = false;
  updated_at = 0;
}

abbrev admin : User
admin = record (account 1 "admin@example.com") { is_superadmin = true }

abbrev members : List User
members = admin ∷ account 2 "eve@example.com" ∷ []

abbrev access_of : User → Claims
access_of u = claims_of plain site 1000000 7 u "access" (access_lifetime site) none

abbrev refresh_of : User → Claims
refresh_of u =
    claims_of plain site 1000000 7 u "refresh" (refresh_lifetime site)
      (some (password_fingerprint plain u))

access_made :
    create_access_token plain site 1000000 7 (account 2 "eve@example.com")
    ≡ ok (access_of (account 2 "eve@example.com"))
unfolding create_access_token
access_made = refl

refresh_made :
    create_refresh_token plain site 1000000 7 (account 2 "eve@example.com")
    ≡ ok (refresh_of (account 2 "eve@example.com"))
unfolding create_refresh_token
refresh_made = refl

signed_in_test :
    signed_in plain site 2000000 members (access_of (account 2 "eve@example.com"))
    ≡ ok (account 2 "eve@example.com")
unfolding signed_in
signed_in_test = refl

expired_test :
    signed_in plain site 700000000 members (access_of (account 2 "eve@example.com"))
    ≡ err invalid_credentials
unfolding signed_in
expired_test = refl

abbrev eve : User
eve = account 2 "eve@example.com"

refresh_user-create_refresh_token_example :
    refresh_user plain site 2000000 members (refresh_of eve) ≡ (
      if ltb 2000000 (expiry site 1000000 (refresh_lifetime site))
      then unchanged plain eve (get user_key 2 members)
      else none)
refresh_user-create_refresh_token_example =
    refresh_user-create_refresh_token plain plain-IsSigner site 1000000 2000000 7 eve members
      (refresh_of eve) (omega arith) refresh_made

abbrev suspension : UserAccessChange
suspension = record { action = suspend; expected_version = 0; reason = none }

abbrev before : Accounts
before = record { users = members; events = [] }

suspended :
    (change "admin@example.com" 2 suspension 1 5 before).0
    ≡ ok (record eve { is_active = false; auth_version = 1; updated_at = 5 })
unfolding change
suspended = refl

change_ends_tokens_example :
    (refresh_user plain site 2000000
        (change "admin@example.com" 2 suspension 1 5 before).1.users
        (refresh_of eve)
      ≡ none)
    × (signed_in plain site 2000000
          (change "admin@example.com" 2 suspension 1 5 before).1.users
          (access_of eve)
        ≡ err invalid_credentials)
change_ends_tokens_example =
    change_ends_tokens plain plain-IsSigner site "admin@example.com" suspension 1 5 before eve
      (record eve { is_active = false; auth_version = 1; updated_at = 5 }) 1000000 2000000 7
      (access_of eve) (refresh_of eve) suspended (omega arith) (omega arith) access_made
      refresh_made

-- Argon2 with two hashes, one of "pw" and one of all else, and bcrypt hashes that anything passes.
abbrev digest : String → String
digest t = if str_eq t "pw" then "$argon2id$pw" else "$argon2id$else"

abbrev scheme : Hashers
scheme = record {
  encode = λ t. [];
  argon2_hash = λ salt t. digest t;
  argon2_verify = λ h t. some (str_eq h (digest t));
  check_needs_rehash = λ h. some false;
  checkpw = λ t h. some true;
}

digest-cases : (t : String) → (digest t ≡ "$argon2id$pw") ⊎ (digest t ≡ "$argon2id$else")
digest-cases t = elim (Bool-cases (str_eq t "pw")) [
  | inl e ↦ inl (rw e refl)
  | inr e ↦ inr (rw e refl)
]

scheme-IsHashers : IsHashers scheme
scheme-IsHashers = record {
  is_argon2 = λ salt t. elim (digest-cases t) [ inl e ↦ rw e refl | inr e ↦ rw e refl ];
  verifies = λ salt t. elim (digest-cases t) [ inl e ↦ rw e refl | inr e ↦ rw e refl ];
  is_current = λ salt t. refl;
}

abbrev old_member : User
old_member = record eve { hashed_password = some "$2b$old" }

sign_in_test : authenticate scheme 3 "eve@example.com" "pw" (old_member ∷ []) ≡ (
  some (record eve { hashed_password = some "$argon2id$pw" }),
  record eve { hashed_password = some "$argon2id$pw" } ∷ [],
)
unfolding authenticate
sign_in_test = refl

authenticate_again_example :
    (true ≡ true)
    × (is_approved (record eve { hashed_password = some "$argon2id$pw" }) ≡ true)
    × ((stored : String) × (some "$argon2id$pw" ≡ some stored)
        × (verify scheme "pw" stored ≡ true)
        × (needs_rehash scheme stored ≡ false))
    × (authenticate scheme 4 "eve@example.com" "pw"
          (record eve { hashed_password = some "$argon2id$pw" } ∷ [])
        ≡ (
          some (record eve { hashed_password = some "$argon2id$pw" }),
          record eve { hashed_password = some "$argon2id$pw" } ∷ [],
        ))
authenticate_again_example =
    authenticate_again scheme scheme-IsHashers 3 4 "eve@example.com" "pw" (old_member ∷ [])
      (record eve { hashed_password = some "$argon2id$pw" } ∷ [])
      (record eve { hashed_password = some "$argon2id$pw" }) sign_in_test

abbrev google : Google
google = record {
  casefold = λ t. t;
  lower = λ t. t;
  sql_lower = λ t. t;
  challenge = λ t. t;
  email_str = λ t. if str_eq t "" then none else some t;
  urlencode = λ fields. "";
  client_id = "client";
  redirect_uri = "https://example.com/callback";
  response_mode = "query";
}

abbrev nobody : GoogleStore
nobody = record { users = members; identities = []; flows = [] }

abbrev started : GoogleStore
started = (begin plain google 0 "state" "browser" "nonce" "verifier" nobody).1

-- Google confirms Zoe, if it is asked for the flow's verifier and nonce.
abbrev visit : Visit
visit = record {
  at = 1000000;
  answer = λ verifier nonce. ok (record {
    sub = "zoe";
    email = "zoe@example.com";
    nonce = nonce;
    azp = none;
    email_verified = str_eq verifier "verifier";
  });
  between = λ s. s;
  others = λ s. s;
  id = 3;
  exchange = "exchange";
  stored_at = 2000000;
}

abbrev zoe : User
zoe = record (account 3 "zoe@example.com") { hashed_password = none; updated_at = 2000000 }

abbrev handed_over : GoogleStore
handed_over = (callback plain google site "state" "browser" visit started).1

abbrev finished_over : GoogleStore
finished_over = steps plain google site (finishing 3000000 8 "exchange" ∷ []) handed_over

state_once_example :
    (callback plain google site "state" "other" visit finished_over).0 ≡ err invalid_credentials
unfolding callback begin
state_once_example =
    state_once plain google site "state" "browser" "other" visit visit
      (finishing 3000000 8 "exchange" ∷ []) started
      (record {
        key = "state";
        browser_hash = "browser";
        nonce = some "nonce";
        verifier = some "verifier";
        user_id = none;
        expires_at = 600000000;
      })
      (tt, tt) refl (refl, λ s h. h, λ s h. h) (tt, tt)

finish-Answers_example :
    (r : GoogleLoginResult Claims) × (after : GoogleStore) × (finish plain site 3000000 8 "exchange"
        handed_over
      ≡ (ok r, after))
    × (after.users ≡ handed_over.users)
    × (after.identities ≡ handed_over.identities)
    × Absent "exchange" after.flows
    × ((moment id : ℕ) → (finish plain site moment id "exchange" after).0 ≡ err invalid_credentials)
    × Answers plain site 3000000 4000000 handed_over.users zoe r
unfolding callback begin finish
finish-Answers_example =
    finish-Answers plain site plain-IsSigner 3000000 4000000 8 "exchange" handed_over zoe
      (omega arith) (tt, tt) refl
