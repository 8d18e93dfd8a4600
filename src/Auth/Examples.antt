-- ===== src/Auth/Examples.antt =====
-- Tests of the accounts and of the sign-in throttle, and their theorems at concrete inputs.
use app_common.Common.{
  ◌≢◌, ℕ, ◌≡◌, ◌⊎◌, refl, String, Bool, true, false, none, some, List, [], ◌∷◌, arith, any, length,
}
use app_common.Auth.Browser.{Issuer, BrowserSession, begin, refresh}
use app_common.Auth.Browser.Ending.{change_ends_sessions}
use app_common.Auth.Throttle.{Throttle, lookup, retry_after, record_failure}
use app_common.Auth.Throttle.Callers.{IsDict}
use app_common.Auth.Throttle.Lockout.{Failures, burst_locks, answers}
use app_common.Auth.Users.{User, AuthError, ok, err, conflict}
use app_common.Auth.Access.{
  Action, UserAccessChange, Accounts, changed, change, delete, Call, changing, deleting, calls,
}
use app_common.Auth.Access.Checks.{is_admin}
use app_common.Auth.Access.Safety.{calls-HasAdmin}
use app_common.Auth.Access.Records.{Recorded, change-cases, change_once}
use app_common.Auth.Access.Bootstrap.{retains, calls-retains}

-- Two failures in ten seconds lock a caller out for a minute.
abbrev strict : Throttle
strict = record { max_failures = 2; window_seconds = 10; lockout_seconds = 60; callers = [] }

abbrev strict_after_one : Throttle
strict_after_one = record strict {
  callers = ("203.0.113.7", record { failures = 1000000 ∷ []; locked_until = 0 }) ∷ [];
}

record_failure_test : record_failure strict "203.0.113.7" 1000000 ≡ (false, strict_after_one)
unfolding record_failure
record_failure_test = refl

retry_after_test :
    retry_after (record_failure strict_after_one "203.0.113.7" 2000000).1 "203.0.113.7" 3000000
    ≡ some 59
unfolding retry_after record_failure
retry_after_test = refl

second_locks : (record_failure strict_after_one "203.0.113.7" 2000000).0 ≡ true
unfolding record_failure
second_locks = refl

one-IsDict : IsDict strict_after_one.callers
unfolding lookup
one-IsDict = (refl, tt)

abbrev attempts : Failures
attempts = ("203.0.113.7", 1000000) ∷ ("198.51.100.9", 1500000) ∷ ("203.0.113.7", 2000000) ∷ []

burst_locks_example : any (λ b. b) (answers strict "203.0.113.7" attempts) ≡ true
burst_locks_example =
    burst_locks 0 attempts strict "203.0.113.7" tt (omega arith) (omega arith) (omega arith)
      ((omega arith, omega arith), ((omega arith, omega arith), tt))

-- The bootstrap administrator, an administrator that it made, and an account that waits.
abbrev account : ℕ → String → String → Bool → User
account id email approval_status is_superadmin = record {
  id = id;
  email = email;
  hashed_password = none;
  approval_status = approval_status;
  auth_version = 1;
  is_active = true;
  is_verified = true;
  is_superadmin = is_superadmin;
  updated_at = 0;
}

abbrev company : Accounts
company = record {
  users =
      account 1 "root@example.com" "approved" true
      ∷ account 2 "ada@example.com" "approved" true
      ∷ account 3 "bob@example.com" "pending" false
      ∷ [];
  events = [];
}

abbrev request : Action → UserAccessChange
request action = record { action = action; expected_version = 1; reason = none }

-- Bob is approved by Ada, who then cannot demote the bootstrap administrator, and who is demoted.
abbrev busy : List Call
busy =
    changing 3 (request Action.approve) 2 10
    ∷ changing 1 (request Action.demote) 2 11
    ∷ changing 2 (request Action.demote) 1 12
    ∷ deleting 3 1 13
    ∷ []

busy_test : length (calls "root@example.com" busy company).users ≡ 2
unfolding calls
busy_test = refl

demote_root_test :
    (change "root@example.com" 1 (request Action.demote) 2 11 company).0
    ≡ err (conflict "The current administrator and bootstrap account must retain access")
unfolding change
demote_root_test = refl

delete_admin_test : (delete "root@example.com" 2 1 11 company).1 ≡ company
unfolding delete
delete_admin_test = refl

abbrev bob : User
bob = account 3 "bob@example.com" "approved" false

bob_approved :
    (change "root@example.com" 3 (request Action.approve) 2 10 company).0
    ≡ ok (record bob { auth_version = 2; updated_at = 10 })
unfolding change
bob_approved = refl

calls-HasAdmin_example : any is_admin (calls "root@example.com" busy company).users ≡ true
calls-HasAdmin_example = calls-HasAdmin "root@example.com" busy company refl

calls-retains_example :
    retains "root@example.com" 1 (calls "root@example.com" busy company).users ≡ true
calls-retains_example = calls-retains "root@example.com" 1 busy company refl

change-cases_example :
    ((e : AuthError) × (change "root@example.com" 3 (request Action.approve) 2 10 company
        ≡ (err e, company)))
    ⊎ ((user : User) × ((change "root@example.com" 3 (request Action.approve) 2 10 company).0
          ≡ ok (changed Action.approve 10 user))
        × Recorded 3
            (request Action.approve)
            2
            10
            company
            (change "root@example.com" 3 (request Action.approve) 2 10 company).1
            user)
change-cases_example = change-cases "root@example.com" 3 (request Action.approve) 2 10 company

change_once_example :
    let after = (change "root@example.com" 3 (request Action.approve) 2 10 company).1 in
    (e : AuthError) × (change "root@example.com" 3 (request Action.suspend) 1 20 after
      ≡ (err e, after))
change_once_example =
    change_once "root@example.com" 3 (request Action.approve) (request Action.suspend) 2 1 10 20
      company _ bob_approved refl

abbrev issuer : Issuer
issuer = record { hash = λ key. key; password_fingerprint = λ u. 7 ∷ []; lifetime = 100 }

abbrev ada : User
ada = account 2 "ada@example.com" "approved" true

abbrev ada_session : BrowserSession
ada_session = record {
  key_hash = 5 ∷ [];
  user_id = 2;
  auth_version = 1;
  password_fingerprint = 7 ∷ [];
  expires_at = 105;
}

begin_test : begin issuer 5 (5 ∷ []) [] (some ada) [] ≡ ok (5 ∷ [], ada_session ∷ [])
unfolding begin
begin_test = refl

ada_refreshes :
    refresh issuer 20
      (5 ∷ [])
      (change "root@example.com" 3 (request Action.approve) 2 10 company).1.users
      (ada_session ∷ [])
    ≡ ok (ada, record ada_session { expires_at = 120 } ∷ [])
unfolding refresh change
ada_refreshes = refl

change_ends_sessions_example : ada.id ≢ 3
change_ends_sessions_example =
    change_ends_sessions "root@example.com" 3 (request Action.approve) 2 10 company _ issuer 20
      (5 ∷ []) (ada_session ∷ []) (record ada_session { expires_at = 120 } ∷ []) ada bob_approved
      ((λ e. omega arith), tt) ada_refreshes
