-- ===== src/Auth/Profile/Examples.antt =====
-- Tests of changes of a profile, and their theorem at a concrete input.
use app_common.Common.{
  ◌||◌, str_eq, ◌⊎◌, ℕ, ◌≡◌, refl, String, true, false, none, some, List, [], ◌∷◌,
}
use app_common.Auth.Users.{User, ok, err, permission_denied}
use app_common.Table.{get}
use app_common.Auth.Access.{user_key}
use app_common.Auth.Passwords.{Hashers}
use app_common.Auth.Tokens.{AuthSettings}
use app_common.Auth.Profile.{UserUpdate, given, update_execute}
use app_common.Auth.Profile.Bounded.{update_execute-Keeps}

abbrev plain : Hashers
plain = record {
  encode = λ t. [];
  argon2_hash = λ salt t. t;
  argon2_verify = λ h t. none;
  check_needs_rehash = λ h. none;
  checkpw = λ t h. none;
}

abbrev site : AuthSettings
site = record {
  jwt_issuer = "app-base";
  jwt_audience = "app-base";
  jwt_leeway_seconds = 10;
  access_token_expire_minutes = 10;
  refresh_token_expire_days = 14;
  first_user_email = "admin@example.com";
  first_user_password = "secret";
  first_user_sync_password = false;
  registration_require_approval = false;
}

abbrev member : ℕ → String → User
member i email = record {
  id = i;
  email = email;
  hashed_password = none;
  approval_status = "approved";
  auth_version = 0;
  is_active = true;
  is_verified = true;
  is_superadmin = false;
  updated_at = 0;
}

abbrev admin : User
admin = record (member 1 "admin@example.com") { is_superadmin = true }

abbrev all_users : List User
all_users = admin ∷ member 2 "eve@example.com" ∷ []

abbrev new_email : UserUpdate
new_email = record { email = given "new@example.com"; password = some "secret" }

stranger_test :
    update_execute plain site 0 new_email 1 (member 2 "eve@example.com") all_users
    ≡ (err permission_denied, all_users)
unfolding update_execute
stranger_test = refl

bootstrap_test :
    update_execute plain site 0 new_email 1 admin all_users ≡ (err permission_denied, all_users)
unfolding update_execute
bootstrap_test = refl

abbrev renamed : User
renamed = record (member 2 "new@example.com") { hashed_password = some "secret" }

own_test :
    update_execute plain site 0 new_email 2 (member 2 "eve@example.com") all_users
    ≡ (ok (some renamed), admin ∷ renamed ∷ [])
unfolding update_execute
own_test = refl

update_execute-Keeps_example :
    let after =
      (update_execute plain site 0 new_email 2 (member 2 "eve@example.com") all_users).1 in
    (v : User) × (get user_key 2 after ≡ some v)
    × ((v ≡ member 2 "eve@example.com") ⊎ ((◌≡◌ {A = ℕ} 2 2) × (true ≡ true)))
    × ((true || str_eq v.email "admin@example.com") ≡ true)
update_execute-Keeps_example =
    update_execute-Keeps plain site 0 new_email 2 2 (member 2 "eve@example.com")
      (member 2 "eve@example.com") all_users refl
