-- ===== src/Auth/Login.antt =====
-- user/services.py and user/usecases/login.py: signing in with a password, and the first account.
pub mod Again
use app_common.Common.{
  ℕ, String, Bool, true, false, not, ◌&&◌, ◌||◌, Option, none, some, List, [], ◌∷◌, ◌++◌, ◌==◌,
  str_eq, if◌then◌else◌, find,
}
use app_common.Table.{update_where}
use app_common.Auth.Users.{User, is_approved}
use app_common.Auth.Passwords.{Hashers, hash, verify, needs_rehash}
use app_common.Auth.Tokens.{AuthSettings}

abbrev pub with_hash : String → User → User
with_hash h u = record u { hashed_password = some h }

abbrev pub get_by_email : String → List User → Option User
get_by_email email users = find (λ u. str_eq u.email email) users

-- The row of account `u` gets a new hash.
abbrev pub rehashed : String → User → List User → Option User × List User
rehashed h u users = (some (with_hash h u), update_where (λ x. x.id == u.id) (with_hash h) users)

abbrev pub verified :
    Hashers → ℕ → String → List User → User → Option String → Option User × List User
verified p salt password users u none = (none, users)
verified p salt password users u (some h) =
    if not u.is_active || not (is_approved u) || not (verify p password h)
    then (none, users)
    else (if needs_rehash p h then rehashed (hash p salt password) u users else (some u, users))

abbrev pub answered : Hashers → ℕ → String → List User → Option User → Option User × List User
answered p salt password users none = (none, users)
answered p salt password users (some u) = verified p salt password users u u.hashed_password

-- The account that signs in, and the accounts: an older hash is replaced.
unfoldable pub authenticate : Hashers → ℕ → String → String → List User → Option User × List User
unfolding verify needs_rehash
authenticate p salt email password users = answered p salt password users (get_by_email email users)

abbrev pub holds_password : Hashers → String → Option String → Bool
holds_password p password none = false
holds_password p password (some h) = not (str_eq h "") && verify p password h

abbrev pub first_user : Hashers → AuthSettings → ℕ → ℕ → ℕ → User
first_user p s id salt now = record {
  id = id;
  email = s.first_user_email;
  hashed_password = some (hash p salt s.first_user_password);
  approval_status = "approved";
  auth_version = 0;
  is_active = true;
  is_verified = true;
  is_superadmin = true;
  updated_at = now;
}

unfoldable pub ensure_first_user : Hashers → AuthSettings → ℕ → ℕ → ℕ → List User → User × List User
unfolding verify
ensure_first_user p s id salt now users = elim (get_by_email s.first_user_email users) [
  | none ↦ (first_user p s id salt now, users ++ first_user p s id salt now ∷ [])
  | some u ↦
      let h = hash p salt s.first_user_password in
      if s.first_user_sync_password
        && not (holds_password p s.first_user_password u.hashed_password)
      then (with_hash h u, update_where (λ x. x.id == u.id) (with_hash h) users)
      else (u, users)
]
