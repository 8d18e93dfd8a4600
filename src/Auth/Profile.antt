-- ===== src/Auth/Profile.antt =====
-- user/services.py and user/usecases/crud.py: users change their own record, and administrators any.
-- A field of the request is unset, null or a text; a password that is unset, null or empty is `none`.
-- Of the other fields of the profile no rule reads any.
pub mod Bounded
mod Examples
use app_common.Common.{
  ℕ, String, Bool, true, false, not, ◌&&◌, Option, none, some, List, [], ◌∷◌, ◌==◌, str_eq,
  if◌then◌else◌, any, map,
}
use mathlib.Core.Option
use app_common.Table.{get, update_where}
use app_common.Auth.Users.{User, Result, ok, err, permission_denied, integrity_error}
use app_common.Auth.Access.{user_key}
use app_common.Auth.Passwords.{Hashers, hash}
use app_common.Auth.Tokens.{AuthSettings}

pub data Field : Type 0 where
  unset null : Field
  given : String → Field

pub record UserUpdate : Type 0 where
  pub email : Field
  pub password : Option String

abbrev pub with_email : Field → User → User
with_email (given e) u = record u { email = e }
with_email unset u = u
with_email null u = u

abbrev pub with_password : Option String → User → User
with_password none u = u
with_password (some h) u = record u { hashed_password = some h }

abbrev pub moves : Field → String → Bool
moves (given e) email = not (str_eq e email)
moves unset email = false
moves null email = false

-- The bootstrap account's email is managed by the deployment's settings.
unfoldable pub is_managed : AuthSettings → UserUpdate → Option User → Bool
is_managed s request none = false
is_managed s request (some existing) =
    str_eq existing.email s.first_user_email && moves request.email existing.email

-- The columns are NOT NULL and unique.
abbrev pub breaks_email : Field → ℕ → List User → Bool
breaks_email unset user_id users = false
breaks_email null user_id users = true
breaks_email (given e) user_id users = any (λ x. not (x.id == user_id) && str_eq x.email e) users

abbrev pub has_row : Option User → Bool
has_row none = false
has_row (some u) = true

unfoldable pub applied : Hashers → ℕ → UserUpdate → User → User
applied p salt request u =
    with_password (Option.map (hash p salt) request.password) (with_email request.email u)

unfoldable pub update_user :
    Hashers → AuthSettings → ℕ → UserUpdate → ℕ → List User → Result (Option User) × List User
unfolding is_managed applied
update_user p s salt request user_id users =
    if is_managed s request (get user_key user_id users)
    then (err permission_denied, users)
    else (if has_row (get user_key user_id users) && breaks_email request.email user_id users
        then (err integrity_error, users)
        else (
          ok (Option.map (applied p salt request) (get user_key user_id users)),
          update_where (λ x. x.id == user_id) (applied p salt request) users,
        ))

-- `UpdateUserUseCase.execute`
unfoldable pub update_execute :
    Hashers
    → AuthSettings
    → ℕ
    → UserUpdate
    → ℕ
    → User
    → List User
    → Result (Option User) × List User
unfolding update_user
update_execute p s salt request user_id current_user users =
    if not (current_user.id == user_id) && not current_user.is_superadmin
    then (err permission_denied, users)
    else update_user p s salt request user_id users
