-- ===== src/Auth/Access.antt =====
-- user/access_repo.py and user/access_service.py: administrators change accounts; and the deletion
-- of an account, user/usecases/admin.py. One call is one transaction under the row locks that it
-- takes, so calls do not interleave. ORDER BY in `lock_admins` orders the locks only.
pub mod Bootstrap
pub mod Checks
pub mod Records
pub mod Safety
use app_common.Common.{
  ℕ, ◌+◌, String, Bool, true, false, not, ◌&&◌, ◌||◌, Option, none, some, List, [], ◌∷◌, ◌++◌, leb,
  ◌==◌, str_eq, if◌then◌else◌, length, filter, find,
}
use app_common.Table.{get, update_where}
use app_common.Auth.Users.{
  User, UserAccessEvent, AuthError, permission_denied, user_not_found, user_cant_delete_itself,
  conflict, Result, ok, err, ◌>>=◌, ◌>>◌, refuse_if, require, is_approved, is_usable,
}

pub data Action : Type 0 where
  approve reject suspend activate promote demote : Action

abbrev pub action_name : Action → String
action_name approve = "approve"
action_name reject = "reject"
action_name suspend = "suspend"
action_name activate = "activate"
action_name promote = "promote"
action_name demote = "demote"

pub record UserAccessChange : Type 0 where
  pub action : Action
  pub expected_version : ℕ
  pub reason : Option String

pub record Accounts : Type 0 where
  pub users : List User
  pub events : List UserAccessEvent

abbrev pub user_key : User → ℕ
user_key u = u.id

unfoldable pub lock_admins : List User → List User
lock_admins users = filter (λ u. u.is_superadmin) users

unfoldable pub lock_user : ℕ → List User → Option User
lock_user user_id users = get user_key user_id users

unfoldable pub record_event : ℕ → ℕ → String → Option String → ℕ → Accounts → Accounts
record_event user_id actor_id action reason now s = record s {
  events =
      s.events
      ++ record {
        user_id = some user_id;
        actor_id = some actor_id;
        action = action;
        reason = reason;
        created_at = now;
      }
        ∷ [];
}

abbrev pub is_reducing : Action → Bool
is_reducing reject = true
is_reducing suspend = true
is_reducing demote = true
is_reducing _ = false

abbrev pub needs_approval : Action → Bool
needs_approval promote = true
needs_approval activate = true
needs_approval _ = false

unfoldable pub act : Action → User → User
act approve u = record u { approval_status = "approved" }
act reject u = record u { approval_status = "rejected" }
act suspend u = record u { is_active = false }
act activate u = record u { is_active = true }
act promote u = record u { is_superadmin = true }
act demote u = record u { is_superadmin = false }

-- The change, with the new version that ends the account's sessions.
unfoldable pub changed : Action → ℕ → User → User
unfolding act
changed action now u = record (act action u) { auth_version = u.auth_version + 1; updated_at = now }

unfoldable pub acting_admin : ℕ → List User → Result User
unfolding lock_admins
acting_admin actor_id users = do
  actor ← require (find (λ u. u.id == actor_id) (lock_admins users)) permission_denied
  refuse_if (not (is_usable actor)) permission_denied
  ok actor

-- Every check of `change`, and the account that is to be changed.
unfoldable pub checked : String → ℕ → UserAccessChange → ℕ → List User → Result User
unfolding acting_admin lock_user
checked first_user_email user_id request actor_id users = do
  actor ← acting_admin actor_id users
  user ← require (lock_user user_id users) user_not_found
  refuse_if (not (user.auth_version == request.expected_version))
      (conflict "Account changed; reload before saving")
  refuse_if
      (is_reducing request.action && (user.id == actor_id || str_eq user.email first_user_email))
      (conflict "The current administrator and bootstrap account must retain access")
  refuse_if
      (is_reducing request.action
        && user.is_superadmin
        && leb (length (filter is_usable (lock_admins users))) 1)
      (conflict "Keep at least one active approved administrator")
  refuse_if (needs_approval request.action && not (is_approved user))
      (conflict "Approve the account first")
  ok user

-- What `change` does after its checks, or the refusal.
unfoldable pub commit :
    ℕ → UserAccessChange → ℕ → ℕ → Accounts → Result User → Result User × Accounts
unfolding changed record_event
commit user_id request actor_id now s (err e) = (err e, s)
commit user_id request actor_id now s (ok user) = (
  ok (changed request.action now user),
  record_event user.id actor_id (action_name request.action) request.reason now (record s {
    users = update_where (λ u. u.id == user_id) (changed request.action now) s.users;
  }),
)

unfoldable pub change : String → ℕ → UserAccessChange → ℕ → ℕ → Accounts → Result User × Accounts
unfolding checked commit
change first_user_email user_id request actor_id now s =
    commit user_id request actor_id now s
      (checked first_user_email user_id request actor_id s.users)

-- An administrator's account and the bootstrap account are retained.
unfoldable pub is_retained : String → Option User → Bool
is_retained first_user_email none = false
is_retained first_user_email (some target) =
    target.is_superadmin || str_eq target.email first_user_email

-- `DeleteUserUseCase`: the checks, then the event and the row, if there is one.
unfoldable pub deletable : String → ℕ → ℕ → List User → Result (Option User)
unfolding acting_admin lock_user is_retained
deletable first_user_email user_id current_id users = do
  refuse_if (current_id == user_id) user_cant_delete_itself
  actor ← acting_admin current_id users
  refuse_if (is_retained first_user_email (lock_user user_id users)) permission_denied
  ok (lock_user user_id users)

-- ON DELETE SET NULL
abbrev unless_at : ℕ → Option ℕ → Option ℕ
unless_at i none = none
unless_at i (some j) = if j == i then none else some j

abbrev pub forgotten : ℕ → List UserAccessEvent → List UserAccessEvent
forgotten i [] = []
forgotten i (e ∷ events) =
    record e { user_id = unless_at i e.user_id; actor_id = unless_at i e.actor_id }
    ∷ forgotten i events

-- The row of the account, and what the database does to the events that point at it.
unfoldable pub delete_user : ℕ → Accounts → Accounts
delete_user i s = record s {
  users = filter (λ u. not (u.id == i)) s.users;
  events = forgotten i s.events;
}

unfoldable pub remove : ℕ → ℕ → ℕ → Accounts → Result (Option User) → Result Bool × Accounts
unfolding record_event delete_user
remove user_id actor_id now s (err e) = (err e, s)
remove user_id actor_id now s (ok none) = (ok false, s)
remove user_id actor_id now s (ok (some target)) =
    (ok true, delete_user user_id (record_event target.id actor_id "delete" none now s))

unfoldable pub delete : String → ℕ → ℕ → ℕ → Accounts → Result Bool × Accounts
unfolding deletable remove
delete first_user_email user_id current_id now s =
    remove user_id current_id now s (deletable first_user_email user_id current_id s.users)

-- The accounts as the administrators' calls leave them, one after the other.
pub data Call : Type 0 where
  changing : ℕ → UserAccessChange → ℕ → ℕ → Call
  deleting : ℕ → ℕ → ℕ → Call

unfoldable pub call : String → Call → Accounts → Accounts
unfolding change delete
call first_user_email (changing user_id request actor_id now) s =
    (change first_user_email user_id request actor_id now s).1
call first_user_email (deleting user_id current_id now) s =
    (delete first_user_email user_id current_id now s).1

unfoldable pub calls : String → List Call → Accounts → Accounts
unfolding call
calls first_user_email [] s = s
calls first_user_email (c ∷ cs) s = calls first_user_email cs (call first_user_email c s)
