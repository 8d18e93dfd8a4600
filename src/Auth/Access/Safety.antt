-- ===== src/Auth/Access/Safety.antt =====
-- What the access rules of user/access_service.py guarantee whatever administrators do.
use app_common.Common.{
  ℕ, ◌≡◌, refl, ap, String, true, false, not, ◌&&◌, Option, none, some, List, [], ◌∷◌, ◌==◌, filter,
  any, arith,
}
use app_common.Table.{id-get}
use app_common.Auth.Users.{User, Result, ok, err}
use app_common.Auth.Access.{
  Action, UserAccessChange, Accounts, user_key, record_event, delete_user, is_reducing, act,
  changed, checked, commit, remove, change, deletable, delete, Call, changing, deleting, call,
  calls,
}
use app_common.Auth.Access.Checks.{
  is_admin, is_admin_at, checked-ok, deletable-ok, any-update_where, any-filter, any-weaken,
}

keeps_actor :
    (a : Action) (user_id actor_id now : ℕ) (u : User)
    → (is_reducing a && (user_id == actor_id)) ≡ false
    → (u.id == user_id) ≡ true
    → is_admin_at actor_id u ≡ true
    → is_admin_at actor_id (changed a now u) ≡ true
unfolding changed act
keeps_actor Action.approve user_id actor_id now u h e k = ground (arith, k)
keeps_actor Action.activate user_id actor_id now u h e k = ground (arith, k)
keeps_actor Action.promote user_id actor_id now u h e k = ground (arith, k)
keeps_actor Action.reject user_id actor_id now u h e k = ground (arith, k, h, e)
keeps_actor Action.suspend user_id actor_id now u h e k = ground (arith, k, h, e)
keeps_actor Action.demote user_id actor_id now u h e k = ground (arith, k, h, e)

change-checked :
    (first_user_email : String) (user_id : ℕ) (request : UserAccessChange) (actor_id now : ℕ)
    (s : Accounts) (r : Result User)
    → checked first_user_email user_id request actor_id s.users ≡ r
    → change first_user_email user_id request actor_id now s
      ≡ commit user_id request actor_id now s r
unfolding change
change-checked first_user_email user_id request actor_id now s r h =
    ap (commit user_id request actor_id now s) h

delete-checked :
    (first_user_email : String) (user_id current_id now : ℕ) (s : Accounts)
    (r : Result (Option User))
    → deletable first_user_email user_id current_id s.users ≡ r
    → delete first_user_email user_id current_id now s ≡ remove user_id current_id now s r
unfolding delete
delete-checked first_user_email user_id current_id now s r h =
    ap (remove user_id current_id now s) h

commit-keeps_actor :
    (first_user_email : String) (user_id : ℕ) (request : UserAccessChange) (actor_id now : ℕ)
    (s : Accounts) (r : Result User) (user : User)
    → checked first_user_email user_id request actor_id s.users ≡ r
    → (commit user_id request actor_id now s r).0 ≡ ok user
    → (any (is_admin_at actor_id) s.users ≡ true)
      × (any (is_admin_at actor_id) (commit user_id request actor_id now s r).1.users ≡ true)
unfolding commit record_event
commit-keeps_actor first_user_email user_id request actor_id now s (err e) user h k = cc
commit-keeps_actor first_user_email user_id request actor_id now s (ok u) user h k =
    let allowed = checked-ok first_user_email user_id request actor_id s.users u h in
    let same : (u.id == user_id) ≡ true =
      ground (arith, id-get user_key user_id s.users u allowed.found) in
    let retained : (is_reducing request.action && (user_id == actor_id)) ≡ false =
      ground (arith, allowed.retained, same) in
    (
      allowed.acting,
      any-update_where (is_admin_at actor_id) (λ x. x.id == user_id) (changed request.action now)
          (λ x hit k. keeps_actor request.action user_id actor_id now x retained hit k) s.users
          allowed.acting,
    )

-- Whoever changes an account is an active, approved administrator before the change and still one
-- after it.
change_keeps_actor :
    (first_user_email : String) (user_id : ℕ) (request : UserAccessChange) (actor_id now : ℕ)
    (s : Accounts) (user : User)
    → (change first_user_email user_id request actor_id now s).0 ≡ ok user
    → (any (is_admin_at actor_id) s.users ≡ true)
      × (any (is_admin_at actor_id) (change first_user_email user_id request actor_id now s).1.users
          ≡ true)
unfolding change
change_keeps_actor first_user_email user_id request actor_id now s user h =
    commit-keeps_actor first_user_email user_id request actor_id now s _ user refl h

remove-HasAdmin :
    (first_user_email : String) (user_id current_id now : ℕ) (s : Accounts)
    (r : Result (Option User))
    → deletable first_user_email user_id current_id s.users ≡ r
    → any is_admin s.users ≡ true
    → any is_admin (remove user_id current_id now s r).1.users ≡ true
unfolding remove record_event delete_user
remove-HasAdmin first_user_email user_id current_id now s (err e) h k = k
remove-HasAdmin first_user_email user_id current_id now s (ok none) h k = k
remove-HasAdmin first_user_email user_id current_id now s (ok (some target)) h k =
    let (acting, other, kept, found) =
      deletable-ok first_user_email user_id current_id s.users (some target) h in
    any-weaken (is_admin_at current_id) is_admin (λ u e. ground (arith, e))
      (filter (λ u. not (u.id == user_id)) s.users)
      (any-filter (is_admin_at current_id) (λ u. not (u.id == user_id))
        (λ u e. ground (arith, e, other)) s.users acting)

commit-HasAdmin :
    (first_user_email : String) (user_id : ℕ) (request : UserAccessChange) (actor_id now : ℕ)
    (s : Accounts) (r : Result User)
    → checked first_user_email user_id request actor_id s.users ≡ r
    → any is_admin s.users ≡ true
    → any is_admin (commit user_id request actor_id now s r).1.users ≡ true
unfolding commit
commit-HasAdmin first_user_email user_id request actor_id now s (err e) h k = k
commit-HasAdmin first_user_email user_id request actor_id now s (ok u) h k =
    any-weaken (is_admin_at actor_id) is_admin (λ u e. ground (arith, e))
      (commit user_id request actor_id now s (ok u)).1.users
      (commit-keeps_actor first_user_email user_id request actor_id now s (ok u)
        (changed request.action now u) h refl).1

call-HasAdmin :
    (first_user_email : String) (c : Call) (s : Accounts)
    → any is_admin s.users ≡ true
    → any is_admin (call first_user_email c s).users ≡ true
unfolding call change delete
call-HasAdmin first_user_email (changing user_id request actor_id now) s h =
    commit-HasAdmin first_user_email user_id request actor_id now s _ refl h
call-HasAdmin first_user_email (deleting user_id current_id now) s h =
    remove-HasAdmin first_user_email user_id current_id now s _ refl h

-- If some account is an active, approved administrator, one still is after any sequence of access
-- changes and deletions, whoever asks for them and whether they are granted or refused.
pub calls-HasAdmin :
    (first_user_email : String) (cs : List Call) (s : Accounts)
    → any is_admin s.users ≡ true
    → any is_admin (calls first_user_email cs s).users ≡ true
unfolding calls
calls-HasAdmin first_user_email [] s h = h
calls-HasAdmin first_user_email (c ∷ cs) s h =
    calls-HasAdmin first_user_email cs (call first_user_email c s)
      (call-HasAdmin first_user_email c s h)
