-- ===== src/Auth/Access/Bootstrap.antt =====
-- The bootstrap account, whose address is the setting FIRST_USER_EMAIL, keeps its access.
use app_common.Common.{
  ℕ, ◌≡◌, refl, sym, ap, ◌∙◌, inl, inr, ◌⊎◌, String, Bool, true, false, not, ◌&&◌, Option, none,
  some, List, [], ◌∷◌, ◌==◌, str_eq, filter, arith, Bool-cases, if◌then◌else◌,
}
use app_common.Table.{get, holds}
use app_common.Auth.Users.{User, Result, ok, err}
use app_common.Auth.Access.{
  Action, UserAccessChange, Accounts, user_key, record_event, delete_user, is_reducing, commit,
  remove, changed, checked, change, is_retained, deletable, delete, Call, changing, deleting, call,
  calls,
}
use app_common.Auth.Access.Checks.{is_admin, Allowed, checked-ok, deletable-ok, changed-is_admin}
use app_common.Auth.Access.Records.{changed-email, commit-row}

abbrev is_bootstrap_admin : String → User → Bool
is_bootstrap_admin first_user_email u = str_eq u.email first_user_email && is_admin u

module _ (first_user_email : String) (i : ℕ) where
  -- Account `i` is the bootstrap account and an active, approved administrator.
  abbrev pub retains : List User → Bool
  retains users = holds (is_bootstrap_admin first_user_email) (get user_key i users)

  still-bootstrap :
      (a : Action) (now : ℕ) (u : User)
      → is_reducing a ≡ false
      → is_bootstrap_admin first_user_email u ≡ true
      → is_bootstrap_admin first_user_email (changed a now u) ≡ true
  still-bootstrap a now u h k = ground (
    arith,
    k,
    changed-is_admin a now u h,
    ap (λ e. str_eq e first_user_email) (changed-email a now u),
  )

  commit-retains :
      (user_id : ℕ) (request : UserAccessChange) (actor_id now : ℕ) (s : Accounts) (r : Result User)
      → checked first_user_email user_id request actor_id s.users ≡ r
      → retains s.users ≡ true
      → retains (commit user_id request actor_id now s r).1.users ≡ true
  unfolding commit
  commit-retains user_id request actor_id now s (err e) h k = k
  commit-retains user_id request actor_id now s (ok u) h k =
      ap (holds (is_bootstrap_admin first_user_email))
        (commit-row user_id request actor_id now s u i allowed.found)
      ∙ row (Bool-cases (i == user_id))
    where
      allowed : Allowed first_user_email request actor_id user_id s.users u
      allowed = checked-ok first_user_email user_id request actor_id s.users u h

      row :
          (i == user_id ≡ true) ⊎ (i == user_id ≡ false)
          → holds
              (is_bootstrap_admin first_user_email)
              (if i == user_id then some (changed request.action now u) else get user_key i s.users)
            ≡ true
      row (inl same) =
          let here : get user_key i s.users ≡ some u = ground (arith, same, allowed.found) in
          let mine : is_bootstrap_admin first_user_email u ≡ true =
            sym (ap (holds (is_bootstrap_admin first_user_email)) here) ∙ k in
          rw same
            (still-bootstrap request.action now u (ground (arith, mine, allowed.retained)) mine)
      row (inr other) = rw other k

  get-filter_other :
      (k : ℕ) (users : List User)
      → (i == k) ≡ false
      → get user_key i (filter (λ u. not (u.id == k)) users) ≡ get user_key i users
  get-filter_other k [] h = refl
  get-filter_other k (u ∷ users) h = ground (arith, h, get-filter_other k users h)

  remove-retains :
      (user_id current_id now : ℕ) (s : Accounts) (r : Result (Option User))
      → deletable first_user_email user_id current_id s.users ≡ r
      → retains s.users ≡ true
      → retains (remove user_id current_id now s r).1.users ≡ true
  unfolding remove record_event delete_user is_retained
  remove-retains user_id current_id now s (err e) h k = k
  remove-retains user_id current_id now s (ok none) h k = k
  remove-retains user_id current_id now s (ok (some target)) h k =
      let (acting, unlike, kept, found) =
        deletable-ok first_user_email user_id current_id s.users (some target) h in
      elim (Bool-cases (i == user_id)) [
        | inl same ↦
            let here : get user_key i s.users ≡ some target = ground (arith, same, sym found) in
            let mine : is_bootstrap_admin first_user_email target ≡ true =
              sym (ap (holds (is_bootstrap_admin first_user_email)) here) ∙ k in
            ground (arith, mine, kept)
        | inr other ↦
            ap (holds (is_bootstrap_admin first_user_email))
              (get-filter_other user_id s.users other)
            ∙ k
      ]

  call-retains :
      (c : Call) (s : Accounts)
      → retains s.users ≡ true
      → retains (call first_user_email c s).users ≡ true
  unfolding call change delete
  call-retains (changing user_id request actor_id now) s h =
      commit-retains user_id request actor_id now s _ refl h
  call-retains (deleting user_id current_id now) s h =
      remove-retains user_id current_id now s _ refl h

  -- The bootstrap account, once an active, approved administrator, is one after any sequence of
  -- access changes and deletions.
  pub calls-retains :
      (cs : List Call) (s : Accounts)
      → retains s.users ≡ true
      → retains (calls first_user_email cs s).users ≡ true
  unfolding calls
  calls-retains [] s h = h
  calls-retains (c ∷ cs) s h = calls-retains cs (call first_user_email c s) (call-retains c s h)
