-- ===== src/Auth/Access/Records.antt =====
-- What one access change leaves behind: the row, the other rows, the version and the audit event.
use app_common.Common.{
  ℕ, ◌+◌, ◌≡◌, refl, sym, ap, ◌∙◌, inl, inr, ◌⊎◌, String, true, false, Option, none, some, [], ◌∷◌,
  ◌++◌, ◌==◌, arith, if◌then◌else◌,
}
use mathlib.Core.Option
use mathlib.Core.Option.{some-injective}
use app_common.Table.{get, update_where, id-get, get-update_where}
use app_common.Auth.Users.{User, Result, ok, err, AuthError}
use app_common.Auth.Access.{
  Action, UserAccessChange, Accounts, user_key, record_event, action_name, commit, act, changed,
  checked, change,
}
use app_common.Auth.Access.Checks.{checked-ok}

changed-id : (a : Action) (now : ℕ) (u : User) → user_key (changed a now u) ≡ user_key u
unfolding changed act
changed-id Action.approve now u = refl
changed-id Action.reject now u = refl
changed-id Action.suspend now u = refl
changed-id Action.activate now u = refl
changed-id Action.promote now u = refl
changed-id Action.demote now u = refl

pub changed-email : (a : Action) (now : ℕ) (u : User) → (changed a now u).email ≡ u.email
unfolding changed act
changed-email Action.approve now u = refl
changed-email Action.reject now u = refl
changed-email Action.suspend now u = refl
changed-email Action.activate now u = refl
changed-email Action.promote now u = refl
changed-email Action.demote now u = refl

-- What each action leaves of an account, its version and its time apart: an approval or a rejection
-- sets the approval's status, a suspension or an activation whether it is active, a promotion or a
-- demotion whether it is an administrator, each of them that alone.
abbrev pub Acted : Action → User → User → Type 0
Acted a u v =
    (v.id ≡ u.id)
    × (v.email ≡ u.email)
    × (v.hashed_password ≡ u.hashed_password)
    × (v.is_verified ≡ u.is_verified)
    × (v.approval_status ≡ elim a [
      | Action.approve ↦ "approved"
      | Action.reject ↦ "rejected"
      | _ ↦ u.approval_status
    ])
    × (v.is_active ≡ elim a [ Action.suspend ↦ false | Action.activate ↦ true | _ ↦ u.is_active ])
    × (v.is_superadmin
        ≡ elim a [ Action.promote ↦ true | Action.demote ↦ false | _ ↦ u.is_superadmin ])

changed-Acted : (a : Action) (now : ℕ) (u : User) → Acted a u (changed a now u)
unfolding changed act
changed-Acted Action.approve now u = (refl, refl, refl, refl, refl, refl, refl)
changed-Acted Action.reject now u = (refl, refl, refl, refl, refl, refl, refl)
changed-Acted Action.suspend now u = (refl, refl, refl, refl, refl, refl, refl)
changed-Acted Action.activate now u = (refl, refl, refl, refl, refl, refl, refl)
changed-Acted Action.promote now u = (refl, refl, refl, refl, refl, refl, refl)
changed-Acted Action.demote now u = (refl, refl, refl, refl, refl, refl, refl)

pub changed-version :
    (a : Action) (now : ℕ) (u : User) → (changed a now u).auth_version ≡ u.auth_version + 1
unfolding changed
changed-version a now u = refl

changed-stamp : (a : Action) (now : ℕ) (u : User) → (changed a now u).updated_at ≡ now
unfolding changed
changed-stamp a now u = refl

pub reached : (i : ℕ) (a b : Option User) → (if i == i then a else b) ≡ a
reached i a b = ground arith

commit-users :
    (user_id : ℕ) (request : UserAccessChange) (actor_id now : ℕ) (s : Accounts) (u : User)
    → (commit user_id request actor_id now s (ok u)).1.users
      ≡ update_where (λ x. user_key x == user_id) (changed request.action now) s.users
unfolding commit record_event
commit-users user_id request actor_id now s u = refl

pub commit-row :
    (user_id : ℕ) (request : UserAccessChange) (actor_id now : ℕ) (s : Accounts) (u : User) (j : ℕ)
    → get user_key user_id s.users ≡ some u
    → get user_key j (commit user_id request actor_id now s (ok u)).1.users
      ≡ (if j == user_id then some (changed request.action now u) else get user_key j s.users)
commit-row user_id request actor_id now s u j found =
    ap (get user_key j) (commit-users user_id request actor_id now s u)
    ∙ get-update_where user_key (λ x. user_key x == user_id) (changed request.action now)
        (changed-id request.action now) j s.users
    ∙ row (get user_key j s.users) refl
  where
    row :
        (o : Option User)
        → get user_key j s.users ≡ o
        → Option.map (λ y. if user_key y == user_id then changed request.action now y else y) o
          ≡ (if j == user_id then some (changed request.action now u) else o)
    row none g = ground (arith, found, g)
    row (some y) g = ground (arith, found, g, id-get user_key j s.users y g)

-- What a granted change leaves: the row with its new version, the other rows as they were, and one
-- more event, for that account, by that actor, with that action and reason.
pub record Recorded (user_id : ℕ) (request : UserAccessChange) (actor_id now : ℕ)
    (s after : Accounts) (user : User) : Type 0 where
  pub found : get user_key user_id s.users ≡ some user
  pub row :
      (j : ℕ)
      → get user_key j after.users
        ≡ (if j == user_id then some (changed request.action now user) else get user_key j s.users)
  pub acted : Acted request.action user (changed request.action now user)
  pub raised : (changed request.action now user).auth_version ≡ user.auth_version + 1
  pub stamped : (changed request.action now user).updated_at ≡ now
  pub version : user.auth_version ≡ request.expected_version
  pub events :
      after.events
      ≡ s.events
        ++ record {
          user_id = some user_id;
          actor_id = some actor_id;
          action = action_name request.action;
          reason = request.reason;
          created_at = now;
        }
          ∷ []

commit-Recorded :
    (first_user_email : String) (user_id : ℕ) (request : UserAccessChange) (actor_id now : ℕ)
    (s : Accounts) (user : User)
    → checked first_user_email user_id request actor_id s.users ≡ ok user
    → Recorded user_id request actor_id now s
        (commit user_id request actor_id now s (ok user)).1
        user
unfolding commit record_event
commit-Recorded first_user_email user_id request actor_id now s user h =
    let allowed = checked-ok first_user_email user_id request actor_id s.users user h in
    let same : user.id ≡ user_id = id-get user_key user_id s.users user allowed.found in
    record {
      found = allowed.found;
      row = λ j. commit-row user_id request actor_id now s user j allowed.found;
      acted = changed-Acted request.action now user;
      raised = changed-version request.action now user;
      stamped = changed-stamp request.action now user;
      version = ground (arith, allowed.current);
      events =
          ap
            (λ i.
              s.events
              ++ record {
                user_id = some i;
                actor_id = some actor_id;
                action = action_name request.action;
                reason = request.reason;
                created_at = now;
              }
                ∷ [])
            same;
    }

-- A call of `change` either is refused and leaves the accounts and their events as they are, or it
-- returns the account as it is stored then, changes that row alone, and adds the one event that tells
-- of it. The changed row has the version after the expected one and the time of the change, what the
-- action sets, and all else as it was: an approval or a rejection sets the approval's status, a
-- suspension or an activation whether the account is active, a promotion or a demotion whether it
-- is an administrator.
pub change-cases :
    (first_user_email : String) (user_id : ℕ) (request : UserAccessChange) (actor_id now : ℕ)
    (s : Accounts)
    → ((e : AuthError) × (change first_user_email user_id request actor_id now s ≡ (err e, s)))
      ⊎ ((user : User) × ((change first_user_email user_id request actor_id now s).0
            ≡ ok (changed request.action now user))
          × Recorded user_id request actor_id now s
              (change first_user_email user_id request actor_id now s).1
              user)
unfolding change commit
change-cases first_user_email user_id request actor_id now s = cases _ refl
  where
    cases :
        (r : Result User)
        → checked first_user_email user_id request actor_id s.users ≡ r
        → ((e : AuthError) × (commit user_id request actor_id now s r ≡ (err e, s)))
          ⊎ ((user : User) × ((commit user_id request actor_id now s r).0
                ≡ ok (changed request.action now user))
              × Recorded user_id request actor_id now s
                  (commit user_id request actor_id now s r).1
                  user)
    cases (err e) h = inl (e, refl)
    cases (ok user) h =
        inr (user, refl, commit-Recorded first_user_email user_id request actor_id now s user h)

-- An editor's version is good for one change: after a granted change of an account, every further
-- request that was made against the same version of it is refused.
pub change_once :
    (first_user_email : String) (user_id : ℕ) (request later : UserAccessChange)
    (actor_id actor now moment : ℕ) (s : Accounts) (user : User)
    → (change first_user_email user_id request actor_id now s).0 ≡ ok user
    → later.expected_version ≡ request.expected_version
    → let after = (change first_user_email user_id request actor_id now s).1 in
      (e : AuthError) × (change first_user_email user_id later actor moment after ≡ (err e, after))
change_once first_user_email user_id request later actor_id actor now moment s user h same =
    elim (change-cases first_user_email user_id request actor_id now s) [
      | inl (e, refused) ↦ let bad : err e ≡ ok user = sym (ap (λ r. r.0) refused) ∙ h in cc
      | inr (u, granted, first) ↦
          elim (change-cases first_user_email user_id later actor moment
            (change first_user_email user_id request actor_id now s).1) [
              | inl refused ↦ refused
              | inr (v, again, second) ↦
                  let row : some (changed request.action now u) ≡ some v =
                    sym (first.row user_id ∙ reached user_id _ _) ∙ second.found in
                  let newer : v.auth_version ≡ u.auth_version + 1 =
                    sym (ap (λ x. x.auth_version) (some-injective _ _ row))
                    ∙ changed-version request.action now u in
                  let bad : true ≡ false =
                    ground (arith, newer, first.version, second.version, same) in
                  cc
            ]
    ]
