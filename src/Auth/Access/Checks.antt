-- ===== src/Auth/Access/Checks.antt =====
-- What passes the checks of user/access_service.py and of user/usecases/admin.py, and the lemmas
-- on the list of accounts for it.
use app_common.Common.{
  ℕ, ◌≡◌, refl, sym, ap, subst, ◌∙◌, inl, inr, String, Bool, true, false, not, ◌&&◌, ◌||◌, Option,
  some, List, [], ◌∷◌, leb, ◌==◌, str_eq, length, filter, any, find, arith, Bool-cases,
}
use mathlib.Core.Option.{some-injective}
use app_common.Table.{get, update_where}
use app_common.Table.Select.{find-filter}
use app_common.Auth.Users.{
  User, permission_denied, ok, is_approved, is_usable, ok-injective, bind-ok, require-ok,
  refuse_if-ok,
}
use app_common.Auth.Access.{
  Action, UserAccessChange, user_key, lock_admins, lock_user, is_reducing, needs_approval, act,
  changed, acting_admin, checked, is_retained, deletable,
}

abbrev pub is_admin : User → Bool
is_admin u = u.is_superadmin && is_usable u

abbrev pub is_admin_at : ℕ → User → Bool
is_admin_at i u = u.id == i && is_admin u

-- The facts that the checks of `change` establish.
pub record Allowed (first_user_email : String) (request : UserAccessChange) (actor_id user_id : ℕ)
    (users : List User) (user : User) : Type 0 where
  pub acting : any (is_admin_at actor_id) users ≡ true
  pub found : get user_key user_id users ≡ some user
  pub current : not (user.auth_version == request.expected_version) ≡ false
  pub retained :
      (is_reducing request.action && (user.id == actor_id || str_eq user.email first_user_email))
      ≡ false
  pub not_last :
      (is_reducing request.action
        && user.is_superadmin
        && leb (length (filter is_usable (lock_admins users))) 1)
      ≡ false
  pub approved : (needs_approval request.action && not (is_approved user)) ≡ false

any-find :
    (p q : User → Bool) (xs : List User) (x : User)
    → find p xs ≡ some x
    → ((u : User) → p u ≡ true → u ≡ x → q u ≡ true)
    → any q xs ≡ true
any-find p q [] x e h = cc
any-find p q (y ∷ xs) x e h = elim (Bool-cases (p y)) [
  | inl hit ↦ rw (h y hit (some-injective y x (rw hit at e))) refl
  | inr miss ↦ rw (any-find p q xs x (rw miss at e) h) (ground arith)
]

acting_admin-ok :
    (actor_id : ℕ) (users : List User) (actor : User)
    → acting_admin actor_id users ≡ ok actor
    → any (is_admin_at actor_id) users ≡ true
unfolding acting_admin lock_admins
acting_admin-ok actor_id users actor h =
    let (a, ha, rest) = bind-ok _ _ _ h in
    let found =
      require-ok (find (λ u. u.id == actor_id) (filter (λ u. u.is_superadmin) users))
        permission_denied a ha in
    let (t, ht, _) = bind-ok _ _ _ rest in
    let usable = refuse_if-ok (not (is_usable a)) permission_denied t ht in
    any-find _ (is_admin_at actor_id) users a
      (sym (find-filter (λ u. u.is_superadmin) (λ u. u.id == actor_id) users) ∙ found)
      (λ u hit same. ground (arith, ap is_usable same))

pub checked-ok :
    (first_user_email : String) (user_id : ℕ) (request : UserAccessChange) (actor_id : ℕ)
    (users : List User) (user : User)
    → checked first_user_email user_id request actor_id users ≡ ok user
    → Allowed first_user_email request actor_id user_id users user
unfolding checked lock_user
checked-ok first_user_email user_id request actor_id users user h =
    let (actor, h1, r1) = bind-ok _ _ _ h in
    let (u, h2, r2) = bind-ok _ _ _ r1 in
    let (t3, h3, r3) = bind-ok _ _ _ r2 in
    let (t4, h4, r4) = bind-ok _ _ _ r3 in
    let (t5, h5, r5) = bind-ok _ _ _ r4 in
    let (t6, h6, r6) = bind-ok _ _ _ r5 in
    let same : u ≡ user = ok-injective r6 in
    subst (Allowed first_user_email request actor_id user_id users) same (record {
      acting = acting_admin-ok actor_id users actor h1;
      found = require-ok _ _ _ h2;
      current = refuse_if-ok _ _ _ h3;
      retained = refuse_if-ok _ _ _ h4;
      not_last = refuse_if-ok _ _ _ h5;
      approved = refuse_if-ok _ _ _ h6;
    })

pub any-update_where :
    (p hit : User → Bool) (f : User → User)
    → ((u : User) → hit u ≡ true → p u ≡ true → p (f u) ≡ true)
    → (xs : List User) → any p xs ≡ true
    → any p (update_where hit f xs) ≡ true
any-update_where p hit f keep [] h = h
any-update_where p hit f keep (x ∷ xs) h = elim (Bool-cases (hit x)) [
  | inl e ↦ rw e (ground (arith, keep x e, any-update_where p hit f keep xs, h))
  | inr e ↦ rw e (ground (arith, any-update_where p hit f keep xs, h))
]

pub any-filter :
    (p q : User → Bool)
    → ((u : User) → p u ≡ true → q u ≡ true)
    → (xs : List User) → any p xs ≡ true
    → any p (filter q xs) ≡ true
any-filter p q keep [] h = h
any-filter p q keep (x ∷ xs) h = elim (Bool-cases (q x)) [
  | inl e ↦ rw e (ground (arith, any-filter p q keep xs, h))
  | inr e ↦ rw e (ground (arith, any-filter p q keep xs, h, keep x, e))
]

pub any-weaken :
    (p q : User → Bool)
    → ((u : User) → p u ≡ true → q u ≡ true)
    → (xs : List User) → any p xs ≡ true
    → any q xs ≡ true
any-weaken p q weaker [] h = h
any-weaken p q weaker (x ∷ xs) h = ground (arith, weaker x, any-weaken p q weaker xs, h)

-- A change that takes no rights away leaves an administrator one, and no change touches the id.
pub changed-is_admin :
    (a : Action) (now : ℕ) (u : User)
    → is_reducing a ≡ false
    → is_admin u ≡ true
    → is_admin (changed a now u) ≡ true
unfolding changed act
changed-is_admin Action.approve now u h k = ground (arith, k)
changed-is_admin Action.activate now u h k = ground (arith, k)
changed-is_admin Action.promote now u h k = ground (arith, k)
changed-is_admin Action.reject now u h k = cc
changed-is_admin Action.suspend now u h k = cc
changed-is_admin Action.demote now u h k = cc

-- The facts that the checks of the deletion establish: the actor, and what the row is not.
pub deletable-ok :
    (first_user_email : String) (user_id current_id : ℕ) (users : List User) (target : Option User)
    → deletable first_user_email user_id current_id users ≡ ok target
    → (any (is_admin_at current_id) users ≡ true)
      × ((current_id == user_id) ≡ false)
      × (is_retained first_user_email target ≡ false)
      × (target ≡ get user_key user_id users)
unfolding deletable lock_user
deletable-ok first_user_email user_id current_id users target h =
    let (t1, h1, r1) = bind-ok _ _ _ h in
    let (actor, h2, r2) = bind-ok _ _ _ r1 in
    let (t3, h3, r3) = bind-ok _ _ _ r2 in
    let same : get user_key user_id users ≡ target = ok-injective r3 in
    (
      acting_admin-ok current_id users actor h2,
      refuse_if-ok _ _ _ h1,
      subst (λ o. is_retained first_user_email o ≡ false) same (refuse_if-ok _ _ _ h3),
      sym same,
    )
