-- ===== src/Auth/Profile/Bounded.antt =====
-- What a change of a profile can reach.
use app_common.Common.{
  ℕ, ◌≡◌, refl, ap, sym, ◌∙◌, subst, ◌⊎◌, inl, inr, String, true, false, not, ◌&&◌, ◌||◌, Option,
  none, some, List, arith, ◌==◌, str_eq, eq_iff, if◌then◌else◌, Bool-cases,
}
use mathlib.Core.Option
use app_common.Table.{get, update_where, get-update_where, id-get}
use app_common.Auth.Users.{User}
use app_common.Auth.Access.{user_key}
use app_common.Auth.Passwords.{Hashers, hash}
use app_common.Auth.Tokens.{AuthSettings}
use app_common.Auth.Profile.{
  Field, given, unset, null, UserUpdate, with_email, with_password, moves, is_managed, breaks_email,
  has_row, applied, update_user, update_execute,
}

module _ (p : Hashers) (s : AuthSettings) (salt : ℕ) (request : UserUpdate) where
  email_id : (f : Field) (u : User) → (with_email f u).id ≡ u.id
  email_id unset u = refl
  email_id null u = refl
  email_id (given e) u = refl

  password_id : (h : Option String) (u : User) → (with_password h u).id ≡ u.id
  password_id none u = refl
  password_id (some h) u = refl

  applied-id : (u : User) → (applied p salt request u).id ≡ u.id
  unfolding applied
  applied-id u =
      password_id (Option.map (hash p salt) request.password) (with_email request.email u)
      ∙ email_id request.email u

  updated_email :
      (f : Field) (u : User) → moves f u.email ≡ false → (with_email f u).email ≡ u.email
  updated_email unset u h = refl
  updated_email null u h = refl
  updated_email (given e) u h = ground (arith, h, eq_iff e u.email)

  password_email : (h : Option String) (u : User) → (with_password h u).email ≡ u.email
  password_email none u = refl
  password_email (some h) u = refl

  applied-email :
      (u : User) → moves request.email u.email ≡ false → (applied p salt request u).email ≡ u.email
  unfolding applied
  applied-email u h =
      password_email (Option.map (hash p salt) request.password) (with_email request.email u)
      ∙ updated_email request.email u h

  -- What becomes of account `u` of key `i` if the account `user_id` may be written.
  abbrev pub Kept : ℕ → ℕ → User → List User → Type 0
  Kept user_id i u after =
      (v : User) × (get user_key i after ≡ some v)
      × ((v ≡ u) ⊎ (i ≡ user_id))
      × ((not (str_eq u.email s.first_user_email) || str_eq v.email s.first_user_email) ≡ true)

  untouched-Kept :
      (user_id i : ℕ) (u : User) (users : List User)
      → get user_key i users ≡ some u
      → Kept user_id i u users
  untouched-Kept user_id i u users found = (u, found, inl refl, ground arith)

  stays_bootstrap :
      (u : User)
      → is_managed s request (some u) ≡ false
      → (not (str_eq u.email s.first_user_email)
          || str_eq (applied p salt request u).email s.first_user_email)
        ≡ true
  unfolding is_managed
  stays_bootstrap u free = elim (Bool-cases (str_eq u.email s.first_user_email)) [
    | inl bootstrap ↦
        let stays : moves request.email u.email ≡ false = ground (arith, bootstrap, free) in
        rw (bootstrap, applied-email u stays, bootstrap) refl
    | inr other ↦ ground (arith, other)
  ]

  moved-Kept :
      (user_id i : ℕ) (u : User) (users : List User)
      → is_managed s request (get user_key user_id users) ≡ false
      → get user_key i users ≡ some u
      → Kept user_id i u (update_where (λ x. x.id == user_id) (applied p salt request) users)
  moved-Kept user_id i u users free found =
      let seen =
        get-update_where user_key (λ x. x.id == user_id) (applied p salt request) applied-id i users
        ∙ ap (Option.map (λ x. if x.id == user_id then applied p salt request x else x)) found in
      elim (Bool-cases (u.id == user_id)) [
        | inl target ↦
            let same : i ≡ user_id = ground (arith, target, id-get user_key i users u found) in
            let there : get user_key user_id users ≡ some u =
              subst (λ j. get user_key j users ≡ some u) same found in
            (
              applied p salt request u,
              seen ∙ rw target refl,
              inr same,
              stays_bootstrap u (ap (is_managed s request) (sym there) ∙ free),
            )
        | inr other ↦ (u, seen ∙ rw other refl, inl refl, ground arith)
      ]

  update_user-Kept :
      (user_id i : ℕ) (u : User) (users : List User)
      → get user_key i users ≡ some u
      → Kept user_id i u (update_user p s salt request user_id users).1
  unfolding update_user
  update_user-Kept user_id i u users found =
      elim (Bool-cases (is_managed s request (get user_key user_id users))) [
        | inl managed ↦ rw managed (untouched-Kept user_id i u users found)
        | inr free ↦
            elim (Bool-cases
              (has_row (get user_key user_id users) && breaks_email request.email user_id users)) [
                | inl broken ↦ rw (free, broken) (untouched-Kept user_id i u users found)
                | inr kept ↦ rw (free, kept) (moved-Kept user_id i u users free found)
              ]
      ]

  -- A change of a profile by email and password keeps every account there is. It changes an account
  -- only if that is the account asked for, and whoever asks has the same id or is an administrator;
  -- and an account with the bootstrap email still has it afterwards, whoever asks and whether the
  -- change is granted or not.
  pub update_execute-Keeps :
      (user_id i : ℕ) (current_user u : User) (users : List User)
      → get user_key i users ≡ some u
      → let after = (update_execute p s salt request user_id current_user users).1 in
        (v : User) × (get user_key i after ≡ some v)
        × ((v ≡ u)
            ⊎ ((i ≡ user_id) × ((current_user.id == user_id || current_user.is_superadmin) ≡ true)))
        × ((not (str_eq u.email s.first_user_email) || str_eq v.email s.first_user_email) ≡ true)
  unfolding update_execute
  update_execute-Keeps user_id i current_user u users found =
      elim (Bool-cases (not (current_user.id == user_id) && not current_user.is_superadmin)) [
        | inl stranger ↦ rw stranger (u, found, inl refl, ground arith)
        | inr allowed ↦
            let (v, there, cause, bootstrap) = update_user-Kept user_id i u users found in
            rw allowed (
              v,
              there,
              elim cause [ inl same ↦ inl same | inr own ↦ inr (own, ground (arith, allowed)) ],
              bootstrap,
            )
      ]
