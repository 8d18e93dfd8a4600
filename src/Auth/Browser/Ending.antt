-- ===== src/Auth/Browser/Ending.antt =====
-- An access change ends the sessions of its account.
use app_common.Common.{
  subst, find, ℕ, ◌+◌, ◌≤◌, ◌≡◌, ◌≢◌, refl, ap, sym, ◌∙◌, inl, inr, String, Option, none, some,
  List, arith, All,
}
use mathlib.Core.Option
use mathlib.Core.Option.{some-injective}
use app_common.Table.{get, id-get}
use app_common.Table.Select.{find-All}
use app_common.Auth.Users.{User, ok, err, Result-cases}
use app_common.Auth.Access.{Accounts, UserAccessChange, user_key, change, changed}
use app_common.Auth.Access.Records.{change-cases, changed-version, reached}
use app_common.Auth.Keys.{Text}
use app_common.Auth.Browser.{
  Issuer, BrowserSession, is_live, extended, renew, refresh, admitted, user_of,
}

-- The sessions of account `i` were begun at version `v` or before.
abbrev BegunBy : ℕ → ℕ → BrowserSession → Type 0
BegunBy i v b = b.user_id ≡ i → b.auth_version ≤ v

renew-BegunBy :
    (i v : ℕ) (hash : Text) (now expires_at : ℕ) (sessions : List BrowserSession)
    (b : BrowserSession)
    → All (BegunBy i v) sessions
    → (renew hash now expires_at sessions).0 ≡ some b
    → BegunBy i v b
unfolding renew
renew-BegunBy i v hash now expires_at sessions b h e = met (find (is_live hash now) sessions) refl e
  where
    met :
        (o : Option BrowserSession)
        → find (is_live hash now) sessions ≡ o
        → Option.map (extended expires_at) o ≡ some b
        → BegunBy i v b
    met none f g = cc
    met (some x) f g =
        subst (BegunBy i v) (some-injective (extended expires_at x) b g)
          (λ k. find-All (BegunBy i v) (is_live hash now) sessions x h f k)

admitted-current :
    (p : Issuer) (held : BrowserSession) (o : Option User) (u : User)
    → admitted p held o ≡ ok u
    → (o ≡ some u) × (held.auth_version ≡ u.auth_version)
unfolding admitted
admitted-current p held none u h = cc
admitted-current p held (some x) u h =
    let same : some x ≡ some u = ground (arith, h) in
    (same, ground (arith, h, ap (λ y. y.auth_version) (some-injective x u same)))

user_of-current :
    (p : Issuer) (users : List User) (o : Option BrowserSession) (u : User)
    → user_of p users o ≡ ok u
    → (b : BrowserSession) × (o ≡ some b)
      × (get user_key b.user_id users ≡ some u)
      × (b.auth_version ≡ u.auth_version)
unfolding user_of
user_of-current p users none u h = cc
user_of-current p users (some b) u h =
    let (found, current) = admitted-current p b (get user_key b.user_id users) u h in
    (b, refl, found, current)

refresh-user_of :
    (p : Issuer) (now : ℕ) (key : Text) (users : List User) (sessions after : List BrowserSession)
    (u : User)
    → refresh p now key users sessions ≡ ok (u, after)
    → user_of p users (renew (p.hash key) now (now + p.lifetime) sessions).0 ≡ ok u
unfolding refresh
refresh-user_of p now key users sessions after u h =
    elim (Result-cases (user_of p users (renew (p.hash key) now (now + p.lifetime) sessions).0)) [
      | inl (x, e) ↦ ground (arith, h, e)
      | inr (x, e) ↦ ground (arith, h, e)
    ]

-- An access change ends the sessions of its account: after a granted change no session that was begun
-- before it, at the version that the change was made against or an earlier one, yields an access token
-- for that account, whichever key is shown and at any instant.
pub change_ends_sessions :
    (first_user_email : String) (user_id : ℕ) (request : UserAccessChange) (actor_id at : ℕ)
    (s : Accounts) (user : User) (p : Issuer) (now : ℕ) (key : Text)
    (sessions after : List BrowserSession) (u : User)
    → (change first_user_email user_id request actor_id at s).0 ≡ ok user
    → All (BegunBy user_id request.expected_version) sessions
    → refresh p now key (change first_user_email user_id request actor_id at s).1.users sessions
      ≡ ok (u, after)
    → u.id ≢ user_id
change_ends_sessions first_user_email user_id request actor_id at s user p now key sessions after u
      granted old h same =
    let users = (change first_user_email user_id request actor_id at s).1.users in
    elim (change-cases first_user_email user_id request actor_id at s) [
      | inl (e, refused) ↦ let bad : err e ≡ ok user = sym (ap (λ r. r.0) refused) ∙ granted in cc
      | inr (before, done, first) ↦
          let (b, held, found, current) =
            user_of-current p users (renew (p.hash key) now (now + p.lifetime) sessions).0 u
              (refresh-user_of p now key users sessions after u h) in
          let mine : b.user_id ≡ user_id = sym (id-get user_key b.user_id users u found) ∙ same in
          let row : some (changed request.action at before) ≡ some u =
            sym (first.row user_id ∙ reached user_id _ _)
            ∙ ap (λ i. get user_key i users) (sym mine)
            ∙ found in
          let newer : u.auth_version ≡ before.auth_version + 1 =
            sym (ap (λ x. x.auth_version) (some-injective _ _ row))
            ∙ changed-version request.action at before in
          let bounded =
            renew-BegunBy user_id request.expected_version (p.hash key) now (now + p.lifetime)
              sessions b old held mine in
          omega (arith, newer, current, bounded, first.version)
    ]
