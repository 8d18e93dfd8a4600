-- ===== src/Auth/Tokens/Ending.antt =====
-- A token is good for one purpose, and an access change ends the tokens of its account.
use app_common.Common.{
  ℕ, ◌≤◌, ◌≡◌, ◌≢◌, refl, ap, sym, ◌∙◌, inl, inr, String, Bool, true, false, none, some, List,
  arith, ltb, if◌then◌else◌,
}
use app_common.Table.{get}
use app_common.Auth.Users.{User, ok, err, invalid_credentials}
use app_common.Auth.Access.{Accounts, UserAccessChange, user_key, change, changed}
use app_common.Auth.Access.Records.{change-cases, changed-version, reached}
use app_common.Auth.Tokens.{
  AuthSettings, Claims, Signer, IsSigner, claims_of, password_fingerprint, access_lifetime,
  refresh_lifetime, create_access_token, create_refresh_token, refresh_user, signed_in, decoded,
}
use app_common.Auth.Tokens.Accepted.{
  unchanged, current, expiry, decoded-created, token_data-payload, token_data-expired,
  refresh_user-create_refresh_token, signed_in-create_access_token,
}

module _ {T : Type 0} (g : Signer T) (laws : IsSigner g) (s : AuthSettings) where
  refused_refresh :
      (later jti : ℕ) (u : User) (users : List User) (token : T) (c : Claims) (b : Bool)
      → c.typ ≡ "refresh"
      → c.user_id ≡ some (g.uuid_text u.id)
      → decoded g s later token ≡ (if b then some c else none)
      → signed_in g s later users token ≡ err invalid_credentials
  unfolding signed_in
  refused_refresh later jti u users token c true typ named read =
      rw (token_data-payload g laws s later token c u.id read named, typ) refl
  refused_refresh later jti u users token c false typ named read =
      rw (token_data-expired g laws s later token read) refl

  refused_access :
      (later : ℕ) (users : List User) (token : T) (c : Claims) (b : Bool)
      → c.typ ≡ "access"
      → decoded g s later token ≡ (if b then some c else none)
      → refresh_user g s later users token ≡ none
  unfolding refresh_user
  refused_access later users token c true typ read = rw (read, typ) refl
  refused_access later users token c false typ read = rw read refl

  -- An access token that was made for an account is never taken for a refresh token, and a refresh
  -- token never signs in.
  pub tokens_apart :
      (now later jti : ℕ) (u v : User) (users : List User) (access refresh : T)
      → now ≤ later
      → create_access_token g s now jti u ≡ ok access
      → create_refresh_token g s now jti v ≡ ok refresh
      → (refresh_user g s later users access ≡ none)
        × (signed_in g s later users refresh ≡ err invalid_credentials)
  unfolding create_access_token create_refresh_token
  tokens_apart now later jti u v users access refresh before h k = (
    refused_access later users access (claims_of g s now jti u "access" (access_lifetime s) none)
        (ltb later (expiry s now (access_lifetime s))) refl
        (decoded-created g laws s now later jti u "access" (access_lifetime s) none access before
          h),
    refused_refresh later jti v users refresh
        (claims_of g s now jti v "refresh" (refresh_lifetime s) (some (password_fingerprint g v)))
        (ltb later (expiry s now (refresh_lifetime s))) refl refl
        (decoded-created g laws s now later jti v "refresh" (refresh_lifetime s)
          (some (password_fingerprint g v)) refresh before k),
  )

  outdated :
      (u v : User) (b : Bool)
      → u.auth_version ≢ v.auth_version
      → ((if b then unchanged g u (some v) else none) ≡ none)
        × ((if b then current u (some v) else err invalid_credentials) ≡ err invalid_credentials)
  outdated u v true newer = (ground (arith, newer), ground (arith, newer))
  outdated u v false newer = (refl, refl)

  -- A granted access change ends the tokens of its account: a token that was made for the account at
  -- the version that the change was made against, or an earlier one, is refused afterwards, an access
  -- token as bad credentials and a refresh token without an account.
  pub change_ends_tokens :
      (first_user_email : String) (request : UserAccessChange) (actor_id at : ℕ) (a : Accounts)
      (u user : User) (now later jti : ℕ) (access refresh : T)
      → (change first_user_email u.id request actor_id at a).0 ≡ ok user
      → u.auth_version ≤ request.expected_version
      → now ≤ later
      → create_access_token g s now jti u ≡ ok access
      → create_refresh_token g s now jti u ≡ ok refresh
      → (refresh_user g s later (change first_user_email u.id request actor_id at a).1.users refresh
          ≡ none)
        × (signed_in g s later (change first_user_email u.id request actor_id at a).1.users access
            ≡ err invalid_credentials)
  change_ends_tokens first_user_email request actor_id at a u user now later jti access refresh
        granted old before h k =
      let users = (change first_user_email u.id request actor_id at a).1.users in
      elim (change-cases first_user_email u.id request actor_id at a) [
        | inl (e, refused) ↦ let bad : err e ≡ ok user = sym (ap (λ r. r.0) refused) ∙ granted in cc
        | inr (was, done, first) ↦
            let v = changed request.action at was in
            let row : get user_key u.id users ≡ some v = first.row u.id ∙ reached u.id _ _ in
            let newer : u.auth_version ≢ v.auth_version =
              ground (arith, old, first.version, changed-version request.action at was) in
            (
              refresh_user-create_refresh_token g laws s now later jti u users refresh before k
                  ∙ rw row (outdated u v (ltb later (expiry s now (refresh_lifetime s))) newer).0,
              signed_in-create_access_token g laws s now later jti u users access before h
                  ∙ rw row (outdated u v (ltb later (expiry s now (access_lifetime s))) newer).1,
            )
      ]
