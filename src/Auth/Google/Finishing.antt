-- ===== src/Auth/Google/Finishing.antt =====
-- What the exchange of a Google sign-in is traded for.
use app_common.Common.{
  ℕ, ◌+◌, ◌*◌, ◌≤◌, ◌≡◌, ◌⊎◌, refl, ap, sym, ◌∙◌, subst, inl, inr, String, true, false, Option,
  none, some, List, arith, ltb, str_eq, if◌then◌else◌, Bool-cases,
}
use app_common.Table.{get, id-get}
use app_common.Auth.Users.{User, ok, err, invalid_credentials}
use app_common.Auth.Access.{user_key}
use app_common.Auth.Tokens.{
  AuthSettings, Signer, IsSigner, is_open, claims_of, access_lifetime, refresh_lifetime,
  password_fingerprint, create_token, create_access_token, create_refresh_token, signed_in,
}
use app_common.Auth.Tokens.Accepted.{expiry, current, signed_in-create_access_token}
use app_common.Auth.Google.{GoogleLoginFlow, GoogleStore, consume}
use app_common.Auth.Google.Flows.{Absent, IsUnique, consume-none, consume-Absent}
use app_common.Auth.Google.Finish.{
  user_at, Token, GoogleLoginResult, flow_user, tokens_for, status_of, with_tokens, finished,
  finish,
}

module _ {T : Type 0} (g : Signer T) (settings : AuthSettings) where
  created-open :
      (now jti : ℕ) (u : User) (typ : String) (lifetime : ℕ) (pwd : Option String)
      → is_open u ≡ true
      → create_token g settings now jti u typ lifetime pwd
        ≡ ok (g.encode (claims_of g settings now jti u typ lifetime pwd))
  unfolding create_token
  created-open now jti u typ lifetime pwd usable = ground (arith, usable)

  tokens_for-open :
      (now jti : ℕ) (u : User)
      → is_open u ≡ true
      → (t : Token T) × (tokens_for g settings now jti u ≡ ok t)
        × (create_access_token g settings now jti u ≡ ok t.access_token)
  unfolding tokens_for create_access_token create_refresh_token
  tokens_for-open now jti u usable =
      let access = created-open now jti u "access" (access_lifetime settings) none usable in
      let refresh =
        created-open now (jti + 1) u "refresh" (refresh_lifetime settings)
          (some (password_fingerprint g u)) usable in
      let t : Token T = record {
        access_token =
            g.encode (claims_of g settings now jti u "access" (access_lifetime settings) none);
        refresh_token = g.encode (
            claims_of g settings now (jti + 1) u "refresh" (refresh_lifetime settings)
              (some (password_fingerprint g u)));
        expires_in = settings.access_token_expire_minutes * 60;
      } in
      (t, rw (access, refresh) refl, access)

  approved-open : (u : User) → str_eq (status_of g settings u) "approved" ≡ is_open u
  approved-open u = elim (Bool-cases u.is_active) [
    | inl active ↦ rw active refl
    | inr suspended ↦ rw suspended refl
  ]

  user_at-get :
      (users : List User) (o : Option ℕ) (u : User)
      → user_at g settings users o ≡ some u
      → get user_key u.id users ≡ some u
  user_at-get users none u h = absurd (cc)
  user_at-get users (some i) u h =
      subst (λ j. get user_key j users ≡ some u) (sym (id-get user_key i users u h)) h

  flow_user-get :
      (users : List User) (f : Option GoogleLoginFlow) (u : User)
      → flow_user g settings users f ≡ some u
      → get user_key u.id users ≡ some u
  flow_user-get users none u h = absurd (cc)
  flow_user-get users (some f) u h = user_at-get users f.user_id u h

  held_flow :
      (users : List User) (o : Option GoogleLoginFlow) (u : User)
      → flow_user g settings users o ≡ some u
      → (f : GoogleLoginFlow) × (o ≡ some f)
  held_flow users none u h = absurd (cc)
  held_flow users (some f) u h = (f, refl)

  -- What a finished sign-in answers for account `u`, seen at the instant `later`.
  pub record Answers (now later : ℕ) (users : List User) (u : User) (r : GoogleLoginResult T)
      : Type 0 where
    pub email : r.email ≡ u.email
    pub tokens :
        ((is_open u ≡ false) × (r.tokens ≡ none))
        ⊎ ((t : Token T) × (is_open u ≡ true)
            × (r.tokens ≡ some t)
            × (signed_in g settings later users t.access_token ≡ (
                if ltb later (expiry settings now (access_lifetime settings))
                then ok u
                else err invalid_credentials)))

  module _ (laws : IsSigner g) where
    signed_in-fresh :
        (now later jti : ℕ) (users : List User) (u : User) (token : T)
        → now ≤ later
        → get user_key u.id users ≡ some u
        → is_open u ≡ true
        → create_access_token g settings now jti u ≡ ok token
        → signed_in g settings later users token ≡ (
            if ltb later (expiry settings now (access_lifetime settings))
            then ok u
            else err invalid_credentials)
    signed_in-fresh now later jti users u token before found usable made =
        let same : current u (some u) ≡ ok u = ground (arith, usable) in
        signed_in-create_access_token g laws settings now later jti u users token before made
        ∙ ap
            (λ c.
              if ltb later (expiry settings now (access_lifetime settings))
              then c
              else err invalid_credentials)
            (ap (current u) found ∙ same)

    finished-Answers :
        (now later jti : ℕ) (s done : GoogleStore) (u : User)
        → now ≤ later
        → get user_key u.id s.users ≡ some u
        → (r : GoogleLoginResult T) × (finished g settings now jti s done (some u) ≡ (ok r, done))
          × Answers now later s.users u r
    finished-Answers now later jti s done u before found = elim (Bool-cases (is_open u)) [
      | inl usable ↦
          let (t, made, access) = tokens_for-open now jti u usable in
          (
            with_tokens g settings u (some t),
            rw (approved-open u, usable, made) refl,
            record {
              email = refl;
              tokens = inr (
                t,
                usable,
                refl,
                signed_in-fresh now later jti s.users u t.access_token before found usable access,
              );
            },
          )
      | inr closed ↦ (
        with_tokens g settings u none,
        rw (approved-open u, closed) refl,
        record { email = refl; tokens = inl (closed, refl) },
      )
    ]

    unused :
        (later jti : ℕ) (exchange : String) (s : GoogleStore)
        → Absent (g.sha256 exchange) s.flows
        → (finish g settings later jti exchange s).0 ≡ err invalid_credentials
    unfolding finish
    unused later jti exchange s gone =
        rw (consume-none (g.sha256 exchange) (g.sha256 exchange) later s.flows gone) refl

    exchanged :
        (now later jti : ℕ) (exchange : String) (s : GoogleStore) (u : User)
        → now ≤ later
        → flow_user g settings s.users
            (consume (g.sha256 exchange) (g.sha256 exchange) now s.flows).0
          ≡ some u
        → (r : GoogleLoginResult T) × (finish g settings now jti exchange s ≡ (
          ok r,
          record s { flows = (consume (g.sha256 exchange) (g.sha256 exchange) now s.flows).1 },
        ))
          × Answers now later s.users u r
    unfolding finish
    exchanged now later jti exchange s u before held =
        let taken = consume (g.sha256 exchange) (g.sha256 exchange) now s.flows in
        rw held (
          finished-Answers now later jti s (record s { flows = taken.1 }) u before
            (flow_user-get s.users taken.0 u held))

    -- Under the primary key of the flows, an exchange that holds an account is traded without an
    -- exception, and is used up: no flow is left under its hash, and whoever trades it in again right
    -- after it, at whatever time, is refused. The accounts and the identities stay as they are. The
    -- answer has the account's email, and tokens if and only if the account is active and approved:
    -- then the access token signs in that account until it expires, as long as the account stays as
    -- it is. Tokens decode to the claims that were encoded.
    pub finish-Answers :
        (now later jti : ℕ) (exchange : String) (s : GoogleStore) (u : User)
        → now ≤ later
        → IsUnique s.flows
        → flow_user g settings s.users
            (consume (g.sha256 exchange) (g.sha256 exchange) now s.flows).0
          ≡ some u
        → (r : GoogleLoginResult T) × (after : GoogleStore) × (finish g settings now jti exchange s
            ≡ (ok r, after))
          × (after.users ≡ s.users)
          × (after.identities ≡ s.identities)
          × Absent (g.sha256 exchange) after.flows
          × ((moment id : ℕ)
              → (finish g settings moment id exchange after).0 ≡ err invalid_credentials)
          × Answers now later s.users u r
    finish-Answers now later jti exchange s u before unique held =
        let taken = consume (g.sha256 exchange) (g.sha256 exchange) now s.flows in
        let after : GoogleStore = record s { flows = taken.1 } in
        let (f, found) = held_flow s.users taken.0 u held in
        let gone =
          consume-Absent (g.sha256 exchange) (g.sha256 exchange) now s.flows f unique found in
        let (r, done, answers) = exchanged now later jti exchange s u before held in
        (
          r,
          after,
          done,
          refl,
          refl,
          gone,
          λ moment id. unused moment id exchange after gone,
          answers,
        )
