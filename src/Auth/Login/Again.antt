-- ===== src/Auth/Login/Again.antt =====
-- A sign-in with a password can be repeated, also when it has replaced the hash.
use mathlib.Core.Option
use mathlib.Core.Option.{some-injective}
use app_common.Common.{
  ℕ, ◌≡◌, ◌⊎◌, refl, ap, sym, ◌∙◌, inl, inr, String, true, false, not, ◌||◌, Option, none, some,
  List, arith, ◌==◌, str_eq, if◌then◌else◌, Bool-cases,
}
use app_common.Table.Update.{find-update_where}
use app_common.Table.{update_where}
use app_common.Auth.Users.{User, is_approved}
use app_common.Auth.Passwords.{Hashers, IsHashers, hash, verify, needs_rehash}
use app_common.Auth.Login.{with_hash, get_by_email, rehashed, verified, answered, authenticate}

module _ (p : Hashers) (laws : IsHashers p) where
  hash-verify : (salt : ℕ) (password : String) → verify p password (hash p salt password) ≡ true
  unfolding verify
  hash-verify salt password = rw (laws.is_argon2 salt password, laws.verifies salt password) refl

  hash-needs_rehash : (salt : ℕ) (password : String) → needs_rehash p (hash p salt password) ≡ false
  unfolding needs_rehash
  hash-needs_rehash salt password =
      rw (laws.is_argon2 salt password, laws.is_current salt password) refl

  -- What a sign-in that succeeds did with the account `u` that it found.
  record Signed (salt : ℕ) (password : String) (u : User) (users : List User) (v : User)
      (after : List User) : Type 0 where
    pub active : v.is_active ≡ true
    pub approved : is_approved v ≡ true
    pub stored : String
    pub held : v.hashed_password ≡ some stored
    pub checks : verify p password stored ≡ true
    pub lasts : needs_rehash p stored ≡ false
    pub same_or_rehashed :
        ((v ≡ u) × (after ≡ users)) ⊎ ((some v, after) ≡ rehashed (hash p salt password) u users)

  verified-Signed :
      (salt : ℕ) (password : String) (u v : User) (users after : List User) (o : Option String)
      → u.hashed_password ≡ o
      → verified p salt password users u o ≡ (some v, after)
      → Signed salt password u users v after
  verified-Signed salt password u v users after none e h =
      let bad : none ≡ some v = ap (λ r. r.0) h in cc
  verified-Signed salt password u v users after (some stored) e h =
      elim (Bool-cases (not u.is_active || not (is_approved u) || not (verify p password stored))) [
        | inl refused ↦ let bad : none ≡ some v = ap (λ r. r.0) (rw refused at h) in cc
        | inr passed ↦
            let active : u.is_active ≡ true = ground (arith, passed) in
            let approved : is_approved u ≡ true = ground (arith, passed) in
            let checks : verify p password stored ≡ true = ground (arith, passed) in
            elim (Bool-cases (needs_rehash p stored)) [
              | inl old ↦
                  let done : rehashed (hash p salt password) u users ≡ (some v, after) =
                    rw (passed, old) at h in
                  let row : with_hash (hash p salt password) u ≡ v =
                    some-injective _ _ (ap (λ r. r.0) done) in
                  record {
                    active = ap (λ x. x.is_active) (sym row) ∙ active;
                    approved = ap is_approved (sym row) ∙ approved;
                    stored = hash p salt password;
                    held = ap (λ x. x.hashed_password) (sym row);
                    checks = hash-verify salt password;
                    lasts = hash-needs_rehash salt password;
                    same_or_rehashed = inr (sym done);
                  }
              | inr fresh ↦
                  let done : (some u, users) ≡ (some v, after) = rw (passed, fresh) at h in
                  let row : u ≡ v = some-injective _ _ (ap (λ r. r.0) done) in
                  record {
                    active = ap (λ x. x.is_active) (sym row) ∙ active;
                    approved = ap is_approved (sym row) ∙ approved;
                    stored = stored;
                    held = ap (λ x. x.hashed_password) (sym row) ∙ e;
                    checks = checks;
                    lasts = fresh;
                    same_or_rehashed = inl (sym row, sym (ap (λ r. r.1) done));
                  }
            ]
      ]

  verified-same :
      (salt next : ℕ) (password : String) (u v : User) (users after : List User)
      → Signed salt password u users v after
      → verified p next password after v v.hashed_password ≡ (some v, after)
  verified-same salt next password u v users after signed =
      rw (signed.held, signed.active, signed.approved, signed.checks, signed.lasts) refl

  found-again :
      (salt : ℕ) (email password : String) (u v : User) (users after : List User)
      → get_by_email email users ≡ some u
      → Signed salt password u users v after
      → get_by_email email after ≡ some v
  found-again salt email password u v users after found signed = elim signed.same_or_rehashed [
    | inl (same, kept) ↦ rw (same, kept) found
    | inr done ↦
        let h = hash p salt password in
        let moved : after ≡ update_where (λ x. x.id == u.id) (with_hash h) users =
          ap (λ r. r.1) done in
        let row : v ≡ with_hash h u = some-injective _ _ (ap (λ r. r.0) done) in
        let hit : (u.id == u.id) ≡ true = ground arith in
        ap (get_by_email email) moved
        ∙ find-update_where (λ x. str_eq x.email email) (λ x. x.id == u.id) (with_hash h)
            (λ x. refl) users
        ∙ ap (Option.map (λ x. if x.id == u.id then with_hash h x else x)) found
        ∙ ap (λ b. some (if b then with_hash h u else u)) hit
        ∙ ap some (sym row)
  ]

  answered-Signed :
      (salt : ℕ) (password : String) (users after : List User) (v : User) (o : Option User)
      → answered p salt password users o ≡ (some v, after)
      → (u : User) × (o ≡ some u) × Signed salt password u users v after
  answered-Signed salt password users after v none h =
      let bad : none ≡ some v = ap (λ r. r.0) h in absurd (cc)
  answered-Signed salt password users after v (some u) h =
      (u, refl, verified-Signed salt password u v users after u.hashed_password refl h)

  -- A sign-in with a password that succeeds returns an active, approved account whose stored hash the
  -- password passes and that need not be replaced; the same sign-in done again, with whatever salt,
  -- succeeds with the same account and changes no row. Hashes that are made pass for their password,
  -- are Argon2 hashes and need no replacement.
  pub authenticate_again :
      (salt next : ℕ) (email password : String) (users after : List User) (v : User)
      → authenticate p salt email password users ≡ (some v, after)
      → (v.is_active ≡ true)
        × (is_approved v ≡ true)
        × ((stored : String) × (v.hashed_password ≡ some stored)
            × (verify p password stored ≡ true)
            × (needs_rehash p stored ≡ false))
        × (authenticate p next email password after ≡ (some v, after))
  unfolding authenticate
  authenticate_again salt next email password users after v h =
      let (u, found, signed) =
        answered-Signed salt password users after v (get_by_email email users) h in
      (
        signed.active,
        signed.approved,
        (signed.stored, signed.held, signed.checks, signed.lasts),
        rw (found-again salt email password u v users after found signed)
            (verified-same salt next password u v users after signed),
      )
