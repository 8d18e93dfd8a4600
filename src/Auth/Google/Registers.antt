-- ===== src/Auth/Google/Registers.antt =====
-- Whose account a Google sign-in hands off, and what it does to the accounts that are there.
use app_common.Common.{
  ◌≡◌, ◌⊎◌, refl, ap, sym, ◌∙◌, subst, inl, inr, String, Bool, true, false, Option, none, some,
  List, [], ◌∷◌, ◌++◌, arith, ◌==◌, str_eq, eq_iff, Bool-cases, find, any,
}
use app_common.Auth.Users.{User, AuthError, Result, ok, err, integrity_error, user_already_exists}
use app_common.Auth.Tokens.{AuthSettings}
use app_common.Auth.Google.{
  GoogleStore, GoogleIdentity, ExternalIdentity, Google, google_issuer, is_subject, account_of,
  identity_user,
}
use app_common.Auth.Google.Callback.{
  Visit, registered, breaks_unique, insert_user, register, is_integrity_error, is_taken, new_user,
}

find-last :
    {A : Type 0} (p : A → Bool) (xs : List A) (x : A)
    → any p xs ≡ false
    → p x ≡ true
    → find p (xs ++ x ∷ []) ≡ some x
find-last p [] x none_yet hit = rw hit refl
find-last p (y ∷ ys) x none_yet hit = ground (arith, find-last p ys x, hit, none_yet)

-- What an INSERT that succeeds leaves.
record Inserted (u : User) (subject : String) (s b : GoogleStore) : Type 0 where
  unique : any (λ x. str_eq x.email u.email) s.users ≡ false
  users : b.users ≡ s.users ++ u ∷ []
  link : identity_user subject b ≡ some u

insert_user-cases :
    (u : User) (subject : String) (s : GoogleStore)
    → any (λ x. x.id == u.id) s.users ≡ false
    → (insert_user u subject s ≡ (err integrity_error, s))
      ⊎ ((b : GoogleStore) × (insert_user u subject s ≡ (ok u, b)) × Inserted u subject s b)
unfolding insert_user identity_user
insert_user-cases u subject s fresh = elim (Bool-cases (breaks_unique u subject s)) [
  | inl broken ↦ inl (rw broken refl)
  | inr free ↦
      let row : ExternalIdentity = record {
        user_id = u.id;
        issuer = google_issuer;
        subject = subject;
      } in
      let unlinked : any (is_subject subject) s.identities ≡ false = ground (arith, free) in
      let hit : is_subject subject row ≡ true = ground (arith, eq_iff subject subject) in
      inr (
        record {
          users = s.users ++ u ∷ [];
          identities = s.identities ++ row ∷ [];
          flows = s.flows;
        },
        rw free refl,
        record {
          unique = ground (arith, free);
          users = refl;
          link =
              ap (account_of (s.users ++ u ∷ []))
                (find-last (is_subject subject) s.identities row unlinked hit)
              ∙ find-last (λ x. x.id == u.id) s.users u fresh (ground arith);
        },
      )
]

module _ (o : Google) (settings : AuthSettings) (v : Visit) (identity : GoogleIdentity)
    (base : GoogleStore) where
  -- A new account.
  pub record Added (u : User) (b : GoogleStore) : Type 0 where
    pub email : u.email ≡ identity.email
    pub not_first : str_eq (o.casefold u.email) (o.casefold settings.first_user_email) ≡ false
    pub unknown : any (λ x. str_eq (o.sql_lower x.email) (o.lower u.email)) base.users ≡ false
    pub unique : any (λ x. str_eq x.email u.email) (v.others base).users ≡ false
    pub ordinary : u.is_superadmin ≡ false
    pub users : b.users ≡ (v.others base).users ++ u ∷ []

  -- The account is linked to the subject, and the accounts are as others left them, or have it added.
  pub record Linked (u : User) (b : GoogleStore) : Type 0 where
    pub link : identity_user identity.subject b ≡ some u
    pub accounts : (b ≡ base) ⊎ ((b ≡ v.others base) ⊎ Added u b)

  pub record Registered (r : Result User × GoogleStore) : Type 0 where
    pub linked : (u : User) → r.0 ≡ ok u → Linked u r.1
    pub rolled_back :
        (e : AuthError) → r.0 ≡ err e → is_integrity_error e ≡ true → r.1 ≡ v.others base

  refused-Registered :
      (e : AuthError) (b : GoogleStore)
      → (is_integrity_error e ≡ true → b ≡ v.others base)
      → Registered (err e, b)
  refused-Registered e b back = record {
    linked = λ w h. let bad : err e ≡ ok w = h in absurd (cc);
    rolled_back = λ f h i.
        let same : e ≡ f = cc in back (subst (λ x. is_integrity_error x ≡ true) (sym same) i);
  }

  added-Registered :
      (u : User) (b : GoogleStore)
      → str_eq (o.casefold u.email) (o.casefold settings.first_user_email) ≡ false
      → any (λ x. str_eq (o.sql_lower x.email) (o.lower u.email)) base.users ≡ false
      → u.email ≡ identity.email
      → u.is_superadmin ≡ false
      → Inserted u identity.subject (v.others base) b
      → Registered (ok u, b)
  added-Registered u b not_first free named ordinary new = record {
    linked = λ w e.
        let same : u ≡ w = cc in
        subst (λ x. Linked x b) same
          (record {
            link = new.link;
            accounts = inr (
                inr (record {
                  email = named;
                  not_first = not_first;
                  unknown = free;
                  unique = new.unique;
                  ordinary = ordinary;
                  users = new.users;
                }));
          });
    rolled_back = λ e h i. let bad : ok u ≡ err e = h in absurd (cc);
  }

  registered-Registered :
      (u : Option User)
      → identity_user identity.subject base ≡ u
      → any (λ x. x.id == v.id) (v.others base).users ≡ false
      → Registered (registered o settings v.id v.stored_at identity v.others base u)
  registered-Registered (some u) found fresh = record {
    linked =
        λ w e. let same : u ≡ w = cc in record { link = found ∙ ap some same; accounts = inl refl };
    rolled_back = λ e h i. let bad : ok u ≡ err e = h in absurd (cc);
  }
  registered-Registered none found fresh =
      elim (Bool-cases (is_taken o settings identity base.users)) [
        | inl taken ↦ rw taken (refused-Registered user_already_exists base (λ i. absurd (cc)))
        | inr free ↦
            let u = new_user settings v.id v.stored_at identity in
            rw free (elim (insert_user-cases u identity.subject (v.others base) fresh) [
              | inl broken ↦
                  subst Registered (sym broken)
                    (refused-Registered integrity_error (v.others base) (λ i. refl))
              | inr (b, done, new) ↦
                  subst Registered (sym done) (
                    added-Registered u b (ground (arith, free)) (ground (arith, free)) refl refl
                      new)
            ])
      ]

  pub register-Registered :
      any (λ x. x.id == v.id) (v.others base).users ≡ false
      → Registered (register o settings v.id v.stored_at identity v.others base)
  unfolding register
  register-Registered fresh = registered-Registered (identity_user identity.subject base) refl fresh
