-- ===== src/Auth/Keys/Issue.antt =====
-- An issued key authenticates its machine.
use app_common.Common.{
  ℕ, ◌≤◌, ◌≡◌, refl, String, true, false, Option, none, some, List, [], ◌∷◌, ◌++◌, arith, ◌==◌,
  length, All,
}
use app_common.Table.{get}
use app_common.Auth.Users.{ok}
use app_common.Auth.Keys.{
  Text, Platform, Machine, MachineKey, Store, machine_key, key_key, text_eq, is_past, parsed, cut,
  raw_key, new_key, authenticate, machine, issue,
}

-- The hexadecimal form of a UUID: the standard library reads back what it wrote, and it has no
-- underscore.
pub record IsHex (p : Platform) : Type 0 where
  pub uuid-hex : (i : ℕ) → p.uuid (p.hex i) ≡ some i
  pub plain : (i : ℕ) → All (λ c. (c == 95) ≡ false) (p.hex i)

text_eq_refl : (xs : Text) → text_eq xs xs ≡ true
text_eq_refl [] = refl
text_eq_refl (x ∷ xs) = ground (arith, text_eq_refl xs)

cut-append : (xs ys : Text) → All (λ c. (c == 95) ≡ false) xs → cut (xs ++ 95 ∷ ys) ≡ some (xs, ys)
cut-append [] ys h = refl
cut-append (x ∷ xs) ys h = ground (arith, h.0, cut-append xs ys h.1)

get-append_new :
    (k : MachineKey) (xs : List MachineKey)
    → get key_key k.id xs ≡ none
    → get key_key k.id (xs ++ k ∷ []) ≡ some k
get-append_new k [] h = ground arith
get-append_new k (x ∷ xs) h = ground (arith, get-append_new k xs, h)

module _ (p : Platform) (h : IsHex p) where
  parsed-raw_key :
      (i : ℕ) (secret : Text)
      → 32 ≤ length secret
      → length (raw_key p i secret) ≤ 256
      → parsed p (raw_key p i secret) ≡ ok i
  unfolding parsed raw_key
  parsed-raw_key i secret long short =
      rw (cut-append (p.hex i) secret (h.plain i)) (ground (arith, long, short, h.uuid-hex i))

  -- A key that is issued to an active machine under a fresh identifier, with an expiry that is not
  -- past, is accepted until it expires: the raw text that the caller was given authenticates, and
  -- the answer is the machine with its scopes. The secret has at least 32 characters and the text
  -- at most 256 (`token_urlsafe(32)` gives 43), and the hexadecimal form of an identifier has no
  -- underscore and can be read back.
  pub authenticate-issue :
      (key_id : ℕ) (secret : Text) (now later machine_id : ℕ) (label : String)
      (expires_at : Option ℕ) (s : Store) (m : Machine)
      → 32 ≤ length secret
      → length (raw_key p key_id secret) ≤ 256
      → get machine_key machine_id s.machines ≡ some m
      → m.is_active ≡ true
      → get key_key key_id s.keys ≡ none
      → is_past now expires_at ≡ false
      → is_past later expires_at ≡ false
      → (s' : Store) × (issue p key_id secret now machine_id label expires_at s
          ≡ ok (raw_key p key_id secret, s'))
        × (authenticate p later (raw_key p key_id secret) s'
            ≡ ok (record { machine_id = m.id; key_id = key_id; name = m.name; scopes = m.scopes }))
  unfolding issue machine authenticate
  authenticate-issue key_id secret now later machine_id label expires_at s m long short found active
        fresh not_past live =
      (
        record s { keys = s.keys ++ k ∷ [] },
        ground (arith, found, active, not_past),
        rw (parsed-raw_key key_id secret long short) (
            rw there (
              ground
                (arith, text_eq_refl (p.digest (raw_key p key_id secret)), found, active, live))),
      )
    where
      k : MachineKey
      k = new_key p key_id secret machine_id label expires_at

      there : get key_key key_id (s.keys ++ k ∷ []) ≡ some k
      there = unfold new_key in get-append_new k s.keys fresh
