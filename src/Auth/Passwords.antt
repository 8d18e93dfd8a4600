-- ===== src/Auth/Passwords.antt =====
-- user/passwords.py: hashes of passwords, by Argon2id, with bcrypt for the hashes written before it.
-- The two libraries, and the bytes of a text, are an argument; an exception of theirs is `none`.
use text.Mathlib.Text.{starts_with}
use app_common.Common.{
  ℕ, String, Bool, true, false, ◌||◌, Option, none, some, List, take, ◌≡◌, if◌then◌else◌,
}

-- The salt of a hash is drawn by Argon2; here it is given.
pub record Hashers : Type 0 where
  pub encode : String → List ℕ
  pub argon2_hash : ℕ → String → String
  pub argon2_verify : String → String → Option Bool
  pub check_needs_rehash : String → Option Bool
  pub checkpw : List ℕ → List ℕ → Option Bool

abbrev pub is_bcrypt : String → Bool
is_bcrypt h = starts_with h "$2a$" || starts_with h "$2b$" || starts_with h "$2y$"

abbrev pub bcrypt_max_bytes : ℕ
bcrypt_max_bytes = 72

abbrev pub or_else : Bool → Option Bool → Bool
or_else b none = b
or_else b (some x) = x

abbrev pub hash : Hashers → ℕ → String → String
hash p salt password = p.argon2_hash salt password

unfoldable pub verify : Hashers → String → String → Bool
verify p password hashed_password =
    if is_bcrypt hashed_password
    then or_else false
        (p.checkpw (take bcrypt_max_bytes (p.encode password)) (p.encode hashed_password))
    else or_else false (p.argon2_verify hashed_password password)

unfoldable pub needs_rehash : Hashers → String → Bool
needs_rehash p hashed_password =
    if is_bcrypt hashed_password then true else or_else true (p.check_needs_rehash hashed_password)

-- What the libraries document: a new hash is an Argon2 hash of the password with the parameters in use.
pub record IsHashers (p : Hashers) : Type 0 where
  pub is_argon2 : (salt : ℕ) (password : String) → is_bcrypt (p.argon2_hash salt password) ≡ false
  pub verifies :
      (salt : ℕ) (password : String)
      → p.argon2_verify (p.argon2_hash salt password) password ≡ some true
  pub is_current :
      (salt : ℕ) (password : String)
      → p.check_needs_rehash (p.argon2_hash salt password) ≡ some false
