-- ===== src/Auth/Users.antt =====
-- user/models.py, and the exceptions of user/exceptions.py and of the base package that the
-- services raise. The profile columns that no rule reads (names, picture, locale, …) are left out.
use app_common.Common.{
  ◌⊎◌, inl, inr, some, ◌≡◌, refl, ℕ, String, Bool, true, false, ◌&&◌, Option, str_eq,
}

pub record User : Type 0 where
  pub id : ℕ
  pub email : String
  pub hashed_password : Option String
  pub approval_status : String
  pub auth_version : ℕ
  pub is_active : Bool
  pub is_verified : Bool
  pub is_superadmin : Bool
  pub updated_at : ℕ

-- The accounts are `none` once they are deleted.
pub record UserAccessEvent : Type 0 where
  pub user_id : Option ℕ
  pub actor_id : Option ℕ
  pub action : String
  pub reason : Option String
  pub created_at : ℕ

-- The last two are the database's IntegrityError, and an exception of any other class.
pub data AuthError : Type 0 where
  permission_denied user_not_found user_already_exists user_cant_delete_itself : AuthError
  invalid_credentials invalid_api_key : AuthError
  conflict bad_request not_found : String → AuthError
  integrity_error : AuthError
  failure : String → AuthError

pub data Result {ℓ} (A : Type ℓ) : Type ℓ where
  ok : A → Result A
  err : AuthError → Result A

infixl 5 ◌>>=◌ ◌>>◌
abbrev pub ◌>>=◌ {ℓ κ} : {A : Type ℓ} {B : Type κ} → Result A → (A → Result B) → Result B
ok value >>= rest = rest value
err refusal >>= rest = err refusal

abbrev pub ◌>>◌ {ℓ} : {B : Type ℓ} → Result (Unit {0}) → Result B → Result B
first >> rest = first >>= λ _. rest

-- `if bad: raise e`
abbrev pub refuse_if : Bool → AuthError → Result (Unit {0})
refuse_if true e = err e
refuse_if false e = ok tt

abbrev pub require {ℓ} : {A : Type ℓ} → Option A → AuthError → Result A
require Option.none e = err e
require (Option.some a) e = ok a

abbrev pub is_approved : User → Bool
is_approved u = str_eq u.approval_status "approved"

-- An account that may use its rights.
abbrev pub is_usable : User → Bool
is_usable u = u.is_active && is_approved u

-- A chain of checks that ends in `ok` passed every one of them.
pub bind-ok {ℓ κ} :
    {A : Type ℓ} {B : Type κ} (m : Result A) (f : A → Result B) (b : B)
    → (m >>= f) ≡ ok b
    → (a : A) × (m ≡ ok a) × (f a ≡ ok b)
bind-ok (ok a) f b h = (a, refl, h)
bind-ok (err e) f b h = cc

pub require-ok {ℓ} :
    {A : Type ℓ} (o : Option A) (e : AuthError) (a : A) → require o e ≡ ok a → o ≡ some a
require-ok Option.none e a h = cc
require-ok (Option.some b) e a h = cc

pub refuse_if-ok : (b : Bool) (e : AuthError) (u : Unit {0}) → refuse_if b e ≡ ok u → b ≡ false
refuse_if-ok true e u h = cc
refuse_if-ok false e u h = refl

pub ok-injective {ℓ} : {A : Type ℓ} {a b : A} → ok a ≡ ok b → a ≡ b
ok-injective h = cc

pub Result-cases {ℓ} :
    {A : Type ℓ} (r : Result A) → ((a : A) × (r ≡ ok a)) ⊎ ((e : AuthError) × (r ≡ err e))
Result-cases (ok a) = inl (a, refl)
Result-cases (err e) = inr (e, refl)
