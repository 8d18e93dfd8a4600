-- ===== src/Auth/Keys/Examples.antt =====
-- Tests of the keys, and their theorems at concrete inputs.
use app_common.Common.{
  ℕ, zero, suc, ◌+◌, ◌-◌, ◌≡◌, ◌≢◌, refl, true, Option, none, some, List, [], ◌∷◌, arith, length,
}
use app_common.Auth.Users.{ok, err, invalid_api_key}
use app_common.Auth.Keys.{
  Text, Platform, Machine, MachineKey, Store, MachinePrincipal, raw_key, new_key, authenticate,
  issue, revoke, sorted_set,
}
use app_common.Auth.Keys.Issue.{IsHex, authenticate-issue}
use app_common.Auth.Keys.Revocation.{revoked_forever, Op, revoking, updating, run}

-- A digest and a hexadecimal form that are enough for tests.
abbrev unhex : Text → Option ℕ
unhex (c ∷ []) = some (c - 100)
unhex _ = none

abbrev platform : Platform
platform = record { digest = λ text. text; hex = λ i. (i + 100) ∷ []; uuid = unhex }

platform-IsHex : IsHex platform
platform-IsHex = record { uuid-hex = λ i. ground arith; plain = λ i. (ground arith, tt) }

abbrev letters : ℕ → Text
letters zero = []
letters (suc n) = 120 ∷ letters n

abbrev secret : Text
secret = letters 43

abbrev worker : Machine
worker = record { id = 1; name = "worker"; scopes = 1 ∷ 4 ∷ []; is_active = true }

abbrev empty : Store
empty = record { machines = worker ∷ []; keys = [] }

abbrev two_keys : Store
two_keys = record {
  machines = worker ∷ [];
  keys = new_key platform 7 secret 1 "old" none ∷ new_key platform 8 secret 1 "new" (some 90) ∷ [];
}

abbrev principal : MachinePrincipal
principal = record { machine_id = 1; key_id = 8; name = "worker"; scopes = 1 ∷ 4 ∷ [] }

sorted_set_test : sorted_set (4 ∷ 1 ∷ 4 ∷ []) ≡ 1 ∷ 4 ∷ []
sorted_set_test = refl

let_in : authenticate platform 20 (raw_key platform 8 secret) two_keys ≡ ok principal
unfolding authenticate raw_key new_key
let_in = refl

expired_test : authenticate platform 90 (raw_key platform 8 secret) two_keys ≡ err invalid_api_key
unfolding authenticate raw_key new_key
expired_test = refl

abbrev old_revoked : MachineKey
old_revoked = record (new_key platform 7 secret 1 "old" none) { revoked_at = some 10 }

abbrev after_revoke : Store
after_revoke = record two_keys {
  keys = old_revoked ∷ new_key platform 8 secret 1 "new" (some 90) ∷ [];
}

revoke_test : revoke 10 1 7 two_keys ≡ ok (old_revoked, after_revoke)
unfolding revoke new_key
revoke_test = refl

abbrev further : List Op
further = revoking 15 1 7 ∷ updating (1 ∷ []) 1 none (some true) ∷ []

still_in :
    authenticate platform 20 (raw_key platform 8 secret) (run further after_revoke) ≡ ok principal
unfolding authenticate raw_key new_key run
still_in = refl

revoked_forever_example : principal.key_id ≢ 7
revoked_forever_example =
    revoked_forever 10 1 7 two_keys after_revoke old_revoked further platform 20
      (raw_key platform 8 secret) principal revoke_test still_in

fits : length (raw_key platform 7 secret) ≡ 48
unfolding raw_key
fits = refl

authenticate-issue_example :
    (s' : Store) × (issue platform 7 secret 10 1 "first" (some 90) empty
      ≡ ok (raw_key platform 7 secret, s'))
    × (authenticate platform 20 (raw_key platform 7 secret) s'
        ≡ ok (record { machine_id = 1; key_id = 7; name = "worker"; scopes = 1 ∷ 4 ∷ [] }))
authenticate-issue_example =
    authenticate-issue platform platform-IsHex 7 secret 10 20 1 "first" (some 90) empty worker
      (omega arith) (omega (arith, fits)) refl refl refl refl refl
