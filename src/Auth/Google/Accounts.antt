-- ===== src/Auth/Google/Accounts.antt =====
-- Whose account the callback of a Google sign-in hands off.
use app_common.Common.{◌≡◌, String, some}
use app_common.Auth.Users.{User, ok}
use app_common.Auth.Tokens.{AuthSettings, Signer}
use app_common.Auth.Google.{GoogleLoginFlow, GoogleStore, GoogleIdentity, Google, consume}
use app_common.Auth.Google.Callback.{Visit, handoff, asked}
use app_common.Auth.Google.Registers.{Linked}

module _ {T : Type 0} (g : Signer T) (o : Google) (settings : AuthSettings) (v : Visit)
    (identity : GoogleIdentity) (base : GoogleStore) where
  -- An account that is linked has the exchange.
  abbrev pub HandedOff : String → GoogleStore → Type 0
  HandedOff exchange after =
      (u : User) × (b : GoogleStore) × Linked o settings v identity base u b
      × (exchange ≡ v.exchange)
      × (after ≡ handoff g v.stored_at v.exchange u b)

module _ {T : Type 0} (g : Signer T) (o : Google) (settings : AuthSettings) where
  -- The store that the callback's first transaction commits.
  abbrev pub after_consuming : String → String → Visit → GoogleStore → GoogleStore
  after_consuming state browser v s = record s {
    flows = (consume (g.sha256 state) (g.sha256 browser) v.at s.flows).1;
  }

  -- What a callback that succeeded went by: the flow of this state and browser, and the identity that
  -- Google gave for its verifier and nonce.
  pub record SignedIn (state browser : String) (v : Visit) (s : GoogleStore) (exchange : String)
      (after : GoogleStore) : Type 0 where
    pub flow : GoogleLoginFlow
    pub nonce : String
    pub verifier : String
    pub identity : GoogleIdentity
    pub consumed : (consume (g.sha256 state) (g.sha256 browser) v.at s.flows).0 ≡ some flow
    pub nonced : flow.nonce ≡ some nonce
    pub verified : flow.verifier ≡ some verifier
    pub confirmed : asked g o settings v verifier nonce ≡ ok identity
    pub account :
        HandedOff g o settings v identity
          (v.between (after_consuming state browser v s))
          exchange
          after
