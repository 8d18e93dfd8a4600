-- ===== src/Auth/Google/Once.antt =====
-- A flow of a Google sign-in is used once.
use app_common.Common.{
  ℕ, ◌≡◌, refl, inl, inr, String, false, not, Option, none, some, List, [], ◌∷◌, leb, str_eq,
  Bool-cases, All,
}
use app_common.Table.Select.{All-filter}
use app_common.Auth.Users.{User, Result, ok, err, Result-cases, invalid_credentials}
use app_common.Auth.Tokens.{AuthSettings, Signer}
use app_common.Auth.Google.{
  GoogleLoginFlow, GoogleStore, GoogleIdentity, Google, consume, clean_expired, identity_user,
  begin,
}
use app_common.Auth.Google.Callback.{
  Visit, registered, breaks_unique, insert_user, register, is_integrity_error, retried, handed,
  identified, asked, asked_with, answered, callback, is_taken, new_user,
}
use app_common.Auth.Google.Finish.{flow_user, finish, finished, tokens_for, status_of}
use app_common.Auth.Google.Flows.{
  Absent, IsUnique, Keeps, consume-none, consume-kept, consume-Absent, save-Absent,
}

module _ {T : Type 0} (g : Signer T) (o : Google) (settings : AuthSettings) where
  -- The requests of the sign-in, each with what it meets.
  pub data Step : Type 0 where
    beginning : (now : ℕ) (state browser nonce verifier : String) → Step
    calling_back : (state browser : String) (v : Visit) → Step
    finishing : (now jti : ℕ) (exchange : String) → Step

  abbrev pub step : Step → GoogleStore → GoogleStore
  step (beginning now state browser nonce verifier) s =
      (begin g o now state browser nonce verifier s).1
  step (calling_back state browser v) s = (callback g o settings state browser v s).1
  step (finishing now jti exchange) s = (finish g settings now jti exchange s).1

  abbrev pub steps : List Step → GoogleStore → GoogleStore
  steps [] s = s
  steps (x ∷ xs) s = steps xs (step x s)

  -- Its fresh secrets have other hashes than the key, and what others do meanwhile stores no such flow.
  abbrev pub Avoids : String → Step → Type 0
  Avoids k (beginning now state browser nonce verifier) = str_eq (g.sha256 state) k ≡ false
  Avoids k (calling_back state browser v) =
      (str_eq (g.sha256 v.exchange) k ≡ false) × Keeps k v.between × Keeps k v.others
  Avoids k (finishing now jti exchange) = Unit

  registered-Absent :
      (k : String) (identity : GoogleIdentity) (v : Visit) (s : GoogleStore) (u : Option User)
      → Avoids k (calling_back "" "" v)
      → Absent k s.flows
      → Absent k (registered o settings v.id v.stored_at identity v.others s u).1.flows
  unfolding insert_user
  registered-Absent k identity v s (some u) avoids h = h
  registered-Absent k identity v s none avoids h =
      elim (Bool-cases (is_taken o settings identity s.users)) [
        | inl taken ↦ rw taken h
        | inr free ↦
            let u = new_user settings v.id v.stored_at identity in
            rw free (elim (Bool-cases (breaks_unique u identity.subject (v.others s))) [
              | inl broken ↦ rw broken (avoids.2 s h)
              | inr kept ↦ rw kept (avoids.2 s h)
            ])
      ]

  retried-Absent :
      (k : String) (v : Visit) (s : GoogleStore) (u : Option User)
      → Avoids k (calling_back "" "" v)
      → Absent k s.flows
      → Absent k (retried g o settings v s u).1.flows
  retried-Absent k v s none avoids h = h
  retried-Absent k v s (some u) avoids h = save-Absent k _ s h avoids.0

  handed-Absent :
      (k : String) (identity : GoogleIdentity) (v : Visit) (r : Result User × GoogleStore)
      → Avoids k (calling_back "" "" v)
      → Absent k r.1.flows
      → Absent k (handed g o settings v identity r).1.flows
  handed-Absent k identity v (ok u, s) avoids h = save-Absent k _ s h avoids.0
  handed-Absent k identity v (err e, s) avoids h = elim (Bool-cases (is_integrity_error e)) [
    | inl integrity ↦
        rw integrity (retried-Absent k v s (identity_user identity.subject s) avoids h)
    | inr other ↦ rw other h
  ]

  identified-Absent :
      (k : String) (v : Visit) (s : GoogleStore) (r : Result GoogleIdentity)
      → Avoids k (calling_back "" "" v)
      → Absent k s.flows
      → Absent k (identified g o settings v s r).1.flows
  unfolding register
  identified-Absent k v s (err e) avoids h = h
  identified-Absent k v s (ok identity) avoids h =
      handed-Absent k identity v
        (register o settings v.id v.stored_at identity v.others (v.between s)) avoids
        (registered-Absent k identity v (v.between s) (identity_user identity.subject (v.between s))
          avoids (avoids.1 s h))

  asked_with-Absent :
      (k : String) (v : Visit) (s : GoogleStore) (nonce verifier : Option String)
      → Avoids k (calling_back "" "" v)
      → Absent k s.flows
      → Absent k (asked_with g o settings v s nonce verifier).1.flows
  asked_with-Absent k v s none verifier avoids h = h
  asked_with-Absent k v s (some nonce) none avoids h = h
  asked_with-Absent k v s (some nonce) (some verifier) avoids h =
      identified-Absent k v s (asked g o settings v verifier nonce) avoids h

  answered-Absent :
      (k : String) (v : Visit) (s : GoogleStore) (f : Option GoogleLoginFlow)
      → Avoids k (calling_back "" "" v)
      → Absent k s.flows
      → Absent k (answered g o settings v f s).1.flows
  answered-Absent k v s none avoids h = h
  answered-Absent k v s (some f) avoids h = asked_with-Absent k v s f.nonce f.verifier avoids h

  callback-Absent :
      (k state browser : String) (v : Visit) (s : GoogleStore)
      → Avoids k (calling_back state browser v)
      → Absent k (consume (g.sha256 state) (g.sha256 browser) v.at s.flows).1
      → Absent k (callback g o settings state browser v s).1.flows
  unfolding callback
  callback-Absent k state browser v s avoids h =
      let taken = consume (g.sha256 state) (g.sha256 browser) v.at s.flows in
      answered-Absent k v (record s { flows = taken.1 }) taken.0 avoids h

  finished-Absent :
      (k : String) (now jti : ℕ) (s done : GoogleStore) (u : Option User)
      → Absent k s.flows
      → Absent k done.flows
      → Absent k (finished g settings now jti s done u).1.flows
  finished-Absent k now jti s done none h kept = h
  finished-Absent k now jti s done (some u) h kept =
      elim (Bool-cases (str_eq (status_of g settings u) "approved")) [
        | inl approved ↦ rw approved (elim (Result-cases (tokens_for g settings now jti u)) [
          | inl (t, made) ↦ rw made kept
          | inr (e, failed) ↦ rw failed h
        ])
        | inr waiting ↦ rw waiting kept
      ]

  step-Absent :
      (k : String) (x : Step) (s : GoogleStore)
      → Avoids k x
      → Absent k s.flows
      → Absent k (step x s).flows
  unfolding begin clean_expired finish
  step-Absent k (beginning now state browser nonce verifier) s avoids h =
      save-Absent k _ (record s { flows = clean_expired now s.flows })
        (All-filter (λ f. str_eq f.key k ≡ false) (λ f. not (leb f.expires_at now)) s.flows h)
        avoids
  step-Absent k (calling_back state browser v) s avoids h =
      callback-Absent k state browser v s avoids
        (consume-kept k (g.sha256 state) (g.sha256 browser) v.at s.flows h)
  step-Absent k (finishing now jti exchange) s avoids h =
      let taken = consume (g.sha256 exchange) (g.sha256 exchange) now s.flows in
      finished-Absent k now jti s (record s { flows = taken.1 })
        (flow_user g settings s.users taken.0) h
        (consume-kept k (g.sha256 exchange) (g.sha256 exchange) now s.flows h)

  steps-Absent :
      (k : String) (xs : List Step) (s : GoogleStore)
      → All (Avoids k) xs
      → Absent k s.flows
      → Absent k (steps xs s).flows
  steps-Absent k [] s avoids h = h
  steps-Absent k (x ∷ xs) s avoids h =
      steps-Absent k xs (step x s) avoids.1 (step-Absent k x s avoids.0 h)

  callback-refused :
      (state browser : String) (v : Visit) (s : GoogleStore)
      → Absent (g.sha256 state) s.flows
      → (callback g o settings state browser v s).0 ≡ err invalid_credentials
  unfolding callback
  callback-refused state browser v s h =
      rw (consume-none (g.sha256 state) (g.sha256 browser) v.at s.flows h) refl

  -- A callback that finds its flow uses it up, whatever it answers: after any further requests of the
  -- sign-in, with any work of others in between, as long as no fresh secret has the hash of this state,
  -- a second callback with the state is refused, from whatever browser. Keys of flows are unique.
  pub state_once :
      (state browser other : String) (v w : Visit) (xs : List Step) (s : GoogleStore)
      (f : GoogleLoginFlow)
      → IsUnique s.flows
      → (consume (g.sha256 state) (g.sha256 browser) v.at s.flows).0 ≡ some f
      → Avoids (g.sha256 state) (calling_back state browser v)
      → All (Avoids (g.sha256 state)) xs
      → (callback g o settings state other w
          (steps xs (callback g o settings state browser v s).1)).0
        ≡ err invalid_credentials
  state_once state browser other v w xs s f unique found avoids later =
      let used = consume-Absent (g.sha256 state) (g.sha256 browser) v.at s.flows f unique found in
      let gone = callback-Absent (g.sha256 state) state browser v s avoids used in
      callback-refused state other w (steps xs (callback g o settings state browser v s).1)
        (steps-Absent (g.sha256 state) xs (callback g o settings state browser v s).1 later gone)
