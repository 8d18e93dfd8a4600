-- ===== src/Layer/Transaction/Dispatch.antt =====
-- When the after-commit callbacks run: once each, in the order of their registration, after a commit
-- of the owning transaction and at no other time.
use app_common.Common.{
  ℕ, String, Bool, true, false, ◌≡◌, refl, ap, sym, ap₂, ◌∙◌, Option, none, some, List, [], ◌∷◌,
  ◌++◌,
}
use mathlib.Core.List.{append_assoc, append-nil}
use app_common.Layer.Transaction.{
  Session, Engine, register_after_commit, pending_after_commit, run_callbacks, run_after_commit,
  aexit, queued, popped, closing, committed, rolled_back,
}

-- What an engine is taken to do: the session's methods queue no callback and run none, and a callback
-- leaves its mark, the callback's number, at the end of the `log` of the world.
pub record Logs {W : Type 0} (log : W → List ℕ) (e : Engine W) : Type 0 where
  pub commit_log : (s : Session W) → log (e.commit s).1.world ≡ log s.world
  pub commit_keeps : (s : Session W) → (e.commit s).1.callbacks ≡ s.callbacks
  pub rollback_log : (s : Session W) → log (e.rollback s).1.world ≡ log s.world
  pub close_log : (s : Session W) → log (e.close s).1.world ≡ log s.world
  pub callback_log : (c : ℕ) (s : Session W) → log (e.callback c s).1.world ≡ log s.world ++ c ∷ []

-- Callbacks are queued in the order in which they are registered.
pending-register_after_commit :
    {W : Type 0} (c : ℕ) (s : Session W)
    → pending_after_commit (register_after_commit c s) ≡ pending_after_commit s ++ c ∷ []
unfolding pending_after_commit register_after_commit
pending-register_after_commit c s = refl

module _ {W : Type 0} (log : W → List ℕ) (e : Engine W) (l : Logs log e) where
  run_callbacks-log :
      (cs : List ℕ) (s : Session W) → log (run_callbacks e cs s).world ≡ log s.world ++ cs
  unfolding run_callbacks
  run_callbacks-log [] s = sym (append-nil (log s.world))
  run_callbacks-log (c ∷ cs) s =
      run_callbacks-log cs (e.callback c s).1
      ∙ ap (λ ys. ys ++ cs) (l.callback_log c s)
      ∙ append_assoc (log s.world) (c ∷ []) cs

  closing-log :
      (raised : Option String) (s : Session W) → log (closing e raised s).1.world ≡ log s.world
  unfolding closing
  closing-log raised s = l.close_log s

  -- The callbacks that an exit of the transaction runs.
  abbrev pub dispatched : Bool → Option String → Option String → List ℕ → List ℕ
  dispatched true none none cs = cs
  dispatched owns raised commit_raised cs = []

  committed-log :
      (r : Option String × Session W) (s : Session W)
      → log r.1.world ≡ log s.world
      → r.1.callbacks ≡ s.callbacks
      → log (committed e r).1.world
        ≡ log s.world ++ dispatched true none r.0 (pending_after_commit s)
  unfolding closing run_after_commit pending_after_commit
  committed-log (none, t) s h k =
      closing-log none (run_after_commit e t)
      ∙ run_callbacks-log (queued t.callbacks) (popped t)
      ∙ ap₂ (λ x y. x ++ queued y) h k
  committed-log (some x, t) s h k = closing-log (some x) t ∙ h ∙ sym (append-nil (log s.world))

  rolled_back-log :
      (x : String) (r : Option String × Session W) (s : Session W)
      → log r.1.world ≡ log s.world
      → log (rolled_back e x r).1.world ≡ log s.world ++ []
  rolled_back-log x (none, t) s h =
      closing-log (some x) (popped t) ∙ h ∙ sym (append-nil (log s.world))
  rolled_back-log x (some y, t) s h = closing-log (some y) t ∙ h ∙ sym (append-nil (log s.world))

  -- With a session whose own methods neither queue nor run callbacks, leaving a transaction runs
  -- the queued callbacks, each once and in the order of registration, whether or not some of them
  -- raise an exception, if the transaction owns its session, its body raised nothing and the
  -- commit succeeded; in every other case it runs none.
  pub aexit-dispatched :
      (owns : Bool) (raised : Option String) (s : Session W)
      → log (aexit e owns raised s).1.world
        ≡ log s.world ++ dispatched owns raised (e.commit s).0 (pending_after_commit s)
  unfolding aexit
  aexit-dispatched false none s = sym (append-nil (log s.world))
  aexit-dispatched false (some x) s = sym (append-nil (log s.world))
  aexit-dispatched true none s = committed-log (e.commit s) s (l.commit_log s) (l.commit_keeps s)
  aexit-dispatched true (some x) s = rolled_back-log x (e.rollback s) s (l.rollback_log s)
