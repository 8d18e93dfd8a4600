-- ===== src/Layer/Transaction.antt =====
-- core/database/transaction.py: `AsyncTransaction` and its after-commit callbacks. A session is the
-- world `W` that the database and the callbacks act on, with the callbacks queued in its `info`
-- dict (none: no entry). The session's own methods and the callbacks are parameters: each may
-- raise an exception, and a callback may queue further callbacks. A cancellation while callbacks
-- run is not modelled.
pub mod Dispatch
use app_common.Common.{
  ℕ, String, Bool, true, false, Option, none, some, List, [], ◌∷◌, ◌++◌, ◌||◌, not, if◌then◌else◌,
}

pub record Session (W : Type 0) : Type 0 where
  pub world : W
  pub callbacks : Option (List ℕ)

-- SQLAlchemy's methods of a session, and what each callback does: some error is an exception.
pub record Engine (W : Type 0) : Type 0 where
  pub commit : Session W → Option String × Session W
  pub rollback : Session W → Option String × Session W
  pub close : Session W → Option String × Session W
  pub callback : ℕ → Session W → Option String × Session W

abbrev pub queued : Option (List ℕ) → List ℕ
queued none = []
queued (some cs) = cs

abbrev or_else : Option String → Option String → Option String
or_else none raised = raised
or_else (some x) raised = some x

module _ {W : Type 0} where
  -- `info.setdefault(key, []).append(callback)`
  unfoldable pub register_after_commit : ℕ → Session W → Session W
  register_after_commit c s = record s { callbacks = some (queued s.callbacks ++ c ∷ []) }

  unfoldable pub pending_after_commit : Session W → List ℕ
  pending_after_commit s = queued s.callbacks

  abbrev pub popped : Session W → Session W
  popped s = record s { callbacks = none }

  -- A callback's exception is logged, and the next one runs.
  unfoldable pub run_callbacks : Engine W → List ℕ → Session W → Session W
  run_callbacks e [] s = s
  run_callbacks e (c ∷ cs) s = run_callbacks e cs (e.callback c s).1

  unfoldable pub run_after_commit : Engine W → Session W → Session W
  unfolding run_callbacks
  run_after_commit e s = run_callbacks e (queued s.callbacks) (popped s)

  -- `finally: close`: its exception takes the place of the one that is under way.
  unfoldable pub closing : Engine W → Option String → Session W → Option String × Session W
  closing e raised s = (or_else (e.close s).0 raised, (e.close s).1)

  abbrev pub committed : Engine W → Option String × Session W → Option String × Session W
  committed e (none, s) = closing e none (run_after_commit e s)
  committed e (some x, s) = closing e (some x) s

  -- The exception of the body is raised again after the rollback.
  abbrev pub rolled_back : Engine W → String → Option String × Session W → Option String × Session W
  rolled_back e x (none, s) = closing e (some x) (popped s)
  rolled_back e x (some y, s) = closing e (some y) s

  -- `__aexit__` after a body that ended with or without an exception, and what is raised then.
  unfoldable pub aexit : Engine W → Bool → Option String → Session W → Option String × Session W
  unfolding closing run_after_commit
  aexit e false raised s = (raised, s)
  aexit e true none s = committed e (e.commit s)
  aexit e true (some x) s = rolled_back e x (e.rollback s)

  -- `async with AsyncTransaction(…) as session: body`
  unfoldable pub transaction :
      Engine W
      → Bool
      → (Session W → Option String × Session W)
      → Session W
      → Option String × Session W
  unfolding aexit
  transaction e owns body s = let (raised, s') = body s in aexit e owns raised s'
