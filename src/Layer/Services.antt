-- ===== src/Layer/Services.antt =====
-- base/services/base.py: how a service runs its hooks around an operation. The session and all
-- that the hooks and the repository act on is the state `S`; the operation's context is part of
-- what a hook closes over. An asynchronous context manager is what it does on entry and, given the
-- exception under way, on exit, where it may swallow the exception or raise another.
pub mod Operations
pub mod Unwinding
use app_common.Common.{
  ℕ, ◌-◌, String, Bool, true, false, Option, none, some, List, [], ◌∷◌, ◌++◌, reverse, map, length,
}

-- A step that may raise.
pub data Try {ℓ} (A : Type ℓ) : Type ℓ where
  good : A → Try A
  bad : String → Try A

-- How an `async with` block ends: by `return`, behind the block because an exception was swallowed,
-- or by an exception.
pub data Outcome (A : Type 0) : Type 0 where
  returned : A → Outcome A
  swallowed : Outcome A
  raised : String → Outcome A

pub record Context (S : Type 0) : Type 0 where
  pub enter : S → Try (Unit {0}) × S
  pub exit : Option String → S → Option String × S

-- A hook of one operation: its context, what it makes of the fields or filters, and what it makes of
-- the result. `In` is the operation's input.
pub record Hook (S In F A : Type 0) : Type 0 where
  pub context : In → Context S
  pub prepare : In → F → S → Try F × S
  pub post : In → A → S → Try A × S

-- One that is given many inputs has a context and a post step for all of them.
pub record MultiHook (S In F A : Type 0) : Type 0 where
  pub context_multi : List In → Context S
  pub prepare_each : In → F → S → Try F × S
  pub post_multi : List In → A → S → Try A × S

module _ {A : Type 0} where
  abbrev pub pending : Outcome A → Option String
  pending (raised x) = some x
  pending _ = none

  abbrev pub settled : Outcome A → Option String → Outcome A
  settled o (some x) = raised x
  settled (raised x) none = swallowed
  settled o none = o

  abbrev pub outcome {κ} : {S : Type κ} → Try A × S → Outcome A × S
  outcome (good a, s) = (returned a, s)
  outcome (bad x, s) = (raised x, s)

abbrev pub and_then {ℓ κ μ} :
    {A : Type ℓ} {B : Type κ} {S : Type μ} → Try A × S → (A → S → Try B × S) → Try B × S
and_then (good a, s) f = f a s
and_then (bad x, s) f = (bad x, s)

module _ {S A : Type 0} where
  abbrev pub leave : Context S → Outcome A × S → Outcome A × S
  leave c (o, s) = let (x, s') = c.exit (pending o) s in (settled o x, s')

  abbrev pub entered : Try (Unit {0}) × S → (S → Outcome A × S) → Outcome A × S
  entered (good u, s) rest = rest s
  entered (bad x, s) rest = (raised x, s)

  -- `AsyncExitStack`: what was entered is left in the opposite order, however the rest ends.
  unfoldable pub with_contexts : List (Context S) → (S → Outcome A × S) → S → Outcome A × S
  with_contexts [] body s = body s
  with_contexts (c ∷ cs) body s = entered (c.enter s) (λ s'. leave c (with_contexts cs body s'))

module _ {S In F A : Type 0} where
  unfoldable pub prepare_fields : List (Hook S In F A) → In → F → S → Try F × S
  prepare_fields [] i f s = (good f, s)
  prepare_fields (h ∷ hs) i f s = and_then (h.prepare i f s) (prepare_fields hs i)

  unfoldable pub post_all : List (Hook S In F A) → In → A → S → Try A × S
  post_all [] i a s = (good a, s)
  post_all (h ∷ hs) i a s = and_then (h.post i a s) (post_all hs i)
