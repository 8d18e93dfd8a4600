-- ===== src/Layer/Examples.antt =====
-- Tests of the base layer, and its theorems at concrete inputs.
use app_common.Common.{
  ℕ, String, true, ◌≡◌, refl, Option, none, some, if◌then◌else◌, ◌==◌, List, [], ◌∷◌, ◌++◌, map,
}
use app_common.Layer.Transaction.{Session, Engine, pending_after_commit, aexit, transaction}
use app_common.Layer.Transaction.Dispatch.{Logs, dispatched, aexit-dispatched}
use app_common.Layer.Services.{good, bad, raised}
use app_common.Layer.Services.Unwinding.{enters, leaves, prepares, stores, then_leaves}
use app_common.Layer.Services.Operations.{operate, create}
use app_common.Layer.Services.Operations.Order.{loud, storing, end_of, afterwards, operate-order}

-- An engine whose callbacks are written down, and all of which raise but the first.
abbrev fails_later : ℕ → Option String
fails_later c = if c == 1 then none else some "unreachable"

abbrev written : Engine (List ℕ)
written = record {
  commit = λ s. (none, s);
  rollback = λ s. (none, s);
  close = λ s. (none, s);
  callback = λ c s. (fails_later c, record s { world = s.world ++ c ∷ [] });
}

written-Logs : Logs (λ w. w) written
written-Logs = record {
  commit_log = λ s. refl;
  commit_keeps = λ s. refl;
  rollback_log = λ s. refl;
  close_log = λ s. refl;
  callback_log = λ c s. refl;
}

abbrev two_queued : Session (List ℕ)
two_queued = record { world = []; callbacks = some (1 ∷ 2 ∷ []) }

commit_test : (transaction written true (λ s. (none, s)) two_queued).1.world ≡ 1 ∷ 2 ∷ []
unfolding transaction
commit_test = refl

aexit-dispatched_example :
    (aexit written true none two_queued).1.world
    ≡ two_queued.world
      ++ dispatched
          (λ w. w)
          written
          written-Logs
          true
          none
          (written.commit two_queued).0
          (pending_after_commit two_queued)
aexit-dispatched_example = aexit-dispatched (λ w. w) written written-Logs true none two_queued

abbrev stored : String
stored = "stored"

abbrev owner : String
owner = "owner_id"

abbrev live : String
live = "not_deleted"

create_test :
    create (map (loud ℕ ℕ String) (1 ∷ 2 ∷ [])) (storing ℕ ℕ String (bad "conflict")) 7 0 [] ≡ (
      raised "conflict",
      enters 1 ∷ enters 2 ∷ prepares 1 ∷ prepares 2 ∷ stores ∷ leaves 2 ∷ leaves 1 ∷ [],
    )
unfolding create
create_test = refl

operate-order_example :
    operate (map (loud ℕ ℕ String) (1 ∷ 2 ∷ [])) (storing ℕ ℕ String (good stored)) 7 0 []
    ≡ then_leaves (1 ∷ 2 ∷ []) (
      end_of (good stored),
      ((([] ++ map enters (1 ∷ 2 ∷ [])) ++ map prepares (1 ∷ 2 ∷ [])) ++ stores ∷ [])
          ++ afterwards (good stored) (1 ∷ 2 ∷ []),
    )
operate-order_example = operate-order ℕ ℕ String (1 ∷ 2 ∷ []) (good stored) 7 0 []
