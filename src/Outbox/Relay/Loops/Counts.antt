-- ===== src/Outbox/Relay/Loops/Counts.antt =====
-- The counts that `run_once` and `recover` report.
use app_common.Common.{
  ℕ, zero, suc, ◌+◌, ◌≤◌, ◌≡◌, refl, Bool, true, false, Option, none, some, arith, leb, Bool-cases,
  inl, inr,
}
use app_common.Outbox.Model.{EventStatus, pending, processing, published, failed}
use app_common.Outbox.Policy.{RelayOptions}
use app_common.Outbox.Repo.{Table}
use app_common.Outbox.Relay.{
  RelayResult, no_result, Claim, Result, ok, raised, PublishEnd, delivered, lost, failure, aborted,
}
use app_common.Outbox.Relay.Loops.{
  Turn, count, Round, counted, settle, process, on_claim, take_turn, and_then, run_loop, run_once,
}

-- Every claimed event is counted under one outcome.
pub record IsBalanced (r : RelayResult) : Type 0 where
  pub sum : r.claimed ≡ r.published + r.retried + r.failed + r.lost

-- The same, but for one event that is still in hand.
record InHand (r : RelayResult) : Type 0 where
  sum : r.claimed ≡ r.published + r.retried + r.failed + r.lost + 1

count-IsBalanced :
    (s : Option EventStatus) (r : RelayResult)
    → InHand r
    → IsBalanced (count s r) × ((count s r).claimed ≡ r.claimed)
unfolding count
count-IsBalanced (some published) r h = (omega arith, refl)
count-IsBalanced (some pending) r h = (omega arith, refl)
count-IsBalanced (some failed) r h = (omega arith, refl)
count-IsBalanced (some processing) r h = (omega arith, refl)
count-IsBalanced none r h = (omega arith, refl)

-- A round that goes on or stops with balanced counts, at most `n` claims.
abbrev Good : ℕ → Result (Bool × RelayResult) → Type 0
Good n (raised e) = Unit
Good n (ok (b, r)) = IsBalanced r × (r.claimed ≤ n)

counted-Good :
    (r : RelayResult) (s : Result (Option EventStatus) × Table)
    → InHand r
    → Good r.claimed (counted r s).0
unfolding counted
counted-Good r (raised e, t) h = tt
counted-Good r (ok s, t) h = let (b, e) = count-IsBalanced s r h in (b, omega arith)

settle-Good :
    (o : RelayOptions) (claim : Claim) (turn : Turn) (r : RelayResult) (end : PublishEnd)
    (t : Table)
    → InHand r
    → Good r.claimed (settle o claim turn r end t).0
unfolding settle
settle-Good o claim turn r delivered t h = counted-Good r _ h
settle-Good o claim turn r lost t h = (omega arith, omega arith)
settle-Good o claim turn r (failure e) t h = counted-Good r _ h
settle-Good o claim turn r (aborted e) t h = tt

process-Good :
    (o : RelayOptions) (claim : Claim) (turn : Turn) (r : RelayResult) (t : Table)
    → InHand r
    → Good r.claimed (process o claim turn r t).0
unfolding process
process-Good o claim turn r t h = elim (Bool-cases (leb o.max_attempts claim.failures)) [
  | inl spent ↦ rw spent (counted-Good r _ h)
  | inr fresh ↦ rw fresh (settle-Good o claim turn r _ _ h)
]

on_claim-Good :
    (o : RelayOptions) (turn : Turn) (r : RelayResult) (c : Result (Option Claim) × Table)
    → IsBalanced r
    → Good (r.claimed + 1) (on_claim o turn r c).0
unfolding on_claim
on_claim-Good o turn r (raised e, t) h = tt
on_claim-Good o turn r (ok none, t) h = (h, omega arith)
on_claim-Good o turn r (ok (some claim), t) h = process-Good o claim turn _ t (omega arith)

take_turn-Good :
    (o : RelayOptions) (turn : Turn) (r : RelayResult) (t : Table)
    → IsBalanced r
    → Good (r.claimed + 1) (take_turn o turn r t).0
unfolding take_turn
take_turn-Good o turn r t h = elim (Bool-cases turn.stopping) [
  | inl stop ↦ rw stop (h, omega arith)
  | inr on ↦ rw on (on_claim-Good o turn r _ h)
]

-- What is known of the counts that a loop returns.
abbrev Ends : ℕ → RelayResult → Type 0
Ends n q = IsBalanced q × (q.claimed ≤ n)

and_then-Ends :
    (rest : RelayResult → Table → Result RelayResult × Table) (m n : ℕ) (round : Round)
    (q : RelayResult)
    → Good m round.0
    → ((r : RelayResult) (t : Table) → IsBalanced r → (rest r t).0 ≡ ok q → Ends (r.claimed + n) q)
    → (and_then rest round).0 ≡ ok q
    → Ends (m + n) q
and_then-Ends rest m n (raised e, t) q g k eq = cc
and_then-Ends rest m n (ok (true, r), t) q g k eq = let (b, le) = k r t g.0 eq in (b, omega arith)
and_then-Ends rest m n (ok (false, r), t) q g k eq = ground arith

run_loop-Ends :
    (n : ℕ) (o : RelayOptions) (turns : ℕ → Turn) (r q : RelayResult) (t : Table)
    → IsBalanced r
    → (run_loop n o turns r t).0 ≡ ok q
    → Ends (r.claimed + n) q
unfolding run_loop
run_loop-Ends zero o turns r q t h e = ground arith
run_loop-Ends (suc n) o turns r q t h e =
    let (b, le) =
      and_then-Ends (run_loop n o turns) (r.claimed + 1) n (take_turn o (turns n) r t) q
        (take_turn-Good o (turns n) r t h) (λ s u g eq. run_loop-Ends n o turns s q u g eq) e in
    (b, omega arith)

-- When `run_once` returns, it has claimed at most `batch_size` events, and each claimed event is
-- counted exactly once: as published, retried, failed or lost.
pub run_once-IsBalanced :
    (o : RelayOptions) (turns : ℕ → Turn) (t : Table) (q : RelayResult)
    → (run_once o turns t).0 ≡ ok q
    → IsBalanced q × (q.claimed ≤ o.batch_size)
unfolding run_once
run_once-IsBalanced o turns t q e =
    let (b, le) = run_loop-Ends o.batch_size o turns no_result q t (omega arith) e in
    (b, omega arith)
