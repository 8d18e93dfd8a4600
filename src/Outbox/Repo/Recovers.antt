-- ===== src/Outbox/Repo/Recovers.antt =====
-- What `recover_one` of the outbox repository does.
use mathlib.Core.Option
use app_common.Common.{
  arith, ℕ, ◌≡◌, refl, ◌⊎◌, inl, inr, Bool, false, not, ◌&&◌, Option, none, some, List, &&_true,
  filter, find, All,
}
use app_common.Table.{update_where, least, IsKeyed}
use app_common.Table.Select.{Selected, least-Selected, least-none}
use app_common.Table.Update.{at_key, find-at_key}
use app_common.Outbox.Model.{EventStatus, Outbox}
use app_common.Outbox.Repo.Rows.{key}
use app_common.Outbox.Repo.{Table, by_updated, expired, recovered, recover_row, recover_one}

-- What `recover_one` looks for.
abbrev pub recoverable : ℕ → ℕ → (ℕ → Bool) → Outbox → Bool
recoverable now legacy locked r = expired now legacy r && not (locked r.id)

module _ (now legacy n : ℕ) (schedule : List ℕ) (locked : ℕ → Bool) (t : Table)
    (k : IsKeyed key t) where
  abbrev Recovers : Option EventStatus × Table → Type 0
  Recovers result =
      ((result ≡ (none, t)) × All (λ r. recoverable now legacy locked r ≡ false) t)
      ⊎ ((c : Outbox) × Selected key by_updated (recoverable now legacy locked) t c
          × (result ≡ (
            some (recovered now n schedule c).status,
            update_where (at_key key c.id (expired now legacy)) (recovered now n schedule) t,
          )))

  recover_row-Recovers :
      (o : Option Outbox)
      → least by_updated (filter (recoverable now legacy locked) t) ≡ o
      → Recovers (recover_row now legacy n schedule t o)
  recover_row-Recovers none e =
      inl (unfold recover_row in refl, least-none by_updated (recoverable now legacy locked) t e)
  recover_row-Recovers (some c) e = inr (
    c,
    s,
    unfold recover_row in
        λ i. (
          Option.map (λ r. (recovered now n schedule r).status) (hit i),
          update_where (at_key key c.id (expired now legacy)) (recovered now n schedule) t,
        ),
  )
    where
      s : Selected key by_updated (recoverable now legacy locked) t c
      s = least-Selected key by_updated (recoverable now legacy locked) t c k e

      hit : find (at_key key c.id (expired now legacy)) t ≡ some c
      hit =
          find-at_key key c.id (expired now legacy) t c s.found
            (&&_true (expired now legacy c) (not (locked c.id)) s.passes).0

-- `recover_one` either finds no expired claim that is not locked and changes nothing, or it takes
-- the one that comes first by its last update and key, gives up its claim, and changes that row only.
pub recover_one-cases :
    (now legacy n : ℕ) (schedule : List ℕ) (locked : ℕ → Bool) (t : Table)
    → IsKeyed key t
    → ((recover_one now legacy n schedule locked t ≡ (none, t))
        × All (λ r. recoverable now legacy locked r ≡ false) t)
      ⊎ ((c : Outbox) × Selected key by_updated (recoverable now legacy locked) t c
          × (recover_one now legacy n schedule locked t ≡ (
            some (recovered now n schedule c).status,
            update_where (at_key key c.id (expired now legacy)) (recovered now n schedule) t,
          )))
unfolding recover_one
recover_one-cases now legacy n schedule locked t k =
    recover_row-Recovers now legacy n schedule locked t k _ refl

-- A recovered row is not expired any more, whatever the clock.
pub recovered-not_expired :
    (now n later legacy : ℕ) (schedule : List ℕ) (r : Outbox)
    → expired later legacy (recovered now n schedule r) ≡ false
unfolding expired recovered
recovered-not_expired now n later legacy schedule r = ground arith
