-- ===== src/Outbox/Policy/Schedule.antt =====
-- The retry schedule in closed form.
use app_common.Common.{
  ℕ, zero, suc, ◌+◌, ◌-◌, ◌*◌, ◌^◌, ◌≤◌, ◌<◌, ◌≡◌, refl, ◌⊎◌, inl, inr, Bool, true, false, ◌&&◌,
  List, [], ◌∷◌, ◌++◌, ap, sym, subst, ◌∙◌, map, min, max, arith, ltb, if◌then◌else◌, length,
  length-map, get_or, get_last_or,
}
use native.Mathlib.Nat.{pow-suc, pow-le-pow_right, add-zero}
use native.Mathlib.Decide.{dec_le}
use app_common.Outbox.Policy.{
  RelayOptions, post_init, accepted, grow, retry_delays, retry_schedule, retry_at,
}

-- The delay before attempt `i + 2`: doubled each time, and capped.
abbrev pub delay : RelayOptions → ℕ → ℕ
delay o i = min (o.retry_base * 2 ^ i) o.retry_max

-- What `__post_init__` establishes.
pub record IsValid (o : RelayOptions) : Type 0 where
  pub some_attempts : 0 < o.max_attempts
  pub some_batch : 0 < o.batch_size
  pub base_pos : 0 < o.retry_base
  pub base_le_max : o.retry_base ≤ o.retry_max
  pub renewed_in_time : o.heartbeat * 2 < o.lease

-- Options are accepted only with a positive batch and attempt budget, ordered retry delays, and a
-- heartbeat of less than half the lease.
pub post_init-IsValid : (o : RelayOptions) → post_init o ≡ accepted → IsValid o
unfolding post_init
post_init-IsValid o h = ground arith

double : (b i : ℕ) → b * 2 ^ suc i ≡ b * 2 ^ i * 2
double b i = simp pow-suc (omega arith)

delay-suc : (o : RelayOptions) (i : ℕ) → min (delay o i * 2) o.retry_max ≡ delay o (suc i)
delay-suc o i = omega (arith, double o.retry_base i)

pow_mono : (b i j : ℕ) → i ≤ j → b * 2 ^ i ≤ b * 2 ^ j
pow_mono b i j h = let p : 2 ^ i ≤ 2 ^ j = pow-le-pow_right (omega arith) h in grind arith

-- The schedule's delays from the `i`-th on.
abbrev delays_from : RelayOptions → ℕ → ℕ → List ℕ
delays_from o i zero = []
delays_from o i (suc n) = delay o i ∷ delays_from o (suc i) n

delays_from-snoc :
    (o : RelayOptions) (i n : ℕ)
    → delays_from o i n ++ delay o (i + n) ∷ [] ≡ delays_from o i (suc n)
delays_from-snoc o i zero = rw add-zero
delays_from-snoc o i (suc n) =
    rw (← delays_from-snoc o (suc i) n) (cc (let e : i + suc n ≡ suc i + n = omega arith in e))

length-delays_from : (o : RelayOptions) (i n : ℕ) → length (delays_from o i n) ≡ n
length-delays_from o i zero = refl
length-delays_from o i (suc n) = ap suc (length-delays_from o (suc i) n)

get_last_or-delays_from :
    (o : RelayOptions) (i n d : ℕ) → get_last_or (delays_from o i (suc n)) d ≡ delay o (i + n)
get_last_or-delays_from o i zero d = rw add-zero
get_last_or-delays_from o i (suc n) d =
    rw (get_last_or-delays_from o (suc i) n (delay o i))
      (ap (delay o) (let e : suc i + n ≡ i + suc n = omega arith in e))

-- What `grow` has built: the delays up to the `m`-th, where the cap or the attempt budget is met.
record Grown (o : RelayOptions) (delays : List ℕ) : Type 0 where
  last : ℕ
  built : delays ≡ delays_from o 0 (suc last)
  within : suc last ≤ o.max_attempts
  full : (o.retry_max ≤ o.retry_base * 2 ^ last) ⊎ (o.max_attempts ≤ suc last)

abbrev goes_on : RelayOptions → ℕ → ℕ → Bool
goes_on o x n = ltb x o.retry_max && ltb n o.max_attempts

grow-suc :
    (fuel : ℕ) (o : RelayOptions) (ds : List ℕ) (x n : ℕ)
    → get_last_or ds 0 ≡ x
    → length ds ≡ n
    → grow (suc fuel) o ds
      ≡ (if goes_on o x n then grow fuel o (ds ++ min (x * 2) o.retry_max ∷ []) else ds)
unfolding grow
grow-suc fuel o ds x n e f = rw (← e, ← f)

grow-Grown :
    (fuel : ℕ) (o : RelayOptions) (n : ℕ)
    → suc n ≤ o.max_attempts
    → o.max_attempts ≤ suc n + fuel
    → Grown o (grow fuel o (delays_from o 0 (suc n)))
grow-Grown zero o n h k =
    unfold grow in record { last = n; built = refl; within = h; full = inr (omega arith) }
grow-Grown (suc fuel) o n h k =
    subst (Grown o)
      (sym (grow-suc fuel o ds (delay o n) (suc n) last_eq (length-delays_from o 0 (suc n))))
      (next (λ more. grow-Grown fuel o (suc n) more (omega arith)) (goes_on o (delay o n) (suc n))
        refl)
  where
    ds : List ℕ
    ds = delays_from o 0 (suc n)

    last_eq : get_last_or ds 0 ≡ delay o n
    last_eq = get_last_or-delays_from o 0 n 0 ∙ ap (delay o) (omega arith)

    longer : ds ++ min (delay o n * 2) o.retry_max ∷ [] ≡ delays_from o 0 (suc (suc n))
    longer =
        ap (λ x. ds ++ x ∷ []) (delay-suc o n ∙ ap (delay o) (omega arith))
        ∙ delays_from-snoc o 0 (suc n)

    next :
        (suc (suc n) ≤ o.max_attempts → Grown o (grow fuel o (delays_from o 0 (suc (suc n)))))
        → (b : Bool) → goes_on o (delay o n) (suc n) ≡ b
        → Grown o (if b then grow fuel o (ds ++ min (delay o n * 2) o.retry_max ∷ []) else ds)
    next rec true e = subst (λ l. Grown o (grow fuel o l)) (sym longer) (rec (ground arith))
    next rec false e = record { last = n; built = refl; within = h; full = ground arith }

retry_delays-Grown : (o : RelayOptions) → IsValid o → Grown o (retry_delays o)
unfolding retry_delays
retry_delays-Grown o v =
    subst (λ d. Grown o (grow o.max_attempts o (d ∷ []))) (omega (arith, v.base_le_max))
      (grow-Grown o.max_attempts o 0 v.some_attempts (omega arith))

get_or-schedule :
    (o : RelayOptions) (now i n k : ℕ)
    → k < n
    → get_or (map (λ d. now + d) (delays_from o i n)) k 0 ≡ now + delay o (i + k)
get_or-schedule o now i zero k h = absurd (omega arith)
get_or-schedule o now i (suc n) zero h = rw add-zero
get_or-schedule o now i (suc n) (suc k) h =
    get_or-schedule o now (suc i) n k (omega arith) ∙ ap (λ j. now + delay o j) (omega arith)

-- Past the schedule's last entry the delay stays what the last entry is.
delay-capped :
    (o : RelayOptions) (m k : ℕ)
    → suc m ≤ o.max_attempts
    → (o.retry_max ≤ o.retry_base * 2 ^ m) ⊎ (o.max_attempts ≤ suc m)
    → delay o (min k m) ≡ delay o (min k (o.max_attempts - 1))
delay-capped o m k h (inr f) = ap (λ j. delay o (min k j)) (omega arith)
delay-capped o m k h (inl f) = elim (dec_le k m) [
  | yes le ↦ ap (delay o) (omega arith)
  | no gt ↦ omega (
    arith,
    pow_mono o.retry_base m (min k m) (omega arith),
    pow_mono o.retry_base m (min k (o.max_attempts - 1)) (omega arith),
  )
]

-- The retry after `failures` failures is delayed by the base doubled for each failure but the
-- first, up to the last attempt's delay, and never by more than the cap.
pub retry_at_lem :
    (o : RelayOptions) (now failures : ℕ)
    → IsValid o
    → retry_at o now failures
      ≡ now + min (o.retry_base * 2 ^ min (failures - 1) (o.max_attempts - 1)) o.retry_max
unfolding retry_at retry_schedule
retry_at_lem o now failures v =
    subst
      (λ ds.
        get_or (sched ds) (min (max (failures - 1) 0) (length (sched ds) - 1)) 0 ≡ now + delay o j)
      (sym g.built)
      (rw length_sched (
        get_or-schedule o now 0 (suc g.last) (min (max (failures - 1) 0) (suc g.last - 1))
          (omega arith)
        ∙ ap (λ d. now + d)
            (ap (delay o) (omega arith) ∙ delay-capped o g.last (failures - 1) g.within g.full)))
  where
    g : Grown o (retry_delays o)
    g = retry_delays-Grown o v

    j : ℕ
    j = min (failures - 1) (o.max_attempts - 1)

    sched : List ℕ → List ℕ
    sched ds = map (λ d. now + d) ds

    length_sched : length (sched (delays_from o 0 (suc g.last))) ≡ suc g.last
    length_sched =
        length-map (λ d. now + d) (delays_from o 0 (suc g.last))
        ∙ length-delays_from o 0 (suc g.last)

-- Every retry is due after at least the base delay and at most the cap.
pub retry_at_bounds :
    (o : RelayOptions) (now failures : ℕ)
    → IsValid o
    → (now + o.retry_base ≤ retry_at o now failures) × (retry_at o now failures ≤ now + o.retry_max)
retry_at_bounds o now failures v =
    let p = pow_mono o.retry_base 0 (min (failures - 1) (o.max_attempts - 1)) (omega arith) in
    rw (retry_at_lem o now failures v) (omega arith, omega arith)
