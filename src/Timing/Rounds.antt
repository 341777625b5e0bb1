-- ===== src/Timing/Rounds.antt =====
-- When the rounds of `realTimeLoop` in test/main.cpp call `update`.
use pr2_ether_cat_no_ros.Base.{
  ℕ, zero, suc, ◌+◌, ◌-◌, ◌*◌, ◌/◌, ◌%◌, ◌<◌, ◌≤◌, ◌≡◌, refl, sym, ap, ◌∙◌, List, [], ◌∷◌, arith,
}
use pr2_ether_cat_no_ros.Timing.{IsTime, Timeval, Timespec, rt_loop_wait_time, deadline}

-- What the loop asks of the operating system, with the microseconds that have gone by as its time:
-- the result of `gettimeofday`, and the time at which a `pthread_cond_timedwait` that starts then
-- returns.
pub record Clock : Type 0 where
  pub gettimeofday : ℕ → Timeval
  pub timedwait : ℕ → Timespec → ℕ

abbrev pub instant : Timespec → ℕ
instant timer = timer.tv_sec * 1000000 + timer.tv_nsec / 1000

-- POSIX, for a timer without delay and with no signal: a valid time that is not over is waited for.
pub record IsExact (os : Clock) : Type 0 where
  pub whole : (t : ℕ) → (os.gettimeofday t).tv_sec * 1000000 + (os.gettimeofday t).tv_usec ≡ t
  pub part : (t : ℕ) → (os.gettimeofday t).tv_usec < 1000000
  pub waits_for :
      (t : ℕ) (timer : Timespec)
      → IsTime timer
      → t ≤ instant timer
      → os.timedwait t timer ≡ instant timer

-- Where the loop stands: the time at `while(__RUN_THREADS__)`, and `timer_interrupt`.
pub record Rt : Type 0 where
  pub time : ℕ
  pub timer : Timespec

-- `n` times a wait of `w` and none.
abbrev pub in_pairs : ℕ → ℕ → List ℕ
in_pairs zero w = []
in_pairs (suc n) w = w ∷ 0 ∷ in_pairs n w

module _ (os : Clock) where
  -- A round whose `update` takes `v` microseconds. The next `timer_interrupt` is set from the time
  -- that was read before the wait.
  unfoldable pub rt_round : ℕ → Rt → Rt
  rt_round v s = record {
    time = os.timedwait s.time s.timer + v;
    timer = deadline rt_loop_wait_time (os.gettimeofday s.time);
  }

  -- How long each of the next rounds waits.
  unfoldable pub waits : ℕ → ℕ → Rt → List ℕ
  waits zero v s = []
  waits (suc n) v s = (os.timedwait s.time s.timer - s.time) ∷ waits n v (rt_round v s)

  -- The loop at its test at `s`, after a round that started at `t`.
  abbrev pub after_round : ℕ → ℕ → Rt
  after_round t s = record { time = s; timer = deadline rt_loop_wait_time (os.gettimeofday t) }

module _ (os : Clock) (exact : IsExact os) where
  until_lem :
      (t now : ℕ)
      → t % 1000000 + 900 < 1000000
      → now ≤ t + 900
      → os.timedwait now (deadline rt_loop_wait_time (os.gettimeofday t)) ≡ t + 900
  unfolding deadline
  until_lem t now h le =
      let read : (os.gettimeofday t).tv_usec ≡ t % 1000000 =
        omega (arith, exact.whole t, exact.part t) in
      let timer = deadline rt_loop_wait_time (os.gettimeofday t) in
      let there : instant timer ≡ t + 900 = omega (arith, exact.whole t) in
      exact.waits_for now timer (omega (arith, read, h)) (omega (arith, there, le)) ∙ there

  round_lem :
      (t s v : ℕ)
      → t % 1000000 + 900 < 1000000
      → s ≤ t + 900
      → rt_round os v (after_round os t s) ≡ after_round os s (t + 900 + v)
  unfolding rt_round
  round_lem t s v h le = ap (λ x. after_round os s (x + v)) (until_lem t s h le)

  two_rounds :
      (t v : ℕ)
      → v ≤ 900
      → t % 1000000 + (900 + v) < 1000000
      → rt_round os v (rt_round os v (after_round os t (t + v)))
        ≡ after_round os (t + (900 + v)) (t + (900 + v) + v)
  two_rounds t v small inside =
      ap (rt_round os v) (round_lem t (t + v) v (omega arith) (omega arith))
      ∙ round_lem (t + v) (t + 900 + v) v (omega arith) (omega arith)
      ∙ ap (λ x. after_round os x (t + v + 900 + v)) (omega arith)
      ∙ ap (λ x. after_round os (t + (900 + v)) x) (omega arith)

  two_waits :
      (t v : ℕ)
      → v ≤ 900
      → t % 1000000 + (900 + v) < 1000000
      → (rest : List ℕ) (n : ℕ)
      → waits os n v (after_round os (t + (900 + v)) (t + (900 + v) + v)) ≡ rest
      → waits os (suc (suc n)) v (after_round os t (t + v)) ≡ (900 - v) ∷ 0 ∷ rest
  unfolding waits
  two_waits t v small inside rest n e =
      let one : os.timedwait (t + v) (deadline rt_loop_wait_time (os.gettimeofday t)) ≡ t + 900 =
        until_lem t (t + v) (omega arith) (omega arith) in
      let first : os.timedwait (t + v) (deadline rt_loop_wait_time (os.gettimeofday t)) - (t + v)
          ≡ 900 - v =
        omega (arith, one) in
      let two : os.timedwait (t + 900 + v) (deadline rt_loop_wait_time (os.gettimeofday (t + v)))
          ≡ t + v + 900 =
        until_lem (t + v) (t + 900 + v) (omega arith) (omega arith) in
      let second : os.timedwait (t + 900 + v) (deadline rt_loop_wait_time (os.gettimeofday (t + v)))
            - (t + 900 + v)
          ≡ 0 =
        omega (arith, two) in
      ap (λ x. x ∷ waits os (suc n) v (rt_round os v (after_round os t (t + v)))) first
      ∙ ap (λ r. (900 - v) ∷ waits os (suc n) v r)
          (round_lem t (t + v) v (omega arith) (omega arith))
      ∙ ap
          (λ x. (900 - v) ∷ x ∷ waits os n v (rt_round os v (after_round os (t + v) (t + 900 + v))))
          second
      ∙ ap (λ r. (900 - v) ∷ 0 ∷ waits os n v r)
          (ap (rt_round os v) (sym (round_lem t (t + v) v (omega arith) (omega arith)))
            ∙ two_rounds t v small inside)
      ∙ ap (λ l. (900 - v) ∷ 0 ∷ l) e

  -- With a timer without delay, as long as all is within one second, and each `update` takes the
  -- same time `v` of at most 900 microseconds: from the end of a round that did not wait on,
  -- `realTimeLoop` waits in every other round only, for `900 - v` microseconds, so that it calls
  -- `update` twice in each `900 + v` microseconds, the second time at once after the first.
  pub updates_in_pairs :
      (n t v : ℕ)
      → v ≤ 900
      → t % 1000000 + n * (900 + v) < 1000000
      → waits os (2 * n) v (after_round os t (t + v)) ≡ in_pairs n (900 - v)
  unfolding waits
  updates_in_pairs zero t v small inside = refl
  updates_in_pairs (suc n) t v small inside =
      let more : suc n * (900 + v) ≡ (900 + v) + n * (900 + v) = omega arith in
      let twice : 2 * suc n ≡ suc (suc (2 * n)) = omega arith in
      ap (λ m. waits os m v (after_round os t (t + v))) twice
      ∙ two_waits t v small (omega (arith, more)) (in_pairs n (900 - v)) (2 * n)
          (updates_in_pairs n (t + (900 + v)) v small (omega (arith, more)))
