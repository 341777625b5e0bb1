-- ===== src/Timing/Monitor.antt =====
-- When the thread `monitorChanges` of test/main.cpp calls `kul::monitorChanges`.
use pr2_ether_cat_no_ros.Base.{ℕ, zero, suc, ◌+◌, ◌*◌, ◌%◌, ◌<◌, ◌≤◌, ◌≡◌, ap, ◌∙◌, arith}
use pr2_ether_cat_no_ros.Timing.{IsTime, Timespec, monitor_loop_wait_time, deadline}
use pr2_ether_cat_no_ros.Timing.Rounds.{Clock, IsExact, instant}

-- POSIX: `pthread_cond_timedwait` returns EINVAL at once for a time that is not valid.
pub record Refuses (os : Clock) : Type 0 where
  pub at_once : (t : ℕ) (timer : Timespec) → ¬ IsTime timer → os.timedwait t timer ≡ t

module _ (os : Clock) where
  -- The time at the end of a round that starts at `t` and whose `kul::monitorChanges` takes `v`
  -- microseconds.
  unfoldable pub monitor_round : ℕ → ℕ → ℕ
  monitor_round v t = os.timedwait t (deadline monitor_loop_wait_time (os.gettimeofday t)) + v

  -- The time after so many rounds.
  unfoldable pub monitor_rounds : ℕ → ℕ → ℕ → ℕ
  monitor_rounds zero v t = t
  monitor_rounds (suc n) v t = monitor_rounds n v (monitor_round v t)

module _ (os : Clock) (exact : IsExact os) (refuses : Refuses os) where
  usec : (t : ℕ) → (os.gettimeofday t).tv_usec ≡ t % 1000000
  usec t = omega (arith, exact.whole t, exact.part t)

  waiting_round : (t v : ℕ) → t % 1000000 < 500000 → monitor_round os v t ≡ t + 500000 + v
  unfolding monitor_round deadline
  waiting_round t v h =
      let timer = deadline monitor_loop_wait_time (os.gettimeofday t) in
      let there : instant timer ≡ t + 500000 = omega (arith, exact.whole t) in
      ap (λ x. x + v)
        (exact.waits_for t timer (omega (arith, usec t, h)) (omega (arith, there)) ∙ there)

  spinning_round : (t v : ℕ) → 500000 ≤ t % 1000000 → monitor_round os v t ≡ t + v
  unfolding monitor_round deadline
  spinning_round t v h =
      ap (λ x. x + v)
        (refuses.at_once t (deadline monitor_loop_wait_time (os.gettimeofday t))
          (λ valid. omega (arith, usec t, h, valid)))

  spinning :
      (n t v : ℕ)
      → 500000 ≤ t % 1000000
      → t % 1000000 + n * v < 1000000
      → monitor_rounds os n v t ≡ t + n * v
  unfolding monitor_rounds
  spinning zero t v late inside = omega arith
  spinning (suc n) t v late inside =
      let more : suc n * v ≡ v + n * v = omega arith in
      ap (monitor_rounds os n v) (spinning_round t v late)
      ∙ spinning n (t + v) v (omega (arith, more)) (omega (arith, more))
      ∙ omega (arith, more)

  -- With a timer without delay that returns at once for an invalid time: from a time in the first
  -- half of a second the thread waits for half a second, and each later round of that second calls
  -- `kul::monitorChanges` without a wait, so that `n` calls that take `v` microseconds follow one
  -- another in `n * v` microseconds.
  pub monitor_spins :
      (n t v : ℕ)
      → t % 1000000 < 500000
      → t % 1000000 + 500000 + suc n * v < 1000000
      → monitor_rounds os (suc n) v t ≡ t + 500000 + suc n * v
  unfolding monitor_rounds
  monitor_spins n t v early inside =
      let more : suc n * v ≡ v + n * v = omega arith in
      ap (monitor_rounds os n v) (waiting_round t v early)
      ∙ spinning n (t + 500000 + v) v (omega (arith, more)) (omega (arith, more))
      ∙ omega (arith, more)
