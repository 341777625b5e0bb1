-- ===== src/Timing.antt =====
-- The waits of the two threads of test/main.cpp: `realTimeLoop` and `monitorChanges`.
pub mod Rounds
pub mod Monitor
use pr2_ether_cat_no_ros.Base.{ℕ, ◌+◌, ◌*◌, ◌<◌, ◌≤◌, ◌↔◌, arith}

-- `struct timeval` and `struct timespec`
pub record Timeval : Type 0 where
  pub tv_sec : ℕ
  pub tv_usec : ℕ

pub record Timespec : Type 0 where
  pub tv_sec : ℕ
  pub tv_nsec : ℕ

-- `RT_LOOP_WAIT_TIME` and `MONITOR_LOOP_WAIT_TIME`, in microseconds
abbrev pub rt_loop_wait_time : ℕ
rt_loop_wait_time = 900

abbrev pub monitor_loop_wait_time : ℕ
monitor_loop_wait_time = 500000

-- `timer_interrupt`, as the two loops set it from `gettimeofday`.
unfoldable pub deadline : ℕ → Timeval → Timespec
deadline wait now = record { tv_sec = now.tv_sec; tv_nsec = (now.tv_usec + wait) * 1000 }

-- What POSIX asks of the time that `pthread_cond_timedwait` is given; it returns EINVAL at once for
-- any other.
abbrev pub IsTime : Timespec → Type 0
IsTime t = t.tv_nsec < 1000000000

-- The two threads give `pthread_cond_timedwait` a time exactly if their wait ends in the second in
-- which it starts: the real-time loop up to the microsecond 999099, the monitor up to 499999.
pub deadline-IsTime_iff :
    (now : Timeval)
    → (IsTime (deadline rt_loop_wait_time now) ↔ (now.tv_usec ≤ 999099))
      × (IsTime (deadline monitor_loop_wait_time now) ↔ (now.tv_usec ≤ 499999))
unfolding deadline
deadline-IsTime_iff now = (
  ((λ h. omega (arith, h)), (λ h. omega (arith, h))),
  ((λ h. omega (arith, h)), (λ h. omega (arith, h))),
)
