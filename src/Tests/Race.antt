-- ===== src/Tests/Race.antt =====
-- The theorems on `update` and `monitorChanges` in their two threads, with two slaves.
use pr2_ether_cat_no_ros.Base.{ℕ, ◌≡◌, ◌≢◌, refl, true, false, some, arith, replicate, subst}
use pr2_ether_cat_no_ros.Base.Int.{pos, ◌-ℤ◌}
use pr2_ether_cat_no_ros.Base.Memory.{slice, splice, read_bytes, write_bytes}
use pr2_ether_cat_no_ros.Eml.Wire.{le_value}
use pr2_ether_cat_no_ros.Driver.Monitor.Lines.{Near}
use pr2_ether_cat_no_ros.Driver.Race.{
  rt_loop, monitor_loop, rt_waiting, rt_working, holding, comparing, World, Step, rt_lock,
  pass_first, want, lock_second, save, unlock_second, enter, read, lock_first, Reach, start, step,
}
use pr2_ether_cat_no_ros.Driver.Race.Lock.{owns, rt_owns}
use pr2_ether_cat_no_ros.Driver.Race.Exclusion.{initial}
use pr2_ether_cat_no_ros.Driver.Race.Safety.{never_both, each_moves, stale_frame}
use pr2_ether_cat_no_ros.Tests.{loopback, loopback-IsDocumented, ready_driver, ready_driver-IsReady}

abbrev fresh : World ℕ
fresh = initial ready_driver (replicate 104 0)

-- The real-time thread is in `update`.
abbrev updating : World ℕ
updating = record fresh { rt = rt_working; mutex = some rt_loop }

never_both_example :
    (rt_owns updating.rt ≡ true → owns updating.monitor ≡ false)
    × (owns updating.monitor ≡ true
        → (v : World ℕ) → Step loopback (pos 1) updating v
        → v.driver ≡ updating.driver)
never_both_example =
    never_both loopback loopback-IsDocumented (pos 1) ready_driver (replicate 104 0) updating
      ready_driver-IsReady refl (step start (rt_lock refl refl))

-- The monitor has saved one frame, and has read the pointer in its second call.
abbrev second_call : World ℕ
second_call = record fresh { monitor = holding 104; delta_init = true }

second_call-Reach : Reach loopback (pos 1) fresh second_call
unfolding read_bytes write_bytes slice splice
second_call-Reach =
    step
      (step
        (step
          (step
            (step (step (step start (pass_first refl refl)) (want refl refl))
              (lock_second refl refl))
            (save 104 (replicate 104 0) (replicate 104 0) refl refl refl refl))
          (unlock_second refl))
        (enter refl refl refl))
      (read 104 refl refl)

-- It has the mutex and is about to compare.
abbrev at_loop : World ℕ
at_loop = record second_call { monitor = comparing 104; mutex = some monitor_loop }

at_loop-Near : Near ready_driver.slave_handles 104 0 ready_driver.master_buffer (replicate 104 0)
unfolding slice le_value ◌-ℤ◌
at_loop-Near = (omega arith, (omega arith, tt))

at_loop-Nears :
    (p : ℕ)
    → at_loop.monitor ≡ comparing p
    → Near ready_driver.slave_handles p 0 ready_driver.master_buffer (replicate 104 0)
at_loop-Nears p e =
    let same : 104 ≡ p = cc in
    subst (λ q. Near ready_driver.slave_handles q 0 ready_driver.master_buffer (replicate 104 0))
      same at_loop-Near

each_moves_example :
    (at_loop.mutex ≢ some rt_loop
      → (v : World ℕ) × Step loopback (pos 1) at_loop v × (v.monitor ≢ comparing 104))
    × (at_loop.mutex ≢ some monitor_loop
        → (v : World ℕ) × Step loopback (pos 1) at_loop v × (v.rt ≢ rt_waiting))
each_moves_example =
    each_moves loopback loopback-IsDocumented (pos 1) ready_driver (replicate 104 0) at_loop
      ready_driver-IsReady refl (step second_call-Reach (lock_first 104 refl refl)) at_loop-Nears

stale_frame_example :
    (v : World ℕ) × Reach loopback (pos 1) second_call v
    × (v.monitor ≡ comparing 104)
    × (v.driver.this_buffer ≡ some 104)
stale_frame_example =
    stale_frame loopback loopback-IsDocumented (pos 1) ready_driver (replicate 104 0) second_call
      ready_driver-IsReady refl second_call-Reach 104 refl refl refl refl
