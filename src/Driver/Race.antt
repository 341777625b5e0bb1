-- ===== src/Driver/Race.antt =====
-- `update` and `monitorChanges` of driver/wg05.cpp in their two threads, as test/main.cpp runs
-- them: `mutex_buffer_access`, and each read of `prev_buffer_` outside of it as a step of its own.
pub mod Lock
pub mod Exclusion
pub mod Progress
pub mod Safety
use pr2_ether_cat_no_ros.Base.{ℕ, ◌≡◌, ◌≢◌, Bool, true, false, Option, none, some, List, ◌++◌}
use pr2_ether_cat_no_ros.Base.Int.{ℤ}
use pr2_ether_cat_no_ros.Base.Memory.{read_bytes, write_bytes}
use pr2_ether_cat_no_ros.Eml.Library.{Library}
use pr2_ether_cat_no_ros.Driver.State.{Driver}
use pr2_ether_cat_no_ros.Driver.ProcessData.{update_racing}
use pr2_ether_cat_no_ros.Driver.Monitor.{compare_from}

-- The two threads, as owners of the mutex.
pub data Thread : Type 0 where
  rt_loop monitor_loop : Thread

-- Where the real-time thread stands in `update`.
pub data RtPc : Type 0 where
  rt_waiting : RtPc  -- before `pthread_mutex_lock`
  rt_working : RtPc  -- before `packCommand`, with the mutex
  rt_leaving : RtPc  -- after the exchange of the pointers, before `pthread_mutex_unlock`

-- Where the monitor thread stands in `monitorChanges`.
pub data MonitorPc : Type 0 where
  testing : MonitorPc  -- at `if(monitor_delta_init && prev_buffer_)`
  reading : MonitorPc  -- before `prev_buffer = prev_buffer_`
  holding : (prev : ℕ) → MonitorPc  -- with that pointer, before the first lock
  comparing : (prev : ℕ) → MonitorPc  -- before the loop, with the mutex
  compared : MonitorPc  -- after the loop, with the mutex
  testing_again : MonitorPc  -- at `if(prev_buffer_)`
  wanting : MonitorPc  -- before the second lock
  saving : MonitorPc  -- before `memcpy`, with the mutex
  saved_frame : MonitorPc  -- after `memcpy`, with the mutex

pub record World (Net : Type 0) : Type 0 where
  pub driver : Driver Net
  pub mutex : Option Thread
  pub rt : RtPc
  pub monitor : MonitorPc
  pub delta_init : Bool
  pub backup : List ℕ
  pub printed : List (ℕ × ℤ)

-- Whether the tests of `monitorChanges` on the pointer succeed.
abbrev pub is_set : Option ℕ → Bool
is_set none = false
is_set (some p) = true

-- One step. `update` writes `prev_buffer_` once, so that a read of it finds the pointer from before
-- or from after the call. `main` writes what `packCommand` reads without the mutex, so that its
-- rounds may find any values. `memcpy` through a null pointer has no step.
module _ {Net : Type 0} (lib : Library Net) (threshold : ℤ) where
  pub data Step (w : World Net) : World Net → Type 0 where
    rt_lock :
        w.rt ≡ rt_waiting
        → w.mutex ≡ none
        → Step w (record w { rt = rt_working; mutex = some rt_loop })
    rt_update :
        (demands targets : ℕ → ℕ) (d : Driver Net)
        → w.rt ≡ rt_working
        → update_racing lib demands targets (w.driver) ≡ some d
        → Step w (record w { rt = rt_leaving; driver = d })
    rt_unlock : w.rt ≡ rt_leaving → Step w (record w { rt = rt_waiting; mutex = none })
    enter :
        w.monitor ≡ testing
        → w.delta_init ≡ true
        → is_set w.driver.prev_buffer ≡ true
        → Step w (record w { monitor = reading })
    pass_first :
        w.monitor ≡ testing → w.delta_init ≡ false → Step w (record w { monitor = testing_again })
    pass_null :
        w.monitor ≡ testing
        → is_set w.driver.prev_buffer ≡ false
        → Step w (record w { monitor = testing_again })
    read :
        (p : ℕ)
        → w.monitor ≡ reading
        → w.driver.prev_buffer ≡ some p
        → Step w (record w { monitor = holding p })
    lock_first :
        (p : ℕ)
        → w.monitor ≡ holding p
        → w.mutex ≡ none
        → Step w (record w { monitor = comparing p; mutex = some monitor_loop })
    compare :
        (p : ℕ) (lines : List (ℕ × ℤ))
        → w.monitor ≡ comparing p
        → compare_from threshold w.driver.slave_handles 0 p 0 w.driver.master_buffer w.backup
          ≡ some lines
        → Step w (record w { monitor = compared; printed = w.printed ++ lines })
    unlock_first :
        w.monitor ≡ compared → Step w (record w { monitor = testing_again; mutex = none })
    want :
        w.monitor ≡ testing_again
        → is_set w.driver.prev_buffer ≡ true
        → Step w (record w { monitor = wanting })
    skip :
        w.monitor ≡ testing_again
        → is_set w.driver.prev_buffer ≡ false
        → Step w (record w { monitor = testing })
    lock_second :
        w.monitor ≡ wanting
        → w.mutex ≡ none
        → Step w (record w { monitor = saving; mutex = some monitor_loop })
    save :
        (p : ℕ) (bytes backup : List ℕ)
        → w.monitor ≡ saving
        → w.driver.prev_buffer ≡ some p
        → read_bytes w.driver.master_buffer p w.driver.master_buffer_size ≡ some bytes
        → write_bytes w.backup 0 bytes ≡ some backup
        → Step w (record w { monitor = saved_frame; backup = backup })
    unlock_second :
        w.monitor ≡ saved_frame
        → Step w (record w { monitor = testing; mutex = none; delta_init = true })

  -- Any number of steps of the two threads, in any order.
  pub data Reach (w : World Net) : World Net → Type 0 where
    start : Reach w w
    step : {v u : World Net} → Reach w v → Step v u → Reach w u
