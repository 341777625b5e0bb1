-- ===== src/Tests/Watch.antt =====
-- The theorems on what the monitor prints, with two slaves.
use pr2_ether_cat_no_ros.Base.{
  ℕ, ◌≡◌, ◌↔◌, refl, true, false, some, List, [], ◌∷◌, ◌++◌, arith, replicate, ap, ◌∙◌,
}
use pr2_ether_cat_no_ros.Base.Int.{ℤ, pos, ◌-ℤ◌}
use pr2_ether_cat_no_ros.Base.Memory.{slice, length-slice}
use pr2_ether_cat_no_ros.Eml.Wire.{le_value}
use pr2_ether_cat_no_ros.Driver.Monitor.{Monitor, monitor_changes}
use pr2_ether_cat_no_ros.Driver.Monitor.Lines.{Printed, OneMoved, Near}
use pr2_ether_cat_no_ros.Driver.Monitor.Calls.{Watched, saved, monitor_at_lem, monitor_changes_lem}
use pr2_ether_cat_no_ros.Driver.Monitor.Blind.{monitor_blind}
use pr2_ether_cat_no_ros.Driver.State.{Driver}
use pr2_ether_cat_no_ros.Driver.ProcessData.{max_pd_retries, update}
use pr2_ether_cat_no_ros.Driver.ProcessData.Pack.{length-packed}
use pr2_ether_cat_no_ros.Driver.ProcessData.Replies.{first_reply, wire}
use pr2_ether_cat_no_ros.Driver.ProcessData.Update.{update_total}
use pr2_ether_cat_no_ros.Driver.ProcessData.View.{view, with_command}
use pr2_ether_cat_no_ros.Driver.Reported.{reply_reported}
use pr2_ether_cat_no_ros.Driver.Loop.{run_cycles, run_cycles_total}
use pr2_ether_cat_no_ros.Tests.{loopback, loopback-IsDocumented, ready_driver, ready_driver-IsReady}

-- What was saved differs from the buffer in the low byte of the first slave's count.
abbrev watching : Monitor
watching = record { delta_init = true; backup = replicate 20 0 ++ 9 ∷ replicate 83 0 }

ready-Watched : Watched ready_driver watching 104
ready-Watched = record {
  points = refl;
  inside = omega arith;
  room = omega arith;
  backup_size = refl;
}

ready-Near : Near ready_driver.slave_handles 104 0 ready_driver.master_buffer watching.backup
unfolding slice le_value ◌-ℤ◌
ready-Near = (omega arith, (omega arith, tt))

monitor_changes_lem_example :
    (lines : List (ℕ × ℤ)) × (monitor_changes (pos 1) ready_driver watching
      ≡ some (lines, saved ready_driver 104))
    × ((x : ℕ × ℤ)
        → Printed x lines ↔ OneMoved (pos 1) 0 104 0 ready_driver.master_buffer watching.backup 2 x)
monitor_changes_lem_example =
    monitor_changes_lem (pos 1) ready_driver watching 104 ready-Watched refl ready-Near

-- A first call.
abbrev resting : Monitor
resting = record { delta_init = false; backup = replicate 104 0 }

resting-Watched : Watched ready_driver resting 104
resting-Watched = record {
  points = refl;
  inside = omega arith;
  room = omega arith;
  backup_size = refl;
}

-- The driver after two cycles, whose answers have another count.
abbrev later : Driver ℕ
later =
    (run_cycles_total loopback loopback-IsDocumented (10 ∷ 20 ∷ []) ready_driver
      ready_driver-IsReady).0

later-run_cycles : run_cycles loopback (10 ∷ 20 ∷ []) ready_driver ≡ some later
later-run_cycles =
    (run_cycles_total loopback loopback-IsDocumented (10 ∷ 20 ∷ []) ready_driver
      ready_driver-IsReady).1

later-prev_buffer : later.prev_buffer ≡ some 104
later-prev_buffer =
    (run_cycles_total loopback loopback-IsDocumented (10 ∷ 20 ∷ []) ready_driver
      ready_driver-IsReady).4

monitor_blind_example :
    monitor_changes (pos 0) later (saved ready_driver 104) ≡ some ([], saved later 104)
monitor_blind_example =
    monitor_blind loopback loopback-IsDocumented (pos 1) 0 (10 ∷ 20 ∷ []) ready_driver later resting
      (saved ready_driver 104) [] ready_driver-IsReady refl refl
      (monitor_at_lem (pos 1) ready_driver resting 104 [] resting-Watched refl) later-run_cycles
      later-prev_buffer

-- The driver after one cycle, and its answer.
abbrev once : Driver ℕ
once = (update_total loopback loopback-IsDocumented 10 ready_driver ready_driver-IsReady).0

once-update : update loopback 10 ready_driver ≡ some once
once-update = (update_total loopback loopback-IsDocumented 10 ready_driver ready_driver-IsReady).1

abbrev answer : List ℕ
answer = replicate 104 7

answer-first_reply :
    (first_reply loopback max_pd_retries 0 (with_command loopback 10 (view ready_driver)).frame).1
    ≡ some answer
unfolding first_reply
answer-first_reply =
    ap (λ n. some (replicate n 7))
      (length-packed (λ _. 10) (λ _. 1) 2 0 0 (wire ready_driver)
        ∙ length-slice ready_driver.master_buffer 0 104 (omega arith))

answer-Near : Near ready_driver.slave_handles 0 0 answer watching.backup
unfolding slice le_value ◌-ℤ◌
answer-Near = (omega arith, (omega arith, tt))

reply_reported_example :
    (lines : List (ℕ × ℤ)) × (monitor_changes (pos 1) once watching ≡ some (lines, saved once 0))
    × ((x : ℕ × ℤ) → Printed x lines ↔ OneMoved (pos 1) 0 0 0 answer watching.backup 2 x)
reply_reported_example =
    reply_reported loopback loopback-IsDocumented 10 (pos 1) ready_driver once watching answer
      ready_driver-IsReady (omega arith) refl once-update answer-first_reply refl refl answer-Near
