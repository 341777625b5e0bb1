-- ===== src/Tests/Cycle.antt =====
-- The theorems on the process data cycle at two slaves and a bus that answers.
use pr2_ether_cat_no_ros.Base.{
  inl, inr, ℕ, ◌+◌, ◌*◌, ◌≡◌, ◌≢◌, refl, some, [], ◌∷◌, ◌++◌, arith, bit_xor, replicate, ◌↔◌,
}
use mathlib.Core.Option
use pr2_ether_cat_no_ros.Base.Memory.{slice}
use pr2_ether_cat_no_ros.Driver.State.{Driver, command_size, status_size, slot_size, command_bytes}
use pr2_ether_cat_no_ros.Driver.Checksum.{compute_checksum}
use pr2_ether_cat_no_ros.Driver.Checksum.Closed.{turned, folded, compute_checksum_closed}
use pr2_ether_cat_no_ros.Driver.Checksum.Laws.{compute_checksum_detects}
use pr2_ether_cat_no_ros.Driver.ProcessData.{target_command, pack_racing, update}
use pr2_ether_cat_no_ros.Driver.ProcessData.Pack.{compute_checksum-target_command}
use pr2_ether_cat_no_ros.Driver.ProcessData.Ready.{IsReady}
use pr2_ether_cat_no_ros.Driver.ProcessData.Update.{update_total}
use pr2_ether_cat_no_ros.Driver.ProcessData.Racing.{changed_before, IsTarget, pack_racing_slot}
use pr2_ether_cat_no_ros.Driver.ProcessData.View.{view}
use pr2_ether_cat_no_ros.Driver.ProcessData.Current.{current_in, current_kept_iff}
use pr2_ether_cat_no_ros.Base.Int.{signed, Fits}
use pr2_ether_cat_no_ros.Driver.Loop.Seen.{run_view, run_cycles-view, commands_lost}
use pr2_ether_cat_no_ros.Driver.Loop.{run_cycles, run_cycles_total}
use pr2_ether_cat_no_ros.Tests.{loopback, loopback-IsDocumented, ready_driver, ready_driver-IsReady}

update_total_example :
    (d' : Driver ℕ) × (update loopback 10 ready_driver ≡ some d')
    × IsReady d'
    × (d'.this_buffer ≡ some 104)
    × (d'.prev_buffer ≡ some 0)
    × (d'.master_buffer_size ≡ 104)
    × ((j : ℕ)
        → slice d'.master_buffer (104 + slot_size * j + command_size) status_size
          ≡ slice ready_driver.master_buffer (104 + slot_size * j + command_size) status_size)
update_total_example =
    update_total loopback loopback-IsDocumented 10 ready_driver ready_driver-IsReady

pack_racing_slot_example :
    (d' : Driver ℕ) × (pack_racing (λ i. 10 + i) (changed_before 1 0 1) ready_driver ≡ some d')
    × ((slice d'.master_buffer (0 + slot_size * 1) command_size ≡ command_bytes (target_command 11))
        ↔ IsTarget 1 0 1 1)
    × ((slice d'.master_buffer (0 + slot_size * 1) command_size ≡ replicate command_size 0)
        ↔ ¬ IsTarget 1 0 1 1)
pack_racing_slot_example =
    pack_racing_slot (λ i. 10 + i) 1 0 1 0 1 ready_driver ready_driver-IsReady refl (omega arith)

-- Both slaves get a command in one cycle: the old target before the write, the new one after it.
both_targets : IsTarget 1 0 1 0 × IsTarget 1 0 1 1
both_targets = (inl (refl, omega arith), inr (refl, omega arith))

compute_checksum_detects_example :
    compute_checksum ((3 ∷ []) ++ 5 ∷ 9 ∷ []) ≢ compute_checksum ((3 ∷ []) ++ 6 ∷ 9 ∷ [])
compute_checksum_detects_example =
    compute_checksum_detects (3 ∷ []) (9 ∷ []) 5 6 (omega arith, tt) (omega arith, tt) (omega arith)
      (omega arith) (omega arith)

compute_checksum-target_command_example :
    compute_checksum (command_bytes (target_command 70000)) ≡ 0
compute_checksum-target_command_example = compute_checksum-target_command 70000

run_cycles_total_example :
    (d' : Driver ℕ) × (run_cycles loopback (10 ∷ 20 ∷ 30 ∷ []) ready_driver ≡ some d')
    × IsReady d'
    × (d'.this_buffer ≡ some 104)
    × (d'.prev_buffer ≡ some 0)
    × (d'.master_buffer_size ≡ 104)
    × ((j : ℕ)
        → slice d'.master_buffer (104 + slot_size * j + command_size) status_size
          ≡ slice ready_driver.master_buffer (104 + slot_size * j + command_size) status_size)
run_cycles_total_example =
    run_cycles_total loopback loopback-IsDocumented (10 ∷ 20 ∷ 30 ∷ []) ready_driver
      ready_driver-IsReady

compute_checksum_closed_example :
    compute_checksum (1 ∷ 2 ∷ 3 ∷ []) ≡ bit_xor (turned 3 0x42) (folded (1 ∷ 2 ∷ 3 ∷ []))
compute_checksum_closed_example =
    compute_checksum_closed (1 ∷ 2 ∷ 3 ∷ []) (omega arith, (omega arith, (omega arith, tt)))

run_cycles-view_example :
    Option.map (λ x. view x) (run_cycles loopback (10 ∷ 20 ∷ []) ready_driver)
    ≡ run_view loopback (10 ∷ 20 ∷ []) (view ready_driver)
run_cycles-view_example =
    run_cycles-view loopback loopback-IsDocumented (10 ∷ 20 ∷ []) ready_driver ready_driver-IsReady
      (omega arith)

-- The second of three commands.
commands_lost_example :
    Option.map (λ x. view x) (run_cycles loopback (10 ∷ 20 ∷ 30 ∷ []) ready_driver)
    ≡ Option.map (λ x. view x) (run_cycles loopback (10 ∷ 99 ∷ 30 ∷ []) ready_driver)
commands_lost_example =
    commands_lost loopback loopback-IsDocumented (10 ∷ 20 ∷ 30 ∷ []) (10 ∷ 99 ∷ 30 ∷ [])
      ready_driver ready_driver-IsReady (omega arith) (refl, (refl, tt))

-- A demand of 40000 does not fit.
current_kept_iff_example :
    (current_in (command_bytes (target_command 40000)) ≡ signed 31 40000)
    ↔ Fits 15 (signed 31 40000)
current_kept_iff_example = current_kept_iff 40000 (omega arith)
