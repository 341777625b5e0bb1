-- ===== src/Tests/Startup.antt =====
-- The theorems on the start and the configuration, on a bus of two WG05 slaves.
use pr2_ether_cat_no_ros.Base.{
  ℕ, ◌+◌, ◌*◌, ◌<◌, ◌≢◌, replicate, ◌≡◌, ◌↔◌, refl, true, none, some, List, [], ◌∷◌, arith, map,
  take, All,
}
use pr2_ether_cat_no_ros.Base.Int.{pos, sub_ℕ}
use pr2_ether_cat_no_ros.Base.Memory.{slice}
use pr2_ether_cat_no_ros.Eml.SlaveMemory.{new_fixed_station_address}
use pr2_ether_cat_no_ros.Com.Oob.{new_oob}
use mathlib.Core.Option
use pr2_ether_cat_no_ros.Driver.Delivery.{command_delivered}
use pr2_ether_cat_no_ros.Driver.ProcessData.{update, target_command, max_pd_retries}
use pr2_ether_cat_no_ros.Driver.State.{command_bytes, Driver, command_size, slot_size}
use pr2_ether_cat_no_ros.Driver.ProcessData.Ready.{IsReady}
use pr2_ether_cat_no_ros.Driver.ProcessData.Replies.{network_after}
use pr2_ether_cat_no_ros.Driver.Configure.Windows.{HasWindows}
use pr2_ether_cat_no_ros.Driver.Configure.Managers.{IsManaged}
use pr2_ether_cat_no_ros.Driver.Configure.Given.{slaves-IsManaged}
use pr2_ether_cat_no_ros.Driver.Configure.{configure_wg05_slaves}
use pr2_ether_cat_no_ros.Eml.SlaveConf.{PdConfig}
use pr2_ether_cat_no_ros.Driver.Configure.Layout.{
  IsWg05Handle, found_and_configured, window_at_slot_iff,
}
use pr2_ether_cat_no_ros.Driver.Startup.{
  Answers, returned, initialize_ecat_master, set_up_slaves, close_operational_slaves,
}
use pr2_ether_cat_no_ros.Driver.Startup.Whole.{
  AllWell, initialize_ecat_master_iff, set_up_slaves-IsReady,
}
use pr2_ether_cat_no_ros.Driver.Startup.Close.{asked, successes, close_operational_slaves_lem}
use pr2_ether_cat_no_ros.Tests.{
  loopback, loopback-IsDocumented, new_driver, found_driver, ready_driver, ready_driver-IsReady,
}

abbrev well : Answers
well = record {
  socket_fd = pos 3;
  ioctl_result = pos 0;
  close_result = pos 0;
  iff_up = true;
  iff_running = true;
  interface = true;
  application_layer = true;
  slaves = 2;
  master = true;
}

initialize_ecat_master_iff_example :
    (initialize_ecat_master well new_driver ≡ returned new_driver)
    ↔ (AllWell well × (new_driver ≡ record new_driver { oob_com = new_oob; num_slaves = 2 }))
initialize_ecat_master_iff_example = initialize_ecat_master_iff well new_driver new_driver

set_up_slaves-IsReady_example :
    (d' : Driver ℕ) × (set_up_slaves loopback new_driver ≡ some d')
    × IsReady d'
    × (d'.this_buffer ≡ some 0)
    × (d'.num_slaves ≡ 2)
    × ((ps : List ℕ) × (d'.slave_handles ≡ map some ps))
unfolding new_fixed_station_address
set_up_slaves-IsReady_example =
    set_up_slaves-IsReady loopback loopback-IsDocumented new_driver 1 refl refl (omega arith) refl
      (omega arith) (λ e. cc)

window_at_slot_iff_example :
    HasWindows
      (65536 + slot_size * 1)
      ((found_and_configured loopback loopback-IsDocumented found_driver).handlers 2)
    ↔ All (IsWg05Handle found_driver.handlers) (take 1 found_driver.slave_handles)
window_at_slot_iff_example =
    window_at_slot_iff loopback loopback-IsDocumented found_driver 1 2 refl
      (((omega arith), tt), (tt, tt)) (omega arith) refl refl

-- The second slave, behind a null pointer.
slaves-IsManaged_example :
    (c : PdConfig) × (((configure_wg05_slaves loopback
          (record found_driver { wg05_slave_handles = some 1 ∷ none ∷ some 2 ∷ [] })).handlers
        2).conf.pd_config
      ≡ some c)
    × IsManaged c
slaves-IsManaged_example =
    slaves-IsManaged loopback loopback-IsDocumented 2 2
      (record found_driver { wg05_slave_handles = some 1 ∷ none ∷ some 2 ∷ [] }) refl refl

close_operational_slaves_lem_example :
    close_operational_slaves loopback found_driver
    ≡ some (
      record found_driver { net = asked loopback (1 ∷ 2 ∷ []) 0 },
      sub_ℕ 0 (successes loopback (1 ∷ 2 ∷ []) 0),
    )
close_operational_slaves_lem_example =
    close_operational_slaves_lem loopback (1 ∷ 2 ∷ []) found_driver refl

-- Ready buffers on the same bus, with the second slave as the target.
command_delivered_example :
    (frame : List ℕ) × HasWindows
      (65536 + slot_size * 1)
      ((found_and_configured loopback loopback-IsDocumented found_driver).handlers 2)
    × (Option.map (λ s. s.net) (update loopback 10 ready_driver)
        ≡ network_after loopback max_pd_retries 0 ready_driver.oob_com frame)
    × (slice frame (slot_size * 1) command_size ≡ command_bytes (target_command 10))
    × ((j : ℕ)
        → j < 2
        → j ≢ 1
        → slice frame (slot_size * j) command_size ≡ replicate command_size 0)
command_delivered_example =
    command_delivered loopback loopback-IsDocumented found_driver 1 2 10 ready_driver refl
      (((omega arith), tt), (tt, tt)) (omega arith) refl refl (refl, tt) ready_driver-IsReady refl
      refl refl
