-- ===== src/Tests/Session.antt =====
-- A run of the three threads of test/main.cpp with one cycle, from the start to the close.
use pr2_ether_cat_no_ros.Base.{
  ℕ, ◌≡◌, refl, true, false, none, some, List, arith, replicate, length-replicate, map, ◌∙◌,
}
use pr2_ether_cat_no_ros.Eml.SlaveMemory.{new_fixed_station_address}
use pr2_ether_cat_no_ros.Com.Oob.{new_oob}
use pr2_ether_cat_no_ros.Driver.State.{Driver}
use pr2_ether_cat_no_ros.Driver.ProcessData.{update_racing}
use pr2_ether_cat_no_ros.Driver.ProcessData.Update.{update_racing_total, IsUpdated}
use pr2_ether_cat_no_ros.Driver.Startup.{returned, set_up_slaves}
use pr2_ether_cat_no_ros.Driver.ProcessData.Ready.{IsReady}
use pr2_ether_cat_no_ros.Driver.Startup.Whole.{set_up_slaves-IsReady}
use pr2_ether_cat_no_ros.Driver.Startup.Close.{asked, close_operational_slaves_lem}
use pr2_ether_cat_no_ros.Driver.Race.{
  World, rt_loop, rt_waiting, rt_working, rt_leaving, rt_lock, rt_update, rt_unlock,
}
use pr2_ether_cat_no_ros.Driver.Race.Exclusion.{initial}
use pr2_ether_cat_no_ros.Program.{Event, came_back, main_program}
use pr2_ether_cat_no_ros.Program.Whole.{initialize_lem}
use pr2_ether_cat_no_ros.Program.Threads.{
  asking, at_test, ended, finished, Process, running, rt_goes_on, rt_wakes, rt_acts, rt_ends,
  monitor_ends, main_stops, main_joins_rt, main_joins_monitor, main_closes, Steps, none_yet,
  and_then,
}
use pr2_ether_cat_no_ros.Program.Threads.Session.{threads_as_main}
use pr2_ether_cat_no_ros.Tests.{loopback, loopback-IsDocumented, new_driver}
use pr2_ether_cat_no_ros.Tests.Program.{well_answers, well_answers-AllWell}

station_there : loopback.get_slave_handler 0 (new_fixed_station_address 1) ≡ some 1
unfolding new_fixed_station_address
station_there = refl

abbrev set_out : Driver ℕ
set_out = record new_driver { oob_com = new_oob; num_slaves = 2 }

-- What the start ends with.
set_up :
    (d : Driver ℕ) × (set_up_slaves loopback set_out ≡ some d)
    × IsReady d
    × (d.this_buffer ≡ some 0)
    × (d.num_slaves ≡ 2)
    × ((ps : List ℕ) × (d.slave_handles ≡ map some ps))
unfolding new_oob
set_up =
    set_up_slaves-IsReady loopback loopback-IsDocumented set_out 1 refl refl (omega arith)
      station_there (omega arith) (λ h. cc)

abbrev started : Driver ℕ
started = set_up.0

started-slave_handles : (ps : List ℕ) × (started.slave_handles ≡ map some ps)
started-slave_handles = set_up.5

started-IsReady : IsReady started
started-IsReady = set_up.2

-- The one cycle.
cycled :
    (d : Driver ℕ) × (update_racing loopback (λ _. 10) (λ _. 1) started ≡ some d)
    × IsUpdated started d
cycled =
    update_racing_total loopback loopback-IsDocumented (λ _. 10) (λ _. 1) started started-IsReady

abbrev before_cycle : World ℕ
before_cycle = initial started (replicate started.master_buffer_size 0)

abbrev in_cycle : World ℕ
in_cycle = record before_cycle { rt = rt_working; mutex = some rt_loop }

abbrev after_cycle : World ℕ
after_cycle = record in_cycle { rt = rt_leaving; driver = cycled.0 }

abbrev unlocked : World ℕ
unlocked = record after_cycle { rt = rt_waiting; mutex = none }

cycled-slave_handles : cycled.0.slave_handles ≡ map some (started-slave_handles.0)
cycled-slave_handles = cycled.2.same_handles ∙ started-slave_handles.1

abbrev closed : Driver ℕ
closed = record (cycled.0) { net = asked loopback (started-slave_handles.0) cycled.0.net }

abbrev at_end : Process ℕ
at_end = record {
  world = record unlocked { driver = closed };
  run = false;
  main = finished;
  rt = ended;
  monitor = ended;
}

one_cycle :
    Steps loopback
      (running started (replicate started.master_buffer_size 0))
      5
      (record { world = unlocked; run = true; main = asking; rt = at_test; monitor = at_test })
one_cycle =
    and_then
      (and_then
        (and_then (and_then (and_then none_yet (rt_goes_on refl refl)) (rt_wakes refl))
          (rt_acts in_cycle refl (rt_lock refl refl) (λ e. cc)))
        (rt_acts after_cycle refl (rt_update _ _ (cycled.0) refl cycled.1) (λ e. cc)))
      (rt_acts unlocked refl (rt_unlock refl) (λ e. cc))

at_end-Steps : Steps loopback (running started (replicate started.master_buffer_size 0)) 11 at_end
at_end-Steps =
    and_then
      (and_then
        (and_then
          (and_then (and_then (and_then one_cycle (main_stops refl)) (rt_ends refl refl))
            (monitor_ends refl refl))
          (main_joins_rt refl refl))
        (main_joins_monitor refl refl))
      (main_closes closed _ refl (
        close_operational_slaves_lem loopback (started-slave_handles.0) (cycled.0)
          cycled-slave_handles))

threads_as_main_example :
    (es : List Event) × (main_program loopback well_answers
        (replicate started.master_buffer_size 0)
        es
        new_driver
      ≡ returned (came_back closed))
threads_as_main_example =
    threads_as_main loopback loopback-IsDocumented well_answers new_driver started 1
      (replicate started.master_buffer_size 0) 11 at_end well_answers-AllWell refl refl
      station_there (omega arith)
      (initialize_lem loopback well_answers new_driver started well_answers-AllWell set_up.1)
      (length-replicate started.master_buffer_size 0) at_end-Steps refl
