-- ===== src/Tests/Program.antt =====
-- The theorems on `main` of test/main.cpp, on a bus of two WG05 slaves.
use pr2_ether_cat_no_ros.Base.{
  ℕ, replicate, zero, suc, ◌/◌, ◌%◌, if◌then◌else◌, ◌<◌, ◌≤◌, ◌≡◌, ◌⊎◌, inl, refl, true, false,
  Option, none, some, List, [], ◌∷◌, map, arith, ltb,
}
use pr2_ether_cat_no_ros.Base.Int.{pos}
use pr2_ether_cat_no_ros.Eml.SlaveMemory.{new_fixed_station_address}
use pr2_ether_cat_no_ros.Driver.State.{Driver}
use pr2_ether_cat_no_ros.Driver.ProcessData.Ready.{IsReady}
use pr2_ether_cat_no_ros.Driver.Startup.{Answers, returned, faulted, initialize_pr2_ethercat_slaves}
use pr2_ether_cat_no_ros.Driver.Startup.Whole.{AllWell}
use pr2_ether_cat_no_ros.Program.{
  Run, session, Panel, human_loop, Event, cycle, checked, entered_target, entered_amplitude, begun,
  came_back, main_program,
}
use pr2_ether_cat_no_ros.Program.Events.{last_target}
use pr2_ether_cat_no_ros.Program.Played.{Breaks}
use pr2_ether_cat_no_ros.Program.Operator.{value, told, human_loop_lem}
use pr2_ether_cat_no_ros.Program.Whole.{closed_if, main_program_lem}
use pr2_ether_cat_no_ros.Program.Bare.{bare, empty_rounds, main_program-bare}
use pr2_ether_cat_no_ros.Com.Oob.{Oob}
use pr2_ether_cat_no_ros.Eml.Library.{Library}
use pr2_ether_cat_no_ros.Tests.{
  quiet, wg05, loopback, loopback-IsDocumented, new_driver, ready_driver, ready_driver-IsReady,
}
use pr2_ether_cat_no_ros.Program.Threads.{
  in_wait, in_call, ended, joining_rt, closing, finished, Process, running, Step, rt_ends,
  monitor_ends, rt_goes_on, rt_wakes, rt_acts, main_stops, main_joins_rt, main_joins_monitor, Steps,
  none_yet, and_then,
}
use pr2_ether_cat_no_ros.Driver.Race.{rt_loop, rt_working, rt_lock}
use pr2_ether_cat_no_ros.Driver.Race.Exclusion.{initial}
use pr2_ether_cat_no_ros.Program.Threads.Stop.{stops, close_alone}
use pr2_ether_cat_no_ros.Program.Threads.Progress.{IsNear}
use pr2_ether_cat_no_ros.Timing.Rounds.{
  Clock, IsExact, instant, after_round, waits, updates_in_pairs,
}
use pr2_ether_cat_no_ros.Timing.Monitor.{Refuses, monitor_rounds, monitor_spins}

-- The operator enters 5, something that is no number, 7, and 0.
abbrev typed : ℕ → Option ℕ
typed zero = some 5
typed (suc zero) = none
typed (suc (suc zero)) = some 7
typed (suc (suc (suc n))) = some 0

abbrev at_start : Panel ℕ
at_start = record { current_amplitude = 10; current_disp = true }

human_loop_lem_example :
    ((k fuel : ℕ)
      → k < fuel
      → ((j : ℕ) → j < k → ltb 0 (value (ltb 0) typed 0 10 j) ≡ true)
      → ltb 0 (value (ltb 0) typed 0 10 k) ≡ false
      → human_loop (ltb 0) typed fuel 0 10 at_start ≡ some (told (ltb 0) typed 0 10 at_start k))
    × (((j : ℕ) → ltb 0 (value (ltb 0) typed 0 10 j) ≡ true)
        → (fuel : ℕ) → human_loop (ltb 0) typed fuel 0 10 at_start ≡ none)
human_loop_lem_example = human_loop_lem (ltb 0) typed 0 10 at_start

abbrev pub well_answers : Answers
well_answers = record {
  socket_fd = pos 3;
  ioctl_result = pos 0;
  close_result = pos 0;
  iff_up = true;
  iff_running = true;
  interface = true;
  application_layer = true;
  slaves = 2;
  master = true;
}

pub well_answers-AllWell : AllWell well_answers
well_answers-AllWell = record {
  socket_open = refl;
  flags_read = refl;
  up = refl;
  running = refl;
  interface_there = refl;
  layer_there = refl;
  some_slave = omega arith;
  master_there = refl;
}

-- Two rounds, with another target between them and a call of the monitor after each. The operator
-- enters two amplitudes.
abbrev two_rounds : List Event
two_rounds =
    cycle (λ _. 10) (λ _. 1)
    ∷ checked
    ∷ entered_target 0
    ∷ entered_amplitude true
    ∷ cycle (λ _. 20) (λ _. 0)
    ∷ entered_amplitude false
    ∷ checked
    ∷ []

main_program_lem_example :
    (d1 : Driver ℕ) × (ps : List ℕ) × (initialize_pr2_ethercat_slaves loopback well_answers
        new_driver
      ≡ returned d1)
    × (((r : Run ℕ) × (session loopback two_rounds (begun (replicate 104 0) d1) ≡ some r)
          × (main_program loopback well_answers (replicate 104 0) two_rounds new_driver
              ≡ returned (closed_if loopback ps false r.driver))
          × IsReady r.driver
          × (r.driver.slave_handles ≡ map some ps)
          × (r.driver.target_slave ≡ 0)
          × (r.driver.this_buffer ≡ some 0)
          × (r.monitor.delta_init ≡ true))
        ⊎ ((main_program loopback well_answers (replicate 104 0) two_rounds new_driver ≡ faulted)
            × Breaks loopback two_rounds (begun (replicate 104 0) d1)))
unfolding new_fixed_station_address
main_program_lem_example =
    main_program_lem loopback loopback-IsDocumented well_answers (replicate 104 0) two_rounds
      new_driver 1 well_answers-AllWell refl refl refl (omega arith) refl

abbrev unsaved : List ℕ
unsaved = replicate 104 0

-- The operator ends the loop while the real-time thread waits.
abbrev stopped : Process ℕ
stopped = record (running ready_driver unsaved) { run = false; main = joining_rt; rt = in_wait }

stopped-Steps : Steps loopback (running ready_driver unsaved) 2 stopped
stopped-Steps = and_then (and_then none_yet (rt_goes_on refl refl)) (main_stops refl)

-- It wakes up, and takes the mutex for a last `update`.
abbrev last_update : Process ℕ
last_update = record stopped {
  rt = in_call;
  world = record (initial ready_driver unsaved) { rt = rt_working; mutex = some rt_loop };
}

last_update-IsNear : IsNear last_update.world
last_update-IsNear = λ p e. cc

stops_example :
    (2 ≤ 19) × ((last_update.main ≡ finished) ⊎ ((u : Process ℕ) × Step loopback last_update u))
stops_example =
    stops loopback loopback-IsDocumented (1 ∷ 2 ∷ []) ready_driver unsaved ready_driver-IsReady refl
      refl 2 2 stopped last_update stopped-Steps (λ e. cc)
      (and_then (and_then none_yet (rt_wakes refl))
        (rt_acts last_update.world refl (rt_lock refl refl) (λ e. cc)))
      last_update-IsNear

-- Both loops have ended at their first test.
abbrev ready_to_close : Process ℕ
ready_to_close = record (running ready_driver unsaved) {
  run = false;
  main = closing;
  rt = ended;
  monitor = ended;
}

ready_to_close-Steps : Steps loopback (running ready_driver unsaved) 5 ready_to_close
ready_to_close-Steps =
    and_then
      (and_then
        (and_then (and_then (and_then none_yet (main_stops refl)) (rt_ends refl refl))
          (monitor_ends refl refl))
        (main_joins_rt refl refl))
      (main_joins_monitor refl refl)

close_alone_example :
    (ready_to_close.rt ≡ ended)
    × (ready_to_close.monitor ≡ ended)
    × (ready_to_close.world.mutex ≡ none)
    × IsReady ready_driver
    × (ready_driver.slave_handles ≡ map some (1 ∷ 2 ∷ []))
close_alone_example =
    close_alone loopback loopback-IsDocumented (1 ∷ 2 ∷ []) ready_driver unsaved
      ready_driver-IsReady refl refl 5 ready_to_close ready_to_close-Steps (inl refl)

-- A clock that is read to the microsecond, and a timer without delay.
abbrev exact_clock : Clock
exact_clock = record {
  gettimeofday = λ t. record { tv_sec = t / 1000000; tv_usec = t % 1000000 };
  timedwait = λ t timer.
      if ltb timer.tv_nsec 1000000000
      then (if ltb t (instant timer) then instant timer else t)
      else t;
}

exact_clock-IsExact : IsExact exact_clock
exact_clock-IsExact = record {
  whole = λ t. omega arith;
  part = λ t. omega arith;
  waits_for = λ t timer valid le. ground arith;
}

-- Three pairs of rounds, with updates of 100 microseconds, from the microsecond 5000 on.
updates_in_pairs_example :
    waits exact_clock 6 100 (after_round exact_clock 5000 5100) ≡ 800 ∷ 0 ∷ 800 ∷ 0 ∷ 800 ∷ 0 ∷ []
updates_in_pairs_example =
    updates_in_pairs exact_clock exact_clock-IsExact 3 5000 100 (omega arith) (omega arith)

-- A bus on which no station has a handler.
abbrev no_stations : Library ℕ
no_stations = record loopback { get_slave_handler = λ net a. none }

main_program-bare_example :
    (o : Oob) × (main_program no_stations well_answers [] two_rounds (bare wg05 65536 0 13 0 quiet)
      ≡ returned (
          came_back (
            bare wg05 65536 2
              (last_target true two_rounds 13)
              (empty_rounds no_stations two_rounds 0)
              o)))
main_program-bare_example =
    main_program-bare no_stations well_answers [] two_rounds wg05 65536 0 13 0 quiet
      well_answers-AllWell refl

exact_clock-Refuses : Refuses exact_clock
exact_clock-Refuses = record { at_once = λ t timer invalid. ground arith }

-- From the microsecond 5000 on, with calls of 100 microseconds: a wait and 1000 calls.
monitor_spins_example : monitor_rounds exact_clock 1000 100 5000 ≡ 605000
monitor_spins_example =
    monitor_spins exact_clock exact_clock-IsExact exact_clock-Refuses 999 5000 100 (omega arith)
      (omega arith)
