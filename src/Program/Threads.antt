-- ===== src/Program/Threads.antt =====
-- The three threads of test/main.cpp: `main`, `realTimeLoop` and `monitorChanges`, with the steps
-- of `kul::update` and `kul::monitorChanges` that the two loops call, and how `main` ends the other
-- two.
pub mod Places
pub mod Invariant
pub mod Progress
pub mod Rank
pub mod Session
pub mod Stop
use pr2_ether_cat_no_ros.Base.{ℕ, zero, suc, ◌≡◌, ◌≢◌, Bool, true, false, some, List}
use pr2_ether_cat_no_ros.Base.Int.{ℤ, pos}
use pr2_ether_cat_no_ros.Eml.Library.{Library}
use pr2_ether_cat_no_ros.Driver.State.{Driver}
use pr2_ether_cat_no_ros.Program.{encoder_threshold_movement}
use pr2_ether_cat_no_ros.Driver.Startup.{close_operational_slaves}
use pr2_ether_cat_no_ros.Driver.Race.{RtPc, rt_waiting, MonitorPc, testing, World}
use pr2_ether_cat_no_ros.Driver.Race
use pr2_ether_cat_no_ros.Driver.Race.Exclusion.{initial}

-- Where `realTimeLoop` or the thread `monitorChanges` stands.
pub data LoopPc : Type 0 where
  at_test : LoopPc  -- at `while(__RUN_THREADS__)`
  in_wait : LoopPc  -- in `pthread_cond_timedwait`
  in_call : LoopPc  -- in `kul::update()` or `kul::monitorChanges`
  ended : LoopPc

-- Where `main` stands.
pub data MainPc : Type 0 where
  asking : MainPc  -- in the operator's loop
  joining_rt : MainPc  -- at `pthread_join(rt_thread, NULL)`
  joining_monitor : MainPc  -- at `pthread_join(monitor_thread, NULL)`
  closing : MainPc  -- at `kul::closeOperationalSlaves()`
  finished : MainPc

-- `run` is `__RUN_THREADS__`. `world` has the places inside of the two calls.
pub record Process (Net : Type 0) : Type 0 where
  pub world : World Net
  pub run : Bool
  pub main : MainPc
  pub rt : LoopPc
  pub monitor : LoopPc

-- After both calls of `pthread_create`.
abbrev pub running : {Net : Type 0} → Driver Net → List ℕ → Process Net
running d backup = record {
  world = initial d backup;
  run = true;
  main = asking;
  rt = at_test;
  monitor = at_test;
}

-- A call that has come back to its start has returned.
abbrev pub after_update : RtPc → LoopPc
after_update rt_waiting = at_test
after_update _ = in_call

abbrev pub after_monitor : MonitorPc → LoopPc
after_monitor testing = at_test
after_monitor _ = in_call

-- The world with the slave number that the operator has entered.
abbrev pub with_slave : {Net : Type 0} → ℕ → World Net → World Net
with_slave slave w = record w { driver = record (w.driver) { target_slave = slave } }

-- One step. A wait ends by a signal, at its time, or at once for a time that is not valid. Each of
-- the two condition mutexes is used by one thread only and is left out. A step of `kul::update` is
-- one that moves the real-time thread in it, and so for the monitor. What the operator enters may
-- also be written inside of a call of `update`: the rounds of its loop may find any values.
module _ {Net : Type 0} (lib : Library Net) where
  pub data Step (s : Process Net) : Process Net → Type 0 where
    rt_goes_on : s.rt ≡ at_test → s.run ≡ true → Step s (record s { rt = in_wait })
    rt_ends : s.rt ≡ at_test → s.run ≡ false → Step s (record s { rt = ended })
    rt_wakes : s.rt ≡ in_wait → Step s (record s { rt = in_call })
    rt_acts :
        (w : World Net)
        → s.rt ≡ in_call
        → Race.Step lib encoder_threshold_movement s.world w
        → w.rt ≢ s.world.rt
        → Step s (record s { world = w; rt = after_update w.rt })
    monitor_goes_on : s.monitor ≡ at_test → s.run ≡ true → Step s (record s { monitor = in_wait })
    monitor_ends : s.monitor ≡ at_test → s.run ≡ false → Step s (record s { monitor = ended })
    monitor_wakes : s.monitor ≡ in_wait → Step s (record s { monitor = in_call })
    monitor_acts :
        (w : World Net)
        → s.monitor ≡ in_call
        → Race.Step lib encoder_threshold_movement s.world w
        → w.monitor ≢ s.world.monitor
        → Step s (record s { world = w; monitor = after_monitor w.monitor })
    main_asks :
        (slave : ℕ) → s.main ≡ asking → Step s (record s { world = with_slave slave s.world })
    main_stops : s.main ≡ asking → Step s (record s { main = joining_rt; run = false })
    main_joins_rt :
        s.main ≡ joining_rt → s.rt ≡ ended → Step s (record s { main = joining_monitor })
    main_joins_monitor :
        s.main ≡ joining_monitor → s.monitor ≡ ended → Step s (record s { main = closing })
    main_closes :
        (d : Driver Net) (errors : ℤ)
        → s.main ≡ closing
        → close_operational_slaves lib (s.world.driver) ≡ some (d, errors)
        → Step s (record s { main = finished; world = record (s.world) { driver = d } })

  -- That many steps, one after the other.
  pub data Steps (s : Process Net) : ℕ → Process Net → Type 0 where
    none_yet : Steps s zero s
    and_then : {n : ℕ} {t u : Process Net} → Steps s n t → Step t u → Steps s (suc n) u
