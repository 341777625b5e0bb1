-- ===== src/Program/Threads/Stop.antt =====
-- How the program of test/main.cpp comes to its end.
use pr2_ether_cat_no_ros.Base.{
  ℕ, zero, suc, ◌+◌, ◌≤◌, ◌≡◌, ◌≢◌, ◌∙◌, ap, none, some, List, map, arith, ◌⊎◌, inl, inr, length,
}
use pr2_ether_cat_no_ros.Eml.Library.{Library, IsDocumented}
use pr2_ether_cat_no_ros.Driver.State.{Driver}
use pr2_ether_cat_no_ros.Driver.ProcessData.Ready.{IsReady}
use pr2_ether_cat_no_ros.Driver.Race.Lock.{owns, rt_owns}
use pr2_ether_cat_no_ros.Driver.Race.Progress.{mutex-cases}
use pr2_ether_cat_no_ros.Program.Threads.{
  ended, asking, closing, finished, Process, running, Step, rt_goes_on, rt_ends, rt_wakes, rt_acts,
  monitor_goes_on, monitor_ends, monitor_wakes, monitor_acts, main_asks, main_stops, main_joins_rt,
  main_joins_monitor, main_closes, Steps, none_yet, and_then,
}
use pr2_ether_cat_no_ros.Program.Threads.Rank.{
  rt_rank-le, monitor_rank-le, main_rank-le, rank, rank-after,
}
use pr2_ether_cat_no_ros.Program.Threads.Invariant.{Steps-Inv}
use pr2_ether_cat_no_ros.Program.Threads.Places.{is_asking-ne, Inv, at_first}
use pr2_ether_cat_no_ros.Program.Threads.Progress.{IsNear, goes_on}

module _ {Net : Type 0} (lib : Library Net) where
  still_stopped : (s t : Process Net) → s.main ≢ asking → Step lib s t → t.main ≢ asking
  still_stopped s t ne (rt_goes_on a b) = ne
  still_stopped s t ne (rt_ends a b) = ne
  still_stopped s t ne (rt_wakes a) = ne
  still_stopped s t ne (rt_acts w a m moved) = ne
  still_stopped s t ne (monitor_goes_on a b) = ne
  still_stopped s t ne (monitor_ends a b) = ne
  still_stopped s t ne (monitor_wakes a) = ne
  still_stopped s t ne (monitor_acts w a m moved) = ne
  still_stopped s t ne (main_asks slave a) = ne
  still_stopped s t ne (main_stops a) = λ e. cc
  still_stopped s t ne (main_joins_rt a b) = λ e. cc
  still_stopped s t ne (main_joins_monitor a b) = λ e. cc
  still_stopped s t ne (main_closes d errors a e) = λ e'. cc

  module _ (doc : IsDocumented lib) (ps : List ℕ) where
    count_down :
        (m : ℕ) (s t : Process Net)
        → Inv ps s
        → s.main ≢ asking
        → Steps lib s m t
        → (m + rank t ≤ rank s) × (t.main ≢ asking)
    count_down zero s t inv ne none_yet = (omega arith, ne)
    count_down (suc m) s t inv ne (and_then {t = u} before last) =
        let (sum, ne') = count_down m s u inv ne before in
        let inv' = Steps-Inv lib doc ps m s u inv before in
        let one = rank-after lib u t (inv'.flag ∙ is_asking-ne u.main ne') ne' last in
        (omega (arith, sum, one), still_stopped u t ne' last)

    module _ (d : Driver Net) (backup : List ℕ) (ready : IsReady d)
        (size : length backup ≡ d.master_buffer_size)
        (handles : d.slave_handles ≡ map some ps) where
      -- With a documented library, ready buffers, a backup of their size and no null handle at the
      -- creation of the threads: once the operator has ended the loop of `main`, the three threads
      -- make at most 19 more steps, those inside of `update` and `monitorChanges` included, in any
      -- interleaving. As long as `main` has not finished one of them can make the next: no thread
      -- waits for ever for the mutex or for another to end. When the monitor is about to compare,
      -- the differences of the counts are supposed to fit an `int`.
      pub stops :
          (n m : ℕ) (s t : Process Net)
          → Steps lib (running d backup) n s
          → s.main ≢ asking
          → Steps lib s m t
          → IsNear t.world
          → (m ≤ 19) × ((t.main ≡ finished) ⊎ ((u : Process Net) × Step lib t u))
      stops n m s t before ne after near =
          let inv =
            Steps-Inv lib doc ps n (running d backup) s
              (at_first lib doc ps d backup ready size handles) before in
          let (sum, ne') = count_down m s t inv ne after in
          (
            omega (
              arith,
              sum,
              main_rank-le s.main ne,
              rt_rank-le s.rt s.world.rt,
              monitor_rank-le s.monitor s.world.monitor,
            ),
            goes_on lib doc ps t (Steps-Inv lib doc ps m s t inv after) ne' near,
          )

      -- With a documented library, ready buffers, a backup of their size and no null handle at the
      -- creation of the threads: in every state that the threads reach in which `main` is at
      -- `closeOperationalSlaves` or past it, both loops have ended and nobody has the mutex, so no
      -- cycle runs while the slaves are closed, the buffers are still ready, and no handle is null.
      pub close_alone :
          (n : ℕ) (s : Process Net)
          → Steps lib (running d backup) n s
          → (s.main ≡ closing) ⊎ (s.main ≡ finished)
          → (s.rt ≡ ended)
            × (s.monitor ≡ ended)
            × (s.world.mutex ≡ none)
            × IsReady s.world.driver
            × (s.world.driver.slave_handles ≡ map some ps)
      close_alone n s before late =
          let inv =
            Steps-Inv lib doc ps n (running d backup) s
              (at_first lib doc ps d backup ready size handles) before in
          let gone : s.rt ≡ ended = ground (arith, inv.rt_gone, late) in
          let looked : s.monitor ≡ ended = ground (arith, inv.monitor_gone, late) in
          (
            gone,
            looked,
            elim (mutex-cases (s.world.mutex)) [
              | inl free ↦ free
              | inr (inl a) ↦
                  let owner = inv.inside.has_rt a in
                  let rests = ap rt_owns (inv.rt_rests (λ h. cc)) in cc
              | inr (inr a) ↦
                  let owner = inv.inside.has_monitor a in
                  let rests = ap owns (inv.monitor_rests (λ h. cc)) in cc
            ],
            inv.inside.ready,
            inv.handles,
          )
