-- ===== src/Program/Threads/Rank.antt =====
-- How many steps are left when `__RUN_THREADS__` is 0.
use pr2_ether_cat_no_ros.Base.{ℕ, ◌+◌, ◌≤◌, ◌<◌, ◌≡◌, ◌≢◌, refl, false, arith, ap}
use pr2_ether_cat_no_ros.Base.Int.{ℤ}
use pr2_ether_cat_no_ros.Eml.Library.{Library}
use pr2_ether_cat_no_ros.Driver.Race.{
  RtPc, rt_waiting, rt_working, rt_leaving, MonitorPc, testing, reading, holding, comparing,
  compared, testing_again, wanting, saving, saved_frame, World, rt_lock, rt_update, rt_unlock,
  enter, pass_first, pass_null, read, lock_first, compare, unlock_first, want, skip, lock_second,
  save, unlock_second,
}
use pr2_ether_cat_no_ros.Driver.Race
use pr2_ether_cat_no_ros.Program.Threads.{
  LoopPc, at_test, in_wait, in_call, ended, MainPc, asking, joining_rt, joining_monitor, closing,
  finished, Process, after_update, after_monitor, Step, rt_goes_on, rt_ends, rt_wakes, rt_acts,
  monitor_goes_on, monitor_ends, monitor_wakes, monitor_acts, main_asks, main_stops, main_joins_rt,
  main_joins_monitor, main_closes,
}

-- In `update`, its end included.
abbrev pub update_rank : RtPc → ℕ
update_rank rt_waiting = 4
update_rank rt_working = 3
update_rank rt_leaving = 2

-- In `kul::monitorChanges`
abbrev pub call_rank : MonitorPc → ℕ
call_rank testing = 10
call_rank reading = 9
call_rank (holding p) = 8
call_rank (comparing p) = 7
call_rank compared = 6
call_rank testing_again = 5
call_rank wanting = 4
call_rank saving = 3
call_rank saved_frame = 2

abbrev pub rt_rank : LoopPc → RtPc → ℕ
rt_rank at_test r = 1
rt_rank in_wait r = 5
rt_rank in_call r = update_rank r
rt_rank ended r = 0

abbrev pub monitor_rank : LoopPc → MonitorPc → ℕ
monitor_rank at_test m = 1
monitor_rank in_wait m = 11
monitor_rank in_call m = call_rank m
monitor_rank ended m = 0

abbrev pub main_rank : MainPc → ℕ
main_rank asking = 4
main_rank joining_rt = 3
main_rank joining_monitor = 2
main_rank closing = 1
main_rank finished = 0

update_rank-le : (r : RtPc) → update_rank r ≤ 4
update_rank-le rt_waiting = omega arith
update_rank-le rt_working = omega arith
update_rank-le rt_leaving = omega arith

call_rank-le : (m : MonitorPc) → call_rank m ≤ 10
call_rank-le testing = omega arith
call_rank-le reading = omega arith
call_rank-le (holding p) = omega arith
call_rank-le (comparing p) = omega arith
call_rank-le compared = omega arith
call_rank-le testing_again = omega arith
call_rank-le wanting = omega arith
call_rank-le saving = omega arith
call_rank-le saved_frame = omega arith

pub rt_rank-le : (l : LoopPc) (r : RtPc) → rt_rank l r ≤ 5
rt_rank-le at_test r = omega arith
rt_rank-le in_wait r = omega arith
rt_rank-le in_call r = omega (arith, update_rank-le r)
rt_rank-le ended r = omega arith

pub monitor_rank-le : (l : LoopPc) (m : MonitorPc) → monitor_rank l m ≤ 11
monitor_rank-le at_test m = omega arith
monitor_rank-le in_wait m = omega arith
monitor_rank-le in_call m = omega (arith, call_rank-le m)
monitor_rank-le ended m = omega arith

pub main_rank-le : (p : MainPc) → p ≢ asking → main_rank p ≤ 3
main_rank-le asking ne = absurd (ne refl)
main_rank-le joining_rt ne = omega arith
main_rank-le joining_monitor ne = omega arith
main_rank-le closing ne = omega arith
main_rank-le finished ne = omega arith

module _ {Net : Type 0} (lib : Library Net) (t : ℤ) where
  -- A step of `update` leaves the monitor where it is, and one less to do for the real-time thread.
  pub in_update :
      (w v : World Net)
      → Race.Step lib t w v
      → v.rt ≢ w.rt
      → (v.monitor ≡ w.monitor) × (rt_rank (after_update v.rt) v.rt < rt_rank in_call w.rt)
  in_update w v (rt_lock a b) ne = (refl, ground arith)
  in_update w v (rt_update demands targets d a e) ne = (refl, ground arith)
  in_update w v (rt_unlock a) ne = (refl, ground arith)
  in_update w v (enter a b c) ne = absurd (ne refl)
  in_update w v (pass_first a b) ne = absurd (ne refl)
  in_update w v (pass_null a b) ne = absurd (ne refl)
  in_update w v (read p a b) ne = absurd (ne refl)
  in_update w v (lock_first p a b) ne = absurd (ne refl)
  in_update w v (compare p lines a b) ne = absurd (ne refl)
  in_update w v (unlock_first a) ne = absurd (ne refl)
  in_update w v (want a b) ne = absurd (ne refl)
  in_update w v (skip a b) ne = absurd (ne refl)
  in_update w v (lock_second a b) ne = absurd (ne refl)
  in_update w v (save p bytes copy a b c e) ne = absurd (ne refl)
  in_update w v (unlock_second a) ne = absurd (ne refl)

  pub in_monitor :
      (w v : World Net)
      → Race.Step lib t w v
      → v.monitor ≢ w.monitor
      → (v.rt ≡ w.rt)
        × (monitor_rank (after_monitor v.monitor) v.monitor < monitor_rank in_call w.monitor)
  in_monitor w v (rt_lock a b) ne = absurd (ne refl)
  in_monitor w v (rt_update demands targets d a e) ne = absurd (ne refl)
  in_monitor w v (rt_unlock a) ne = absurd (ne refl)
  in_monitor w v (enter a b c) ne = (refl, ground arith)
  in_monitor w v (pass_first a b) ne = (refl, ground arith)
  in_monitor w v (pass_null a b) ne = (refl, ground arith)
  in_monitor w v (read p a b) ne = (refl, ground arith)
  in_monitor w v (lock_first p a b) ne = (refl, ground arith)
  in_monitor w v (compare p lines a b) ne = (refl, ground arith)
  in_monitor w v (unlock_first a) ne = (refl, ground arith)
  in_monitor w v (want a b) ne = (refl, ground arith)
  in_monitor w v (skip a b) ne = (refl, ground arith)
  in_monitor w v (lock_second a b) ne = (refl, ground arith)
  in_monitor w v (save p bytes copy a b c e) ne = (refl, ground arith)
  in_monitor w v (unlock_second a) ne = (refl, ground arith)

abbrev pub rank : {Net : Type 0} → Process Net → ℕ
rank s = main_rank s.main + rt_rank s.rt s.world.rt + monitor_rank s.monitor s.world.monitor

module _ {Net : Type 0} (lib : Library Net) where
  -- Without the flag every step takes something from the rank.
  pub rank-after :
      (s t : Process Net) → s.run ≡ false → s.main ≢ asking → Step lib s t → rank t < rank s
  rank-after s t off over (rt_goes_on a b) = ground arith
  rank-after s t off over (rt_ends a b) = ground arith
  rank-after s t off over (rt_wakes a) = ground (arith, update_rank-le s.world.rt)
  rank-after s t off over (rt_acts w a m ne) =
      let (same, less) = in_update lib _ s.world w m ne in
      omega (arith, less, ap (λ l. rt_rank l s.world.rt) a, ap (monitor_rank s.monitor) same)
  rank-after s t off over (monitor_goes_on a b) = ground arith
  rank-after s t off over (monitor_ends a b) = ground arith
  rank-after s t off over (monitor_wakes a) = ground (arith, call_rank-le s.world.monitor)
  rank-after s t off over (monitor_acts w a m ne) =
      let (same, less) = in_monitor lib _ s.world w m ne in
      omega (arith, less, ap (λ l. monitor_rank l s.world.monitor) a, ap (rt_rank s.rt) same)
  rank-after s t off over (main_asks slave a) = absurd (over a)
  rank-after s t off over (main_stops a) = absurd (over a)
  rank-after s t off over (main_joins_rt a b) = ground arith
  rank-after s t off over (main_joins_monitor a b) = ground arith
  rank-after s t off over (main_closes d errors a e) = ground arith
