-- ===== src/Program/Threads/Invariant.antt =====
-- What every step of the three threads keeps.
use pr2_ether_cat_no_ros.Base.{
  ℕ, zero, suc, ◌≡◌, ◌≢◌, refl, sym, ap, ◌∙◌, subst, Bool, true, false, List, arith,
}
use pr2_ether_cat_no_ros.Base.Int.{ℤ}
use pr2_ether_cat_no_ros.Eml.Library.{Library, IsDocumented}
use pr2_ether_cat_no_ros.Driver.State.{Driver}
use pr2_ether_cat_no_ros.Driver.ProcessData.Ready.{IsReady}
use pr2_ether_cat_no_ros.Driver.ProcessData.Update.{update_racing-IsUpdated}
use pr2_ether_cat_no_ros.Driver.Startup.Close.{asked, close_operational_slaves_lem}
use pr2_ether_cat_no_ros.Driver.Race.{
  RtPc, rt_waiting, rt_working, rt_leaving, MonitorPc, testing, reading, holding, comparing,
  compared, testing_again, wanting, saving, saved_frame, World, rt_lock, rt_update, rt_unlock,
  enter, pass_first, pass_null, read, lock_first, compare, unlock_first, want, skip, lock_second,
  save, unlock_second,
}
use pr2_ether_cat_no_ros.Driver.Race
use pr2_ether_cat_no_ros.Driver.Race.Exclusion
use pr2_ether_cat_no_ros.Program.Ready.{with_target, with_net}
use pr2_ether_cat_no_ros.Program.Threads.{
  LoopPc, in_wait, in_call, ended, MainPc, joining_rt, joining_monitor, closing, finished, Process,
  Step, rt_goes_on, rt_ends, rt_wakes, rt_acts, monitor_goes_on, monitor_ends, monitor_wakes,
  monitor_acts, main_asks, main_stops, main_joins_rt, main_joins_monitor, main_closes, Steps,
  none_yet, and_then,
}
use pr2_ether_cat_no_ros.Program.Threads.Rank.{in_update, in_monitor}
use pr2_ether_cat_no_ros.Program.Threads.Places.{
  rt_joined, monitor_joined, is_asking, RtRests-after_update, MonitorRests-after_monitor, Inv,
  with_driver,
}

module _ {Net : Type 0} (lib : Library Net) (doc : IsDocumented lib) where
  -- No step of the two calls changes a handle.
  same_handles :
      (t : ℤ) (w v : World Net)
      → Exclusion.Inv w
      → Race.Step lib t w v
      → v.driver.slave_handles ≡ w.driver.slave_handles
  same_handles t w v inv (rt_update demands targets d a e) =
      (update_racing-IsUpdated lib doc demands targets w.driver d inv.ready e).same_handles
  same_handles t w v inv (rt_lock a b) = refl
  same_handles t w v inv (rt_unlock a) = refl
  same_handles t w v inv (enter a b c) = refl
  same_handles t w v inv (pass_first a b) = refl
  same_handles t w v inv (pass_null a b) = refl
  same_handles t w v inv (read p a b) = refl
  same_handles t w v inv (lock_first p a b) = refl
  same_handles t w v inv (compare p lines a b) = refl
  same_handles t w v inv (unlock_first a) = refl
  same_handles t w v inv (want a b) = refl
  same_handles t w v inv (skip a b) = refl
  same_handles t w v inv (lock_second a b) = refl
  same_handles t w v inv (save p bytes copy a b c e) = refl
  same_handles t w v inv (unlock_second a) = refl

  module _ (ps : List ℕ) where
    -- A loop moves outside of its call.
    rt_moves :
        (s : Process Net) (l : LoopPc)
        → Inv ps s
        → s.rt ≢ ended
        → s.world.rt ≡ rt_waiting
        → Inv ps (record s { rt = l })
    rt_moves s l inv going rests = record {
      inside = inv.inside;
      handles = inv.handles;
      flag = inv.flag;
      rt_gone = λ h. absurd (going (inv.rt_gone h));
      monitor_gone = inv.monitor_gone;
      rt_rests = λ ne. rests;
      monitor_rests = inv.monitor_rests;
    }

    monitor_moves :
        (s : Process Net) (l : LoopPc)
        → Inv ps s
        → s.monitor ≢ ended
        → s.world.monitor ≡ testing
        → Inv ps (record s { monitor = l })
    monitor_moves s l inv going rests = record {
      inside = inv.inside;
      handles = inv.handles;
      flag = inv.flag;
      rt_gone = inv.rt_gone;
      monitor_gone = λ h. absurd (going (inv.monitor_gone h));
      rt_rests = inv.rt_rests;
      monitor_rests = λ ne. rests;
    }

    -- `main` goes on, and knows which threads have ended.
    main_moves :
        (s : Process Net) (m : MainPc) (run : Bool)
        → Inv ps s
        → run ≡ is_asking m
        → (rt_joined m ≡ true → s.rt ≡ ended)
        → (monitor_joined m ≡ true → s.monitor ≡ ended)
        → Inv ps (record s { main = m; run = run })
    main_moves s m run inv flag rt monitor = record {
      inside = inv.inside;
      handles = inv.handles;
      flag = flag;
      rt_gone = rt;
      monitor_gone = monitor;
      rt_rests = inv.rt_rests;
      monitor_rests = inv.monitor_rests;
    }

    driver_changes :
        (s : Process Net) (d : Driver Net)
        → Inv ps s
        → IsReady d
        → d.master_buffer_size ≡ s.world.driver.master_buffer_size
        → d.slave_handles ≡ s.world.driver.slave_handles
        → Inv ps (record s { world = record s.world { driver = d } })
    driver_changes s d inv ready size same = record {
      inside = with_driver s.world d inv.inside ready size;
      handles = same ∙ inv.handles;
      flag = inv.flag;
      rt_gone = inv.rt_gone;
      monitor_gone = inv.monitor_gone;
      rt_rests = inv.rt_rests;
      monitor_rests = inv.monitor_rests;
    }

    Step-Inv : (s t : Process Net) → Inv ps s → Step lib s t → Inv ps t
    Step-Inv s t inv (rt_goes_on a b) = rt_moves s in_wait inv (λ h. cc) (inv.rt_rests (λ h. cc))
    Step-Inv s t inv (rt_ends a b) = rt_moves s ended inv (λ h. cc) (inv.rt_rests (λ h. cc))
    Step-Inv s t inv (rt_wakes a) = rt_moves s in_call inv (λ h. cc) (inv.rt_rests (λ h. cc))
    Step-Inv s t inv (rt_acts w a m ne) =
        let (same, less) = in_update lib _ s.world w m ne in
        record {
          inside = Exclusion.Step-Inv lib doc _ s.world w inv.inside m;
          handles = same_handles _ s.world w inv.inside m ∙ inv.handles;
          flag = inv.flag;
          rt_gone = λ h. let gone = inv.rt_gone h in cc;
          monitor_gone = inv.monitor_gone;
          rt_rests = RtRests-after_update w.rt;
          monitor_rests = λ out. same ∙ inv.monitor_rests out;
        }
    Step-Inv s t inv (monitor_goes_on a b) =
        monitor_moves s in_wait inv (λ h. cc) (inv.monitor_rests (λ h. cc))
    Step-Inv s t inv (monitor_ends a b) =
        monitor_moves s ended inv (λ h. cc) (inv.monitor_rests (λ h. cc))
    Step-Inv s t inv (monitor_wakes a) =
        monitor_moves s in_call inv (λ h. cc) (inv.monitor_rests (λ h. cc))
    Step-Inv s t inv (monitor_acts w a m ne) =
        let (same, less) = in_monitor lib _ s.world w m ne in
        record {
          inside = Exclusion.Step-Inv lib doc _ s.world w inv.inside m;
          handles = same_handles _ s.world w inv.inside m ∙ inv.handles;
          flag = inv.flag;
          rt_gone = inv.rt_gone;
          monitor_gone = λ h. let gone = inv.monitor_gone h in cc;
          rt_rests = λ out. same ∙ inv.rt_rests out;
          monitor_rests = MonitorRests-after_monitor w.monitor;
        }
    Step-Inv s t inv (main_asks slave a) =
        driver_changes s (record (s.world.driver) { target_slave = slave }) inv
          (with_target slave s.world.driver inv.inside.ready) refl refl
    Step-Inv s t inv (main_stops a) = main_moves s joining_rt false inv refl (λ h. cc) (λ h. cc)
    Step-Inv s t inv (main_joins_rt a b) =
        main_moves s joining_monitor s.run inv (ground (arith, inv.flag)) (λ h. b) (λ h. cc)
    Step-Inv s t inv (main_joins_monitor a b) =
        main_moves s closing s.run inv (ground (arith, inv.flag)) (λ h. ground (arith, inv.rt_gone))
          (λ h. b)
    Step-Inv s t inv (main_closes d errors a e) =
        let same : record (s.world.driver) { net = asked lib ps s.world.driver.net } ≡ d =
          ground (arith, close_operational_slaves_lem lib ps s.world.driver inv.handles) in
        main_moves (record s { world = record (s.world) { driver = d } }) finished s.run
          (driver_changes s d inv
            (subst (λ x. IsReady x) same (with_net _ s.world.driver inv.inside.ready))
            (ap (λ (x : Driver Net). x.master_buffer_size) (sym same))
            (ap (λ (x : Driver Net). x.slave_handles) (sym same)))
          (ground (arith, inv.flag)) (λ h. ground (arith, inv.rt_gone))
          (λ h. ground (arith, inv.monitor_gone))

    pub Steps-Inv : (n : ℕ) (s t : Process Net) → Inv ps s → Steps lib s n t → Inv ps t
    Steps-Inv zero s t inv none_yet = inv
    Steps-Inv (suc n) s t inv (and_then {t = u} before m) =
        Step-Inv u t (Steps-Inv n s u inv before) m
