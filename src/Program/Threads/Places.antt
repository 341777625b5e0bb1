-- ===== src/Program/Threads/Places.antt =====
-- Where the three threads of test/main.cpp can stand together.
use pr2_ether_cat_no_ros.Base.{
  ℕ, ◌≡◌, ◌≢◌, refl, sym, ◌∙◌, Bool, true, false, some, List, map, arith, length,
}
use pr2_ether_cat_no_ros.Eml.Library.{Library, IsDocumented}
use pr2_ether_cat_no_ros.Driver.State.{Driver}
use pr2_ether_cat_no_ros.Driver.ProcessData.Ready.{IsReady}
use pr2_ether_cat_no_ros.Driver.Race.{
  RtPc, rt_waiting, rt_working, rt_leaving, MonitorPc, testing, reading, holding, comparing,
  compared, testing_again, wanting, saving, saved_frame, World, start,
}
use pr2_ether_cat_no_ros.Driver.Race.Exclusion
use pr2_ether_cat_no_ros.Program.{encoder_threshold_movement}
use pr2_ether_cat_no_ros.Program.Threads.{
  LoopPc, in_call, ended, MainPc, asking, joining_rt, joining_monitor, closing, finished, Process,
  after_update, after_monitor, running,
}
use pr2_ether_cat_no_ros.Driver.Race.Exclusion.{Reach-Inv}

-- Which threads `main` has joined.
abbrev pub rt_joined : MainPc → Bool
rt_joined asking = false
rt_joined joining_rt = false
rt_joined _ = true

abbrev pub monitor_joined : MainPc → Bool
monitor_joined closing = true
monitor_joined finished = true
monitor_joined _ = false

abbrev pub is_asking : MainPc → Bool
is_asking asking = true
is_asking _ = false

-- A thread that is not in its call stands before it.
abbrev pub RtRests : LoopPc → RtPc → Type 0
RtRests l r = l ≢ in_call → r ≡ rt_waiting

abbrev pub MonitorRests : LoopPc → MonitorPc → Type 0
MonitorRests l m = l ≢ in_call → m ≡ testing

pub RtRests-after_update : (r : RtPc) → RtRests (after_update r) r
RtRests-after_update rt_waiting = λ ne. refl
RtRests-after_update rt_working = λ ne. absurd (ne refl)
RtRests-after_update rt_leaving = λ ne. absurd (ne refl)

pub MonitorRests-after_monitor : (m : MonitorPc) → MonitorRests (after_monitor m) m
MonitorRests-after_monitor testing = λ ne. refl
MonitorRests-after_monitor reading = λ ne. absurd (ne refl)
MonitorRests-after_monitor (holding p) = λ ne. absurd (ne refl)
MonitorRests-after_monitor (comparing p) = λ ne. absurd (ne refl)
MonitorRests-after_monitor compared = λ ne. absurd (ne refl)
MonitorRests-after_monitor testing_again = λ ne. absurd (ne refl)
MonitorRests-after_monitor wanting = λ ne. absurd (ne refl)
MonitorRests-after_monitor saving = λ ne. absurd (ne refl)
MonitorRests-after_monitor saved_frame = λ ne. absurd (ne refl)

module _ {Net : Type 0} where
  pub record Inv (ps : List ℕ) (s : Process Net) : Type 0 where
    pub inside : Exclusion.Inv s.world
    pub handles : s.world.driver.slave_handles ≡ map some ps
    pub flag : s.run ≡ is_asking s.main
    pub rt_gone : rt_joined s.main ≡ true → s.rt ≡ ended
    pub monitor_gone : monitor_joined s.main ≡ true → s.monitor ≡ ended
    pub rt_rests : RtRests s.rt s.world.rt
    pub monitor_rests : MonitorRests s.monitor s.world.monitor

  -- Another driver that is as ready, with nothing else changed.
  pub with_driver :
      (w : World Net) (d : Driver Net)
      → Exclusion.Inv w
      → IsReady d
      → d.master_buffer_size ≡ w.driver.master_buffer_size
      → Exclusion.Inv (record w { driver = d })
  with_driver w d inv ready size = record {
    ready = ready;
    backup_size = inv.backup_size ∙ sym size;
    locked = inv.locked;
    at_half = λ p h. ground (arith, inv.at_half p h, size);
  }

pub is_asking-ne : (p : MainPc) → p ≢ asking → is_asking p ≡ false
is_asking-ne asking ne = absurd (ne refl)
is_asking-ne joining_rt ne = refl
is_asking-ne joining_monitor ne = refl
is_asking-ne closing ne = refl
is_asking-ne finished ne = refl

module _ {Net : Type 0} (lib : Library Net) (doc : IsDocumented lib) (ps : List ℕ) where
  pub at_first :
      (d : Driver Net) (backup : List ℕ)
      → IsReady d
      → length backup ≡ d.master_buffer_size
      → d.slave_handles ≡ map some ps
      → Inv ps (running d backup)
  at_first d backup ready size handles = record {
    inside = Reach-Inv lib doc encoder_threshold_movement d backup _ ready size start;
    handles = handles;
    flag = refl;
    rt_gone = λ h. cc;
    monitor_gone = λ h. cc;
    rt_rests = λ h. refl;
    monitor_rests = λ h. refl;
  }
