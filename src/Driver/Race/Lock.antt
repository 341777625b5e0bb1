-- ===== src/Driver/Race/Lock.antt =====
-- Who has the mutex, in `update` and in `monitorChanges`.
use pr2_ether_cat_no_ros.Base.{◌≡◌, refl, sym, ◌∙◌, Bool, true, false, Option, none, some, arith}
use pr2_ether_cat_no_ros.Driver.Race.{
  Thread, rt_loop, monitor_loop, RtPc, rt_waiting, MonitorPc, comparing, compared, saving,
  saved_frame,
}

-- Whether the monitor is between a lock and its unlock.
abbrev pub owns : MonitorPc → Bool
owns (comparing _) = true
owns compared = true
owns saving = true
owns saved_frame = true
owns _ = false

abbrev pub rt_owns : RtPc → Bool
rt_owns rt_waiting = false
rt_owns _ = true

-- The mutex is with the thread that stands between its lock and its unlock, and with no other.
pub record Locked (r : RtPc) (m : MonitorPc) (mutex : Option Thread) : Type 0 where
  pub rt_has : rt_owns r ≡ true → mutex ≡ some rt_loop
  pub monitor_has : owns m ≡ true → mutex ≡ some monitor_loop
  pub has_rt : mutex ≡ some rt_loop → rt_owns r ≡ true
  pub has_monitor : mutex ≡ some monitor_loop → owns m ≡ true

module _ {r : RtPc} {m : MonitorPc} {mutex : Option Thread} (l : Locked r m mutex) where
  pub rt_takes : (r' : RtPc) → mutex ≡ none → rt_owns r' ≡ true → Locked r' m (some rt_loop)
  rt_takes r' free h = record {
    rt_has = λ e. refl;
    monitor_has = λ e. ground (arith, l.monitor_has);
    has_rt = λ e. h;
    has_monitor = λ e. cc;
  }

  pub rt_frees : (r' : RtPc) → rt_owns r ≡ true → rt_owns r' ≡ false → Locked r' m none
  rt_frees r' h n = record {
    rt_has = λ e. cc;
    monitor_has = λ e. ground (arith, l.rt_has, l.monitor_has);
    has_rt = λ e. cc;
    has_monitor = λ e. cc;
  }

  pub monitor_takes :
      (m' : MonitorPc) → mutex ≡ none → owns m' ≡ true → Locked r m' (some monitor_loop)
  monitor_takes m' free h = record {
    rt_has = λ e. ground (arith, l.rt_has);
    monitor_has = λ e. refl;
    has_rt = λ e. cc;
    has_monitor = λ e. h;
  }

  pub monitor_frees : (m' : MonitorPc) → owns m ≡ true → owns m' ≡ false → Locked r m' none
  monitor_frees m' h n = record {
    rt_has = λ e. ground (arith, l.rt_has, l.monitor_has);
    monitor_has = λ e. cc;
    has_rt = λ e. cc;
    has_monitor = λ e. cc;
  }

  -- Steps that leave the mutex alone.
  pub stays :
      (r' : RtPc) (m' : MonitorPc) → rt_owns r' ≡ rt_owns r → owns m' ≡ owns m → Locked r' m' mutex
  stays r' m' e f = record {
    rt_has = λ h. l.rt_has (sym e ∙ h);
    monitor_has = λ h. l.monitor_has (sym f ∙ h);
    has_rt = λ h. e ∙ l.has_rt h;
    has_monitor = λ h. f ∙ l.has_monitor h;
  }
