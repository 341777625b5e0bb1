-- ===== src/Driver/Race/Progress.antt =====
-- What each of the two threads of `update` and `monitorChanges` can do next.
use pr2_ether_cat_no_ros.Base.{
  ℕ, ◌+◌, ◌≤◌, ◌≡◌, ◌≢◌, refl, ap, ◌⊎◌, inl, inr, true, false, Option, none, some, List, arith,
  length, Bool-cases,
}
use pr2_ether_cat_no_ros.Base.Int.{ℤ}
use pr2_ether_cat_no_ros.Base.Memory.{
  slice, splice, length-slice, read_bytes_within, write_bytes_within,
}
use pr2_ether_cat_no_ros.Eml.Library.{Library, IsDocumented}
use pr2_ether_cat_no_ros.Driver.State.{Driver}
use pr2_ether_cat_no_ros.Driver.ProcessData.Ready.{IsReady}
use pr2_ether_cat_no_ros.Driver.ProcessData.Update.{update_racing_total}
use pr2_ether_cat_no_ros.Driver.Monitor.{compare_from}
use pr2_ether_cat_no_ros.Driver.Monitor.Lines.{Near, compare_from_lem}
use pr2_ether_cat_no_ros.Driver.Race.{
  Thread, rt_loop, monitor_loop, RtPc, rt_waiting, rt_working, rt_leaving, MonitorPc, testing,
  reading, holding, comparing, compared, testing_again, wanting, saving, saved_frame, World, is_set,
  Step, rt_lock, rt_update, rt_unlock, enter, pass_first, read, lock_first, compare, unlock_first,
  want, lock_second, save, unlock_second,
}
use pr2_ether_cat_no_ros.Driver.Race.Lock.{owns}
use pr2_ether_cat_no_ros.Driver.Race.Exclusion.{pointer_of, Inv}

-- Nobody has the mutex, or one of the two threads.
pub mutex-cases : (o : Option Thread) → (o ≡ none) ⊎ ((o ≡ some rt_loop) ⊎ (o ≡ some monitor_loop))
mutex-cases none = inl refl
mutex-cases (some rt_loop) = inr (inl refl)
mutex-cases (some monitor_loop) = inr (inr refl)

module _ {Net : Type 0} (lib : Library Net) (doc : IsDocumented lib) (t : ℤ) (w : World Net)
    (inv : Inv w) where
  unlocked :
      (m : MonitorPc) → w.monitor ≡ m → owns m ≡ false → w.mutex ≢ some rt_loop → w.mutex ≡ none
  unlocked m e n free = elim (mutex-cases (w.mutex)) [
    | inl a ↦ a
    | inr (inl a) ↦ absurd (free a)
    | inr (inr a) ↦ let o = inv.has_monitor a in cc
  ]

  rt_unlocked : w.rt ≡ rt_waiting → w.mutex ≢ some monitor_loop → w.mutex ≡ none
  rt_unlocked e free = elim (mutex-cases (w.mutex)) [
    | inl a ↦ a
    | inr (inl a) ↦ let o = inv.has_rt a in cc
    | inr (inr a) ↦ absurd (free a)
  ]

  prev_is_set :
      (x : Driver Net)
      → IsReady x
      → (p : ℕ) × (x.prev_buffer ≡ some p)
        × (is_set x.prev_buffer ≡ true)
        × ((p ≡ 0) ⊎ (p ≡ x.master_buffer_size))
  prev_is_set x r = elim (r.halves) [
    | inl (a, b) ↦ (x.master_buffer_size, b, ap is_set b, inr refl)
    | inr (a, b) ↦ (0, b, ap is_set b, inl refl)
  ]

  -- The loop of `monitorChanges` reads inside of the two arrays.
  compare_step :
      (p : ℕ)
      → w.monitor ≡ comparing p
      → Near w.driver.slave_handles p 0 w.driver.master_buffer w.backup
      → (lines : List (ℕ × ℤ)) × (compare_from t w.driver.slave_handles 0 p 0 w.driver.master_buffer
            w.backup
          ≡ some lines)
  compare_step p e near =
      let r = inv.ready in
      let (lines, done, rest) =
        compare_from_lem t w.driver.slave_handles 0 p 0 w.driver.master_buffer w.backup
          (ground (arith, r.few, r.frame_size, r.sized, inv.at_half p (ap pointer_of e)))
          (omega (arith, r.few, r.frame_size, inv.backup_size)) near in
      (lines, done)

  -- `memcpy` stays inside of the two arrays.
  save-Step : w.monitor ≡ saving → (v : World Net) × Step lib t w v × (v.monitor ≡ saved_frame)
  save-Step e =
      let r = inv.ready in
      let (p, set, _, half) = prev_is_set w.driver r in
      let bytes = slice w.driver.master_buffer p w.driver.master_buffer_size in
      let fits : p + w.driver.master_buffer_size ≤ length w.driver.master_buffer =
        ground (arith, r.sized, half) in
      let same : length bytes ≡ w.driver.master_buffer_size =
        length-slice w.driver.master_buffer p w.driver.master_buffer_size fits in
      (
        _,
        save p bytes (splice w.backup 0 bytes) e set (read_bytes_within _ _ _ fits)
            (write_bytes_within _ _ _ (omega (arith, same, inv.backup_size))),
        refl,
      )

  pub monitor-Step :
      (m : MonitorPc)
      → w.monitor ≡ m
      → ((p : ℕ)
          → w.monitor ≡ comparing p
          → Near w.driver.slave_handles p 0 w.driver.master_buffer w.backup)
      → w.mutex ≢ some rt_loop
      → (v : World Net) × Step lib t w v × (v.monitor ≢ m)
  monitor-Step testing e near free =
      let (p, set, is, _) = prev_is_set w.driver inv.ready in
      elim (Bool-cases (w.delta_init)) [
        | inl a ↦ (_, enter e a is, λ h. cc)
        | inr a ↦ (_, pass_first e a, λ h. cc)
      ]
  monitor-Step reading e near free =
      let (p, set, is, _) = prev_is_set w.driver inv.ready in (_, read p e set, λ h. cc)
  monitor-Step (holding p) e near free = (_, lock_first p e (unlocked _ e refl free), λ h. cc)
  monitor-Step (comparing p) e near free =
      let (lines, done) = compare_step p e (near p e) in (_, compare p lines e done, λ h. cc)
  monitor-Step compared e near free = (_, unlock_first e, λ h. cc)
  monitor-Step testing_again e near free =
      let (p, set, is, _) = prev_is_set w.driver inv.ready in (_, want e is, λ h. cc)
  monitor-Step wanting e near free = (_, lock_second e (unlocked _ e refl free), λ h. cc)
  monitor-Step saving e near free = let (v, m, after) = save-Step e in (v, m, λ h. cc)
  monitor-Step saved_frame e near free = (_, unlock_second e, λ h. cc)

  pub rt-Step :
      (r : RtPc)
      → w.rt ≡ r
      → w.mutex ≢ some monitor_loop
      → (v : World Net) × Step lib t w v × (v.rt ≢ r)
  rt-Step rt_waiting e free = (_, rt_lock e (rt_unlocked e free), λ h. cc)
  rt-Step rt_working e free =
      let (d', done, u) = update_racing_total lib doc (λ _. 0) (λ _. 0) w.driver inv.ready in
      (_, rt_update _ _ d' e done, λ h. cc)
  rt-Step rt_leaving e free = (_, rt_unlock e, λ h. cc)
