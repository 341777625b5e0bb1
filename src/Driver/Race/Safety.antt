-- ===== src/Driver/Race/Safety.antt =====
-- What the mutex of `update` and `monitorChanges` secures, and what it does not.
use pr2_ether_cat_no_ros.Base.{
  ℕ, ◌≡◌, ◌≢◌, refl, ap, ◌∙◌, true, false, none, some, List, arith, length,
}
use pr2_ether_cat_no_ros.Base.Int.{ℤ}
use pr2_ether_cat_no_ros.Eml.Library.{Library, IsDocumented}
use pr2_ether_cat_no_ros.Driver.State.{Driver}
use pr2_ether_cat_no_ros.Driver.ProcessData.Ready.{IsReady}
use pr2_ether_cat_no_ros.Driver.ProcessData.Update.{update_racing_total}
use pr2_ether_cat_no_ros.Driver.Monitor.Lines.{Near}
use pr2_ether_cat_no_ros.Driver.Race.{
  rt_loop, monitor_loop, rt_waiting, rt_working, rt_leaving, holding, comparing, World, Step,
  rt_lock, rt_update, rt_unlock, enter, pass_first, pass_null, skip, read, lock_first, compare,
  unlock_first, want, lock_second, save, unlock_second, Reach, start, step,
}
use pr2_ether_cat_no_ros.Driver.Race.Lock.{owns, rt_owns}
use pr2_ether_cat_no_ros.Driver.Race.Exclusion.{initial, Reach-Inv}
use pr2_ether_cat_no_ros.Driver.Race.Progress.{monitor-Step, rt-Step}

module _ {Net : Type 0} (lib : Library Net) (t : ℤ) (w : World Net) where
  undisturbed :
      (v : World Net)
      → (rt_owns w.rt ≡ true → w.mutex ≡ some rt_loop)
      → w.mutex ≡ some monitor_loop
      → Step lib t w v
      → v.driver ≡ w.driver
  undisturbed v has mine (rt_update demands targets d a e) = let other = has (ap rt_owns a) in cc
  undisturbed v has mine (rt_lock a b) = refl
  undisturbed v has mine (rt_unlock a) = refl
  undisturbed v has mine (enter a b c) = refl
  undisturbed v has mine (pass_first a b) = refl
  undisturbed v has mine (pass_null a b) = refl
  undisturbed v has mine (read p a b) = refl
  undisturbed v has mine (lock_first p a b) = refl
  undisturbed v has mine (compare p lines a b) = refl
  undisturbed v has mine (unlock_first a) = refl
  undisturbed v has mine (want a b) = refl
  undisturbed v has mine (skip a b) = refl
  undisturbed v has mine (lock_second a b) = refl
  undisturbed v has mine (save p bytes copy a b c e) = refl
  undisturbed v has mine (unlock_second a) = refl

module _ {Net : Type 0} (lib : Library Net) (doc : IsDocumented lib) (t : ℤ) (d : Driver Net)
    (backup : List ℕ) (w : World Net) (ready : IsReady d)
    (size : length backup ≡ d.master_buffer_size) (reach : Reach lib t (initial d backup) w) where
  -- With a documented library, ready buffers and a backup of their size at the start: in every
  -- state that the two threads reach, in any interleaving, the monitor has no lock while the
  -- real-time thread has it, and while the monitor has it no step changes the driver, its buffers
  -- included.
  pub never_both :
      (rt_owns w.rt ≡ true → owns w.monitor ≡ false)
      × (owns w.monitor ≡ true → (v : World Net) → Step lib t w v → v.driver ≡ w.driver)
  never_both =
      let inv = Reach-Inv lib doc t d backup w ready size reach in
      (
        (λ h. ground (arith, inv.rt_has h, inv.monitor_has)),
        λ h v m. undisturbed lib t w v (inv.rt_has) (inv.monitor_has h) m,
      )

  -- With a documented library, ready buffers and a backup of their size at the start: from every
  -- state that the two threads reach in which the monitor has read `prev_buffer_` and waits for its
  -- first lock, and nobody has the mutex, there are steps of `update` and of the monitor after
  -- which the monitor compares the counts in the half at `this_buffer_`.
  pub stale_frame :
      (p : ℕ)
      → w.monitor ≡ holding p
      → w.rt ≡ rt_waiting
      → w.mutex ≡ none
      → w.driver.prev_buffer ≡ some p
      → (v : World Net) × Reach lib t w v
        × (v.monitor ≡ comparing p)
        × (v.driver.this_buffer ≡ some p)
  stale_frame p e r free prev =
      let inv = Reach-Inv lib doc t d backup w ready size reach in
      let quiet = λ (_ : ℕ). w.driver.target_slave in
      let (d', done, u) = update_racing_total lib doc (λ _. 0) quiet w.driver inv.ready in
      let a = record w { rt = rt_working; mutex = some rt_loop } in
      let b = record a { rt = rt_leaving; driver = d' } in
      let c = record b { rt = rt_waiting; mutex = none } in
      (
        record c { monitor = comparing p; mutex = some monitor_loop },
        step
            (step (step (step start (rt_lock r free)) (rt_update _ _ d' refl done))
              (rt_unlock refl))
            (lock_first p e refl),
        refl,
        u.new_this ∙ prev,
      )

  -- With a documented library, ready buffers and a backup of their size at the start, in every
  -- state that the two threads reach, in any interleaving: the monitor can take its next step
  -- unless the real-time thread has the mutex, and the real-time thread can take its next step
  -- unless the monitor has it. No array is left and no null pointer is used on the way. When the
  -- monitor is about to compare, the differences of the counts are supposed to fit an `int`.
  pub each_moves :
      ((p : ℕ)
        → w.monitor ≡ comparing p
        → Near w.driver.slave_handles p 0 w.driver.master_buffer w.backup)
      → (w.mutex ≢ some rt_loop → (v : World Net) × Step lib t w v × (v.monitor ≢ w.monitor))
        × (w.mutex ≢ some monitor_loop → (v : World Net) × Step lib t w v × (v.rt ≢ w.rt))
  each_moves near =
      let inv = Reach-Inv lib doc t d backup w ready size reach in
      (monitor-Step lib doc t w inv w.monitor refl near, rt-Step lib doc t w inv w.rt refl)
