-- ===== src/Program/Threads/Progress.antt =====
-- Why some thread of test/main.cpp can always go on once the operator has ended the loop of `main`.
use pr2_ether_cat_no_ros.Base.{ℕ, ◌≡◌, ◌≢◌, refl, ◌∙◌, ap, false, some, List, arith, ◌⊎◌, inl, inr}
use pr2_ether_cat_no_ros.Eml.Library.{Library, IsDocumented}
use pr2_ether_cat_no_ros.Driver.Startup.Close.{close_operational_slaves_lem}
use pr2_ether_cat_no_ros.Driver.Monitor.Lines.{Near}
use pr2_ether_cat_no_ros.Driver.Race.{rt_loop, monitor_loop, comparing, World}
use pr2_ether_cat_no_ros.Driver.Race.Lock.{rt_owns}
use pr2_ether_cat_no_ros.Driver.Race.Progress.{mutex-cases, monitor-Step, rt-Step}
use pr2_ether_cat_no_ros.Program.{encoder_threshold_movement}
use pr2_ether_cat_no_ros.Program.Threads.{
  LoopPc, at_test, in_wait, in_call, ended, MainPc, asking, joining_rt, joining_monitor, closing,
  finished, Process, Step, rt_ends, rt_wakes, rt_acts, monitor_ends, monitor_wakes, monitor_acts,
  main_stops, main_joins_rt, main_joins_monitor, main_closes,
}
use pr2_ether_cat_no_ros.Program.Threads.Places.{is_asking-ne, Inv}

-- When the monitor is about to compare, the differences of the counts fit an `int`.
abbrev pub IsNear : {Net : Type 0} → World Net → Type 0
IsNear w =
    (p : ℕ)
    → w.monitor ≡ comparing p
    → Near w.driver.slave_handles p 0 w.driver.master_buffer w.backup

module _ {Net : Type 0} (lib : Library Net) (doc : IsDocumented lib) (ps : List ℕ) where
  -- The next step of some thread, if `main` has not finished.
  abbrev pub GoesOn : Process Net → Type 0
  GoesOn t = (t.main ≡ finished) ⊎ ((u : Process Net) × Step lib t u)

  -- The monitor in its call, while the real-time thread has not the mutex.
  monitor_goes :
      (t : Process Net)
      → Inv ps t
      → IsNear t.world
      → t.monitor ≡ in_call
      → t.world.mutex ≢ some rt_loop
      → GoesOn t
  monitor_goes t inv near e free =
      let (w, m, moved) =
        monitor-Step lib doc encoder_threshold_movement t.world inv.inside t.world.monitor refl near
          free in
      inr (_, monitor_acts w e m moved)

  owner_calls :
      (t : Process Net) → Inv ps t → t.world.mutex ≡ some monitor_loop → t.monitor ≡ in_call
  owner_calls t inv e =
      elim (t.monitor) as (λ l. t.monitor ≡ l → t.monitor ≡ in_call) [
        | in_call ↦ λ h. h
        | at_test ↦ λ h. ground (arith, inv.inside.has_monitor e, inv.monitor_rests)
        | in_wait ↦ λ h. ground (arith, inv.inside.has_monitor e, inv.monitor_rests)
        | ended ↦ λ h. ground (arith, inv.inside.has_monitor e, inv.monitor_rests)
      ]
        refl

  rt_goes :
      (r : LoopPc) (t : Process Net)
      → Inv ps t
      → IsNear t.world
      → t.rt ≡ r
      → t.run ≡ false
      → (t.rt ≡ ended) ⊎ GoesOn t
  rt_goes at_test t inv near e off = inr (inr (_, rt_ends e off))
  rt_goes in_wait t inv near e off = inr (inr (_, rt_wakes e))
  rt_goes in_call t inv near e off = elim (mutex-cases (t.world.mutex)) [
    | inl free ↦ inr (acts (λ h. cc))
    | inr (inl mine) ↦ inr (acts (λ h. cc))
    | inr (inr other) ↦ inr (monitor_goes t inv near (owner_calls t inv other) (λ h. cc))
  ]
    where
      acts : t.world.mutex ≢ some monitor_loop → GoesOn t
      acts free =
          let (w, m, moved) =
            rt-Step lib doc encoder_threshold_movement t.world inv.inside t.world.rt refl free in
          inr (_, rt_acts w e m moved)
  rt_goes ended t inv near e off = inl e

  monitor_ends_or_goes :
      (r : LoopPc) (t : Process Net)
      → Inv ps t
      → IsNear t.world
      → t.rt ≡ ended
      → t.monitor ≡ r
      → t.run ≡ false
      → (t.monitor ≡ ended) ⊎ GoesOn t
  monitor_ends_or_goes at_test t inv near gone e off = inr (inr (_, monitor_ends e off))
  monitor_ends_or_goes in_wait t inv near gone e off = inr (inr (_, monitor_wakes e))
  monitor_ends_or_goes in_call t inv near gone e off =
      let rests = inv.rt_rests (λ h. cc) in
      inr (
        monitor_goes t inv near e
          (λ h. let owner = inv.inside.has_rt h in let none_there = ap rt_owns rests in cc))
  monitor_ends_or_goes ended t inv near gone e off = inl e

  main_goes :
      (m : MainPc) (t : Process Net)
      → Inv ps t
      → t.main ≡ m
      → t.rt ≡ ended
      → t.monitor ≡ ended
      → GoesOn t
  main_goes asking t inv e r w = inr (_, main_stops e)
  main_goes joining_rt t inv e r w = inr (_, main_joins_rt e r)
  main_goes joining_monitor t inv e r w = inr (_, main_joins_monitor e w)
  main_goes closing t inv e r w =
      inr (_, main_closes _ _ e (close_operational_slaves_lem lib ps t.world.driver inv.handles))
  main_goes finished t inv e r w = inl e

  pub goes_on : (t : Process Net) → Inv ps t → t.main ≢ asking → IsNear t.world → GoesOn t
  goes_on t inv ne near =
      let off : t.run ≡ false = inv.flag ∙ is_asking-ne t.main ne in
      elim (rt_goes t.rt t inv near refl off) [
        | inr m ↦ m
        | inl r ↦ elim (monitor_ends_or_goes t.monitor t inv near r refl off) [
          | inr m ↦ m
          | inl w ↦ main_goes t.main t inv refl r w
        ]
      ]
