-- ===== src/Program/Threads/Session.antt =====
-- The three threads of test/main.cpp against `main_program`, which has its events one after the
-- other.
use pr2_ether_cat_no_ros.Base.{
  ℕ, zero, suc, ◌≡◌, ◌≢◌, refl, sym, ap, ◌∙◌, ◌⊎◌, inl, inr, some, List, [], ◌∷◌, ◌++◌, ◌>>=◌,
  length, bind_some, bind_some_id, false, ◌<◌, ◌*◌, ◌^◌,
}
use pr2_ether_cat_no_ros.Base.Int.{ℤ}
use pr2_ether_cat_no_ros.Eml.Library.{Library, IsDocumented}
use pr2_ether_cat_no_ros.Eml.SlaveMemory.{new_fixed_station_address}
use pr2_ether_cat_no_ros.Driver.State.{Driver, slot_size}
use pr2_ether_cat_no_ros.Driver.Startup.Whole.{AllWell}
use pr2_ether_cat_no_ros.Program.Whole.{started_lem}
use pr2_ether_cat_no_ros.Driver.ProcessData.{update_racing}
use pr2_ether_cat_no_ros.Driver.Startup.{
  Answers, Outcome, returned, then_run, or_fault, initialize_pr2_ethercat_slaves,
  close_operational_slaves,
}
use pr2_ether_cat_no_ros.Driver.Race.{
  World, rt_lock, rt_update, rt_unlock, enter, pass_first, pass_null, read, lock_first, compare,
  unlock_first, want, skip, lock_second, save, unlock_second,
}
use pr2_ether_cat_no_ros.Driver.Race
use pr2_ether_cat_no_ros.Program.{
  Event, cycle, entered_target, entered_amplitude, Run, begun, Ending, came_back, happen, session,
  end_main, main_program,
}
use pr2_ether_cat_no_ros.Program.Threads.{
  finished, Process, running, Step, rt_goes_on, rt_ends, rt_wakes, rt_acts, monitor_goes_on,
  monitor_ends, monitor_wakes, monitor_acts, main_asks, main_stops, main_joins_rt,
  main_joins_monitor, main_closes, Steps, none_yet, and_then,
}
use pr2_ether_cat_no_ros.Program.Threads.Invariant.{Steps-Inv}
use pr2_ether_cat_no_ros.Program.Threads.Places.{
  at_first, Inv, is_asking, rt_joined, monitor_joined,
}

module _ {Net : Type 0} (lib : Library Net) where
  -- One more event at the end.
  session-snoc :
      (es : List Event) (e : Event) (r r1 : Run Net)
      → session lib es r ≡ some r1
      → session lib (es ++ e ∷ []) r ≡ happen lib e r1
  unfolding session
  session-snoc [] e r r1 h =
      let same : r ≡ r1 = cc in bind_some_id (happen lib e r) ∙ ap (happen lib e) same
  session-snoc (x ∷ es) e r r1 h =
      let (r2, first, rest) = bind_some (happen lib x r) (session lib es) r1 h in
      ap (λ o. o >>= session lib (es ++ e ∷ [])) first ∙ session-snoc es e r2 r1 rest

  -- A step of the two calls leaves the driver alone, or is a cycle.
  driver_step :
      (t : ℤ) (w v : World Net)
      → Race.Step lib t w v
      → (v.driver ≡ w.driver)
        ⊎ ((demands : ℕ → ℕ) × (targets : ℕ → ℕ) × (update_racing lib demands targets w.driver
              ≡ some v.driver))
  driver_step t w v (rt_update demands targets d a e) = inr (demands, targets, e)
  driver_step t w v (rt_lock a b) = inl refl
  driver_step t w v (rt_unlock a) = inl refl
  driver_step t w v (enter a b c) = inl refl
  driver_step t w v (pass_first a b) = inl refl
  driver_step t w v (pass_null a b) = inl refl
  driver_step t w v (read p a b) = inl refl
  driver_step t w v (lock_first p a b) = inl refl
  driver_step t w v (compare p lines a b) = inl refl
  driver_step t w v (unlock_first a) = inl refl
  driver_step t w v (want a b) = inl refl
  driver_step t w v (skip a b) = inl refl
  driver_step t w v (lock_second a b) = inl refl
  driver_step t w v (save p bytes backup a b c e) = inl refl
  driver_step t w v (unlock_second a) = inl refl

  module _ (doc : IsDocumented lib) (ps backup : List ℕ) (d : Driver Net) where
    -- The driver is where the events have brought it, and closed once `main` has finished.
    abbrev Played : Process Net → Type 0
    Played s =
        (es : List Event) × (r : Run Net) × (session lib es (begun backup d) ≡ some r)
        × (r.asking ≡ is_asking s.main)
        × (((s.main ≢ finished) × (r.driver ≡ s.world.driver))
            ⊎ ((s.main ≡ finished)
                × ((errors : ℤ) × (close_operational_slaves lib r.driver
                      ≡ some (s.world.driver, errors)))))

    -- No thread makes a step after `main` has finished.
    not_finished : (s t : Process Net) → Inv ps s → Step lib s t → s.main ≢ finished
    not_finished s t inv (rt_goes_on a b) e = let gone = inv.rt_gone (ap rt_joined e) in cc
    not_finished s t inv (rt_ends a b) e = let gone = inv.rt_gone (ap rt_joined e) in cc
    not_finished s t inv (rt_wakes a) e = let gone = inv.rt_gone (ap rt_joined e) in cc
    not_finished s t inv (rt_acts w a m ne) e = let gone = inv.rt_gone (ap rt_joined e) in cc
    not_finished s t inv (monitor_goes_on a b) e =
        let gone = inv.monitor_gone (ap monitor_joined e) in cc
    not_finished s t inv (monitor_ends a b) e =
        let gone = inv.monitor_gone (ap monitor_joined e) in cc
    not_finished s t inv (monitor_wakes a) e =
        let gone = inv.monitor_gone (ap monitor_joined e) in cc
    not_finished s t inv (monitor_acts w a m ne) e =
        let gone = inv.monitor_gone (ap monitor_joined e) in cc
    not_finished s t inv (main_asks slave a) e = cc
    not_finished s t inv (main_stops a) e = cc
    not_finished s t inv (main_joins_rt a b) e = cc
    not_finished s t inv (main_joins_monitor a b) e = cc
    not_finished s t inv (main_closes d1 errors a c) e = cc

    -- A state with the same driver, while `main` has not finished.
    plays :
        (s t : Process Net)
        → Played s
        → s.main ≢ finished
        → t.main ≢ finished
        → is_asking s.main ≡ is_asking t.main
        → t.world.driver ≡ s.world.driver
        → Played t
    plays s t (es, r, h, asks, inr (over, closed)) ne ne' go same = absurd (ne over)
    plays s t (es, r, h, asks, inl (going, at)) ne ne' go same =
        (es, r, h, asks ∙ go, inl (ne', at ∙ sym same))

    -- A state after one more event.
    plays_on :
        (s t : Process Net) (e : Event)
        → Played s
        → s.main ≢ finished
        → t.main ≢ finished
        → ((r : Run Net)
            → r.asking ≡ is_asking s.main
            → r.driver ≡ s.world.driver
            → (r1 : Run Net) × (happen lib e r ≡ some r1)
              × (r1.asking ≡ is_asking t.main)
              × (r1.driver ≡ t.world.driver))
        → Played t
    plays_on s t e (es, r, h, asks, inr (over, closed)) ne ne' next = absurd (ne over)
    plays_on s t e (es, r, h, asks, inl (going, at)) ne ne' next =
        let (r1, does, asks1, at1) = next r asks at in
        (es ++ e ∷ [], r1, session-snoc es e (begun backup d) r h ∙ does, asks1, inl (ne', at1))

    -- The same for a step of the two calls, with `main` where it was.
    calls :
        (s t : Process Net) (x : ℤ) (w : World Net)
        → Played s
        → s.main ≢ finished
        → Race.Step lib x s.world w
        → t.main ≡ s.main
        → t.world ≡ w
        → Played t
    unfolding happen
    calls s t x w p ne m stays new = elim (driver_step x s.world w m) [
      | inl same ↦
          plays s t p ne (λ e. ne (sym stays ∙ e)) (ap is_asking (sym stays))
            (ap (λ v. v.driver) new ∙ same)
      | inr (demands, targets, e) ↦
          plays_on s t (cycle demands targets) p ne (λ e. ne (sym stays ∙ e))
            (λ r asks at. (
              record r { driver = w.driver },
              ap (λ y. update_racing lib demands targets y >>= λ z. some (record r { driver = z }))
                    at
                  ∙ ap (λ o. o >>= λ z. some (record r { driver = z })) e,
              asks ∙ ap is_asking (sym stays),
              ap (λ v. v.driver) (sym new),
            ))
    ]

    Step-Played : (s t : Process Net) → Played s → s.main ≢ finished → Step lib s t → Played t
    unfolding happen
    Step-Played s t p ne (rt_goes_on a b) = plays s t p ne ne refl refl
    Step-Played s t p ne (rt_ends a b) = plays s t p ne ne refl refl
    Step-Played s t p ne (rt_wakes a) = plays s t p ne ne refl refl
    Step-Played s t p ne (rt_acts w a m k) = calls s t _ w p ne m refl refl
    Step-Played s t p ne (monitor_goes_on a b) = plays s t p ne ne refl refl
    Step-Played s t p ne (monitor_ends a b) = plays s t p ne ne refl refl
    Step-Played s t p ne (monitor_wakes a) = plays s t p ne ne refl refl
    Step-Played s t p ne (monitor_acts w a m k) = calls s t _ w p ne m refl refl
    Step-Played s t p ne (main_asks slave a) =
        plays_on s t (entered_target slave) p ne ne (λ r asks at. (
          record r { driver = record (r.driver) { target_slave = slave } },
          rw (asks ∙ ap is_asking a) refl,
          asks,
          ap (λ (x : Driver Net). record x { target_slave = slave }) at,
        ))
    Step-Played s t p ne (main_stops a) =
        plays_on s t (entered_amplitude false) p ne (λ e. cc)
          (λ r asks at. (record r { asking = false }, rw (asks ∙ ap is_asking a) refl, refl, at))
    Step-Played s t p ne (main_joins_rt a b) = plays s t p ne (λ e. cc) (ap is_asking a) refl
    Step-Played s t p ne (main_joins_monitor a b) = plays s t p ne (λ e. cc) (ap is_asking a) refl
    Step-Played s t (es, r, h, asks, inr (over, closed)) ne (main_closes d1 errors a c) =
        absurd (ne over)
    Step-Played s t (es, r, h, asks, inl (going, at)) ne (main_closes d1 errors a c) = (
      es,
      r,
      h,
      asks ∙ ap is_asking a,
      inr (refl, (errors, ap (close_operational_slaves lib) at ∙ c)),
    )

    Steps-Played : (n : ℕ) (s t : Process Net) → Inv ps s → Played s → Steps lib s n t → Played t
    Steps-Played zero s t inv p none_yet = p
    Steps-Played (suc n) s t inv p (and_then {t = u} before m) =
        Step-Played u t (Steps-Played n s u inv p before)
          (not_finished u t (Steps-Inv lib doc ps n s u inv before) m) m

  -- The end of such a run.
  finished_as_main :
      (a : Answers) (backup : List ℕ) (d0 d out : Driver Net) (r : Run Net) (es : List Event)
      (errors : ℤ)
      → initialize_pr2_ethercat_slaves lib a d0 ≡ returned d
      → session lib es (begun backup d) ≡ some r
      → r.asking ≡ false
      → close_operational_slaves lib r.driver ≡ some (out, errors)
      → main_program lib a backup es d0 ≡ returned (came_back out)
  unfolding main_program end_main
  finished_as_main a backup d0 d out r es errors starts h over closed =
      ap (λ o. then_run o finish) starts
      ∙ ap (λ o. or_fault (o >>= λ s. end_main lib (s.asking) (s.driver))) h
      ∙ ap (λ b. or_fault (end_main lib b (r.driver))) over
      ∙ ap (λ o. or_fault (o >>= λ x. some (came_back (x.0)))) closed
    where
      finish : Driver Net → Outcome (Ending Net)
      finish x =
          or_fault (session lib es (begun backup x) >>= λ s. end_main lib (s.asking) (s.driver))

  run_as_main :
      (doc : IsDocumented lib) (ps backup : List ℕ) (a : Answers) (d0 d : Driver Net)
      (s : Process Net)
      → initialize_pr2_ethercat_slaves lib a d0 ≡ returned d
      → s.main ≡ finished
      → Played doc ps backup d s
      → (es : List Event) × (main_program lib a backup es d0 ≡ returned (came_back s.world.driver))
  run_as_main doc ps backup a d0 d s starts over (es, r, h, asks, inl (ne, at)) = absurd (ne over)
  run_as_main doc ps backup a d0 d s starts over (es, r, h, asks, inr (e, (errors, closed))) = (
    es,
    finished_as_main a backup d0 d s.world.driver r es errors starts h (asks ∙ ap is_asking over)
        closed,
  )

  -- With a documented library, when the start finds all that it needs, on lists that are still
  -- empty, with a handler for the station 1, with two frames that fit an `unsigned int` and with a
  -- backup of the size of a frame: every run of the three threads in which `main` finishes, in any
  -- interleaving and with the operator's writes inside of cycles, leaves the driver that
  -- `main_program` comes back with on some list of events.
  pub threads_as_main :
      IsDocumented lib
      → (a : Answers) (d0 d : Driver Net) (p : ℕ) (backup : List ℕ) (n : ℕ) (s : Process Net)
      → AllWell a
      → d0.slave_handles ≡ []
      → d0.wg05_slave_handles ≡ []
      → lib.get_slave_handler d0.net (new_fixed_station_address 1) ≡ some p
      → slot_size * a.slaves * 2 < 2 ^ 32
      → initialize_pr2_ethercat_slaves lib a d0 ≡ returned d
      → length backup ≡ d.master_buffer_size
      → Steps lib (running d backup) n s
      → s.main ≡ finished
      → (es : List Event) × (main_program lib a backup es d0 ≡ returned (came_back s.world.driver))
  unfolding session
  threads_as_main doc a d0 d p backup n s well no_handles no_wg05 station small starts size steps
        over =
      let (ready, (ps, handles)) =
        started_lem lib doc a d0 d p well no_handles no_wg05 station small starts in
      let inv = at_first lib doc ps d backup ready size handles in
      run_as_main doc ps backup a d0 d s starts over (
        Steps-Played doc ps backup d n (running d backup) s inv
          ([], begun backup d, refl, refl, inl ((λ e. cc), refl)) steps)
