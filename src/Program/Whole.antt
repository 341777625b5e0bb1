-- ===== src/Program/Whole.antt =====
-- `main` of test/main.cpp from end to end.
use pr2_ether_cat_no_ros.Base.{
  Bool, true, false, inl, inr, ◌⊎◌, length, ℕ, ◌*◌, ◌^◌, ◌<◌, ◌≡◌, refl, ap, sym, subst, ◌∙◌, some,
  List, [], map, ◌>>=◌,
}
use pr2_ether_cat_no_ros.Eml.SlaveMemory.{new_fixed_station_address}
use pr2_ether_cat_no_ros.Eml.Library.{Library, IsDocumented}
use pr2_ether_cat_no_ros.Com.Oob.{new_oob}
use pr2_ether_cat_no_ros.Driver.State.{Driver, slot_size}
use pr2_ether_cat_no_ros.Driver.ProcessData.Ready.{IsReady}
use pr2_ether_cat_no_ros.Driver.Startup.{
  Answers, returned, faulted, then_run, or_fault, set_up_slaves, initialize_pr2_ethercat_slaves,
}
use pr2_ether_cat_no_ros.Driver.Startup.Whole.{
  AllWell, initialize_ecat_master_iff, set_up_slaves-IsReady,
}
use pr2_ether_cat_no_ros.Driver.Startup.Close.{asked, close_operational_slaves_lem}
use pr2_ether_cat_no_ros.Program.{
  Event, Run, begun, Ending, came_back, still_asking, session, end_main, main_program,
}
use pr2_ether_cat_no_ros.Program.Events.{still_asked, last_target, lower_after, was_checked}
use pr2_ether_cat_no_ros.Program.Played.{half, At, Breaks, session_lem}

returned_inj : {A : Type 0} {a b : A} → returned a ≡ returned b → a ≡ b
returned_inj e = cc

module _ {Net : Type 0} (lib : Library Net) where
  pub initialize_lem :
      (a : Answers) (d d1 : Driver Net)
      → AllWell a
      → set_up_slaves lib (record d { oob_com = new_oob; num_slaves = a.slaves }) ≡ some d1
      → initialize_pr2_ethercat_slaves lib a d ≡ returned d1
  unfolding initialize_pr2_ethercat_slaves
  initialize_lem a d d1 well e =
      ap (λ o. then_run o (λ d'. or_fault (set_up_slaves lib d')))
        ((initialize_ecat_master_iff a d _).1 (well, refl))
      ∙ ap or_fault e

  -- What the start leaves behind.
  pub started_lem :
      IsDocumented lib
      → (a : Answers) (d0 d : Driver Net) (p : ℕ) → AllWell a
      → d0.slave_handles ≡ []
      → d0.wg05_slave_handles ≡ []
      → lib.get_slave_handler d0.net (new_fixed_station_address 1) ≡ some p
      → slot_size * a.slaves * 2 < 2 ^ 32
      → initialize_pr2_ethercat_slaves lib a d0 ≡ returned d
      → IsReady d × ((ps : List ℕ) × (d.slave_handles ≡ map some ps))
  unfolding new_oob
  started_lem doc a d0 d p well no_handles no_wg05 station small begun =
      let (d1, e1, ready1, low, num, handles1) =
        set_up_slaves-IsReady lib doc (record d0 { oob_com = new_oob; num_slaves = a.slaves }) p
          no_handles no_wg05 well.some_slave station small (λ h. cc) in
      let e2 = initialize_lem a d0 d1 well e1 in
      let same : d1 ≡ d = returned_inj (sym e2 ∙ begun) in
      subst (λ x. IsReady x × ((ps : List ℕ) × (x.slave_handles ≡ map some ps))) same
        (ready1, handles1)

  -- The start leaves the backup's size, and the two halves in their first order.
  started_At :
      IsDocumented lib
      → (a : Answers) (d0 : Driver Net) (p : ℕ) (backup : List ℕ) → AllWell a
      → d0.slave_handles ≡ []
      → d0.wg05_slave_handles ≡ []
      → lib.get_slave_handler d0.net (new_fixed_station_address 1) ≡ some p
      → slot_size * a.slaves * 2 < 2 ^ 32
      → length backup ≡ slot_size * a.slaves
      → (d : Driver Net) × (ps : List ℕ) × (initialize_pr2_ethercat_slaves lib a d0 ≡ returned d)
        × At ps (slot_size * a.slaves) true d.target_slave true false (begun backup d)
  unfolding new_oob
  started_At doc a d0 p backup well no_handles no_wg05 station small size =
      let (d, e, ready, low, num, (ps, handles)) =
        set_up_slaves-IsReady lib doc (record d0 { oob_com = new_oob; num_slaves = a.slaves }) p
          no_handles no_wg05 well.some_slave station small (λ h. cc) in
      let frame = ready.frame_size ∙ ap (λ n. slot_size * n) num in
      (
        d,
        ps,
        initialize_lem a d0 d well e,
        record {
          ready = ready;
          handles = handles;
          size_is = frame;
          this_is = low;
          prev_is = elim (ready.halves) [
            | inl (a, b) ↦ b ∙ ap some frame
            | inr (a, b) ↦ b ∙ sym low ∙ a ∙ ap some frame
          ];
          target_is = refl;
          backup_size = size;
          asking_is = refl;
          seen_is = refl;
        },
      )

  -- What `main` ends with: the slaves that were operational have been asked for SAFEOP, if the
  -- operator has ended the loop.
  abbrev pub closed_if : List ℕ → Bool → Driver Net → Ending Net
  closed_if ps true d = still_asking d
  closed_if ps false d = came_back (record d { net = asked lib ps d.net })

  end_main_lem :
      (ps : List ℕ) (b : Bool) (d : Driver Net)
      → d.slave_handles ≡ map some ps
      → end_main lib b d ≡ some (closed_if ps b d)
  unfolding end_main
  end_main_lem ps true d h = refl
  end_main_lem ps false d h =
      ap (λ o. o >>= λ x. some (came_back (x.0))) (close_operational_slaves_lem lib ps d h)

  -- What follows the start.
  after_start :
      (a : Answers) (backup : List ℕ) (es : List Event) (d0 d : Driver Net)
      → initialize_pr2_ethercat_slaves lib a d0 ≡ returned d
      → main_program lib a backup es d0
        ≡ or_fault (session lib es (begun backup d) >>= λ s. end_main lib (s.asking) (s.driver))
  unfolding main_program
  after_start a backup es d0 d e =
      ap
        (λ o. then_run o (λ x.
          or_fault (session lib es (begun backup x) >>= λ s. end_main lib (s.asking) (s.driver))))
        e

  -- With a documented library, when the start finds all that it needs, on lists that are still
  -- empty, with a handler for the station 1, two frames that fit an `unsigned int` and a backup of
  -- the size of a frame: `initializePr2EthercatSlaves` comes back, and then `main` plays all events,
  -- in any number and order. It has come back if the operator has ended the loop, with the slaves
  -- that were operational asked for SAFEOP, and else is still in the loop. The buffers are ready,
  -- `target_slave` is the number entered last, `this_buffer_` has changed its half with each cycle,
  -- and the monitor has saved a frame if it was called. Else the program has faulted, in a call of
  -- `monitorChanges` that is not the first and in which the difference of two counts does not fit
  -- an `int`.
  pub main_program_lem :
      IsDocumented lib
      → (a : Answers) (backup : List ℕ) (es : List Event) (d0 : Driver Net) (p : ℕ) → AllWell a
      → d0.slave_handles ≡ []
      → d0.wg05_slave_handles ≡ []
      → lib.get_slave_handler d0.net (new_fixed_station_address 1) ≡ some p
      → slot_size * a.slaves * 2 < 2 ^ 32
      → length backup ≡ slot_size * a.slaves
      → (d1 : Driver Net) × (ps : List ℕ) × (initialize_pr2_ethercat_slaves lib a d0 ≡ returned d1)
        × (((r : Run Net) × (session lib es (begun backup d1) ≡ some r)
              × (main_program lib a backup es d0
                  ≡ returned (closed_if ps (still_asked true es) r.driver))
              × IsReady r.driver
              × (r.driver.slave_handles ≡ map some ps)
              × (r.driver.target_slave ≡ last_target true es d1.target_slave)
              × (r.driver.this_buffer ≡ half (lower_after true es) (slot_size * a.slaves))
              × (r.monitor.delta_init ≡ was_checked false es))
            ⊎ ((main_program lib a backup es d0 ≡ faulted) × Breaks lib es (begun backup d1)))
  main_program_lem doc a backup es d0 p well no_handles no_wg05 station small size =
      let (d1, ps, e1, at) =
        started_At doc a d0 p backup well no_handles no_wg05 station small size in
      let rest = after_start a backup es d0 d1 e1 in
      (
        d1,
        ps,
        e1,
        elim (session_lem lib doc ps (slot_size * a.slaves) es true d1.target_slave true false
            (begun backup d1) at) [
              | inr (e2, breaks) ↦ inr (
                rest ∙ ap (λ o. or_fault (o >>= λ s. end_main lib (s.asking) (s.driver))) e2,
                breaks,
              )
              | inl (r, e2, at2) ↦ inl (
                r,
                e2,
                rest
                    ∙ ap (λ o. or_fault (o >>= λ s. end_main lib (s.asking) (s.driver))) e2
                    ∙ ap or_fault (end_main_lem ps r.asking r.driver at2.handles)
                    ∙ ap (λ b. returned (closed_if ps b r.driver)) at2.asking_is,
                at2.ready,
                at2.handles,
                at2.target_is,
                at2.this_is,
                at2.seen_is,
              )
            ],
      )
