-- ===== src/Program/Bare.antt =====
-- `main` of test/main.cpp on a bus whose first station has no handler:
-- `initializePr2EthercatSlaves` does not look at the results of `getSlaveHandles` and
-- `setMasterBuffer`.
use pr2_ether_cat_no_ros.Base.{
  Bool, true, false, ◌&&◌, ℕ, zero, suc, ◌≡◌, ◌≢◌, refl, ap, ◌∙◌, Option, none, some, List, [], ◌∷◌,
  ◌>>=◌, arith, Option-cases, inl, inr,
}
use pr2_ether_cat_no_ros.Base.Memory.{slice, splice}
use pr2_ether_cat_no_ros.Eml.SlaveMemory.{new_fixed_station_address}
use pr2_ether_cat_no_ros.Eml.SlaveConf.{SlaveHandler}
use pr2_ether_cat_no_ros.Eml.Library.{Library}
use pr2_ether_cat_no_ros.Com.Oob.{Oob, ready_to_send, new_oob, trylock, unlock, send_pending, tx}
use pr2_ether_cat_no_ros.Driver.State.{Driver}
use pr2_ether_cat_no_ros.Driver.ProcessData.{
  rt_thread, max_pd_retries, pack_racing, with_reply, give_turn, txandrx_pd, swap_buffers,
  update_racing,
}
use pr2_ether_cat_no_ros.Driver.ProcessData.Replies.{first_reply, attempts_lem}
use pr2_ether_cat_no_ros.Driver.Configure.{find_wg05_slaves, configure_each, configure_wg05_slaves}
use pr2_ether_cat_no_ros.Driver.Startup.{
  Answers, Outcome, returned, then_run, or_fault, get_handles_from, get_slave_handles,
  set_master_buffer, set_up_slaves, close_each, close_operational_slaves,
}
use pr2_ether_cat_no_ros.Driver.Startup.Whole.{AllWell}
use pr2_ether_cat_no_ros.Program.{
  encoder_threshold_movement, Event, cycle, checked, entered_target, entered_amplitude, begun,
  Ending, happen, session, end_main, main_program,
}
use pr2_ether_cat_no_ros.Program.Events.{still_asked, last_target, ending}
use pr2_ether_cat_no_ros.Driver.Monitor.{Monitor}
use pr2_ether_cat_no_ros.Driver.Monitor.Calls.{monitor_changes_null}
use pr2_ether_cat_no_ros.Base.Int.{ℤ}
use mathlib.Core.List.{append-nil}
use pr2_ether_cat_no_ros.Program.Whole.{initialize_lem}

module _ {Net : Type 0} where
  -- The global variables with no slave in the lists and no array.
  abbrev pub bare : (ℕ → SlaveHandler) → ℕ → ℕ → ℕ → Net → Oob → Driver Net
  bare handlers start num target net o = record {
    net = net;
    oob_com = o;
    handlers = handlers;
    num_slaves = num;
    slave_handles = [];
    wg05_slave_handles = [];
    start_address = start;
    master_buffer = [];
    master_buffer_size = 0;
    this_buffer = none;
    prev_buffer = none;
    target_slave = target;
  }

module _ {Net : Type 0} (lib : Library Net) where
  -- The network after as many tries of an empty frame as the cycles make.
  abbrev pub empty_rounds : List Event → Net → Net
  empty_rounds [] net = net
  empty_rounds (cycle demands targets ∷ es) net =
      empty_rounds es (first_reply lib max_pd_retries net []).0
  empty_rounds (e ∷ es) net = empty_rounds es net

  -- With no frame that waits `tx` does nothing but take the lock and give it back.
  tx-idle :
      (me : ℕ) (net : Net) (o : Oob)
      → o.state ≢ ready_to_send
      → (o' : Oob) × (tx lib me net o ≡ some (net, o')) × (o'.state ≢ ready_to_send)
  unfolding tx trylock unlock send_pending
  tx-idle me net o ne = elim (Option-cases (o.owner)) [
    | inl free ↦ (record o { owner = none; line = 0 }, ground arith, ne)
    | inr (other, taken) ↦ (o, ground arith, ne)
  ]

  no_handles :
      (left : ℕ) (d : Driver Net)
      → lib.get_slave_handler d.net (new_fixed_station_address 1) ≡ none
      → (get_handles_from lib left 0 d).0 ≡ d
  unfolding get_handles_from
  no_handles zero d missing = refl
  no_handles (suc left) d missing = rw (missing, get_handles_from) refl

  module _ (handlers : ℕ → SlaveHandler) (start num : ℕ) where
    end_bare :
        (target : ℕ) (net : Net) (o : Oob) (reply : Net × Option (List ℕ))
        → o.state ≢ ready_to_send
        → (o' : Oob) × ((give_turn lib (with_reply (bare handlers start num target net o) reply)
              >>= λ r. some (swap_buffers r.0))
            ≡ some (bare handlers start num target (reply.0) o'))
          × (o'.state ≢ ready_to_send)
    unfolding give_turn swap_buffers splice
    end_bare target net o (net', some []) ne = (o, refl, ne)
    end_bare target net o (net', some (b ∷ got)) ne = (o, refl, ne)
    end_bare target net o (net', none) ne =
        let (o', e, ne') = tx-idle rt_thread net' o ne in (o', rw (e, ◌>>=◌) refl, ne')

    update-bare :
        (demands targets : ℕ → ℕ) (target : ℕ) (net : Net) (o : Oob)
        → o.state ≢ ready_to_send
        → (o' : Oob) × (update_racing lib demands targets (bare handlers start num target net o)
            ≡ some (bare handlers start num target (first_reply lib max_pd_retries net []).0 o'))
          × (o'.state ≢ ready_to_send)
    unfolding update_racing pack_racing txandrx_pd slice
    update-bare demands targets target net o ne =
        let (o', e, ne') = end_bare target net o (first_reply lib max_pd_retries net []) ne in
        (
          o',
          rw
              (
                attempts_lem lib max_pd_retries (bare handlers start num target net o)
                    (omega arith),
                ◌>>=◌,
              )
              e,
          ne',
        )

    session-bare :
        (es : List Event) (target : ℕ) (net : Net) (o : Oob) (m : Monitor) (asking : Bool)
        (printed : List (ℕ × ℤ))
        → o.state ≢ ready_to_send
        → (o' : Oob) × (session lib es (record {
          driver = bare handlers start num target net o;
          monitor = m;
          asking = asking;
          printed = printed;
        })
            ≡ some (record {
              driver =
                  bare handlers start num (last_target asking es target) (empty_rounds es net) o';
              monitor = m;
              asking = still_asked asking es;
              printed = printed;
            }))
    unfolding session happen
    session-bare [] target net o m asking printed ne = (o, refl)
    session-bare (cycle demands targets ∷ es) target net o m asking printed ne =
        let (o1, e, ne1) = update-bare demands targets target net o ne in
        let (o2, e2) =
          session-bare es target (first_reply lib max_pd_retries net []).0 o1 m asking printed
            ne1 in
        (o2, rw (e, ◌>>=◌) e2)
    session-bare (checked ∷ es) target net o m asking printed ne =
        rw
          (
            monitor_changes_null encoder_threshold_movement (bare handlers start num target net o) m
                refl,
            ◌>>=◌,
            append-nil,
          )
          (session-bare es target net o m asking printed ne)
    session-bare (entered_target slave ∷ es) target net o m true printed ne =
        session-bare es slave net o m true printed ne
    session-bare (entered_target slave ∷ es) target net o m false printed ne =
        session-bare es target net o m false printed ne
    session-bare (entered_amplitude positive ∷ es) target net o m asking printed ne =
        session-bare es target net o m (asking && positive) printed ne

    end-bare :
        (b : Bool) (target : ℕ) (net : Net) (o : Oob)
        → end_main lib b (bare handlers start num target net o)
          ≡ some (ending b (bare handlers start num target net o))
    unfolding end_main close_operational_slaves close_each
    end-bare true target net o = refl
    end-bare false target net o = refl

    set_up_bare :
        (target : ℕ) (net : Net) (o : Oob)
        → lib.get_slave_handler net (new_fixed_station_address 1) ≡ none
        → set_up_slaves lib (bare handlers start num target net o)
          ≡ some (bare handlers start num target net o)
    unfolding set_up_slaves get_slave_handles find_wg05_slaves configure_wg05_slaves configure_each
        set_master_buffer
    set_up_bare target net o missing =
        ap
          (λ (x : Driver Net).
            set_master_buffer lib (configure_wg05_slaves lib (find_wg05_slaves x.slave_handles x))
            >>= λ r. some (r.0))
          (no_handles num (bare handlers start num target net o) missing)

  -- With no slave in the lists and no array at the start, no handler for the station 1 and all else
  -- that the start looks at: whatever the events are, `main` goes on without a fault and without
  -- `exit`, as if there were slaves, and comes back if the operator has ended its loop. It still has
  -- no handle and no array, each round has sent an empty frame, up to twenty times, and no slave has
  -- been asked for another state.
  pub main_program-bare :
      (a : Answers) (backup : List ℕ) (es : List Event) (handlers : ℕ → SlaveHandler)
      (start num target : ℕ) (net : Net) (o : Oob)
      → AllWell a
      → lib.get_slave_handler net (new_fixed_station_address 1) ≡ none
      → (o' : Oob) × (main_program lib a backup es (bare handlers start num target net o)
          ≡ returned (
              ending (still_asked true es) (
                bare handlers start a.slaves
                  (last_target true es target)
                  (empty_rounds es net)
                  o')))
  unfolding main_program new_oob
  main_program-bare a backup es handlers start num target net o well missing =
      let (o', e) =
        session-bare handlers start a.slaves es target net new_oob
          (record { delta_init = false; backup = backup }) true [] (λ h. cc) in
      (
        o',
        ap (λ x. then_run x finish)
              (initialize_lem lib a (bare handlers start num target net o) _ well
                (set_up_bare handlers start a.slaves target net new_oob missing))
            ∙ ap (λ x. or_fault (x >>= λ s. end_main lib (s.asking) (s.driver))) e
            ∙ ap or_fault (end-bare handlers start a.slaves (still_asked true es) _ _ o'),
      )
    where
      finish : Driver Net → Outcome (Ending Net)
      finish x =
          or_fault (session lib es (begun backup x) >>= λ s. end_main lib (s.asking) (s.driver))
