-- ===== src/Driver/Startup/Whole.antt =====
-- `initializePr2EthercatSlaves` from end to end.
use mathlib.Core.Path.{subst}
use pr2_ether_cat_no_ros.Base.{
  ℕ, ◌*◌, ◌^◌, ◌<◌, ◌≡◌, ◌≢◌, refl, sym, ap, ◌∙◌, ◌↔◌, true, false, Option, none, some, List, [],
  ◌∷◌, ◌++◌, map, arith, length, ◌>>=◌, length-map,
}
use pr2_ether_cat_no_ros.Eml.SlaveMemory.{new_fixed_station_address}
use pr2_ether_cat_no_ros.Eml.Library.{Library, IsDocumented}
use pr2_ether_cat_no_ros.Com.Oob.{new_oob}
use pr2_ether_cat_no_ros.Com.Oob.Tx.{IsSound}
use pr2_ether_cat_no_ros.Driver.State.{Driver, slot_size}
use pr2_ether_cat_no_ros.Driver.ProcessData.Ready.{IsReady}
use pr2_ether_cat_no_ros.Driver.Configure.{
  find_wg05_slaves, configure_wg05_fmmu, configure_wg05_pd, configure_each, configure_wg05_slaves,
}
use pr2_ether_cat_no_ros.Driver.Configure.Layout.{select, find_wg05_slaves_lem}
use pr2_ether_cat_no_ros.Driver.Startup.{
  Answers, returned, is_negative, initialize_ecat_master, get_slave_handles, set_up_slaves,
}
use pr2_ether_cat_no_ros.Driver.Startup.Handles.{
  get_slave_handles_lem, get_slave_handles_few, Collected-first,
}
use pr2_ether_cat_no_ros.Driver.Startup.Buffers.{set_master_buffer-IsReady}

-- What `initializeECatMaster` needs: every call but `close` succeeds, the interface is up and
-- running, and there is a slave.
pub record AllWell (a : Answers) : Type 0 where
  pub socket_open : is_negative a.socket_fd ≡ false
  pub flags_read : is_negative a.ioctl_result ≡ false
  pub up : a.iff_up ≡ true
  pub running : a.iff_running ≡ true
  pub interface_there : a.interface ≡ true
  pub layer_there : a.application_layer ≡ true
  pub some_slave : a.slaves ≢ 0
  pub master_there : a.master ≡ true

module _ {Net : Type 0} where
  -- `initializeECatMaster` comes back exactly if all is well, and then has set the number of slaves
  -- and a new out-of-band channel.
  pub initialize_ecat_master_iff :
      (a : Answers) (d d' : Driver Net)
      → (initialize_ecat_master a d ≡ returned d')
        ↔ (AllWell a × (d' ≡ record d { oob_com = new_oob; num_slaves = a.slaves }))
  unfolding initialize_ecat_master
  initialize_ecat_master_iff a d d' = (λ e. (ground arith, ground arith), λ h. ground arith)

  -- What configuring slaves leaves alone.
  record SameLists (d d' : Driver Net) : Type 0 where
    same_slave_handles : d'.slave_handles ≡ d.slave_handles
    same_wg05 : d'.wg05_slave_handles ≡ d.wg05_slave_handles
    same_num : d'.num_slaves ≡ d.num_slaves
    same_oob : d'.oob_com ≡ d.oob_com

module _ {Net : Type 0} (lib : Library Net) where
  configure-SameLists :
      (h : Option ℕ) (d : Driver Net)
      → SameLists d (configure_wg05_pd lib h (configure_wg05_fmmu lib h d).0).0
  unfolding configure_wg05_fmmu configure_wg05_pd
  configure-SameLists none d = record {
    same_slave_handles = refl;
    same_wg05 = refl;
    same_num = refl;
    same_oob = refl;
  }
  configure-SameLists (some p) d = ground arith

  configure_each-SameLists :
      (hs : List (Option ℕ)) (d : Driver Net) → SameLists d (configure_each lib hs d)
  unfolding configure_each
  configure_each-SameLists [] d = record {
    same_slave_handles = refl;
    same_wg05 = refl;
    same_num = refl;
    same_oob = refl;
  }
  configure_each-SameLists (h ∷ hs) d =
      let one = configure-SameLists h d in
      let rest =
        configure_each-SameLists hs (configure_wg05_pd lib h (configure_wg05_fmmu lib h d).0).0 in
      record {
        same_slave_handles = rest.same_slave_handles ∙ one.same_slave_handles;
        same_wg05 = rest.same_wg05 ∙ one.same_wg05;
        same_num = rest.same_num ∙ one.same_num;
        same_oob = rest.same_oob ∙ one.same_oob;
      }

  -- With a library that behaves as documented and the state that `initializeECatMaster` leaves,
  -- with no handles yet: the slaves are set up without a fault, and the buffers are ready with
  -- `this_buffer_` the lower half and no null handle, if the station 1 has a handler and two frames
  -- fit an `unsigned int`. That a later station has none does not stop the start.
  pub set_up_slaves-IsReady :
      IsDocumented lib
      → (d : Driver Net) (p : ℕ) → d.slave_handles ≡ []
      → d.wg05_slave_handles ≡ []
      → d.num_slaves ≢ 0
      → lib.get_slave_handler d.net (new_fixed_station_address 1) ≡ some p
      → slot_size * d.num_slaves * 2 < 2 ^ 32
      → IsSound d.oob_com
      → (d' : Driver Net) × (set_up_slaves lib d ≡ some d')
        × IsReady d'
        × (d'.this_buffer ≡ some 0)
        × (d'.num_slaves ≡ d.num_slaves)
        × ((ps : List ℕ) × (d'.slave_handles ≡ map some ps))
  unfolding set_up_slaves configure_wg05_slaves
  set_up_slaves-IsReady doc d p no_handles no_wg05 some_slave station small sound =
      let (ps, e, c) = get_slave_handles_lem lib d in
      let d1 : Driver Net = (get_slave_handles lib d).0 in
      let ws : List ℕ = select d1.handlers d1.slave_handles in
      let d2 : Driver Net = find_wg05_slaves d1.slave_handles d1 in
      let e2 : d2 ≡ record d1 { wg05_slave_handles = d1.wg05_slave_handles ++ map some ws } =
        find_wg05_slaves_lem d1.slave_handles d1 in
      let same : SameLists d2 (configure_each lib d2.wg05_slave_handles d2) =
        configure_each-SameLists d2.wg05_slave_handles d2 in
      let handles_are : d2.slave_handles ≡ map some ps =
        ap (λ (x : Driver Net). x.slave_handles) e2
        ∙ ap (λ (x : Driver Net). x.slave_handles) e
        ∙ ap (λ l. l ++ map some ps) no_handles in
      let num_is : d2.num_slaves ≡ d.num_slaves =
        ap (λ (x : Driver Net). x.num_slaves) e2 ∙ ap (λ (x : Driver Net). x.num_slaves) e in
      let wg05_are : d2.wg05_slave_handles ≡ map some ws =
        ap (λ (x : Driver Net). x.wg05_slave_handles) e2
        ∙ ap (λ l. l ++ map some ws) (ap (λ (x : Driver Net). x.wg05_slave_handles) e ∙ no_wg05) in
      let oob_is : d2.oob_com ≡ d.oob_com =
        ap (λ (x : Driver Net). x.oob_com) e2 ∙ ap (λ (x : Driver Net). x.oob_com) e in
      let d3 : Driver Net = configure_each lib d2.wg05_slave_handles d2 in
      let handles3 : d3.slave_handles ≡ map some ps = same.same_slave_handles ∙ handles_are in
      let num3 : d3.num_slaves ≡ d.num_slaves = same.same_num ∙ num_is in
      let oob3 : d3.oob_com ≡ d.oob_com = same.same_oob ∙ oob_is in
      let counted : length d3.slave_handles ≡ length ps = ap length handles3 ∙ length-map ps some in
      let (d4, done, ready, low, num, _, handles4) =
        set_master_buffer-IsReady lib doc d3 ws (same.same_wg05 ∙ wg05_are)
          (subst (λ l. l ≢ []) (sym handles3) (Collected-first lib c some_slave station))
          (omega (arith, get_slave_handles_few lib c)) (omega arith)
          (subst IsSound (sym oob3) sound) in
      (d4, rw (done, ◌>>=◌), ready, low, num ∙ num3, (ps, handles4 ∙ handles3))
