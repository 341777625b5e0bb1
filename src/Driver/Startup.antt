-- ===== src/Driver/Startup.antt =====
-- From `initializePr2EthercatSlaves` to the first process data, and the way back: the functions of
-- driver/master_driver.cpp and driver/wg05.cpp that a program calls before and after its loop.
pub mod Handles
pub mod Buffers
pub mod Whole
pub mod Close
use pr2_ether_cat_no_ros.Base.{
  ℕ, zero, suc, ◌+◌, ◌*◌, ◌%◌, ◌^◌, Bool, true, false, Option, none, some, List, [], ◌∷◌, ◌++◌,
  ◌==◌, if◌then◌else◌, ◌>>=◌, replicate, not,
}
use pr2_ether_cat_no_ros.Base.Int.{ℤ, pos, negsuc, sub_ℕ}
use pr2_ether_cat_no_ros.Base.Memory.{read_bytes, write_bytes}
use pr2_ether_cat_no_ros.Eml.SlaveMemory.{
  EcState, init, preop, bootstrap, safeop, op, new_fixed_station_address,
}
use pr2_ether_cat_no_ros.Eml.Library.{Library}
use pr2_ether_cat_no_ros.Com.Oob.{new_oob}
use pr2_ether_cat_no_ros.Driver.State.{Driver, slot_size}
use pr2_ether_cat_no_ros.Driver.ProcessData.{txandrx_pd}
use pr2_ether_cat_no_ros.Driver.Configure.{find_wg05_slaves, configure_wg05_slaves}

-- Where `initializeECatMaster` ends the program.
pub data Reason : Type 0 where
  no_socket no_flags not_up not_running no_interface no_application_layer no_slaves no_master :
      Reason

-- The answers that `initializeECatMaster` gets, in their order: of the socket calls, of `init_ec`,
-- of `EtherCAT_AL::instance`, `get_num_slaves` and `EtherCAT_Master::instance`.
pub record Answers : Type 0 where
  pub socket_fd : ℤ
  pub ioctl_result : ℤ
  pub close_result : ℤ
  pub iff_up : Bool
  pub iff_running : Bool
  pub interface : Bool
  pub application_layer : Bool
  pub slaves : ℕ
  pub master : Bool

-- A program that runs, that has called `exit`, or that has left its memory.
pub data Outcome (A : Type 0) : Type 0 where
  returned : A → Outcome A
  exited : Reason → Outcome A
  faulted : Outcome A

-- What follows runs only if the program comes back.
abbrev pub then_run : {A B : Type 0} → Outcome A → (A → Outcome B) → Outcome B
then_run (returned a) f = f a
then_run (exited r) f = exited r
then_run faulted f = faulted

abbrev pub or_fault : {A : Type 0} → Option A → Outcome A
or_fault none = faulted
or_fault (some a) = returned a

abbrev pub is_negative : ℤ → Bool
is_negative (pos n) = false
is_negative (negsuc n) = true

-- `op`, under a name that no file of the section hides
abbrev pub is_op : EcState → Bool
is_op op = true
is_op _ = false

module _ {Net : Type 0} where
  -- `initializeECatMaster`. An error of `close` is only reported.
  unfoldable pub initialize_ecat_master : Answers → Driver Net → Outcome (Driver Net)
  initialize_ecat_master a d =
      if is_negative (a.socket_fd)
      then exited no_socket
      else if is_negative (a.ioctl_result)
      then exited no_flags
      else if not (a.iff_up)
      then exited not_up
      else if not (a.iff_running)
      then exited not_running
      else if not (a.interface)
      then exited no_interface
      else if not (a.application_layer)
      then exited no_application_layer
      else if a.slaves == 0
      then exited no_slaves
      else if not (a.master)
      then exited no_master
      else returned (record d { oob_com = new_oob; num_slaves = a.slaves })

  -- `Master_Buffer_Size_` and the array, all zeros: both sizes are `unsigned int`.
  unfoldable pub allocate_buffer : Driver Net → Driver Net
  allocate_buffer d =
      let size = slot_size * d.num_slaves % 2 ^ 32 in
      record d { master_buffer = replicate (2 * size % 2 ^ 32) 0; master_buffer_size = size }

  -- The end of `setMasterBuffer`: the two pointers, and the `memcpy` between them.
  unfoldable pub point_buffers : Driver Net → Option (Driver Net)
  point_buffers d = do
    first ← read_bytes (d.master_buffer) 0 (d.master_buffer_size)
    m ← write_bytes (d.master_buffer) (d.master_buffer_size) first
    some (record d {
      master_buffer = m;
      this_buffer = some 0;
      prev_buffer = some (d.master_buffer_size);
    })

module _ {Net : Type 0} (lib : Library Net) where
  -- The loop of `getSlaveHandles`, with `left` rounds left, from the slave `i` on.
  unfoldable pub get_handles_from : ℕ → ℕ → Driver Net → Driver Net × ℤ
  get_handles_from zero i d = (d, pos 0)
  get_handles_from (suc left) i d =
      elim (lib.get_slave_handler (d.net) (new_fixed_station_address (i + 1))) [
        | none ↦ (d, negsuc 0)
        | some p ↦
            get_handles_from left (i + 1)
              (record d { slave_handles = d.slave_handles ++ some p ∷ [] })
      ]

  unfoldable pub get_slave_handles : Driver Net → Driver Net × ℤ
  get_slave_handles d = get_handles_from d.num_slaves 0 d

  -- `changeState`. It takes a true answer of `to_state` for a failure.
  unfoldable pub change_state : ℕ → EcState → Driver Net → Driver Net × ℤ
  change_state p next d =
      let (net', answer) = lib.to_state (d.net) p next in
      (record d { net = net' }, if not answer then pos 0 else negsuc 0)

  -- The loops of `setMasterBuffer` over `wg05_slave_handles`: a null pointer is a fault.
  unfoldable pub change_all : EcState → List (Option ℕ) → Driver Net → Option (Driver Net)
  change_all next [] d = some d
  change_all next (none ∷ hs) d = none
  change_all next (some p ∷ hs) d = change_all next hs (change_state p next d).0

  set_buffer_for : List (Option ℕ) → Driver Net → Option (Driver Net × ℤ)
  set_buffer_for [] d = some (d, negsuc 0)
  set_buffer_for (h ∷ hs) d = do
    d1 ← change_all preop (d.wg05_slave_handles) d
    d2 ← change_all safeop (d1.wg05_slave_handles) d1
    d3 ← change_all op (d2.wg05_slave_handles) d2
    let d4 = allocate_buffer d3
    r ← txandrx_pd lib (d4.master_buffer_size) (some 0) 20 d4
    d5 ← point_buffers (r.0)
    some (d5, pos 0)

  -- `setMasterBuffer`; with no slave handles it does nothing.
  unfoldable pub set_master_buffer : Driver Net → Option (Driver Net × ℤ)
  unfolding set_buffer_for
  set_master_buffer d = set_buffer_for d.slave_handles d

  -- What follows `initializeECatMaster` in `initializePr2EthercatSlaves`. No result is looked at.
  unfoldable pub set_up_slaves : Driver Net → Option (Driver Net)
  set_up_slaves d =
      let d1 = (get_slave_handles d).0 in
      let d2 = find_wg05_slaves (d1.slave_handles) d1 in
      let d3 = configure_wg05_slaves lib d2 in set_master_buffer d3 >>= λ r. some (r.0)

  -- `initializePr2EthercatSlaves`
  unfoldable pub initialize_pr2_ethercat_slaves : Answers → Driver Net → Outcome (Driver Net)
  initialize_pr2_ethercat_slaves a d =
      then_run (initialize_ecat_master a d) (λ d'. or_fault (set_up_slaves d'))

  -- The loop of `closeOperationalSlaves`, over the handles that are left. It counts down from 0:
  -- `error` is the number of times that `changeState` reported a failure.
  unfoldable pub close_each : List (Option ℕ) → ℕ → Driver Net → Option (Driver Net × ℕ)
  close_each [] error d = some (d, error)
  close_each (none ∷ hs) error d = none
  close_each (some p ∷ hs) error d =
      let changed = change_state p safeop d in
      let rest = close_each hs (if is_negative (changed.1) then error + 1 else error) (changed.0) in
      let other = close_each hs error d in if is_op (lib.get_state (d.net) p) then rest else other

  unfoldable pub close_operational_slaves : Driver Net → Option (Driver Net × ℤ)
  close_operational_slaves d = close_each d.slave_handles 0 d >>= λ r. some (r.0, sub_ℕ 0 r.1)
