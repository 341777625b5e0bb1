-- ===== src/Driver/Configure.antt =====
-- The configuration of the WG05 slaves in driver/wg05.cpp: their FMMUs, which map a part of the
-- process data to each slave, and their sync managers.
pub mod Windows
pub mod Managers
pub mod Given
pub mod Layout
use pr2_ether_cat_no_ros.Base.{
  ℕ, ◌+◌, ◌%◌, ◌^◌, Bool, true, false, Option, none, some, List, [], ◌∷◌, ◌++◌, ◌==◌, if◌then◌else◌,
}
use pr2_ether_cat_no_ros.Base.Int.{ℤ, pos, negsuc}
use pr2_ether_cat_no_ros.Eml.SlaveMemory.{
  SyncMan, buffered, queued, read_from_master, written_from_master,
}
use pr2_ether_cat_no_ros.Eml.SlaveConf.{
  FmmuConfig, PdConfig, SlaveHandler, assign_fmmu, assign_sync_man, set_fmmu_config, set_pd_config,
}
use pr2_ether_cat_no_ros.Eml.Library.{Library}
use pr2_ether_cat_no_ros.Driver.State.{Driver, command_size, status_size, update_handler}

-- `WG05_PRODUCT_CODE`
abbrev pub wg05_product_code : ℕ
wg05_product_code = 6805005

abbrev pub command_phy_addr : ℕ
command_phy_addr = 0x1000

abbrev pub status_phy_addr : ℕ
status_phy_addr = 0x2000

abbrev pub mbx_command_phy_addr : ℕ
mbx_command_phy_addr = 0x1400

abbrev pub mbx_command_size : ℕ
mbx_command_size = 512

abbrev pub mbx_status_phy_addr : ℕ
mbx_status_phy_addr = 0x2400

abbrev pub mbx_status_size : ℕ
mbx_status_size = 512

-- The initial value of `start_address`
abbrev pub first_address : ℕ
first_address = 0x00010000

-- The test of the product code, on the handler at a pointer.
abbrev pub is_wg05 : (ℕ → SlaveHandler) → ℕ → Bool
is_wg05 handlers p = (handlers p).conf.product_code == wg05_product_code

-- `findWG05slaves`, with the handles that are left. `NULL` is passed over.
unfoldable pub find_wg05_slaves : {Net : Type 0} → List (Option ℕ) → Driver Net → Driver Net
find_wg05_slaves [] d = d
find_wg05_slaves (none ∷ hs) d = find_wg05_slaves hs d
find_wg05_slaves (some p ∷ hs) d = find_wg05_slaves hs (
    if is_wg05 d.handlers p
    then record d { wg05_slave_handles = d.wg05_slave_handles ++ some p ∷ [] }
    else d)

-- `x.ChannelEnable = true` and `x.ALEventEnable = true`
abbrev pub enable_channel : SyncMan → SyncMan
enable_channel s = record s { channel_enable = true }

abbrev pub enable_al_event : SyncMan → SyncMan
enable_al_event s = record s { al_event_enable = true }

module _ {Net : Type 0} (lib : Library Net) where
  -- The two FMMUs of a slave, for the value of `start_address` before.
  unfoldable pub wg05_fmmus : ℕ → FmmuConfig
  wg05_fmmus start =
      assign_fmmu
        (assign_fmmu (lib.new_fmmu_config 2) 0
          (lib.new_fmmu start command_size 0x00 0x07 command_phy_addr 0x00 false true true))
        1
        (lib.new_fmmu ((start + command_size) % 2 ^ 32) status_size 0x00 0x07 status_phy_addr 0x00
          true false true)

  -- `configureWG05fmmu`, with what it returns. `start_address` is an `int`, kept as its pattern.
  unfoldable pub configure_wg05_fmmu : Option ℕ → Driver Net → Driver Net × ℤ
  configure_wg05_fmmu none d = (d, negsuc 0)
  configure_wg05_fmmu (some p) d =
      if is_wg05 d.handlers p
      then (
        record d {
          start_address = ((d.start_address + command_size) % 2 ^ 32 + status_size) % 2 ^ 32;
          handlers =
              update_handler d.handlers p
                (set_fmmu_config (d.handlers p) (wg05_fmmus d.start_address));
        },
        pos 0,
      )
      else (d, negsuc 1)

  -- The four sync managers of a slave.
  unfoldable pub wg05_sync_mans : PdConfig
  wg05_sync_mans =
      let sm0 = enable_al_event (
        enable_channel
          (lib.new_sync_man command_phy_addr command_size buffered written_from_master)) in
      let sm1 =
        enable_channel (lib.new_sync_man status_phy_addr status_size buffered read_from_master) in
      let sm2 = enable_al_event (
        enable_channel
          (lib.new_sync_man mbx_command_phy_addr mbx_command_size queued written_from_master)) in
      let sm3 =
        enable_channel
          (lib.new_sync_man mbx_status_phy_addr mbx_status_size queued read_from_master) in
      assign_sync_man
        (assign_sync_man (assign_sync_man (assign_sync_man (lib.new_pd_config 4) 0 sm0) 1 sm1) 2
          sm2)
        3 sm3

  -- `configureWG05pd`
  unfoldable pub configure_wg05_pd : Option ℕ → Driver Net → Driver Net × ℤ
  configure_wg05_pd none d = (d, negsuc 0)
  configure_wg05_pd (some p) d =
      if is_wg05 d.handlers p
      then (
        record d {
          handlers = update_handler d.handlers p (set_pd_config (d.handlers p) wg05_sync_mans);
        },
        pos 0,
      )
      else (d, negsuc 1)

  -- The loop of `configureWG05slaves`, over the handles that are left. What the two functions
  -- return is not looked at.
  unfoldable pub configure_each : List (Option ℕ) → Driver Net → Driver Net
  configure_each [] d = d
  configure_each (h ∷ hs) d = configure_each hs (configure_wg05_pd h (configure_wg05_fmmu h d).0).0

  unfoldable pub configure_wg05_slaves : Driver Net → Driver Net
  configure_wg05_slaves d = configure_each d.wg05_slave_handles d
