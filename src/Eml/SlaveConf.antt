-- ===== src/Eml/SlaveConf.antt =====
-- eml/include/al/ethercat_slave_conf.h and ethercat_slave_handler.h: the configuration of a slave.
use pr2_ether_cat_no_ros.Base.{ℕ, Bool, true, Option, some, List, get_elem?, set}
use pr2_ether_cat_no_ros.Eml.SlaveMemory.{FixedStationAddress, Fmmu, SyncMan}

-- `EtherCAT_FMMU_Config`: an array, and its declared size.
pub record FmmuConfig : Type 0 where
  pub fmmus : List Fmmu
  pub num_used_fmmus : ℕ

-- `operator[]`: a reference, here read ...
abbrev pub fmmu_at : FmmuConfig → ℕ → Option Fmmu
fmmu_at c i = get_elem? c.fmmus i

-- ... and here assigned to.
abbrev pub assign_fmmu : FmmuConfig → ℕ → Fmmu → FmmuConfig
assign_fmmu c i f = record c { fmmus = set c.fmmus i f }

-- `EtherCAT_PD_Config`
pub record PdConfig : Type 0 where
  pub sms : List SyncMan
  pub num_used_sms : ℕ

abbrev pub sync_man_at : PdConfig → ℕ → Option SyncMan
sync_man_at c i = get_elem? c.sms i

abbrev pub assign_sync_man : PdConfig → ℕ → SyncMan → PdConfig
assign_sync_man c i s = record c { sms = set c.sms i s }

-- `EtherCAT_MbxConfig`
pub record MbxConfig : Type 0 where
  pub sm0 : SyncMan
  pub sm1 : SyncMan

-- The fields of `EtherCAT_SlaveConfig`. A pointer to a configuration is an option (`NULL`).
pub record SlaveConfig : Type 0 where
  pub product_code : ℕ
  pub revision : ℕ
  pub station_address : FixedStationAddress
  pub fmmu_config : Option FmmuConfig
  pub pd_config : Option PdConfig
  pub mbx_config : Option MbxConfig
  pub complex : Bool
  pub used : Bool

-- `EtherCAT_SlaveHandler`, less its state machine, which is behind `Library`.
pub record SlaveHandler : Type 0 where
  pub conf : SlaveConfig
  pub open conf use *
  pub ring_position : ℕ
  pub serial : ℕ
  pub mbx_counter : ℕ

-- `set_fmmu_config` and `set_pd_config`
abbrev pub set_fmmu_config : SlaveHandler → FmmuConfig → SlaveHandler
set_fmmu_config sh c = record sh { conf = record (sh.conf) { fmmu_config = some c } }

abbrev pub set_pd_config : SlaveHandler → PdConfig → SlaveHandler
set_pd_config sh c = record sh { conf = record (sh.conf) { pd_config = some c } }

-- `set_used`
abbrev pub set_used : SlaveHandler → SlaveHandler
set_used sh = record sh { conf = record (sh.conf) { used = true } }
