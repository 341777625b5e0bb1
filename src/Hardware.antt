-- ===== src/Hardware.antt =====
-- ethercat_hardware/ethercat_device.h and wg_mailbox.h: the data that they declare. Their functions
-- have no bodies in the repository, but for those of `EthercatDevice` that are inline.
pub mod Layout
pub mod Device
use pr2_ether_cat_no_ros.Base.{ℕ, ◌+◌, ◌*◌, Bool, List, [], ◌∷◌, ◌++◌}
use pr2_ether_cat_no_ros.Base.Int.{ℤ}

-- `et1x00_error_counters`, packed: a pair of bytes for each of the 4 ports, and further bytes.
pub record PortErrors : Type 0 where
  pub invalid_frame : ℕ
  pub rx_error : ℕ

pub record ErrorCounters : Type 0 where
  pub port : List PortErrors
  pub forwarded_rx_error : List ℕ
  pub epu_error : ℕ
  pub pdi_error : ℕ
  pub res : List ℕ
  pub lost_link : List ℕ

abbrev pub port_bytes : List PortErrors → List ℕ
port_bytes [] = []
port_bytes (p ∷ ps) = p.invalid_frame ∷ p.rx_error ∷ port_bytes ps

-- The bytes of the structure in the slave's memory.
unfoldable pub counters_bytes : ErrorCounters → List ℕ
counters_bytes c =
    port_bytes c.port
    ++ (c.forwarded_rx_error ++ (c.epu_error ∷ c.pdi_error ∷ (c.res ++ c.lost_link)))

abbrev pub counters_base_addr : ℕ
counters_base_addr = 0x300

-- `WGMailbox`
abbrev pub mailbox_command_phy_addr : ℕ
mailbox_command_phy_addr = 0x1400

abbrev pub mailbox_command_size : ℕ
mailbox_command_size = 512

abbrev pub mailbox_status_phy_addr : ℕ
mailbox_status_phy_addr = 0x2400

abbrev pub mailbox_status_size : ℕ
mailbox_status_size = 512

abbrev pub mailbox_command_syncman_num : ℕ
mailbox_command_syncman_num = 2

abbrev pub mailbox_status_syncman_num : ℕ
mailbox_status_syncman_num = 3
