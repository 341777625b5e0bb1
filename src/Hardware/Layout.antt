-- ===== src/Hardware/Layout.antt =====
-- The error counters of ethercat_hardware/ethercat_device.h against the register table.
use pr2_ether_cat_no_ros.Base.{◌≡◌, length}
use pr2_ether_cat_no_ros.Hardware.{ErrorCounters}

-- The arrays have the lengths that the structure declares.
pub record IsWhole (c : ErrorCounters) : Type 0 where
  pub ports : length c.port ≡ 4
  pub forwarded : length c.forwarded_rx_error ≡ 4
  pub reserved : length c.res ≡ 2
  pub links : length c.lost_link ≡ 4
