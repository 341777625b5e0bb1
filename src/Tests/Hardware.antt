-- ===== src/Tests/Hardware.antt =====
-- The theorem on the error counters of ethercat_hardware.
use pr2_ether_cat_no_ros.Base.{[], ◌∷◌}
use pr2_ether_cat_no_ros.Hardware.{ErrorCounters}

-- Port 1 has seen 5 invalid frames and 6 errors.
abbrev noisy : ErrorCounters
noisy = record {
  port =
      record { invalid_frame = 0; rx_error = 1 }
      ∷ record { invalid_frame = 5; rx_error = 6 }
      ∷ record { invalid_frame = 0; rx_error = 0 }
      ∷ record { invalid_frame = 0; rx_error = 0 }
      ∷ [];
  forwarded_rx_error = 0 ∷ 0 ∷ 0 ∷ 0 ∷ [];
  epu_error = 0;
  pdi_error = 0;
  res = 0 ∷ 0 ∷ [];
  lost_link = 0 ∷ 0 ∷ 0 ∷ 0 ∷ [];
}
