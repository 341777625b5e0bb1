-- ===== src/Driver/Status.antt =====
-- `WG0XStatus` of driver/wg05.h: what a WG05 board answers in its 44 bytes.
pub mod Layout
use pr2_ether_cat_no_ros.Base.{ℕ, ◌+◌, Option, none, some, List, [], ◌∷◌, ◌++◌, ◌>>=◌}
use pr2_ether_cat_no_ros.Base.Int.{ℤ, signed}
use pr2_ether_cat_no_ros.Base.Memory.{slice}
use pr2_ether_cat_no_ros.Eml.Wire.{le_bytes, le_value, get}
use pr2_ether_cat_no_ros.Driver.State.{command_size}

-- Signed fields are their patterns.
pub record Status : Type 0 where
  pub mode : ℕ
  pub digital_out : ℕ
  pub programmed_pwm_value : ℕ
  pub programmed_current : ℕ
  pub measured_current : ℕ
  pub timestamp : ℕ
  pub encoder_count : ℕ
  pub encoder_index_pos : ℕ
  pub num_encoder_errors : ℕ
  pub encoder_status : ℕ
  pub calibration_reading : ℕ
  pub last_calibration_rising_edge : ℕ
  pub last_calibration_falling_edge : ℕ
  pub board_temperature : ℕ
  pub bridge_temperature : ℕ
  pub supply_voltage : ℕ
  pub motor_voltage : ℕ
  pub packet_count : ℕ
  pub pad : ℕ
  pub checksum : ℕ

-- The packed structure in memory.
unfoldable pub status_bytes : Status → List ℕ
status_bytes s =
    le_bytes 1 s.mode
    ++ (le_bytes 1 s.digital_out
        ++ (le_bytes 2 s.programmed_pwm_value
            ++ (le_bytes 2 s.programmed_current
                ++ (le_bytes 2 s.measured_current
                    ++ (le_bytes 4 s.timestamp
                        ++ (le_bytes 4 s.encoder_count
                            ++ (le_bytes 4 s.encoder_index_pos
                                ++ (le_bytes 2 s.num_encoder_errors
                                    ++ (le_bytes 1 s.encoder_status
                                        ++ (le_bytes 1 s.calibration_reading
                                            ++ (le_bytes 4 s.last_calibration_rising_edge
                                                ++ (le_bytes 4 s.last_calibration_falling_edge
                                                    ++ (le_bytes 2 s.board_temperature
                                                        ++ (le_bytes 2 s.bridge_temperature
                                                            ++ (le_bytes 2 s.supply_voltage
                                                            ++ (le_bytes 2 s.motor_voltage
                                                            ++ (le_bytes 2 s.packet_count
                                                            ++ (le_bytes 1 s.pad
                                                            ++ le_bytes 1
                                                            s.checksum))))))))))))))))))

-- `offsetof(WG0XStatus, encoder_count_)`, which no line of the source writes out.
abbrev pub encoder_offset : ℕ
encoder_offset = 12

-- `status->encoder_count_`, for the slot of a slave at `at` in the array.
unfoldable pub encoder_count_at : List ℕ → ℕ → Option ℤ
encoder_count_at m at = do r ← get 4 m (at + command_size + encoder_offset); some (signed 31 (r.0))
