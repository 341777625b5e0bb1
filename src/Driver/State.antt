-- ===== src/Driver/State.antt =====
-- The global variables of driver/master_driver.cpp and driver/wg05.h, and the wire structures.
use pr2_ether_cat_no_ros.Base.{ℕ, ◌+◌, ◌/◌, ◌%◌, Option, List, [], ◌∷◌, ◌==◌, if◌then◌else◌}
use pr2_ether_cat_no_ros.Eml.SlaveConf.{SlaveHandler}
use pr2_ether_cat_no_ros.Com.Oob.{Oob}

-- `slave_handles` and `wg05_slave_handles` hold pointers (`none` is `NULL`) into `handlers`, the
-- slave handlers that the library owns. `this_buffer_` and `prev_buffer_` point into the array at
-- `Master_Buffer_`, and are kept as offsets (`none` is `NULL`).
pub record Driver (Net : Type 0) : Type 0 where
  pub net : Net
  pub oob_com : Oob
  pub handlers : ℕ → SlaveHandler
  pub num_slaves : ℕ
  pub slave_handles : List (Option ℕ)
  pub wg05_slave_handles : List (Option ℕ)
  pub start_address : ℕ
  pub master_buffer : List ℕ
  pub master_buffer_size : ℕ
  pub this_buffer : Option ℕ
  pub prev_buffer : Option ℕ
  pub target_slave : ℕ

-- `WG0XCommand`. An `int16_t` is its pattern.
pub record Command : Type 0 where
  pub mode : ℕ
  pub digital_out : ℕ
  pub programmed_pwm : ℕ
  pub programmed_current : ℕ
  pub pad : ℕ
  pub checksum : ℕ

-- The packed structure, the low byte of a field first.
unfoldable pub command_bytes : Command → List ℕ
command_bytes c =
    c.mode
    ∷ c.digital_out
    ∷ c.programmed_pwm % 256
    ∷ c.programmed_pwm / 256
    ∷ c.programmed_current % 256
    ∷ c.programmed_current / 256
    ∷ c.pad
    ∷ c.checksum
    ∷ []

-- `sizeof(WG0XCommand)` and `sizeof(WG0XStatus)`
abbrev pub command_size : ℕ
command_size = 8

abbrev pub status_size : ℕ
status_size = 44

-- The part of the process data that belongs to one slave.
abbrev pub slot_size : ℕ
slot_size = command_size + status_size

-- The enumeration of the modes, as far as `packCommand` uses it.
abbrev pub mode_enable : ℕ
mode_enable = 1

abbrev pub mode_current : ℕ
mode_current = 2

-- `for` the pointer `p`: the slave handlers with that one changed.
abbrev pub update_handler : (ℕ → SlaveHandler) → ℕ → SlaveHandler → ℕ → SlaveHandler
update_handler f p sh q = if p == q then sh else f q
