-- ===== src/Hardware/Device.antt =====
-- `EthercatDevice` of ethercat_hardware/ethercat_device.h, the base of the device classes: its
-- members, the functions that are inline, and the structures for diagnostics.
use pr2_ether_cat_no_ros.Base.{ℕ, Bool, true, false, Option, List}
use pr2_ether_cat_no_ros.Base.Int.{ℤ}
use pr2_ether_cat_no_ros.Hardware.{ErrorCounters}

-- `et1x00_dl_status`, one `uint16_t`
pub record DlStatus : Type 0 where
  pub status : ℕ

abbrev pub dl_status_base_addr : ℕ
dl_status_base_addr = 0x110

pub record PortDiagnostics : Type 0 where
  pub has_link : Bool
  pub is_closed : Bool
  pub has_communication : Bool
  pub rx_error_total : ℕ
  pub invalid_frame_total : ℕ
  pub forwarded_rx_error_total : ℕ
  pub lost_link_total : ℕ

pub record DeviceDiagnostics : Type 0 where
  pub pdi_error_total : ℕ
  pub epu_error_total : ℕ
  pub port_diagnostics : List PortDiagnostics
  pub node_address : ℕ
  pub error_counters_prev : ErrorCounters
  pub error_counters_may_be_cleared : Bool
  pub diagnostics_first : Bool
  pub diagnostics_valid : Bool
  pub reset_detected : Bool
  pub devices_responding_to_node_address : ℤ

pub data AddrMode : Type 0 where
  fixed_addr positional_addr : AddrMode

abbrev pub addr_mode_code : AddrMode → ℕ
addr_mode_code fixed_addr = 0
addr_mode_code positional_addr = 1

-- `sh_` is a pointer, `none` for `NULL`. The two mutexes are left out.
pub record Device : Type 0 where
  pub use_ros : Bool
  pub sh : Option ℕ
  pub command_size : ℕ
  pub status_size : ℕ
  pub new_diagnostics_index : ℕ
  pub device_diagnostics : List DeviceDiagnostics

-- What a device of the base class does in a cycle: it leaves the command as it is, accepts every
-- state and has no trace.
unfoldable pub device_pack_command : Device → List ℕ → Bool → Bool → List ℕ
device_pack_command device buffer halt reset = buffer

unfoldable pub device_unpack_state : Device → List ℕ → List ℕ → Bool
device_unpack_state device this_buffer prev_buffer = true

unfoldable pub device_publish_trace : {Text : Type 0} → Device → Text → ℕ → ℕ → Bool
device_publish_trace device reason level delay = false

-- The static functions, whose bodies are not in the repository: on the communication object, a
-- slave handler, an address, the buffer, its length and the kind of the address, with the buffer
-- and the result after the call.
pub record Access (Com : Type 0) : Type 0 where
  pub static_write_data : Com → Option ℕ → ℕ → List ℕ → ℕ → AddrMode → Com × ℤ
  pub static_read_data : Com → Option ℕ → ℕ → List ℕ → ℕ → AddrMode → Com × List ℕ × ℤ
  pub static_read_write_data : Com → Option ℕ → ℕ → List ℕ → ℕ → AddrMode → Com × List ℕ × ℤ

-- The inline functions of the same names, on the handler of the device.
module _ {Com : Type 0} (access : Access Com) where
  unfoldable pub write_data : Device → Com → ℕ → List ℕ → ℕ → AddrMode → Com × ℤ
  write_data device bus address buffer length mode =
      access.static_write_data bus device.sh address buffer length mode

  unfoldable pub read_data : Device → Com → ℕ → List ℕ → ℕ → AddrMode → Com × List ℕ × ℤ
  read_data device bus address buffer length mode =
      access.static_read_data bus device.sh address buffer length mode

  unfoldable pub read_write_data : Device → Com → ℕ → List ℕ → ℕ → AddrMode → Com × List ℕ × ℤ
  read_write_data device bus address buffer length mode =
      access.static_read_write_data bus device.sh address buffer length mode
