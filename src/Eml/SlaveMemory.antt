-- ===== src/Eml/SlaveMemory.antt =====
-- eml/include/dll/ethercat_slave_memory.h: the register structures of a slave, and its states.
use pr2_ether_cat_no_ros.Base.{ℕ, ◌%◌, ◌^◌, Bool, Option, none, some, if◌then◌else◌, ltb, ◌==◌}

-- `EC_State`
pub data EcState : Type 0 where
  init preop bootstrap safeop op : EcState

-- The values of the enumeration, which the AL control and status registers hold.
abbrev pub state_code : EcState → ℕ
state_code init = 0x01
state_code preop = 0x02
state_code bootstrap = 0x03
state_code safeop = 0x04
state_code op = 0x08

-- `EC_FixedStationAddress` holds an `EC_UINT`; the constructor cuts its argument to 16 bits.
pub record FixedStationAddress : Type 0 where
  pub fixed_station_address : ℕ

unfoldable pub new_fixed_station_address : ℕ → FixedStationAddress
new_fixed_station_address a = record { fixed_station_address = a % 2 ^ 16 }

-- `operator ==`
unfoldable pub same_address : FixedStationAddress → FixedStationAddress → Bool
same_address a b = a.fixed_station_address == b.fixed_station_address

-- The constructor of `EC_BitPos`: the `assert` stops the program, which is `none`.
unfoldable pub bit_pos : ℕ → Option ℕ
bit_pos a = if ltb a 8 then some a else none

-- `EC_FMMU`
pub record Fmmu : Type 0 where
  pub logical_start_address : ℕ
  pub length : ℕ
  pub logical_start_bit : ℕ
  pub logical_end_bit : ℕ
  pub physical_start_address : ℕ
  pub physical_start_bit : ℕ
  pub read_enable : Bool
  pub write_enable : Bool
  pub channel_enable : Bool

-- `ECBufferType`, the value in an `EC_BufferType`
pub data BufferType : Type 0 where
  buffered queued : BufferType

abbrev pub buffer_type_code : BufferType → ℕ
buffer_type_code buffered = 0x00
buffer_type_code queued = 0x02

-- `ECDirection`, the value in an `EC_Direction`
pub data Direction : Type 0 where
  read_from_master written_from_master : Direction

abbrev pub direction_code : Direction → ℕ
direction_code read_from_master = 0x00
direction_code written_from_master = 0x01

-- `ECBufferedState`, the value in an `EC_BufferedState`
pub data BufferedState : Type 0 where
  first_buffer second_buffer third_buffer locked_buffer : BufferedState

abbrev pub buffered_state_code : BufferedState → ℕ
buffered_state_code first_buffer = 0x00
buffered_state_code second_buffer = 0x01
buffered_state_code third_buffer = 0x02
buffered_state_code locked_buffer = 0x03

-- `EC_SyncMan`
pub record SyncMan : Type 0 where
  pub physical_start_address : ℕ
  pub length : ℕ
  pub buffer_type : BufferType
  pub direction : Direction
  pub al_event_enable : Bool
  pub ecat_event_enable : Bool
  pub watchdog_enable : Bool
  pub write_event : Bool
  pub read_event : Bool
  pub watchdog_trigger : Bool
  pub queued_state : Bool
  pub buffered_state : BufferedState
  pub channel_enable : Bool
