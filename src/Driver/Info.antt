-- ===== src/Driver/Info.antt =====
-- `pdInfo`, `mbxInfo`, `fmmuInfo` and `slaveInfo` of driver/master_driver.cpp. What they print is
-- their result, a value for each line.
pub mod ReadBack
use pr2_ether_cat_no_ros.Base.{
  ℕ, zero, suc, ◌+◌, ◌-◌, ◌%◌, ◌^◌, Bool, Option, none, some, List, [], ◌∷◌, ◌++◌, ◌>>=◌,
}
use pr2_ether_cat_no_ros.Base.Int.{ℤ, pos, negsuc}
use pr2_ether_cat_no_ros.Eml.SlaveMemory.{
  EcState, Fmmu, SyncMan, BufferType, BufferedState, Direction,
}
use pr2_ether_cat_no_ros.Eml.SlaveConf.{
  FmmuConfig, PdConfig, MbxConfig, SlaveHandler, fmmu_at, sync_man_at,
}
use pr2_ether_cat_no_ros.Driver.State.{update_handler}

-- The lines, each with the values in it. The macros `NameState`, `NameBufferType`,
-- `NameBufferState` and `NameDirection` give each value of their enumerations its own name.
pub data Line : Type 0 where
  pd_missing mbx_missing mbx_initialized fmmu_missing blank : Line
  number_of_sms sm sm_length sm_physical_address : ℕ → Line
  sm_buffer_type : BufferType → Line
  sm_buffer_state : BufferedState → Line
  sm_direction : Direction → Line
  al_event_enable ecat_event_enable watchdog_enable watchdog_trigger queued_state : Bool → Line
  read_event write_event sm_channel_enable : Bool → Line
  number_of_fmmus fmmu fmmu_length physical_addr physical_start_bit : ℕ → Line
  logical_start_addr logical_start_bit logical_end_bit : ℕ → Line
  read_enable write_enable channel_enable : Bool → Line
  slave serial_number product_code slave_revision station_addr ring_position : ℕ → Line
  slave_state : EcState → Line
  configured complex_slave : Bool → Line
  mbx_counter pr2_model : ℕ → Line

-- The body of the loop of `pdInfo`.
unfoldable pub sync_man_lines : ℕ → SyncMan → List Line
sync_man_lines i s =
    sm i
    ∷ sm_length s.length
    ∷ sm_physical_address s.physical_start_address
    ∷ sm_buffer_type s.buffer_type
    ∷ sm_buffer_state s.buffered_state
    ∷ sm_direction s.direction
    ∷ al_event_enable s.al_event_enable
    ∷ ecat_event_enable s.ecat_event_enable
    ∷ watchdog_enable s.watchdog_enable
    ∷ watchdog_trigger s.watchdog_trigger
    ∷ queued_state s.queued_state
    ∷ read_event s.read_event
    ∷ write_event s.write_event
    ∷ sm_channel_enable s.channel_enable
    ∷ []

-- The loop, with `left` rounds left. `operator[]` out of range is a fault.
unfoldable pub pd_lines : PdConfig → ℕ → ℕ → Option (List Line)
pd_lines c zero i = some []
pd_lines c (suc left) i = do
  s ← sync_man_at c i
  rest ← pd_lines c left (i + 1)
  some (sync_man_lines i s ++ rest)

unfoldable pub pd_info : Option PdConfig → Option (List Line × ℤ)
pd_info none = some (pd_missing ∷ [], negsuc 0)
pd_info (some c) = do
  lines ← pd_lines c c.num_used_sms 0
  some (number_of_sms c.num_used_sms ∷ lines, pos 0)

unfoldable pub mbx_info : Option MbxConfig → List Line × ℤ
mbx_info none = (mbx_missing ∷ [], negsuc 0)
mbx_info (some c) = (mbx_initialized ∷ [], pos 0)

-- The body of the loop of `fmmuInfo`. A bit position prints as its three bits.
unfoldable pub fmmu_lines : ℕ → Fmmu → List Line
fmmu_lines i f =
    fmmu i
    ∷ fmmu_length f.length
    ∷ physical_addr f.physical_start_address
    ∷ physical_start_bit f.physical_start_bit
    ∷ logical_start_addr f.logical_start_address
    ∷ logical_start_bit f.logical_start_bit
    ∷ logical_end_bit f.logical_end_bit
    ∷ read_enable f.read_enable
    ∷ write_enable f.write_enable
    ∷ channel_enable f.channel_enable
    ∷ []

unfoldable pub fmmus_lines : FmmuConfig → ℕ → ℕ → Option (List Line)
fmmus_lines c zero i = some []
fmmus_lines c (suc left) i = do
  f ← fmmu_at c i
  rest ← fmmus_lines c left (i + 1)
  some (fmmu_lines i f ++ rest)

unfoldable pub fmmu_info : Option FmmuConfig → Option (List Line × ℤ)
fmmu_info none = some (fmmu_missing ∷ [], negsuc 0)
fmmu_info (some c) = do
  lines ← fmmus_lines c c.num_used_fmmus 0
  some (number_of_fmmus c.num_used_fmmus ∷ lines, pos 0)

-- The first ten lines of `slaveInfo`. The station address less one is an `int`, printed as an
-- `unsigned`.
abbrev pub slave_head : SlaveHandler → EcState → ℕ → List Line
slave_head sh state counter =
    serial_number sh.serial
    ∷ product_code sh.product_code
    ∷ slave_revision sh.revision
    ∷ station_addr ((sh.station_address.fixed_station_address + (2 ^ 32 - 1)) % 2 ^ 32)
    ∷ ring_position sh.ring_position
    ∷ slave_state state
    ∷ configured sh.used
    ∷ complex_slave sh.complex
    ∷ mbx_counter counter
    ∷ pr2_model (sh.product_code % 100)
    ∷ []

-- `get_mbx_counter` is in the compiled library: it "returns and increments" the counter.
module _ (get_mbx_counter : SlaveHandler → SlaveHandler × ℕ) (get_state : ℕ → EcState) where
  -- `slaveInfo` of the slave whose state is that at `p`.
  unfoldable pub slave_info : ℕ → SlaveHandler → Option (SlaveHandler × List Line × ℤ)
  slave_info p sh = do
    let counted = get_mbx_counter sh
    let after = counted.0
    fmmus ← fmmu_info (after.fmmu_config)
    pds ← pd_info (after.pd_config)
    some (
      after,
      slave_head sh (get_state p) (counted.1)
          ++ (fmmus.0 ++ (pds.0 ++ ((mbx_info (after.mbx_config)).0 ++ blank ∷ []))),
      pos 0,
    )

  -- `slaveInfo` of a vector, from the slave `i` on. A null handle is a fault.
  unfoldable pub slave_infos :
      List (Option ℕ) → ℕ → (ℕ → SlaveHandler) → Option ((ℕ → SlaveHandler) × List Line × ℤ)
  slave_infos [] i handlers = some (handlers, [], pos 0)
  slave_infos (none ∷ hs) i handlers = none
  slave_infos (some p ∷ hs) i handlers = do
    one ← slave_info p (handlers p)
    rest ← slave_infos hs (i + 1) (update_handler handlers p (one.0))
    some (rest.0, slave (i + 1) ∷ (one.1 ++ rest.1), pos 0)
