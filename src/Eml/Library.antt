-- ===== src/Eml/Library.antt =====
-- What the driver calls in the compiled library eml/lib, with the behaviour that the headers'
-- comments document. `Net` is the state of all that the library owns: the bus, its slaves and
-- their state machines, the network interface.
use pr2_ether_cat_no_ros.Base.{ℕ, ◌≡◌, Bool, Option, some, List, length}
use pr2_ether_cat_no_ros.Base.Int.{ℤ}
use pr2_ether_cat_no_ros.Base.Memory.{IsBytes}
use pr2_ether_cat_no_ros.Eml.SlaveMemory.{
  EcState, FixedStationAddress, Fmmu, BufferType, Direction, SyncMan,
}
use pr2_ether_cat_no_ros.Eml.SlaveConf.{FmmuConfig, PdConfig}

pub record Library (Net : Type 0) : Type 0 where
  -- The constructors `EC_FMMU`, `EC_SyncMan` (with its first four arguments),
  -- `EtherCAT_FMMU_Config` and `EtherCAT_PD_Config`.
  pub new_fmmu : ℕ → ℕ → ℕ → ℕ → ℕ → ℕ → Bool → Bool → Bool → Fmmu
  pub new_sync_man : ℕ → ℕ → BufferType → Direction → SyncMan
  pub new_fmmu_config : ℕ → FmmuConfig
  pub new_pd_config : ℕ → PdConfig
  -- `EtherCAT_Master::get_slave_handler`: a pointer, or `NULL`.
  pub get_slave_handler : Net → FixedStationAddress → Option ℕ
  -- `EtherCAT_Master::txandrx_PD`: the data that came back, if it returned true.
  pub txandrx_pd : Net → List ℕ → Net × Option (List ℕ)
  -- `EC_ESM::to_state` and `get_state` of the slave handler at a pointer.
  pub to_state : Net → ℕ → EcState → Net × Bool
  pub get_state : Net → ℕ → EcState
  -- The function pointers `tx` and `rx` of `struct netif`, on a pointer to a frame.
  pub netif_tx : Net → ℕ → Net × ℤ
  pub netif_rx : Net → ℕ → ℤ → Net × Bool

-- What the headers say of these operations, as far as the driver relies on it.
pub record IsDocumented {Net : Type 0} (lib : Library Net) : Type 0 where
  -- The parameters of `EC_FMMU` name the fields that they set.
  pub fmmu_fields :
      (ls len lsb leb ps psb : ℕ) (r w c : Bool)
      → lib.new_fmmu ls len lsb leb ps psb r w c ≡ record {
        logical_start_address = ls;
        length = len;
        logical_start_bit = lsb;
        logical_end_bit = leb;
        physical_start_address = ps;
        physical_start_bit = psb;
        read_enable = r;
        write_enable = w;
        channel_enable = c;
      }
  -- A configuration of `n` managers has room for `n`.
  pub fmmu_room : (n : ℕ) → length (lib.new_fmmu_config n).fmmus ≡ n
  pub sync_man_room : (n : ℕ) → length (lib.new_pd_config n).sms ≡ n
  pub sync_man_start :
      (a n : ℕ) (t : BufferType) (d : Direction)
      → (lib.new_sync_man a n t d).physical_start_address ≡ a
  pub sync_man_length :
      (a n : ℕ) (t : BufferType) (d : Direction) → (lib.new_sync_man a n t d).length ≡ n
  pub sync_man_buffer_type :
      (a n : ℕ) (t : BufferType) (d : Direction) → (lib.new_sync_man a n t d).buffer_type ≡ t
  pub sync_man_direction :
      (a n : ℕ) (t : BufferType) (d : Direction) → (lib.new_sync_man a n t d).direction ≡ d
  -- "the received data is put in the data array"
  pub received_length :
      (net : Net) (sent got : List ℕ)
      → (lib.txandrx_pd net sent).1 ≡ some got
      → length got ≡ length sent
  pub received_bytes :
      (net : Net) (sent got : List ℕ) → (lib.txandrx_pd net sent).1 ≡ some got → IsBytes got
