-- ===== src/Tests.antt =====
-- Concrete values on which the theorems are tried: a library that always answers, a bus of two WG05
-- slaves, and drivers before and after the start.
pub mod Cycle
pub mod Startup
pub mod Watch
pub mod Threads
pub mod Headers
pub mod Race
pub mod Program
pub mod Session
pub mod Info
pub mod Hardware
pub mod Clients
use pr2_ether_cat_no_ros.Base.{
  ℕ, suc, ◌+◌, ◌≡◌, refl, Bool, true, false, Option, none, some, List, [], ◌∷◌, ◌==◌, if◌then◌else◌,
  length, replicate, length-replicate, arith, inl, inr, ap, sym, ◌∙◌, subst,
}
use pr2_ether_cat_no_ros.Base.Int.{ℤ, pos, negsuc}
use pr2_ether_cat_no_ros.Base.Memory.{IsBytes, replicate-IsBytes}
use pr2_ether_cat_no_ros.Eml.SlaveMemory.{
  EcState, op, FixedStationAddress, Fmmu, BufferType, buffered, Direction, read_from_master,
  SyncMan, first_buffer,
}
use pr2_ether_cat_no_ros.Eml.SlaveConf.{SlaveHandler}
use pr2_ether_cat_no_ros.Eml.Library.{Library, IsDocumented}
use pr2_ether_cat_no_ros.Com.Oob.{Oob, idle}
use pr2_ether_cat_no_ros.Driver.State.{Driver}
use pr2_ether_cat_no_ros.Driver.ProcessData.Ready.{IsReady, IsFramed}

abbrev pub some_fmmu : Fmmu
some_fmmu = record {
  logical_start_address = 0;
  length = 0;
  logical_start_bit = 0;
  logical_end_bit = 0;
  physical_start_address = 0;
  physical_start_bit = 0;
  read_enable = false;
  write_enable = false;
  channel_enable = false;
}

abbrev pub sync_man : ℕ → ℕ → BufferType → Direction → SyncMan
sync_man a n t d = record {
  physical_start_address = a;
  length = n;
  buffer_type = t;
  direction = d;
  al_event_enable = false;
  ecat_event_enable = false;
  watchdog_enable = false;
  write_event = false;
  read_event = false;
  watchdog_trigger = false;
  queued_state = false;
  buffered_state = first_buffer;
  channel_enable = false;
}

-- The network counts the exchanges. Each is answered by bytes 7.
abbrev pub loopback : Library ℕ
loopback = record {
  new_fmmu = λ ls len lsb leb ps psb r w c. record {
    logical_start_address = ls;
    length = len;
    logical_start_bit = lsb;
    logical_end_bit = leb;
    physical_start_address = ps;
    physical_start_bit = psb;
    read_enable = r;
    write_enable = w;
    channel_enable = c;
  };
  new_sync_man = sync_man;
  new_fmmu_config = λ n. record { fmmus = replicate n some_fmmu; num_used_fmmus = n };
  new_pd_config =
      λ n. record { sms = replicate n (sync_man 0 0 buffered read_from_master); num_used_sms = n };
  get_slave_handler = λ net a.
      if a.fixed_station_address == 1
      then some 1
      else (if a.fixed_station_address == 2 then some 2 else none);
  txandrx_pd = λ net sent. (net + 1, some (replicate (length sent) 7));
  to_state = λ net p s. (net, true);
  get_state = λ net p. op;
  netif_tx = λ net f. (net, pos f);
  netif_rx = λ net f h. (net, true);
}

answer_length :
    (sent got : List ℕ) → some (replicate (length sent) 7) ≡ some got → length got ≡ length sent
answer_length sent got e =
    let same : replicate (length sent) 7 ≡ got = cc in
    ap length (sym same) ∙ length-replicate (length sent) 7

answer-IsBytes : (sent got : List ℕ) → some (replicate (length sent) 7) ≡ some got → IsBytes got
answer-IsBytes sent got e =
    let same : replicate (length sent) 7 ≡ got = cc in
    subst IsBytes same (replicate-IsBytes (length sent) 7 (omega arith))

pub loopback-IsDocumented : IsDocumented loopback
loopback-IsDocumented = record {
  fmmu_fields = λ ls len lsb leb ps psb r w c. refl;
  fmmu_room = λ n. length-replicate n some_fmmu;
  sync_man_room = λ n. length-replicate n (sync_man 0 0 buffered read_from_master);
  sync_man_start = λ a n t d. refl;
  sync_man_length = λ a n t d. refl;
  sync_man_buffer_type = λ a n t d. refl;
  sync_man_direction = λ a n t d. refl;
  received_length = λ net sent got e. answer_length sent got e;
  received_bytes = λ net sent got e. answer-IsBytes sent got e;
}

-- The slave 1 is a WG05, the slave 2 is too.
abbrev pub wg05 : ℕ → SlaveHandler
wg05 p = record {
  conf = record {
    product_code = 6805005;
    revision = 0;
    station_address = record { fixed_station_address = p };
    fmmu_config = none;
    pd_config = none;
    mbx_config = none;
    complex = false;
    used = false;
  };
  ring_position = p;
  serial = p;
  mbx_counter = 1;
}

abbrev pub quiet : Oob
quiet = record { owner = none; state = idle; frame = none; handle = negsuc 0; line = 0 }

abbrev pub new_driver : Driver ℕ
new_driver = record {
  net = 0;
  oob_com = quiet;
  handlers = wg05;
  num_slaves = 2;
  slave_handles = [];
  wg05_slave_handles = [];
  start_address = 65536;
  master_buffer = [];
  master_buffer_size = 0;
  this_buffer = none;
  prev_buffer = none;
  target_slave = 1;
}

abbrev pub found_driver : Driver ℕ
found_driver = record new_driver { slave_handles = some 1 ∷ some 2 ∷ [] }

abbrev pub ready_driver : Driver ℕ
ready_driver = record found_driver {
  master_buffer = replicate 208 0;
  master_buffer_size = 104;
  this_buffer = some 0;
  prev_buffer = some 104;
}

-- After one cycle.
abbrev pub swapped_driver : Driver ℕ
swapped_driver = record ready_driver { this_buffer = some 104; prev_buffer = some 0 }

pub ready_driver-IsFramed : IsFramed ready_driver
ready_driver-IsFramed = record {
  sized = refl;
  bytes = replicate-IsBytes 208 0 (omega arith);
  oob_sound = λ e. cc;
}

pub ready_driver-IsReady : IsReady ready_driver
ready_driver-IsReady = record {
  framed = ready_driver-IsFramed;
  frame_size = refl;
  few = omega arith;
  halves = inl (refl, refl);
}

pub swapped_driver-IsReady : IsReady swapped_driver
swapped_driver-IsReady = record {
  framed = record {
    sized = refl;
    bytes = replicate-IsBytes 208 0 (omega arith);
    oob_sound = λ e. cc;
  };
  frame_size = refl;
  few = omega arith;
  halves = inr (refl, refl);
}
