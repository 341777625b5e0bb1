-- ===== src/Program/Ready.antt =====
-- What changes of the driver leave its buffers ready.
use pr2_ether_cat_no_ros.Base.{ℕ}
use pr2_ether_cat_no_ros.Driver.State.{Driver}
use pr2_ether_cat_no_ros.Driver.ProcessData.Ready.{IsReady}

module _ {Net : Type 0} where
  -- Another target makes no difference to the buffers.
  pub with_target :
      (slave : ℕ) (d : Driver Net) → IsReady d → IsReady (record d { target_slave = slave })
  with_target slave d v = record {
    framed = record { sized = v.sized; bytes = v.bytes; oob_sound = v.oob_sound };
    frame_size = v.frame_size;
    few = v.few;
    halves = v.halves;
  }

  pub with_net : (net : Net) (d : Driver Net) → IsReady d → IsReady (record d { net = net })
  with_net net d v = record {
    framed = record { sized = v.sized; bytes = v.bytes; oob_sound = v.oob_sound };
    frame_size = v.frame_size;
    few = v.few;
    halves = v.halves;
  }
