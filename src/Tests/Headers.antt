-- ===== src/Tests/Headers.antt =====
-- The theorems on the headers of the EtherCAT Master Library.
use pr2_ether_cat_no_ros.Base.{◌+◌, ◌≡◌, some, arith, ◌>>=◌, replicate}
use pr2_ether_cat_no_ros.Base.Int.{pos, negsuc}
use pr2_ether_cat_no_ros.Eml.Registers.{fmmu_x, sync_manager_x, watchdog_time_channel_x}
use pr2_ether_cat_no_ros.Eml.Registers.Laws.{HasChannel, channel_registers}
use pr2_ether_cat_no_ros.Eml.Wire.{
  host2nw_usint, host2nw_uint, host2nw_udint, host2nw_sint, host2nw_int, host2nw_dint,
  nw2host_usint, nw2host_uint, nw2host_udint, nw2host_sint, nw2host_int, nw2host_dint,
}
use pr2_ether_cat_no_ros.Eml.Wire.Laws.{round_trip}

channel_registers_example :
    HasChannel fmmu_x 0x600 16 15
    × HasChannel sync_manager_x 0x800 8 15
    × HasChannel watchdog_time_channel_x 0x420 2 15
channel_registers_example = channel_registers 15 (omega arith)

round_trip_example :
    ((do m ← host2nw_usint (replicate 8 0) 2 255; nw2host_usint m.0 2) ≡ some (255, 2 + 1))
    × ((do m ← host2nw_uint (replicate 8 0) 2 6805; nw2host_uint m.0 2) ≡ some (6805, 2 + 2))
    × ((do m ← host2nw_udint (replicate 8 0) 2 6805005; nw2host_udint m.0 2)
        ≡ some (6805005, 2 + 4))
    × ((do m ← host2nw_sint (replicate 8 0) 2 (negsuc 3); nw2host_sint m.0 2)
        ≡ some (negsuc 3, 2 + 1))
    × ((do m ← host2nw_int (replicate 8 0) 2 (pos 6805); nw2host_int m.0 2)
        ≡ some (pos 6805, 2 + 2))
    × ((do m ← host2nw_dint (replicate 8 0) 2 (negsuc 70000); nw2host_dint m.0 2)
        ≡ some (negsuc 70000, 2 + 4))
round_trip_example =
    round_trip (replicate 8 0) 2 255 6805 6805005 (negsuc 3) (pos 6805) (negsuc 70000) (omega arith)
      (omega arith) (omega arith) (omega arith) (omega arith) (omega arith) (omega arith)
