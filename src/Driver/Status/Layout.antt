-- ===== src/Driver/Status/Layout.antt =====
-- The size of `WG0XStatus`, and the place of the encoder count in it.
use pr2_ether_cat_no_ros.Base.{◌^◌, ◌<◌, ◌≡◌, refl, length, arith}
use pr2_ether_cat_no_ros.Base.Memory.{slice}
use pr2_ether_cat_no_ros.Eml.Wire.{le_bytes, le_value}
use pr2_ether_cat_no_ros.Eml.Wire.Laws.{le_value-le_bytes}
use pr2_ether_cat_no_ros.Driver.State.{status_size}
use pr2_ether_cat_no_ros.Driver.Status.{Status, status_bytes, encoder_offset}

-- `WG0XStatus` has the 44 bytes that the header declares as its `SIZE`, and the four bytes from the
-- offset 12 on hold the encoder count, if its pattern has 32 bits.
pub status_layout :
    (s : Status)
    → s.encoder_count < 2 ^ 32
    → (length (status_bytes s) ≡ status_size)
      × (le_value (slice (status_bytes s) encoder_offset 4) ≡ s.encoder_count)
unfolding status_bytes le_bytes slice
status_layout s h = (refl, le_value-le_bytes 4 s.encoder_count (omega arith))
