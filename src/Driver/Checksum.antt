-- ===== src/Driver/Checksum.antt =====
-- `rotateRight8` and `computeChecksum` of driver/wg05.cpp.
pub mod Laws
pub mod Closed
use pr2_ether_cat_no_ros.Base.{ℕ, ◌*◌, ◌/◌, ◌%◌, ◌^◌, bit_and, bit_or, bit_xor, List, [], ◌∷◌}

-- `unsigned` arithmetic on 32 bits: `<< 7` is cut at `2 ^ 32`.
unfoldable pub rotate_right8 : ℕ → ℕ
rotate_right8 x = let low = bit_and x 0xff in bit_and (bit_or (low / 2) (low * 2 ^ 7 % 2 ^ 32)) 0xff

-- One round of the loop of `computeChecksum`.
unfoldable pub mix : ℕ → ℕ → ℕ
mix checksum d = bit_and (bit_xor (rotate_right8 checksum) d) 0xff

-- The loop, over the bytes `d[i] .. d[length - 1]` that are left.
unfoldable pub checksum_from : ℕ → List ℕ → ℕ
checksum_from checksum [] = checksum
checksum_from checksum (d ∷ ds) = checksum_from (mix checksum d) ds

-- `computeChecksum(data, length)`, with the `length` bytes at `data`.
unfoldable pub compute_checksum : List ℕ → ℕ
unfolding checksum_from mix
compute_checksum bytes = checksum_from 0x42 bytes
