-- ===== src/Eml/Wire.antt =====
-- eml/include/ethercat/ethercat_defs.h: `host2nw` and `nw2host`, which write a number into a buffer
-- and read it back, and return the pointer behind it. The host is little-endian, so `cpu_to_le16`
-- and its kin return what they are given, as in the source.
pub mod Laws
use pr2_ether_cat_no_ros.Base.{
  ℕ, zero, suc, ◌+◌, ◌*◌, ◌/◌, ◌%◌, Option, none, some, List, [], ◌∷◌, ◌>>=◌, length,
}
use pr2_ether_cat_no_ros.Base.Int.{ℤ, signed, pattern_of}
use pr2_ether_cat_no_ros.Base.Memory.{read_bytes, write_bytes}

-- The bytes of a number in memory, the low one first, and the number in such bytes.
unfoldable pub le_bytes : ℕ → ℕ → List ℕ
le_bytes zero v = []
le_bytes (suc n) v = v % 256 ∷ le_bytes n (v / 256)

unfoldable pub le_value : List ℕ → ℕ
le_value [] = 0
le_value (b ∷ bs) = b + 256 * le_value bs

-- `memcpy` to and from a variable of `n` bytes, with a fault outside the buffer.
unfoldable pub put : ℕ → List ℕ → ℕ → ℕ → Option (List ℕ × ℕ)
put n m at v = do m' ← write_bytes m at (le_bytes n v); some (m', at + n)

unfoldable pub get : ℕ → List ℕ → ℕ → Option (ℕ × ℕ)
get n m at = do bs ← read_bytes m at n; some (le_value bs, at + n)

-- The overloads of `host2nw`: on EC_USINT, EC_UINT and EC_UDINT ...
abbrev pub host2nw_usint : List ℕ → ℕ → ℕ → Option (List ℕ × ℕ)
host2nw_usint = put 1

abbrev pub host2nw_uint : List ℕ → ℕ → ℕ → Option (List ℕ × ℕ)
host2nw_uint = put 2

abbrev pub host2nw_udint : List ℕ → ℕ → ℕ → Option (List ℕ × ℕ)
host2nw_udint = put 4

-- ... on EC_SINT, EC_INT and EC_DINT, which a cast turns into their patterns ...
abbrev pub host2nw_sint : List ℕ → ℕ → ℤ → Option (List ℕ × ℕ)
host2nw_sint m at z = put 1 m at (pattern_of 8 z)

abbrev pub host2nw_int : List ℕ → ℕ → ℤ → Option (List ℕ × ℕ)
host2nw_int m at z = put 2 m at (pattern_of 16 z)

abbrev pub host2nw_dint : List ℕ → ℕ → ℤ → Option (List ℕ × ℕ)
host2nw_dint m at z = put 4 m at (pattern_of 32 z)

-- ... and on an array of bytes.
unfoldable pub host2nw_data : List ℕ → ℕ → List ℕ → Option (List ℕ × ℕ)
host2nw_data m at bs = do m' ← write_bytes m at bs; some (m', at + length bs)

-- The overloads of `nw2host`.
abbrev pub nw2host_usint : List ℕ → ℕ → Option (ℕ × ℕ)
nw2host_usint = get 1

abbrev pub nw2host_uint : List ℕ → ℕ → Option (ℕ × ℕ)
nw2host_uint = get 2

abbrev pub nw2host_udint : List ℕ → ℕ → Option (ℕ × ℕ)
nw2host_udint = get 4

abbrev pub as_signed : ℕ → Option (ℕ × ℕ) → Option (ℤ × ℕ)
as_signed w none = none
as_signed w (some (v, at)) = some (signed w v, at)

abbrev pub nw2host_sint : List ℕ → ℕ → Option (ℤ × ℕ)
nw2host_sint m at = as_signed 7 (get 1 m at)

abbrev pub nw2host_int : List ℕ → ℕ → Option (ℤ × ℕ)
nw2host_int m at = as_signed 15 (get 2 m at)

abbrev pub nw2host_dint : List ℕ → ℕ → Option (ℤ × ℕ)
nw2host_dint m at = as_signed 31 (get 4 m at)
