-- ===== src/Driver/Monitor.antt =====
-- `unpackCommand` and `monitorChanges` of driver/wg05.cpp, which read the encoder counts. What they
-- print is their result: the number of a slave, and its count.
pub mod Reports
pub mod Lines
pub mod Calls
pub mod Blind
use pr2_ether_cat_no_ros.Base.{
  ℕ, ◌+◌, ◌^◌, Bool, true, false, Option, none, some, List, [], ◌∷◌, ◌++◌, ◌>>=◌, ltb,
  if◌then◌else◌,
}
use pr2_ether_cat_no_ros.Base.Int.{ℤ, pos, negsuc, ◌-ℤ◌, abs}
use pr2_ether_cat_no_ros.Base.Memory.{read_bytes, write_bytes}
use pr2_ether_cat_no_ros.Driver.State.{Driver, slot_size}
use pr2_ether_cat_no_ros.Driver.Status.{encoder_count_at}

-- The loop of `unpackCommand`.
unfoldable pub unpack_from : List (Option ℕ) → ℕ → ℕ → List ℕ → Option (List (ℕ × ℤ))
unpack_from [] i at m = some []
unpack_from (h ∷ hs) i at m = do
  count ← encoder_count_at m at
  rest ← unpack_from hs (i + 1) (at + slot_size) m
  some ((i, count) ∷ rest)

-- `n > threshold` for an `int` threshold and a result `n` of `abs`.
abbrev pub exceeds : ℕ → ℤ → Bool
exceeds n (pos t) = ltb t n
exceeds n (negsuc t) = true

-- The line for a slave, if its count has moved. A difference whose absolute value is no `int` is
-- undefined in C: a fault.
unfoldable pub report : ℤ → ℕ → ℤ → ℤ → Option (List (ℕ × ℤ))
report threshold i count old =
    let n = abs (count -ℤ old) in
    if ltb n (2 ^ 31) then some (if exceeds n threshold then (i, count) ∷ [] else []) else none

-- The loop of `monitorChanges`, with the two pointers that go through the two arrays.
unfoldable pub compare_from :
    ℤ → List (Option ℕ) → ℕ → ℕ → ℕ → List ℕ → List ℕ → Option (List (ℕ × ℤ))
compare_from threshold [] i prev back m backup = some []
compare_from threshold (h ∷ hs) i prev back m backup = do
  count ← encoder_count_at m prev
  old ← encoder_count_at backup back
  line ← report threshold i count old
  rest ← compare_from threshold hs (i + 1) (prev + slot_size) (back + slot_size) m backup
  some (line ++ rest)

-- The two `static` variables of `monitorChanges`.
pub record Monitor : Type 0 where
  pub delta_init : Bool
  pub backup : List ℕ

module _ {Net : Type 0} where
  unpack_at : Driver Net → List (Option ℕ) → Option ℕ → Option (List (ℕ × ℤ) × ℤ)
  unpack_at d [] p = some ([], negsuc 0)
  unpack_at d (h ∷ hs) none = none
  unpack_at d (h ∷ hs) (some at) = do
    lines ← unpack_from (h ∷ hs) 0 at (d.master_buffer)
    some (lines, pos 0)

  -- `unpackCommand`
  unfoldable pub unpack_command : Driver Net → Option (List (ℕ × ℤ) × ℤ)
  unfolding unpack_at
  unpack_command d = unpack_at d (d.slave_handles) (d.this_buffer)

  monitor_at : ℤ → Driver Net → Monitor → Option ℕ → Option (List (ℕ × ℤ) × Monitor)
  monitor_at threshold d s none = some ([], s)
  monitor_at threshold d s (some at) = do
    lines ←
        if s.delta_init
        then compare_from threshold d.slave_handles 0 at 0 d.master_buffer s.backup
        else some []
    bytes ← read_bytes (d.master_buffer) at (d.master_buffer_size)
    saved ← write_bytes (s.backup) 0 bytes
    some (lines, record { delta_init = true; backup = saved })

  -- `monitorChanges`, with `prev_buffer_` the same from its start to its end.
  unfoldable pub monitor_changes : ℤ → Driver Net → Monitor → Option (List (ℕ × ℤ) × Monitor)
  unfolding monitor_at
  monitor_changes threshold d s = monitor_at threshold d s (d.prev_buffer)
