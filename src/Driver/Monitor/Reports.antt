-- ===== src/Driver/Monitor/Reports.antt =====
-- What `unpackCommand` prints.
use pr2_ether_cat_no_ros.Base.{
  ℕ, zero, suc, ◌+◌, ◌*◌, ◌≤◌, ◌<◌, ◌≡◌, refl, ap, ◌∙◌, Option, some, List, [], ◌∷◌, arith, length,
  get_elem?,
}
use pr2_ether_cat_no_ros.Base.Int.{ℤ, pos, signed}
use pr2_ether_cat_no_ros.Base.Memory.{slice, read_bytes_within}
use pr2_ether_cat_no_ros.Eml.Wire.{le_value, get}
use pr2_ether_cat_no_ros.Driver.State.{Driver, command_size, slot_size}
use pr2_ether_cat_no_ros.Driver.Status.{encoder_offset, encoder_count_at}
use pr2_ether_cat_no_ros.Driver.Monitor.{unpack_from, unpack_at, unpack_command}

-- The encoder count in the slot at `at`, as a number.
abbrev pub count : List ℕ → ℕ → ℤ
count m at = signed 31 (le_value (slice m (at + command_size + encoder_offset) 4))

pub encoder_count_at_lem :
    (m : List ℕ) (at : ℕ) → at + slot_size ≤ length m → encoder_count_at m at ≡ some (count m at)
unfolding encoder_count_at get
encoder_count_at_lem m at h =
    rw (read_bytes_within m (at + command_size + encoder_offset) 4 (omega (arith, h))) refl

-- What `unpackCommand` prints, from the slave `i` on.
counts : List (Option ℕ) → ℕ → ℕ → List ℕ → List (ℕ × ℤ)
counts [] i at m = []
counts (h ∷ hs) i at m = (i, count m at) ∷ counts hs (i + 1) (at + slot_size) m

get_elem-counts :
    (hs : List (Option ℕ)) (i at : ℕ) (m : List ℕ) (k : ℕ)
    → k < length hs
    → get_elem? (counts hs i at m) k ≡ some (i + k, count m (at + slot_size * k))
unfolding counts
get_elem-counts [] i at m k h = absurd (omega arith)
get_elem-counts (x ∷ hs) i at m zero h =
    let a : i ≡ i + 0 = omega arith in
    let b : at ≡ at + slot_size * 0 = omega arith in
    ap (λ j. some (j, count m at)) a ∙ ap (λ p. some (i + 0, count m p)) b
get_elem-counts (x ∷ hs) i at m (suc k) h =
    let a : i + 1 + k ≡ i + suc k = omega arith in
    let b : at + slot_size + slot_size * k ≡ at + slot_size * suc k = omega arith in
    get_elem-counts hs (i + 1) (at + slot_size) m k (omega arith)
    ∙ ap (λ j. some (j, count m (at + slot_size + slot_size * k))) a
    ∙ ap (λ p. some (i + suc k, count m p)) b

unpack_from_lem :
    (hs : List (Option ℕ)) (i at : ℕ) (m : List ℕ)
    → at + slot_size * length hs ≤ length m
    → unpack_from hs i at m ≡ some (counts hs i at m)
unfolding unpack_from counts
unpack_from_lem [] i at m h = refl
unpack_from_lem (x ∷ hs) i at m h =
    rw
      (
        encoder_count_at_lem m at (omega arith),
        unpack_from_lem hs (i + 1) (at + slot_size) m (omega arith),
      )
      refl

length-counts :
    (hs : List (Option ℕ)) (i at : ℕ) (m : List ℕ) → length (counts hs i at m) ≡ length hs
unfolding counts
length-counts [] i at m = refl
length-counts (x ∷ hs) i at m = ap suc (length-counts hs (i + 1) (at + slot_size) m)

module _ {Net : Type 0} where
  unpack_at_lem :
      (d : Driver Net) (hs : List (Option ℕ)) (at : ℕ)
      → at + slot_size * length hs ≤ length d.master_buffer
      → 0 < length hs
      → unpack_at d hs (some at) ≡ some (counts hs 0 at d.master_buffer, pos 0)
  unfolding unpack_at
  unpack_at_lem d [] at h few = absurd (omega arith)
  unpack_at_lem d (x ∷ hs) at h few = rw (unpack_from_lem (x ∷ hs) 0 at d.master_buffer h) refl

  -- With `this_buffer_` at `at` and slots for all slaves behind it, `unpackCommand` returns 0 and
  -- prints one line for each slave, that of the slave `k` with its encoder count in the slot `k`.
  pub unpack_command_lem :
      (d : Driver Net) (at k : ℕ)
      → d.this_buffer ≡ some at
      → at + slot_size * length d.slave_handles ≤ length d.master_buffer
      → k < length d.slave_handles
      → (lines : List (ℕ × ℤ)) × (unpack_command d ≡ some (lines, pos 0))
        × (length lines ≡ length d.slave_handles)
        × (get_elem? lines k ≡ some (k, count d.master_buffer (at + slot_size * k)))
  unfolding unpack_command
  unpack_command_lem d at k e h le = (
    counts d.slave_handles 0 at d.master_buffer,
    ap (λ p. unpack_at d d.slave_handles p) e
        ∙ unpack_at_lem d d.slave_handles at h (omega (arith, le)),
    length-counts d.slave_handles 0 at d.master_buffer,
    get_elem-counts d.slave_handles 0 at d.master_buffer k le
        ∙ ap (λ j. some (j, count d.master_buffer (at + slot_size * k))) (omega arith),
  )
