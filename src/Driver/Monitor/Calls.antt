-- ===== src/Driver/Monitor/Calls.antt =====
-- A call of `monitorChanges`, and two in a row.
use pr2_ether_cat_no_ros.Base.{
  ℕ, ◌+◌, ◌*◌, ◌≤◌, ◌≡◌, refl, sym, ap, ◌∙◌, ◌↔◌, ◌⊎◌, ◌>>=◌, inl, inr, true, false, Option, none,
  some, List, [], ◌∷◌, if◌then◌else◌, arith, length, Option-cases,
}
use pr2_ether_cat_no_ros.Base.Int.{ℤ, pos, negsuc, ◌-ℤ◌, abs, signed}
use pr2_ether_cat_no_ros.Base.Memory.Parts.{slice-slice, splice_whole}
use pr2_ether_cat_no_ros.Base.Memory.{slice, length-slice, read_bytes_within, write_bytes_within}
use pr2_ether_cat_no_ros.Eml.Wire.{le_value}
use pr2_ether_cat_no_ros.Driver.State.{Driver, command_size, slot_size}
use pr2_ether_cat_no_ros.Driver.Status.{encoder_offset}
use pr2_ether_cat_no_ros.Driver.Monitor.{compare_from, Monitor, monitor_at, monitor_changes}
use pr2_ether_cat_no_ros.Driver.Monitor.Reports.{count}
use pr2_ether_cat_no_ros.Driver.Monitor.Lines.{distance, Printed, OneMoved, Near, compare_from_lem}

pub abs_same : (z : ℤ) → abs (z -ℤ z) ≡ 0
unfolding ◌-ℤ◌
abs_same (pos n) = ground arith
abs_same (negsuc n) = ground arith

-- The frame at `prev_buffer_` has room for the slots of the slaves, and so has the backup.
pub record Watched {Net : Type 0} (d : Driver Net) (s : Monitor) (at : ℕ) : Type 0 where
  pub points : d.prev_buffer ≡ some at
  pub inside : at + d.master_buffer_size ≤ length d.master_buffer
  pub room : slot_size * length d.slave_handles ≤ d.master_buffer_size
  pub backup_size : length s.backup ≡ d.master_buffer_size

module _ {Net : Type 0} where
  -- What a call leaves in its static variables.
  abbrev pub saved : Driver Net → ℕ → Monitor
  saved d at = record { delta_init = true; backup = slice d.master_buffer at d.master_buffer_size }

  pub monitor_at_lem :
      (t : ℤ) (d : Driver Net) (s : Monitor) (at : ℕ) (lines : List (ℕ × ℤ))
      → Watched d s at
      → (if s.delta_init
          then compare_from t d.slave_handles 0 at 0 d.master_buffer s.backup
          else some [])
        ≡ some lines
      → monitor_changes t d s ≡ some (lines, saved d at)
  unfolding monitor_changes monitor_at
  monitor_at_lem t d s at lines w e =
      let len = length-slice d.master_buffer at d.master_buffer_size w.inside in
      ap (λ p. monitor_at t d s p) w.points
      ∙ rw
          (
            e,
            read_bytes_within d.master_buffer at d.master_buffer_size w.inside,
            write_bytes_within s.backup 0 (slice d.master_buffer at d.master_buffer_size)
                (omega (arith, len, w.backup_size)),
            splice_whole s.backup (slice d.master_buffer at d.master_buffer_size)
                (len ∙ sym w.backup_size),
          )
          refl

  -- With a null pointer a call does nothing.
  pub monitor_changes_null :
      (t : ℤ) (d : Driver Net) (s : Monitor)
      → d.prev_buffer ≡ none
      → monitor_changes t d s ≡ some ([], s)
  unfolding monitor_changes monitor_at
  monitor_changes_null t d s e = ap (λ p. monitor_at t d s p) e

  -- With the frame at `prev_buffer_` inside the array, a backup of its size and every difference
  -- within an `int`, a call that is not the first never faults. It prints exactly the slaves whose
  -- encoder count differs from the saved one by more than the threshold, each with its number and
  -- its new count, and saves the frame.
  pub monitor_changes_lem :
      (t : ℤ) (d : Driver Net) (s : Monitor) (at : ℕ)
      → Watched d s at
      → s.delta_init ≡ true
      → Near d.slave_handles at 0 d.master_buffer s.backup
      → (lines : List (ℕ × ℤ)) × (monitor_changes t d s ≡ some (lines, saved d at))
        × ((x : ℕ × ℤ)
            → Printed x lines
              ↔ OneMoved t 0 at 0 d.master_buffer s.backup (length d.slave_handles) x)
  monitor_changes_lem t d s at w on near =
      let (lines, e, same) =
        compare_from_lem t d.slave_handles 0 at 0 d.master_buffer s.backup
          (omega (arith, w.inside, w.room)) (omega (arith, w.room, w.backup_size)) near in
      (
        lines,
        monitor_at_lem t d s at lines w (
            ap
              (λ b.
                if b
                then compare_from t d.slave_handles 0 at 0 d.master_buffer s.backup
                else some [])
              on
            ∙ e),
        same,
      )

  -- The first call only saves the frame.
  pub first_call :
      (t : ℤ) (d : Driver Net) (s : Monitor) (at : ℕ)
      → Watched d s at
      → s.delta_init ≡ false
      → monitor_changes t d s ≡ some ([], saved d at)
  first_call t d s at w off = monitor_at_lem t d s at [] w (
      ap
        (λ b. if b then compare_from t d.slave_handles 0 at 0 d.master_buffer s.backup else some [])
        off)

  -- A later call prints what the comparison finds, or faults with it.
  pub later_call :
      (t : ℤ) (d : Driver Net) (s : Monitor) (at : ℕ)
      → Watched d s at
      → s.delta_init ≡ true
      → ((lines : List (ℕ × ℤ)) × (monitor_changes t d s ≡ some (lines, saved d at)))
        ⊎ (monitor_changes t d s ≡ none)
  unfolding monitor_changes monitor_at
  later_call t d s at w on =
      elim (Option-cases (compare_from t d.slave_handles 0 at 0 d.master_buffer s.backup)) [
        | inl e ↦ inr (ap (λ p. monitor_at t d s p) w.points ∙ rw (on, e, ◌>>=◌) refl)
        | inr (lines, e) ↦ inl (lines, monitor_at_lem t d s at lines w (rw (on, e) refl))
      ]

distance_same :
    (m : List ℕ) (at size q p : ℕ)
    → q ≡ at + p
    → p + slot_size ≤ size
    → distance m q (slice m at size) p ≡ 0
distance_same m at size q p e h =
    let f : at + (p + command_size + encoder_offset) ≡ q + command_size + encoder_offset =
      omega (arith, e) in
    ap (λ l. abs (count m q -ℤ signed 31 (le_value l)))
      (slice-slice m at size (p + command_size + encoder_offset) 4 (omega (arith, h))
        ∙ ap (λ j. slice m j 4) f)
    ∙ abs_same (count m q)

Near-same :
    (hs : List (Option ℕ)) (m : List ℕ) (at size q p : ℕ)
    → q ≡ at + p
    → p + slot_size * length hs ≤ size
    → Near hs q p m (slice m at size)
Near-same [] m at size q p e h = tt
Near-same (x ∷ hs) m at size q p e h = (
  omega (arith, distance_same m at size q p e (omega (arith, h))),
  Near-same hs m at size (q + slot_size) (p + slot_size) (omega (arith, e)) (omega (arith, h)),
)

-- Nothing printed is no line.
pub no_lines : (lines : List (ℕ × ℤ)) → ((x : ℕ × ℤ) → Printed x lines → ⊥) → lines ≡ []
no_lines [] h = refl
no_lines (x ∷ l) h = absurd (h x (inl refl))

not_moved :
    (u at size n : ℕ) (m : List ℕ) (x : ℕ × ℤ)
    → slot_size * n ≤ size
    → ¬ OneMoved (pos u) 0 at 0 m (slice m at size) n x
not_moved u at size n m x h (k, le, (same, far)) =
    let zero_far =
      distance_same m at size (at + slot_size * k) (0 + slot_size * k) (omega arith)
        (omega (arith, h, le)) in
    ground (arith, zero_far, far)

module _ {Net : Type 0} where
  monitor_at_fault :
      (t : ℤ) (d : Driver Net) (s : Monitor) (at : ℕ)
      → d.prev_buffer ≡ some at
      → (if s.delta_init
          then compare_from t d.slave_handles 0 at 0 d.master_buffer s.backup
          else some [])
        ≡ none
      → monitor_changes t d s ≡ none
  unfolding monitor_changes monitor_at
  monitor_at_fault t d s at p e = ap (λ q. monitor_at t d s q) p ∙ rw e refl

  pub saved_by :
      (t : ℤ) (d : Driver Net) (s s' : Monitor) (at : ℕ) (lines : List (ℕ × ℤ))
      → Watched d s at
      → monitor_changes t d s ≡ some (lines, s')
      → s' ≡ saved d at
  saved_by t d s s' at lines w e =
      elim (Option-cases (
        if s.delta_init
        then compare_from t d.slave_handles 0 at 0 d.master_buffer s.backup
        else some [])) [
          | inl fault ↦ let g = monitor_at_fault t d s at w.points fault in cc
          | inr (l, f) ↦ let g = monitor_at_lem t d s at l w f in cc
        ]

  monitor_saved :
      (u : ℕ) (d : Driver Net) (s : Monitor) (at : ℕ)
      → Watched d s at
      → monitor_changes (pos u) d (saved d at) ≡ some ([], saved d at)
  monitor_saved u d s at w =
      let w' : Watched d (saved d at) at = record {
        points = w.points;
        inside = w.inside;
        room = w.room;
        backup_size = length-slice d.master_buffer at d.master_buffer_size w.inside;
      } in
      let (lines, e, same) = monitor_changes_lem (pos u) d (saved d at) at w' refl (
        Near-same d.slave_handles d.master_buffer at d.master_buffer_size at 0 (omega arith)
          (omega (arith, w.room))) in
      e
      ∙ ap (λ l. some (l, saved d at))
          (no_lines lines (λ x h.
            not_moved u at d.master_buffer_size (length d.slave_handles) d.master_buffer x w.room
              ((same x).0 h)))

  -- With the frame at `prev_buffer_` inside the array and a backup of its size: after a call that
  -- came back, a second one on the same buffers and with any threshold that is not negative
  -- prints nothing and leaves what was saved.
  pub monitor_again :
      (t : ℤ) (u : ℕ) (d : Driver Net) (s s' : Monitor) (at : ℕ) (lines : List (ℕ × ℤ))
      → Watched d s at
      → monitor_changes t d s ≡ some (lines, s')
      → monitor_changes (pos u) d s' ≡ some ([], s')
  monitor_again t u d s s' at lines w e =
      let same = saved_by t d s s' at lines w e in
      ap (λ r. monitor_changes (pos u) d r) same
      ∙ monitor_saved u d s at w
      ∙ ap (λ r. some ([], r)) (sym same)
