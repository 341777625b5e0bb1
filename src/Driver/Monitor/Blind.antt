-- ===== src/Driver/Monitor/Blind.antt =====
-- `monitorChanges` and the upper half of the array, whose status areas no cycle writes.
use pr2_ether_cat_no_ros.Base.{
  ℕ, ◌+◌, ◌*◌, ◌≤◌, ◌≡◌, refl, sym, ap, ◌∙◌, subst, true, Option, some, List, [], ◌∷◌, arith,
  length,
}
use pr2_ether_cat_no_ros.Base.Int.{ℤ, pos, ◌-ℤ◌, abs, signed}
use pr2_ether_cat_no_ros.Base.Memory.Parts.{slice-slice}
use pr2_ether_cat_no_ros.Base.Memory.{slice, length-slice}
use pr2_ether_cat_no_ros.Eml.Library.{Library, IsDocumented}
use pr2_ether_cat_no_ros.Eml.Wire.{le_value}
use pr2_ether_cat_no_ros.Driver.State.{Driver, command_size, status_size, slot_size}
use pr2_ether_cat_no_ros.Driver.Status.{encoder_offset}
use pr2_ether_cat_no_ros.Driver.ProcessData.Ready.{IsReady}
use pr2_ether_cat_no_ros.Driver.Loop.{run_cycles, run_cycles_total}
use pr2_ether_cat_no_ros.Driver.Monitor.{Monitor, monitor_changes}
use pr2_ether_cat_no_ros.Driver.Monitor.Reports.{count}
use pr2_ether_cat_no_ros.Driver.Monitor.Lines.{distance, OneMoved, Near}
use pr2_ether_cat_no_ros.Driver.Monitor.Calls.{
  Watched, saved, saved_by, monitor_changes_lem, abs_same, no_lines,
}

-- The status area of the slot at `at` is the same in both arrays.
abbrev pub SameStatus : List ℕ → List ℕ → ℕ → Type 0
SameStatus m m' at =
    slice m' (at + command_size) status_size ≡ slice m (at + command_size) status_size

count_same : (m m' : List ℕ) (at : ℕ) → SameStatus m m' at → count m' at ≡ count m at
count_same m m' at h =
    let area = at + command_size in
    ap (λ l. signed 31 (le_value l))
      (sym (slice-slice m' area status_size encoder_offset 4 (omega arith))
        ∙ ap (λ l. slice l encoder_offset 4) h
        ∙ slice-slice m area status_size encoder_offset 4 (omega arith))

pub count-slice :
    (m : List ℕ) (at size p : ℕ)
    → p + slot_size ≤ size
    → count (slice m at size) p ≡ count m (at + p)
count-slice m at size p h =
    let e : at + (p + command_size + encoder_offset) ≡ at + p + command_size + encoder_offset =
      omega arith in
    ap (λ l. signed 31 (le_value l))
      (slice-slice m at size (p + command_size + encoder_offset) 4 (omega (arith, h))
        ∙ ap (λ j. slice m j 4) e)

module _ (m m' : List ℕ) (at size : ℕ) (kept : (j : ℕ) → SameStatus m m' (at + slot_size * j)) where
  distance_kept :
      (j : ℕ)
      → slot_size * j + slot_size ≤ size
      → distance m' (at + slot_size * j) (slice m at size) (slot_size * j) ≡ 0
  distance_kept j h =
      ap (λ c. abs (c -ℤ count (slice m at size) (slot_size * j)))
        (count_same m m' (at + slot_size * j) (kept j))
      ∙ ap (λ c. abs (count m (at + slot_size * j) -ℤ c)) (count-slice m at size (slot_size * j) h)
      ∙ abs_same (count m (at + slot_size * j))

  Near-kept :
      (hs : List (Option ℕ)) (i q p : ℕ)
      → q ≡ at + slot_size * i
      → p ≡ slot_size * i
      → slot_size * (i + length hs) ≤ size
      → Near hs q p m' (slice m at size)
  Near-kept [] i q p e f h = tt
  Near-kept (x ∷ hs) i q p e f h =
      let d : distance m' q (slice m at size) p ≡ 0 =
        ap (λ a. distance m' a (slice m at size) p) e
        ∙ ap (λ a. distance m' (at + slot_size * i) (slice m at size) a) f
        ∙ distance_kept i (omega (arith, h)) in
      (
        omega (arith, d),
        Near-kept hs (i + 1) (q + slot_size) (p + slot_size) (omega (arith, e)) (omega (arith, f))
            (omega (arith, h)),
      )

  none_moved :
      (u n : ℕ) (x : ℕ × ℤ)
      → slot_size * n ≤ size
      → ¬ OneMoved (pos u) 0 at 0 m' (slice m at size) n x
  none_moved u n x h (k, le, (same, far)) =
      let e : 0 + slot_size * k ≡ slot_size * k = omega arith in
      let zero_far : distance m' (at + slot_size * k) (slice m at size) (0 + slot_size * k) ≡ 0 =
        ap (λ a. distance m' (at + slot_size * k) (slice m at size) a) e
        ∙ distance_kept k (omega (arith, h, le)) in
      ground (arith, zero_far, far)

module _ {Net : Type 0} where
  watched :
      (d : Driver Net) (s : Monitor)
      → IsReady d
      → length s.backup ≡ d.master_buffer_size
      → d.prev_buffer ≡ some d.master_buffer_size
      → Watched d s d.master_buffer_size
  watched d s ready sized upper = record {
    points = upper;
    inside = omega (arith, ready.sized);
    room = omega (arith, ready.few, ready.frame_size);
    backup_size = sized;
  }

  unmoved_call :
      (u : ℕ) (d : Driver Net) (m : List ℕ) (at : ℕ)
      → ((j : ℕ) → SameStatus m d.master_buffer (at + slot_size * j))
      → Watched d (record { delta_init = true; backup = slice m at at }) at
      → d.master_buffer_size ≡ at
      → monitor_changes (pos u) d (record { delta_init = true; backup = slice m at at })
        ≡ some ([], saved d at)
  unmoved_call u d m at kept w size =
      let (lines, printed, exactly) = monitor_changes_lem (pos u) d _ at w refl (
        Near-kept m d.master_buffer at at kept d.slave_handles 0 at 0 (omega arith) (omega arith)
          (omega (arith, w.room, size))) in
      printed
      ∙ ap (λ l. some (l, saved d at))
          (no_lines lines (λ x h.
            none_moved m d.master_buffer at at kept u (length d.slave_handles) x
              (omega (arith, w.room, size)) ((exactly x).0 h)))

module _ {Net : Type 0} (lib : Library Net) (doc : IsDocumented lib) where
  -- With a documented library, ready buffers and a backup of their size: after a call of
  -- `monitorChanges` that came back while `prev_buffer_` was the upper half, and any number of
  -- rounds of the real-time loop after which it is the upper half again, a call with any threshold
  -- that is not negative prints nothing, whatever encoder counts the bus has sent in these rounds.
  pub monitor_blind :
      (t : ℤ) (u : ℕ) (demands : List ℕ) (d d' : Driver Net) (s s' : Monitor) (lines : List (ℕ × ℤ))
      → IsReady d
      → length s.backup ≡ d.master_buffer_size
      → d.prev_buffer ≡ some d.master_buffer_size
      → monitor_changes t d s ≡ some (lines, s')
      → run_cycles lib demands d ≡ some d'
      → d'.prev_buffer ≡ d.prev_buffer
      → monitor_changes (pos u) d' s' ≡ some ([], saved d' d.master_buffer_size)
  monitor_blind t u demands d d' s s' lines ready sized upper first rounds again =
      let at = d.master_buffer_size in
      let (d1, e, ready1, this1, prev1, size1, kept1) = run_cycles_total lib doc demands d ready in
      let same : d1 ≡ d' = cc in
      let ready' : IsReady d' = subst IsReady same ready1 in
      let size' : d'.master_buffer_size ≡ at =
        sym (ap (λ (x : Driver Net). x.master_buffer_size) same) ∙ size1 in
      let kept : (j : ℕ) → SameStatus d.master_buffer d'.master_buffer (at + slot_size * j) =
        subst
          (λ (x : Driver Net).
            (j : ℕ) → SameStatus d.master_buffer x.master_buffer (at + slot_size * j))
          same kept1 in
      let w = watched d s ready sized upper in
      let s1 = saved d at in
      let is_saved : s' ≡ s1 = saved_by t d s s' at lines w first in
      let backed : length s1.backup ≡ d'.master_buffer_size =
        length-slice d.master_buffer at at w.inside ∙ sym size' in
      ap (λ r. monitor_changes (pos u) d' r) is_saved
      ∙ unmoved_call u d' d.master_buffer at kept
          (subst (λ n. Watched d' s1 n) size'
            (watched d' s1 ready' backed (again ∙ upper ∙ ap some (sym size'))))
          size'
