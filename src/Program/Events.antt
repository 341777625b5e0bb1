-- ===== src/Program/Events.antt =====
-- What a list of events comes to: whether the operator has ended the loop of `main`, the last slave
-- number, the number of cycles.
use pr2_ether_cat_no_ros.Base.{ℕ, Bool, true, false, not, List, [], ◌∷◌, ◌&&◌, if◌then◌else◌}
use pr2_ether_cat_no_ros.Driver.State.{Driver}
use pr2_ether_cat_no_ros.Program.{
  Event, cycle, checked, entered_target, entered_amplitude, Ending, came_back, still_asking,
}

-- Whether `main` is still in the operator's loop after the events, if it was before.
abbrev pub still_asked : Bool → List Event → Bool
still_asked asking [] = asking
still_asked asking (entered_amplitude positive ∷ es) = still_asked (asking && positive) es
still_asked asking (e ∷ es) = still_asked asking es

-- The number that the operator has entered last, as long as the loop has not ended.
abbrev pub last_target : Bool → List Event → ℕ → ℕ
last_target asking [] target = target
last_target asking (entered_target slave ∷ es) target =
    last_target asking es (if asking then slave else target)
last_target asking (entered_amplitude positive ∷ es) target =
    last_target (asking && positive) es target
last_target asking (e ∷ es) target = last_target asking es target

-- Whether the halves are in their first order again, one exchange for each cycle.
abbrev pub lower_after : Bool → List Event → Bool
lower_after lower [] = lower
lower_after lower (cycle demands targets ∷ es) = lower_after (not lower) es
lower_after lower (e ∷ es) = lower_after lower es

-- Whether the monitor has been called.
abbrev pub was_checked : Bool → List Event → Bool
was_checked seen [] = seen
was_checked seen (checked ∷ es) = was_checked true es
was_checked seen (e ∷ es) = was_checked seen es

abbrev pub ending : {Net : Type 0} → Bool → Driver Net → Ending Net
ending true d = still_asking d
ending false d = came_back d
