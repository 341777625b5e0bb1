-- ===== src/Driver/ProcessData/Current.antt =====
-- The current that a command asks for: a `double`, cast to `int` and kept in 16 bits.
use pr2_ether_cat_no_ros.Base.{ℕ, ◌+◌, ◌*◌, ◌/◌, ◌%◌, ◌^◌, ◌<◌, ◌≡◌, ◌↔◌, ap, sym, ◌∙◌, arith, List}
use pr2_ether_cat_no_ros.Base.Int.{ℤ, signed, Fits}
use pr2_ether_cat_no_ros.Base.Memory.{slice}
use pr2_ether_cat_no_ros.Eml.Wire.{le_value}
use pr2_ether_cat_no_ros.Driver.State.{command_bytes}
use pr2_ether_cat_no_ros.Driver.ProcessData.{target_command}

-- The current in the bytes of a command, as an `int16_t` of the slave reads it.
abbrev pub current_in : List ℕ → ℤ
current_in bytes = signed 15 (le_value (slice bytes 4 2))

current_in-target_command :
    (demand : ℕ) → current_in (command_bytes (target_command demand)) ≡ signed 15 (demand % 2 ^ 16)
unfolding command_bytes target_command slice le_value
current_in-target_command demand =
    let e : demand % 2 ^ 16 % 256 + 256 * (demand % 2 ^ 16 / 256 + 256 * 0) ≡ demand % 2 ^ 16 =
      omega arith in
    ap (signed 15) e

narrowed :
    (demand : ℕ)
    → demand < 2 ^ 32
    → (signed 15 (demand % 2 ^ 16) ≡ signed 31 demand) ↔ Fits 15 (signed 31 demand)
narrowed demand h = ((λ e. ground arith), λ f. ground arith)

-- For a demand that is an `int`: the current in the command that is sent is the demanded one
-- exactly if that fits an `int16_t`.
pub current_kept_iff :
    (demand : ℕ)
    → demand < 2 ^ 32
    → (current_in (command_bytes (target_command demand)) ≡ signed 31 demand)
      ↔ Fits 15 (signed 31 demand)
current_kept_iff demand h =
    let (to, from) = narrowed demand h in
    let e = current_in-target_command demand in ((λ k. to (sym e ∙ k)), λ f. e ∙ from f)
