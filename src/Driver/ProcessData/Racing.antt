-- ===== src/Driver/ProcessData/Racing.antt =====
-- `packCommand` of driver/wg05.cpp while `main` of test/main.cpp writes `target_slave`, which it
-- does without `mutex_buffer_access`.
use pr2_ether_cat_no_ros.Base.{
  ℕ, ◌+◌, ◌*◌, ◌≤◌, ◌<◌, ◌≡◌, refl, sym, ◌∙◌, ◌⊎◌, ◌↔◌, Bool, true, false, some, ◌==◌, ltb,
  if◌then◌else◌, arith, length, replicate,
}
use pr2_ether_cat_no_ros.Base.Memory.{slice}
use pr2_ether_cat_no_ros.Driver.State.{Driver, command_bytes, command_size, slot_size}
use pr2_ether_cat_no_ros.Driver.ProcessData.{target_command, pack_racing}
use pr2_ether_cat_no_ros.Driver.ProcessData.Pack.{slot_command, target_command_bytes}
use pr2_ether_cat_no_ros.Driver.ProcessData.Ready.{IsReady}
use pr2_ether_cat_no_ros.Driver.ProcessData.Update.{racing_slot}

-- What the rounds find in `target_slave` when `main` writes `new` in place of `old` before the
-- round `k`.
unfoldable pub changed_before : ℕ → ℕ → ℕ → ℕ → ℕ
changed_before k old new i = if ltb i k then old else new

-- Whether the round `j` then finds its own index.
abbrev pub IsTarget : ℕ → ℕ → ℕ → ℕ → Type 0
IsTarget k old new j = ((j ≡ old) × (j < k)) ⊎ ((j ≡ new) × (k ≤ j))

changed_before_iff :
    (k old new j : ℕ) → ((j == changed_before k old new j) ≡ true) ↔ IsTarget k old new j
unfolding changed_before
changed_before_iff k old new j = (ground arith, ground arith)

-- A command is never taken for an idle slot.
slot_command_iff :
    (demand : ℕ) (target : Bool)
    → ((slot_command demand target ≡ command_bytes (target_command demand)) ↔ (target ≡ true))
      × ((slot_command demand target ≡ replicate command_size 0) ↔ ¬ (target ≡ true))
slot_command_iff demand true = (
  ((λ h. refl), λ h. refl),
  ((λ h. let e = sym h ∙ target_command_bytes demand in cc), λ h. absurd (h refl)),
)
slot_command_iff demand false =
    (((λ h. let e = h ∙ target_command_bytes demand in cc), λ h. cc), ((λ h. λ t. cc), λ h. refl))

-- On ready buffers `packCommand` does not fault when `main` writes `new` to `target_slave`, which
-- was `old`, before its round `k`. The command area of a slave that has a handle then holds the
-- command of its round exactly if it is the old target and comes before the write, or the new
-- target and does not, and zeros exactly if it is neither.
pub pack_racing_slot :
    {Net : Type 0} (demands : ℕ → ℕ) (k old new at j : ℕ) (d : Driver Net)
    → IsReady d
    → d.this_buffer ≡ some at
    → j < length d.slave_handles
    → (d' : Driver Net) × (pack_racing demands (changed_before k old new) d ≡ some d')
      × ((slice d'.master_buffer (at + slot_size * j) command_size
            ≡ command_bytes (target_command (demands j)))
          ↔ IsTarget k old new j)
      × ((slice d'.master_buffer (at + slot_size * j) command_size ≡ replicate command_size 0)
          ↔ ¬ IsTarget k old new j)
pack_racing_slot demands k old new at j d v e lt =
    let targets = changed_before k old new in
    let (d', packs, here) = racing_slot demands targets at j d v e lt in
    let ((to, from), (idle, rest)) = slot_command_iff (demands j) (j == targets j) in
    let (reads, read) = changed_before_iff k old new j in
    (
      d',
      packs,
      ((λ h. reads (to (sym here ∙ h))), λ h. here ∙ from (read h)),
      ((λ h. λ t. idle (sym here ∙ h) (read t)), λ h. here ∙ rest (λ t. h (reads t))),
    )
