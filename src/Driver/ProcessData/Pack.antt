-- ===== src/Driver/ProcessData/Pack.antt =====
-- What `packCommand` writes, and where.
use pr2_ether_cat_no_ros.Base.{
  ℕ, zero, suc, ◌+◌, ◌*◌, ◌%◌, ◌/◌, ◌^◌, ◌≤◌, ◌<◌, ◌≡◌, refl, sym, ap, ◌∙◌, Bool, true, false,
  Option, some, List, [], ◌∷◌, ◌++◌, ◌==◌, if◌then◌else◌, ◌>>=◌, arith, length, replicate,
  All-append,
}
use pr2_ether_cat_no_ros.Base.Memory.{
  IsByte, IsBytes, slice, splice, length-splice, slice-splice, slice-splice_below,
  slice-splice_above, splice-IsBytes, splice-splice, write_bytes_within,
}
use pr2_ether_cat_no_ros.Driver.State.{command_bytes, command_size, slot_size, status_size}
use pr2_ether_cat_no_ros.Driver.Checksum.{compute_checksum, rotate_right8}
use pr2_ether_cat_no_ros.Driver.Checksum.Laws.{
  compute_checksum-IsByte, rotate_right8-IsByte, compute_checksum-rotate_right8,
}
use pr2_ether_cat_no_ros.Driver.ProcessData.{target_command, pack_slot, pack_from}

-- The bytes that a slave's command area holds after `packCommand`.
abbrev pub slot_command : ℕ → Bool → List ℕ
slot_command demand target =
    if target then command_bytes (target_command demand) else replicate command_size 0

-- The command without its checksum.
abbrev pub command_body : ℕ → List ℕ
command_body demand = 3 ∷ 0 ∷ 0 ∷ 0 ∷ demand % 2 ^ 16 % 256 ∷ demand % 2 ^ 16 / 256 ∷ 0 ∷ []

command_body-IsBytes : (demand : ℕ) → IsBytes (command_body demand)
command_body-IsBytes demand = omega arith

pub target_command_bytes :
    (demand : ℕ)
    → command_bytes (target_command demand)
      ≡ command_body demand ++ rotate_right8 (compute_checksum (command_body demand)) ∷ []
unfolding command_bytes target_command
target_command_bytes demand = refl

-- The command that is sent passes the receiver's test: its checksum comes out as 0.
pub compute_checksum-target_command :
    (demand : ℕ) → compute_checksum (command_bytes (target_command demand)) ≡ 0
compute_checksum-target_command demand =
    ap compute_checksum (target_command_bytes demand)
    ∙ compute_checksum-rotate_right8 (command_body demand) (command_body-IsBytes demand)

target_command-IsBytes : (demand : ℕ) → IsBytes (command_bytes (target_command demand))
target_command-IsBytes demand = rw (target_command_bytes demand) (
    All-append IsByte (command_body demand)
      (rotate_right8 (compute_checksum (command_body demand)) ∷ []) body
      (rotate_right8-IsByte _ (compute_checksum-IsByte (command_body demand) body), tt))
  where
    body : IsBytes (command_body demand)
    body = command_body-IsBytes demand

pub length-slot_command :
    (demand : ℕ) (target : Bool) → length (slot_command demand target) ≡ command_size
unfolding command_bytes
length-slot_command demand true = refl
length-slot_command demand false = refl

slot_command-IsBytes : (demand : ℕ) (target : Bool) → IsBytes (slot_command demand target)
slot_command-IsBytes demand true = target_command-IsBytes demand
slot_command-IsBytes demand false = omega arith

pack_slot_lem :
    (demand : ℕ) (target : Bool) (at : ℕ) (m : List ℕ)
    → at + command_size ≤ length m
    → pack_slot demand target at m ≡ some (splice m at (slot_command demand target))
unfolding pack_slot
pack_slot_lem demand false at m h = rw (write_bytes_within m at (replicate command_size 0) h, ◌>>=◌)
pack_slot_lem demand true at m h =
    rw
      (
        write_bytes_within m at (replicate command_size 0) h,
        ◌>>=◌,
        write_bytes_within cleared at sent (omega (arith, sized, length-splice m at zeros)),
      )
      (ap some (splice-splice m at zeros sent (omega (arith, sized))))
  where
    zeros : List ℕ
    zeros = replicate command_size 0

    cleared : List ℕ
    cleared = splice m at zeros

    sent : List ℕ
    sent = command_bytes (target_command demand)

    sized : length sent ≡ command_size
    sized = length-slot_command demand true

-- The buffer after the rounds of the loop for `n` slaves, of which the first has the index `i`.
unfoldable pub packed : (ℕ → ℕ) → (ℕ → ℕ) → ℕ → ℕ → ℕ → List ℕ → List ℕ
packed demands targets zero i at m = m
packed demands targets (suc n) i at m =
    packed demands targets n (i + 1) (at + slot_size)
      (splice m at (slot_command (demands i) (i == targets i)))

module _ (demands targets : ℕ → ℕ) where
  pub length-packed :
      (n i at : ℕ) (m : List ℕ) → length (packed demands targets n i at m) ≡ length m
  unfolding packed
  length-packed zero i at m = refl
  length-packed (suc n) i at m = length-packed n (i + 1) (at + slot_size) _ ∙ length-splice m at _

  pub packed-IsBytes :
      (n i at : ℕ) (m : List ℕ) → IsBytes m → IsBytes (packed demands targets n i at m)
  unfolding packed
  packed-IsBytes zero i at m h = h
  packed-IsBytes (suc n) i at m h =
      packed-IsBytes n (i + 1) (at + slot_size) _
        (splice-IsBytes m at _ h (slot_command-IsBytes (demands i) (i == targets i)))

  -- With room for the slots the loop does not fault, and writes what `packed` says.
  pub pack_from_lem :
      (hs : List (Option ℕ)) (i at : ℕ) (m : List ℕ)
      → at + slot_size * length hs ≤ length m
      → pack_from demands targets hs i at m ≡ some (packed demands targets (length hs) i at m)
  unfolding pack_from packed
  pack_from_lem [] i at m h = refl
  pack_from_lem (p ∷ hs) i at m h =
      rw (pack_slot_lem (demands i) (i == targets i) at m (omega arith), ◌>>=◌)
        (pack_from_lem hs (i + 1) (at + slot_size) _
          (omega (arith, length-splice m at (slot_command (demands i) (i == targets i)))))

  pub packed_below :
      (n i at : ℕ) (m : List ℕ) (a k : ℕ)
      → a + k ≤ at
      → slice (packed demands targets n i at m) a k ≡ slice m a k
  unfolding packed
  packed_below zero i at m a k h = refl
  packed_below (suc n) i at m a k h =
      packed_below n (i + 1) (at + slot_size) _ a k (omega arith) ∙ slice-splice_below m at _ a k h

  pub packed_above :
      (n i at : ℕ) (m : List ℕ) (a k : ℕ)
      → at + slot_size * n ≤ a
      → slice (packed demands targets n i at m) a k ≡ slice m a k
  unfolding packed
  packed_above zero i at m a k h = refl
  packed_above (suc n) i at m a k h =
      packed_above n (i + 1) (at + slot_size) _ a k (omega arith)
      ∙ slice-splice_above m at _ a k
          (omega (arith, length-slot_command (demands i) (i == targets i)))

  -- The command area of the slot `j` of the loop, at the offset `p` and for the slave `q`.
  pub packed_command :
      (n i at j : ℕ) (m : List ℕ) (p q : ℕ)
      → j < n
      → at + slot_size * n ≤ length m
      → p ≡ at + slot_size * j
      → q ≡ i + j
      → slice (packed demands targets n i at m) p command_size
        ≡ slot_command (demands q) (q == targets q)
  unfolding packed
  packed_command zero i at j m p q lt h ep eq = absurd (omega arith)
  packed_command (suc n) i at zero m p q lt h ep eq =
      let here : p ≡ at = omega arith in
      let index : q ≡ i = omega arith in
      let sized = length-slot_command (demands i) (i == targets i) in
      rw (here, index)
        (packed_below n (i + 1) (at + slot_size) _ at command_size (omega arith)
          ∙ ap (slice (splice m at (slot_command (demands i) (i == targets i))) at) (sym sized)
          ∙ slice-splice m at (slot_command (demands i) (i == targets i)) (omega (arith, sized)))
  packed_command (suc n) i at (suc j) m p q lt h ep eq =
      packed_command n (i + 1) (at + slot_size) j _ p q (omega arith)
        (omega (arith, length-splice m at (slot_command (demands i) (i == targets i))))
        (omega arith) (omega arith)

  -- The status area of any slot, inside the loop or not, at the offset `p`.
  pub packed_status :
      (n i at j : ℕ) (m : List ℕ) (p : ℕ)
      → p ≡ at + slot_size * j + command_size
      → slice (packed demands targets n i at m) p status_size ≡ slice m p status_size
  unfolding packed
  packed_status zero i at j m p ep = refl
  packed_status (suc n) i at zero m p ep =
      packed_below n (i + 1) (at + slot_size) _ p status_size (omega arith)
      ∙ slice-splice_above m at _ p status_size
          (omega (arith, length-slot_command (demands i) (i == targets i)))
  packed_status (suc n) i at (suc j) m p ep =
      packed_status n (i + 1) (at + slot_size) j _ p (omega arith)
      ∙ slice-splice_above m at _ p status_size
          (omega (arith, length-slot_command (demands i) (i == targets i)))
