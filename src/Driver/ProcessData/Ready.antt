-- ===== src/Driver/ProcessData/Ready.antt =====
-- The invariant of the process data buffers after `setMasterBuffer`, and the cycle in closed form.
use pr2_ether_cat_no_ros.Base.{
  ℕ, ◌+◌, ◌*◌, ◌≤◌, ◌≡◌, refl, ap, ◌∙◌, ◌⊎◌, Option, none, some, List, [], ◌∷◌, ◌>>=◌, arith,
  length,
}
use pr2_ether_cat_no_ros.Base.Memory.{IsBytes}
use pr2_ether_cat_no_ros.Com.Oob.Tx.{IsSound}
use pr2_ether_cat_no_ros.Driver.State.{Driver, slot_size}
use pr2_ether_cat_no_ros.Driver.ProcessData.{pack_at, pack_racing, pack_command, swap_buffers}
use pr2_ether_cat_no_ros.Driver.ProcessData.Pack.{
  packed, length-packed, packed-IsBytes, pack_from_lem,
}

module _ {Net : Type 0} where
  -- `this_buffer_` and `prev_buffer_` are the two halves of the array, in one order or the other.
  abbrev pub Halves : Driver Net → Type 0
  Halves d =
      ((d.this_buffer ≡ some 0) × (d.prev_buffer ≡ some d.master_buffer_size))
      ⊎ ((d.this_buffer ≡ some d.master_buffer_size) × (d.prev_buffer ≡ some 0))

  -- The array at `Master_Buffer_` holds two frames of bytes.
  pub record IsFramed (d : Driver Net) : Type 0 where
    pub sized : length d.master_buffer ≡ 2 * d.master_buffer_size
    pub bytes : IsBytes d.master_buffer
    pub oob_sound : IsSound d.oob_com

  -- Besides, the frame has a slot for each slave, and the two pointers are set.
  pub record IsReady (d : Driver Net) : Type 0 where
    pub framed : IsFramed d
    pub open framed use *
    pub frame_size : d.master_buffer_size ≡ slot_size * d.num_slaves
    pub few : length d.slave_handles ≤ d.num_slaves
    pub halves : Halves d

  -- All that a cycle leaves alone but for the exchange of the two pointers.
  pub record SamePlan (d d' : Driver Net) : Type 0 where
    pub same_num_slaves : d'.num_slaves ≡ d.num_slaves
    pub same_slave_handles : d'.slave_handles ≡ d.slave_handles
    pub same_size : d'.master_buffer_size ≡ d.master_buffer_size
    pub same_this : d'.this_buffer ≡ d.this_buffer
    pub same_prev : d'.prev_buffer ≡ d.prev_buffer
    pub same_target : d'.target_slave ≡ d.target_slave

  -- The driver after `packCommand` with `this_buffer_` at the offset `at`, for the values that the
  -- rounds of its loop read.
  abbrev pub written_at : (ℕ → ℕ) → (ℕ → ℕ) → ℕ → Driver Net → Driver Net
  written_at demands targets at d = record d {
    master_buffer = packed demands targets (length d.slave_handles) 0 at d.master_buffer;
  }

  -- The same with nobody writing.
  abbrev pub packed_at : ℕ → ℕ → Driver Net → Driver Net
  packed_at demand at d = written_at (λ _. demand) (λ _. d.target_slave) at d

  pack_at_lem :
      (demands targets : ℕ → ℕ) (at : ℕ) (d : Driver Net) (hs : List (Option ℕ))
      → at + slot_size * length hs ≤ length d.master_buffer
      → pack_at demands targets d hs (some at)
        ≡ some
            (record d { master_buffer = packed demands targets (length hs) 0 at d.master_buffer })
  unfolding pack_at packed
  pack_at_lem demands targets at d [] h = refl
  pack_at_lem demands targets at d (p ∷ hs) h =
      rw (pack_from_lem demands targets (p ∷ hs) 0 at d.master_buffer h, ◌>>=◌)

  -- `this_buffer_` leaves room for a frame.
  pub this_room :
      {d : Driver Net} (at : ℕ)
      → IsReady d
      → d.this_buffer ≡ some at
      → at + slot_size * length d.slave_handles ≤ length d.master_buffer
  this_room at v e = ground arith

  pub pack_racing_lem :
      (demands targets : ℕ → ℕ) (at : ℕ) (d : Driver Net)
      → IsReady d
      → d.this_buffer ≡ some at
      → pack_racing demands targets d ≡ some (written_at demands targets at d)
  unfolding pack_racing
  pack_racing_lem demands targets at d v e =
      ap (pack_at demands targets d d.slave_handles) e
      ∙ pack_at_lem demands targets at d d.slave_handles (this_room at v e)

  -- `packCommand` with nobody writing is the case of rounds that all read the same.
  pub pack_command_racing :
      (demand : ℕ) (d : Driver Net)
      → pack_command demand d ≡ pack_racing (λ _. demand) (λ _. d.target_slave) d
  unfolding pack_command pack_racing
  pack_command_racing demand d = refl

  pub pack_command_lem :
      (demand at : ℕ) (d : Driver Net)
      → IsReady d
      → d.this_buffer ≡ some at
      → pack_command demand d ≡ some (packed_at demand at d)
  pack_command_lem demand at d v e = pack_command_racing demand d ∙ pack_racing_lem _ _ at d v e

  pub written_at-IsReady :
      (demands targets : ℕ → ℕ) (at : ℕ) {d : Driver Net}
      → IsReady d
      → IsReady (written_at demands targets at d)
  written_at-IsReady demands targets at {d} v = record {
    framed = record {
      sized = length-packed demands targets (length d.slave_handles) 0 at d.master_buffer ∙ v.sized;
      bytes = packed-IsBytes demands targets (length d.slave_handles) 0 at d.master_buffer v.bytes;
      oob_sound = v.oob_sound;
    };
    frame_size = v.frame_size;
    few = v.few;
    halves = v.halves;
  }

  pub packed_at-IsReady :
      (demand at : ℕ) {d : Driver Net} → IsReady d → IsReady (packed_at demand at d)
  packed_at-IsReady demand at v = written_at-IsReady _ _ at v

  pub swap_buffers-IsReady : {d : Driver Net} → IsReady d → IsReady (swap_buffers d)
  unfolding swap_buffers
  swap_buffers-IsReady v = record {
    framed = record { sized = v.sized; bytes = v.bytes; oob_sound = v.oob_sound };
    frame_size = v.frame_size;
    few = v.few;
    halves = ground arith;
  }

  pub SamePlan-IsReady : {d d' : Driver Net} → IsReady d → SamePlan d d' → IsFramed d' → IsReady d'
  SamePlan-IsReady v plan framed = record {
    framed = framed;
    frame_size = ground arith;
    few = ground arith;
    halves = ground arith;
  }

module _ {Net : Type 0} where
  -- `packCommand` sends nothing.
  pack_at-net :
      (demands targets : ℕ → ℕ) (d d' : Driver Net) (hs : List (Option ℕ)) (at : Option ℕ)
      → pack_at demands targets d hs at ≡ some d'
      → (d'.net ≡ d.net) × (d'.oob_com ≡ d.oob_com)
  unfolding pack_at
  pack_at-net demands targets d d' [] at e = (cc, cc)
  pack_at-net demands targets d d' (h ∷ hs) none e = cc
  pack_at-net demands targets d d' (h ∷ hs) (some at) e = (ground arith, ground arith)

  pub pack_racing-net :
      (demands targets : ℕ → ℕ) (d d' : Driver Net)
      → pack_racing demands targets d ≡ some d'
      → (d'.net ≡ d.net) × (d'.oob_com ≡ d.oob_com)
  unfolding pack_racing
  pack_racing-net demands targets d d' e =
      pack_at-net demands targets d d' d.slave_handles d.this_buffer e
