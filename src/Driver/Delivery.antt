-- ===== src/Driver/Delivery.antt =====
-- From the configuration of a slave to the bytes that its command window receives: findWG05slaves
-- and configureWG05slaves against packCommand and txandrx_PD.
use mathlib.Core.Option
use pr2_ether_cat_no_ros.Base.{
  ◌∷◌, ℕ, zero, suc, ◌+◌, ◌*◌, ◌^◌, ◌<◌, ◌≡◌, ◌≢◌, sym, ◌∙◌, true, some, List, [], arith, length,
  get_elem?, take, All, replicate, if◌then◌else◌, ◌==◌, subst,
}
use pr2_ether_cat_no_ros.Base.Memory.{slice, slice_of_slice}
use pr2_ether_cat_no_ros.Eml.Library.{Library, IsDocumented}
use pr2_ether_cat_no_ros.Driver.State.{Driver, command_bytes, command_size, slot_size}
use pr2_ether_cat_no_ros.Driver.ProcessData.{target_command, max_pd_retries, update}
use pr2_ether_cat_no_ros.Driver.ProcessData.Pack.{packed_command}
use pr2_ether_cat_no_ros.Driver.ProcessData.Ready.{IsReady, packed_at, this_room}
use pr2_ether_cat_no_ros.Driver.ProcessData.Replies.{wire, network_after}
use pr2_ether_cat_no_ros.Driver.ProcessData.Network.{update_net}
use pr2_ether_cat_no_ros.Driver.Configure.{is_wg05}
use pr2_ether_cat_no_ros.Driver.Configure.Windows.{HasWindows, Distinct}
use pr2_ether_cat_no_ros.Driver.Configure.Layout.{
  IsWg05Handle, pointers, found_and_configured, window_at_slot_iff,
}

get_elem?-lt {ℓ} : {A : Type ℓ} (l : List A) (i : ℕ) (x : A) → get_elem? l i ≡ some x → i < length l
get_elem?-lt [] i x e = cc
get_elem?-lt (y ∷ l) zero x e = omega arith
get_elem?-lt (y ∷ l) (suc i) x e = omega (arith, get_elem?-lt l i x e)

module _ (a b : List ℕ) where
  chosen : (j t : ℕ) → t ≡ j → (if j == t then a else b) ≡ a
  chosen j t e = ground arith

  not_chosen : (j t : ℕ) → j ≢ t → (if j == t then a else b) ≡ b
  not_chosen j t ne = ground arith

module _ {Net : Type 0} where
  -- The command area of the slot `j` in the frame that goes out while `this_buffer_` is the lower
  -- half.
  slot_on_wire :
      (demand j : ℕ) (d : Driver Net)
      → IsReady d
      → d.this_buffer ≡ some 0
      → j < length d.slave_handles
      → slice (wire (packed_at demand 0 d)) (slot_size * j) command_size ≡ (
          if j == d.target_slave
          then command_bytes (target_command demand)
          else replicate command_size 0)
  slot_on_wire demand j d v e lt =
      slice_of_slice _ d.master_buffer_size (slot_size * j) command_size
        (omega (arith, lt, v.few, v.frame_size))
      ∙ packed_command (λ _. demand) (λ _. d.target_slave) (length d.slave_handles) 0 0 j
          d.master_buffer _ j lt (this_room 0 v e) (omega arith) (omega arith)

module _ {Net : Type 0} (lib : Library Net) (doc : IsDocumented lib) where
  -- On a bus on which the target slave `i` is a WG05 slave and so are all before it, with distinct
  -- handles, addresses below `2 ^ 32` and a library that behaves as documented: after the
  -- configuration the command window of the target slave starts at the offset `52 * i` of the
  -- process data. An `update` on ready buffers with these handles, while `this_buffer_` is the
  -- lower half, puts a frame on the network that has the command at this offset, and zeros in the
  -- command area of every other slave.
  pub command_delivered :
      (found : Driver Net) (i p demand : ℕ) (d : Driver Net)
      → found.wg05_slave_handles ≡ []
      → Distinct (pointers found.slave_handles)
      → found.start_address + slot_size * length found.slave_handles < 2 ^ 32
      → get_elem? found.slave_handles i ≡ some (some p)
      → is_wg05 found.handlers p ≡ true
      → All (IsWg05Handle found.handlers) (take i found.slave_handles)
      → IsReady d
      → d.this_buffer ≡ some 0
      → d.slave_handles ≡ found.slave_handles
      → d.target_slave ≡ i
      → (frame : List ℕ) × HasWindows
          (found.start_address + slot_size * i)
          ((found_and_configured lib doc found).handlers p)
        × (Option.map (λ s. s.net) (update lib demand d)
            ≡ network_after lib max_pd_retries d.net d.oob_com frame)
        × (slice frame (slot_size * i) command_size ≡ command_bytes (target_command demand))
        × ((j : ℕ)
            → j < length d.slave_handles
            → j ≢ i
            → slice frame (slot_size * j) command_size ≡ replicate command_size 0)
  command_delivered found i p demand d fresh apart small at w all ready low same target =
      let inside : i < length d.slave_handles =
        subst (λ l. i < length l) (sym same) (get_elem?-lt found.slave_handles i (some p) at) in
      (
        wire (packed_at demand 0 d),
        (window_at_slot_iff lib doc found i p fresh apart small at w).1 all,
        update_net lib demand 0 d ready low,
        slot_on_wire demand i d ready low inside ∙ chosen _ _ i d.target_slave target,
        λ j le ne.
            slot_on_wire demand j d ready low le
            ∙ not_chosen _ _ j d.target_slave (λ e. ne (e ∙ target)),
      )
