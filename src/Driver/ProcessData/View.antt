-- ===== src/Driver/ProcessData/View.antt =====
-- The process data cycle with the upper half of the array left out: one frame, which takes the
-- command in every other cycle.
use mathlib.Core.Option
use pr2_ether_cat_no_ros.Base.{
  ℕ, zero, suc, ◌+◌, ◌*◌, ◌<◌, ◌≤◌, ◌≡◌, refl, sym, ap, ◌∙◌, ◌⊎◌, inl, inr, Bool, true, false, not,
  Option, none, some, List, if◌then◌else◌, ◌>>=◌, ◌==◌, arith, length,
}
use pr2_ether_cat_no_ros.Base.Memory.{
  length-slice, slice, splice, slice-splice, slice-splice_within,
}
use pr2_ether_cat_no_ros.Eml.Library.{Library, IsDocumented}
use pr2_ether_cat_no_ros.Com.Oob.{Oob, tx}
use pr2_ether_cat_no_ros.Driver.State.{Driver, slot_size}
use pr2_ether_cat_no_ros.Driver.ProcessData.{
  rt_thread, give_turn, txandrx_pd, swap_buffers, max_pd_retries, with_reply, update,
}
use pr2_ether_cat_no_ros.Driver.ProcessData.Pack.{
  slot_command, length-slot_command, packed, packed_below,
}
use pr2_ether_cat_no_ros.Driver.ProcessData.Ready.{
  IsReady, packed_at, pack_command_lem, packed_at-IsReady,
}
use pr2_ether_cat_no_ros.Driver.ProcessData.Replies.{
  wire, first_reply, first_reply_length, attempts_lem,
}
use pr2_ether_cat_no_ros.Driver.ProcessData.Update.{this_at}

-- All of the driver that the network ever sees.
pub record View (Net : Type 0) : Type 0 where
  pub net : Net
  pub oob_com : Oob
  pub frame : List ℕ  -- the lower half
  pub lower : Bool  -- whether `this_buffer_` is the lower half
  pub target : ℕ
  pub slaves : ℕ

abbrev pub is_lower : Option ℕ → Bool
is_lower none = false
is_lower (some at) = at == 0

abbrev pub view : {Net : Type 0} → Driver Net → View Net
view d = record {
  net = d.net;
  oob_com = d.oob_com;
  frame = wire d;
  lower = is_lower d.this_buffer;
  target = d.target_slave;
  slaves = length d.slave_handles;
}

packed_within :
    (demands targets : ℕ → ℕ) (n i at : ℕ) (m : List ℕ) (k : ℕ)
    → at + slot_size * n ≤ k
    → slice (packed demands targets n i at m) 0 k ≡ packed demands targets n i at (slice m 0 k)
unfolding packed
packed_within demands targets zero i at m k h = refl
packed_within demands targets (suc n) i at m k h =
    packed_within demands targets n (i + 1) (at + slot_size) _ k (omega arith)
    ∙ ap (packed demands targets n (i + 1) (at + slot_size)) (
        slice-splice_within m at (slot_command (demands i) (i == targets i)) k
          (omega (arith, length-slot_command (demands i) (i == targets i))))

module _ {Net : Type 0} (lib : Library Net) where
  -- What a try of the frame leads to: with a reply, which becomes the frame, or with a turn for the
  -- out-of-band frame.
  abbrev pub after_reply : View Net → Net × Option (List ℕ) → Option (View Net)
  after_reply v (net, some got) = some (record v { net = net; frame = got; lower = not v.lower })
  after_reply v (net, none) = do
    t ← tx lib rt_thread net v.oob_com
    some (record v { net = t.0; oob_com = t.1; lower = not v.lower })

  -- The frame takes the command only while `this_buffer_` is the lower half.
  abbrev pub with_command : ℕ → View Net → View Net
  with_command demand v = record v {
    frame = if v.lower then packed (λ _. demand) (λ _. v.target) v.slaves 0 0 v.frame else v.frame;
  }

  -- One cycle.
  unfoldable pub cycle_view : ℕ → View Net → Option (View Net)
  cycle_view demand v =
      after_reply (with_command demand v)
        (first_reply lib max_pd_retries v.net (with_command demand v).frame)

module _ {Net : Type 0} (lib : Library Net) where
  frame_packed :
      (demand at : ℕ) (d : Driver Net)
      → IsReady d
      → 0 < d.master_buffer_size
      → d.this_buffer ≡ some at
      → (at ≡ 0) ⊎ (at ≡ d.master_buffer_size)
      → wire (packed_at demand at d) ≡ (with_command lib demand (view d)).frame
  frame_packed demand at d v some_slot e (inl low) =
      let yes_lower : is_lower d.this_buffer ≡ true = ground arith in
      rw (yes_lower, low)
        (packed_within (λ _. demand) (λ _. d.target_slave) (length d.slave_handles) 0 0
          d.master_buffer d.master_buffer_size (omega (arith, v.few, v.frame_size)))
  frame_packed demand at d v some_slot e (inr high) =
      let not_lower : is_lower d.this_buffer ≡ false = ground arith in
      rw (not_lower, high)
        (packed_below (λ _. demand) (λ _. d.target_slave) (length d.slave_handles) 0
          d.master_buffer_size d.master_buffer 0 d.master_buffer_size (omega arith))

  lower_after :
      (d : Driver Net)
      → IsReady d
      → 0 < d.master_buffer_size
      → is_lower d.prev_buffer ≡ not (is_lower d.this_buffer)
  lower_after d v some_slot = elim (v.halves) [
    | inl (a, b) ↦ ground arith
    | inr (a, b) ↦ ground arith
  ]

  -- The end of a cycle, seen without the upper half.
  end_view :
      (p : Driver Net) (reply : Net × Option (List ℕ))
      → IsReady p
      → 0 < p.master_buffer_size
      → ((got : List ℕ) → reply.1 ≡ some got → length got ≡ length (wire p))
      → Option.map
          (λ d. view d)
          (give_turn lib (with_reply p reply) >>= λ r. some (swap_buffers r.0))
        ≡ after_reply lib (view p) reply
  unfolding give_turn swap_buffers
  end_view p (net, some got) v some_slot long =
      let sized : length got ≡ p.master_buffer_size =
        long got refl
        ∙ length-slice p.master_buffer 0 p.master_buffer_size (omega (arith, v.sized)) in
      let front : slice (splice p.master_buffer 0 got) 0 p.master_buffer_size ≡ got =
        ap (slice (splice p.master_buffer 0 got) 0) (sym sized)
        ∙ slice-splice p.master_buffer 0 got (omega (arith, sized, v.sized)) in
      ap (λ f. some (record (view p) { net = net; frame = f; lower = is_lower p.prev_buffer }))
        front
      ∙ ap (λ b. some (record (view p) { net = net; frame = got; lower = b }))
          (lower_after p v some_slot)
  end_view p (net, none) v some_slot long = go (tx lib rt_thread net p.oob_com)
    where
      turned : Net × Oob → Driver Net × Bool
      turned r = (record p { net = r.0; oob_com = r.1 }, false)

      seen : Net × Oob → View Net
      seen t = record (view p) { net = t.0; oob_com = t.1; lower = not (is_lower p.this_buffer) }

      go :
          (o : Option (Net × Oob))
          → Option.map (λ d. view d) ((o >>= λ r. some (turned r)) >>= λ r. some (swap_buffers r.0))
            ≡ (o >>= λ t. some (seen t))
      go none = refl
      go (some t) =
          ap (λ b. some (record (view p) { net = t.0; oob_com = t.1; lower = b }))
            (lower_after p v some_slot)

  module _ (doc : IsDocumented lib) where
    -- With a documented library and at least one slave, one `update` on ready buffers does to what
    -- the network sees of the driver what one cycle of the single frame does.
    pub update-view :
        (demand : ℕ) (d : Driver Net)
        → IsReady d
        → 0 < d.master_buffer_size
        → Option.map (λ x. view x) (update lib demand d) ≡ cycle_view lib demand (view d)
    unfolding update txandrx_pd cycle_view
    update-view demand d v some_slot =
        let (at, e, place) = this_at v in
        let p = packed_at demand at d in
        let ready = packed_at-IsReady demand at v in
        let framed = frame_packed demand at d v some_slot e place in
        let reply = first_reply lib max_pd_retries p.net (wire p) in
        let ended =
          end_view p reply ready some_slot
            (first_reply_length lib doc max_pd_retries p.net (wire p)) in
        rw
          (
            pack_command_lem demand at d v e,
            ◌>>=◌,
            attempts_lem lib max_pd_retries p (omega (arith, ready.sized)),
          )
          (ended
            ∙ ap
                (λ f.
                  after_reply lib (record (view d) { frame = f })
                    (first_reply lib max_pd_retries d.net f))
                framed)
