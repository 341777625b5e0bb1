-- ===== src/Driver/ProcessData/Update.antt =====
-- What one call of `update` does to the buffers.
use mathlib.Core.Path.{subst}
use pr2_ether_cat_no_ros.Base.{
  ℕ, ◌+◌, ◌*◌, ◌<◌, ◌≡◌, refl, sym, ap, ◌∙◌, ◌⊎◌, inl, inr, some, ◌==◌, if◌then◌else◌, ◌>>=◌, arith,
  length, replicate,
}
use pr2_ether_cat_no_ros.Base.Memory.{slice}
use pr2_ether_cat_no_ros.Eml.Library.{Library, IsDocumented}
use pr2_ether_cat_no_ros.Driver.State.{Driver, command_bytes, command_size, slot_size, status_size}
use pr2_ether_cat_no_ros.Driver.ProcessData.{
  pack_racing, pack_command, swap_buffers, max_pd_retries, update, update_racing, target_command,
}
use pr2_ether_cat_no_ros.Driver.ProcessData.Pack.{
  slot_command, packed_command, packed_status, packed_above,
}
use pr2_ether_cat_no_ros.Driver.ProcessData.Ready.{
  IsReady, written_at, pack_racing_lem, pack_command_racing, written_at-IsReady,
  swap_buffers-IsReady, this_room, SamePlan-IsReady,
}
use pr2_ether_cat_no_ros.Driver.ProcessData.Cycle.{txandrx_pd_total, with_reply_above}

module _ {Net : Type 0} where
  -- One of the halves is where `this_buffer_` points.
  pub this_at :
      {d : Driver Net}
      → IsReady d
      → (at : ℕ) × (d.this_buffer ≡ some at) × ((at ≡ 0) ⊎ (at ≡ d.master_buffer_size))
  this_at {d} v = elim (v.halves) [
    | inl (low, _) ↦ (0, low, inl refl)
    | inr (high, _) ↦ (d.master_buffer_size, high, inr refl)
  ]

  -- The command area of the slave `j` holds what its round has found.
  pub racing_slot :
      (demands targets : ℕ → ℕ) (at j : ℕ) (d : Driver Net)
      → IsReady d
      → d.this_buffer ≡ some at
      → j < length d.slave_handles
      → (d' : Driver Net) × (pack_racing demands targets d ≡ some d')
        × (slice d'.master_buffer (at + slot_size * j) command_size
            ≡ slot_command (demands j) (j == targets j))
  racing_slot demands targets at j d v e lt = (
    written_at demands targets at d,
    pack_racing_lem demands targets at d v e,
    packed_command demands targets (length d.slave_handles) 0 at j d.master_buffer _ j lt
        (this_room at v e) refl (omega arith),
  )

  -- On ready buffers `packCommand` does not fault, and the command area of each slave that has a
  -- handle then holds the command if it is the target slave, and else zeros.
  pub pack_command_slot :
      (demand at j : ℕ) (d : Driver Net)
      → IsReady d
      → d.this_buffer ≡ some at
      → j < length d.slave_handles
      → (d' : Driver Net) × (pack_command demand d ≡ some d')
        × (slice d'.master_buffer (at + slot_size * j) command_size ≡ (
            if j == d.target_slave
            then command_bytes (target_command demand)
            else replicate command_size 0))
  pack_command_slot demand at j d v e lt =
      let (d', packs, here) = racing_slot (λ _. demand) (λ _. d.target_slave) at j d v e lt in
      (d', pack_command_racing demand d ∙ packs, here)

  -- What `update` does to ready buffers: they stay ready, of the same size and with the halves
  -- exchanged, and the status areas of the upper half are what they were.
  pub record IsUpdated (d d' : Driver Net) : Type 0 where
    pub ready : IsReady d'
    pub new_this : d'.this_buffer ≡ d.prev_buffer
    pub new_prev : d'.prev_buffer ≡ d.this_buffer
    pub same_size : d'.master_buffer_size ≡ d.master_buffer_size
    pub same_handles : d'.slave_handles ≡ d.slave_handles
    pub same_target : d'.target_slave ≡ d.target_slave
    pub same_upper :
        (j : ℕ)
        → slice d'.master_buffer (d.master_buffer_size + slot_size * j + command_size) status_size
          ≡ slice d.master_buffer (d.master_buffer_size + slot_size * j + command_size) status_size

  upper_status :
      (demands targets : ℕ → ℕ) (at j : ℕ) (d : Driver Net)
      → IsReady d
      → (at ≡ 0) ⊎ (at ≡ d.master_buffer_size)
      → slice
          (written_at demands targets at d).master_buffer
          (d.master_buffer_size + slot_size * j + command_size)
          status_size
        ≡ slice d.master_buffer (d.master_buffer_size + slot_size * j + command_size) status_size
  upper_status demands targets at j d v (inl low) =
      packed_above demands targets (length d.slave_handles) 0 at d.master_buffer _ status_size
        (omega (arith, v.few, v.frame_size))
  upper_status demands targets at j d v (inr high) =
      packed_status demands targets (length d.slave_handles) 0 at j d.master_buffer _ (omega arith)

module _ {Net : Type 0} (lib : Library Net) (doc : IsDocumented lib) where
  -- Whatever the rounds of the loop of `packCommand` read of `target_slave` and of the amplitude.
  pub update_racing_total :
      (demands targets : ℕ → ℕ) (d : Driver Net)
      → IsReady d
      → (d' : Driver Net) × (update_racing lib demands targets d ≡ some d') × IsUpdated d d'
  unfolding update_racing swap_buffers
  update_racing_total demands targets d v =
      let (at, e, place) = this_at v in
      let p = written_at demands targets at d in
      let ready = written_at-IsReady demands targets at v in
      let (r, sent, kept, plan, _, buffer_is) =
        txandrx_pd_total lib doc p.master_buffer_size p.this_buffer max_pd_retries p ready.framed in
      (
        swap_buffers r.0,
        rw (pack_racing_lem demands targets at d v e, ◌>>=◌, sent) refl,
        record {
          ready = swap_buffers-IsReady (SamePlan-IsReady ready plan kept);
          new_this = plan.same_prev;
          new_prev = plan.same_this;
          same_size = plan.same_size;
          same_handles = plan.same_slave_handles;
          same_target = plan.same_target;
          same_upper = λ j.
              ap (λ m. slice m (d.master_buffer_size + slot_size * j + command_size) status_size)
                buffer_is
              ∙ with_reply_above lib doc max_pd_retries p _ status_size ready.framed (omega arith)
              ∙ upper_status demands targets at j d v place;
        },
      )

  pub update_as_racing :
      (demand : ℕ) (d : Driver Net)
      → update lib demand d ≡ update_racing lib (λ _. demand) (λ _. d.target_slave) d
  unfolding update update_racing pack_command pack_racing
  update_as_racing demand d = refl

  -- With a library that behaves as documented, `update` on ready buffers never faults, and
  -- leaves them ready, of the same size and with the halves exchanged. The status areas of the
  -- upper half are what they were.
  pub update_total :
      (demand : ℕ) (d : Driver Net)
      → IsReady d
      → (d' : Driver Net) × (update lib demand d ≡ some d')
        × IsReady d'
        × (d'.this_buffer ≡ d.prev_buffer)
        × (d'.prev_buffer ≡ d.this_buffer)
        × (d'.master_buffer_size ≡ d.master_buffer_size)
        × ((j : ℕ)
            → slice d'.master_buffer
                (d.master_buffer_size + slot_size * j + command_size)
                status_size
              ≡ slice d.master_buffer
                  (d.master_buffer_size + slot_size * j + command_size)
                  status_size)
  update_total demand d v =
      let (d', e, u) = update_racing_total (λ _. demand) (λ _. d.target_slave) d v in
      (
        d',
        update_as_racing demand d ∙ e,
        u.ready,
        u.new_this,
        u.new_prev,
        u.same_size,
        u.same_upper,
      )

  -- What `update_racing_total` shows, for a result that is known.
  pub update_racing-IsUpdated :
      (demands targets : ℕ → ℕ) (d d' : Driver Net)
      → IsReady d
      → update_racing lib demands targets d ≡ some d'
      → IsUpdated d d'
  update_racing-IsUpdated demands targets d d' v h =
      let (d1, e, u) = update_racing_total demands targets d v in
      let same : d1 ≡ d' = cc in subst (IsUpdated d) same u

  -- `update` changes no handle.
  pub update_handles :
      (demand : ℕ) (d d' : Driver Net)
      → IsReady d
      → update lib demand d ≡ some d'
      → d'.slave_handles ≡ d.slave_handles
  update_handles demand d d' v h =
      (update_racing-IsUpdated (λ _. demand) (λ _. d.target_slave) d d' v
        (sym (update_as_racing demand d) ∙ h)).same_handles
