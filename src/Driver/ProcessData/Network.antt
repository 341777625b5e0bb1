-- ===== src/Driver/ProcessData/Network.antt =====
-- What one call of `update` leaves in the network.
use mathlib.Core.Option
use pr2_ether_cat_no_ros.Base.{
  ℕ, ◌≡◌, refl, sym, ap, ◌∙◌, Bool, Option, none, some, ◌>>=◌, arith, length,
}
use pr2_ether_cat_no_ros.Eml.Library.{Library}
use pr2_ether_cat_no_ros.Driver.State.{Driver}
use pr2_ether_cat_no_ros.Driver.ProcessData.{swap_buffers, txandrx_pd, max_pd_retries, update}
use pr2_ether_cat_no_ros.Driver.ProcessData.Pack.{packed_below}
use pr2_ether_cat_no_ros.Driver.ProcessData.Ready.{
  IsReady, packed_at, pack_command_lem, packed_at-IsReady,
}
use pr2_ether_cat_no_ros.Driver.ProcessData.Replies.{wire, network_after, txandrx_pd_net}

module _ {Net : Type 0} where
  wire_packed :
      (demand : ℕ) (d : Driver Net) → wire (packed_at demand d.master_buffer_size d) ≡ wire d
  wire_packed demand d =
      packed_below (λ _. demand) (λ _. d.target_slave) (length d.slave_handles) 0
        d.master_buffer_size d.master_buffer 0 d.master_buffer_size (omega arith)

module _ {Net : Type 0} (lib : Library Net) where
  -- The network after a whole `update`.
  pub update_net :
      (demand at : ℕ) (d : Driver Net)
      → IsReady d
      → d.this_buffer ≡ some at
      → Option.map (λ s. s.net) (update lib demand d)
        ≡ network_after lib max_pd_retries d.net d.oob_com (wire (packed_at demand at d))
  unfolding update swap_buffers
  update_net demand at d v e =
      rw (pack_command_lem demand at d v e, ◌>>=◌)
        (map_bind (txandrx_pd lib p.master_buffer_size p.this_buffer max_pd_retries p)
          ∙ txandrx_pd_net lib p.master_buffer_size p.this_buffer max_pd_retries p
              (omega (arith, (packed_at-IsReady demand at v).sized)))
    where
      p : Driver Net
      p = packed_at demand at d

      map_bind :
          (o : Option (Driver Net × Bool))
          → Option.map (λ s. s.net) (o >>= λ r. some (swap_buffers r.0))
            ≡ Option.map (λ s. s.0.net) o
      map_bind none = refl
      map_bind (some r) = refl

  -- On ready buffers with `this_buffer_` the upper half, the network sees nothing of the command:
  -- for any two demands of the controller it ends in the same state.
  pub update_ignores_demand :
      (x y : ℕ) (d : Driver Net)
      → IsReady d
      → d.this_buffer ≡ some d.master_buffer_size
      → Option.map (λ s. s.net) (update lib x d) ≡ Option.map (λ s. s.net) (update lib y d)
  update_ignores_demand x y d v e =
      update_net x d.master_buffer_size d v e
      ∙ ap (network_after lib max_pd_retries d.net d.oob_com)
          (wire_packed x d ∙ sym (wire_packed y d))
      ∙ sym (update_net y d.master_buffer_size d v e)
