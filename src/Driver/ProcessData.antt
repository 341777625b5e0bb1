-- ===== src/Driver/ProcessData.antt =====
-- The process data cycle: `packCommand` and `update` of driver/wg05.cpp, and `txandrx_PD` of
-- driver/master_driver.cpp. A read or a write outside the buffer is a fault, `none`.
pub mod Pack
pub mod Ready
pub mod Replies
pub mod Cycle
pub mod Update
pub mod Network
pub mod View
pub mod Current
pub mod Racing
use pr2_ether_cat_no_ros.Base.{
  ℕ, zero, suc, ◌+◌, ◌-◌, ◌*◌, ◌/◌, ◌%◌, ◌^◌, bit_or, Bool, true, false, Option, none, some, List,
  [], ◌∷◌, ◌==◌, ltb, if◌then◌else◌, ◌>>=◌, take, replicate, length,
}
use pr2_ether_cat_no_ros.Base.Memory.{read_bytes, write_bytes, splice, slice}
use pr2_ether_cat_no_ros.Eml.Library.{Library}
use pr2_ether_cat_no_ros.Com.Oob.{tx}
use pr2_ether_cat_no_ros.Driver.State.{
  Driver, Command, command_bytes, command_size, slot_size, mode_enable, mode_current,
}
use pr2_ether_cat_no_ros.Driver.Checksum.{rotate_right8, compute_checksum}

-- The real-time thread, as an owner of locks.
abbrev pub rt_thread : ℕ
rt_thread = 0

-- `*c` after the assignments of `packCommand`, the checksum over the first `command_size - 1`
-- bytes. `demand` is the value of the expression in `double`, cast to `int`: its 32-bit pattern.
unfoldable pub target_command : ℕ → Command
unfolding command_bytes compute_checksum rotate_right8
target_command demand = record c {
  checksum = rotate_right8 (compute_checksum (take (command_size - 1) (command_bytes c)));
}
  where
    c : Command
    c = record {
      mode = bit_or mode_enable mode_current;
      digital_out = 0;
      programmed_pwm = 0;
      programmed_current = demand % 2 ^ 16;
      pad = 0;
      checksum = 0;
    }

-- One round of the loop of `packCommand`: `memset`, and the command where `i == target_slave`.
unfoldable pub pack_slot : ℕ → Bool → ℕ → List ℕ → Option (List ℕ)
pack_slot demand target at m = do
  cleared ← write_bytes m at (replicate command_size 0)
  if target then write_bytes cleared at (command_bytes (target_command demand)) else some cleared

-- The loop, from the slave `i` on, with the pointer at `at`. A `NULL` handle is only reported. Each
-- round reads `target_slave` and the amplitude anew: `targets i` and `demands i` are what it finds.
unfoldable pub pack_from : (ℕ → ℕ) → (ℕ → ℕ) → List (Option ℕ) → ℕ → ℕ → List ℕ → Option (List ℕ)
pack_from demands targets [] i at m = some m
pack_from demands targets (h ∷ hs) i at m = do
  m' ← pack_slot (demands i) (i == targets i) at m
  pack_from demands targets hs (i + 1) (at + slot_size) m'

-- `max_pd_retries_`
abbrev pub max_pd_retries : ℕ
max_pd_retries = 20

module _ {Net : Type 0} where
  -- With no handles the loop does not look at the pointer; else a null pointer is a fault.
  pack_at : (ℕ → ℕ) → (ℕ → ℕ) → Driver Net → List (Option ℕ) → Option ℕ → Option (Driver Net)
  pack_at demands targets d [] p = some d
  pack_at demands targets d (h ∷ hs) none = none
  pack_at demands targets d (h ∷ hs) (some at) = do
    m ← pack_from demands targets (h ∷ hs) 0 at (d.master_buffer)
    some (record d { master_buffer = m })

  -- `packCommand` while `main` may write `target_slave` and the amplitude
  unfoldable pub pack_racing : (ℕ → ℕ) → (ℕ → ℕ) → Driver Net → Option (Driver Net)
  unfolding pack_at
  pack_racing demands targets d = pack_at demands targets d (d.slave_handles) (d.this_buffer)

  -- `packCommand` with nobody writing, at a moment when the sine asks for `demand`
  unfoldable pub pack_command : ℕ → Driver Net → Option (Driver Net)
  unfolding pack_at
  pack_command demand d =
      pack_at (λ _. demand) (λ _. d.target_slave) d (d.slave_handles) (d.this_buffer)

  -- The end of `update`: the two pointers change places.
  unfoldable pub swap_buffers : Driver Net → Driver Net
  swap_buffers d = record d { this_buffer = d.prev_buffer; prev_buffer = d.this_buffer }

  -- The driver once the call of the library has come back: with data, or without.
  abbrev pub with_reply : Driver Net → Net × Option (List ℕ) → Driver Net × Bool
  with_reply d (net, none) = (record d { net = net }, false)
  with_reply d (net, some got) =
      (record d { net = net; master_buffer = splice d.master_buffer 0 got }, true)

module _ {Net : Type 0} (lib : Library Net) where
  -- `em->txandrx_PD(Master_Buffer_Size_, Master_Buffer_)`: the data that comes back replaces the
  -- data that was sent.
  unfoldable pub exchange : Driver Net → Option (Driver Net × Bool)
  exchange d = do
    sent ← read_bytes (d.master_buffer) 0 (d.master_buffer_size)
    some (with_reply d (lib.txandrx_pd (d.net) sent))

  -- The loop of `txandrx_PD`, with `tries` rounds left.
  unfoldable pub attempts : ℕ → Driver Net → Option (Driver Net × Bool)
  attempts zero d = some (d, false)
  attempts (suc tries) d = do r ← exchange d; if r.1 then some r else attempts tries (r.0)

  -- After the last failure the loop gives a waiting out-of-band frame its turn.
  unfoldable pub give_turn : Driver Net × Bool → Option (Driver Net × Bool)
  give_turn (d, true) = some (d, true)
  give_turn (d, false) = do
    r ← tx lib rt_thread (d.net) (d.oob_com)
    some (record d { net = r.0; oob_com = r.1 }, false)

  -- `txandrx_PD(buffer_size, buffer, tries)`, which does not read its first two parameters.
  unfoldable pub txandrx_pd : ℕ → Option ℕ → ℕ → Driver Net → Option (Driver Net × Bool)
  txandrx_pd buffer_size buffer tries d = do r ← attempts tries d; give_turn r

  -- `update`, under `mutex_buffer_access` from its first step to its last
  unfoldable pub update : ℕ → Driver Net → Option (Driver Net)
  update demand d = do
    packed ← pack_command demand d
    r ← txandrx_pd (packed.master_buffer_size) (packed.this_buffer) max_pd_retries packed
    some (swap_buffers (r.0))

  -- `update` while `main` may write what `packCommand` reads
  unfoldable pub update_racing : (ℕ → ℕ) → (ℕ → ℕ) → Driver Net → Option (Driver Net)
  update_racing demands targets d = do
    packed ← pack_racing demands targets d
    r ← txandrx_pd (packed.master_buffer_size) (packed.this_buffer) max_pd_retries packed
    some (swap_buffers (r.0))
