-- ===== src/Driver/Startup/Buffers.antt =====
-- `setMasterBuffer` and the whole of the start: the buffers are ready for `update`.
use pr2_ether_cat_no_ros.Base.{
  ℕ, ◌*◌, ◌%◌, ◌^◌, ◌≤◌, ◌<◌, ◌≡◌, ◌≢◌, refl, sym, ap, ◌∙◌, inl, Option, some, List, [], ◌∷◌, map,
  arith, length, length-replicate, ◌>>=◌,
}
use pr2_ether_cat_no_ros.Base.Int.{pos}
use pr2_ether_cat_no_ros.Base.Memory.{
  slice, splice, length-slice, length-splice, slice-splice, slice-splice_below, splice-IsBytes,
  slice-IsBytes, replicate-IsBytes, read_bytes_within, write_bytes_within,
}
use pr2_ether_cat_no_ros.Eml.SlaveMemory.{EcState, preop, safeop, op}
use pr2_ether_cat_no_ros.Eml.Library.{Library, IsDocumented}
use pr2_ether_cat_no_ros.Com.Oob.Tx.{IsSound}
use pr2_ether_cat_no_ros.Driver.State.{Driver, slot_size}
use pr2_ether_cat_no_ros.Driver.ProcessData.Ready.{IsFramed, IsReady}
use pr2_ether_cat_no_ros.Driver.ProcessData.Replies.{wire}
use pr2_ether_cat_no_ros.Driver.ProcessData.Cycle.{txandrx_pd_total}
use pr2_ether_cat_no_ros.Driver.Startup.{
  change_state, change_all, allocate_buffer, point_buffers, set_buffer_for, set_master_buffer,
}

module _ {Net : Type 0} where
  allocate_buffer-IsFramed :
      (d : Driver Net)
      → IsSound d.oob_com
      → slot_size * d.num_slaves * 2 < 2 ^ 32
      → IsFramed (allocate_buffer d)
        × ((allocate_buffer d).master_buffer_size ≡ slot_size * d.num_slaves)
  unfolding allocate_buffer
  allocate_buffer-IsFramed d sound h = (
    record {
      sized = length-replicate (2 * (slot_size * d.num_slaves % 2 ^ 32) % 2 ^ 32) 0 ∙ omega arith;
      bytes = replicate-IsBytes (2 * (slot_size * d.num_slaves % 2 ^ 32) % 2 ^ 32) 0 (omega arith);
      oob_sound = sound;
    },
    omega arith,
  )

  point_buffers_total :
      (d : Driver Net)
      → IsFramed d
      → d.master_buffer_size ≡ slot_size * d.num_slaves
      → length d.slave_handles ≤ d.num_slaves
      → (d' : Driver Net) × (point_buffers d ≡ some d')
        × IsReady d'
        × (d'.this_buffer ≡ some 0)
        × (d'.num_slaves ≡ d.num_slaves)
        × (slice d'.master_buffer d'.master_buffer_size d'.master_buffer_size ≡ wire d')
        × (wire d' ≡ wire d)
        × (d'.slave_handles ≡ d.slave_handles)
  unfolding point_buffers
  point_buffers_total d v size few = (
    record d { master_buffer = m; this_buffer = some 0; prev_buffer = some d.master_buffer_size },
    rw (
      read_bytes_within d.master_buffer 0 n (omega (arith, v.sized)),
      ◌>>=◌,
      write_bytes_within d.master_buffer n first (omega (arith, v.sized, long)),
    ),
    record {
      framed = record {
        sized = length-splice d.master_buffer n first ∙ v.sized;
        bytes =
            splice-IsBytes d.master_buffer n first v.bytes
              (slice-IsBytes d.master_buffer 0 n v.bytes);
        oob_sound = v.oob_sound;
      };
      frame_size = size;
      few = few;
      halves = inl (refl, refl);
    },
    refl,
    refl,
    copied ∙ sym kept,
    kept,
    refl,
  )
    where
      n : ℕ
      n = d.master_buffer_size

      first : List ℕ
      first = slice d.master_buffer 0 n

      m : List ℕ
      m = splice d.master_buffer n first

      long : length first ≡ n
      long = length-slice d.master_buffer 0 n (omega (arith, v.sized))

      copied : slice m n n ≡ first
      copied =
          ap (slice m n) (sym long)
          ∙ slice-splice d.master_buffer n first (omega (arith, v.sized, long))

      kept : slice m 0 n ≡ first
      kept = slice-splice_below d.master_buffer n first 0 n (omega arith)

module _ {Net : Type 0} (lib : Library Net) where
  change_all_total :
      (next : EcState) (ps : List ℕ) (d : Driver Net)
      → (net' : Net) × (change_all lib next (map some ps) d ≡ some (record d { net = net' }))
  unfolding change_all change_state
  change_all_total next [] d = (d.net, refl)
  change_all_total next (p ∷ ps) d =
      change_all_total next ps (record d { net = (lib.to_state d.net p next).0 })

  module _ (doc : IsDocumented lib) where
    set_buffer_for-IsReady :
        (h : Option ℕ) (hs : List (Option ℕ)) (d : Driver Net) (ws : List ℕ)
        → d.wg05_slave_handles ≡ map some ws
        → length d.slave_handles ≤ d.num_slaves
        → slot_size * d.num_slaves * 2 < 2 ^ 32
        → IsSound d.oob_com
        → (d' : Driver Net) × (set_buffer_for lib (h ∷ hs) d ≡ some (d', pos 0))
          × IsReady d'
          × (d'.this_buffer ≡ some 0)
          × (d'.num_slaves ≡ d.num_slaves)
          × (slice d'.master_buffer d'.master_buffer_size d'.master_buffer_size ≡ wire d')
          × (d'.slave_handles ≡ d.slave_handles)
    unfolding set_buffer_for allocate_buffer
    set_buffer_for-IsReady h hs d ws e few small sound =
        let (n1, e1) = change_all_total preop ws d in
        let d1 : Driver Net = record d { net = n1 } in
        let (n2, e2) = change_all_total safeop ws d1 in
        let d2 : Driver Net = record d { net = n2 } in
        let (n3, e3) = change_all_total op ws d2 in
        let d3 : Driver Net = record d { net = n3 } in
        let (framed, size) = allocate_buffer-IsFramed d3 sound small in
        let d4 : Driver Net = allocate_buffer d3 in
        let (r, sent, kept, plan, _, _) =
          txandrx_pd_total lib doc d4.master_buffer_size (some 0) 20 d4 framed in
        let (d5, done, ready, low, count, copy, _, handles) =
          point_buffers_total r.0 kept
            (plan.same_size ∙ size ∙ ap (λ (t : ℕ). slot_size * t) (sym plan.same_num_slaves))
            (rw (plan.same_slave_handles, plan.same_num_slaves) few) in
        (
          d5,
          (rw (ap (λ l. change_all lib preop l d) e ∙ e1, ◌>>=◌)
              (rw (ap (λ l. change_all lib safeop l d1) e ∙ e2, ◌>>=◌)
                (rw (ap (λ l. change_all lib op l d2) e ∙ e3, ◌>>=◌)
                  (rw (sent, ◌>>=◌, done) refl)))),
          ready,
          low,
          count ∙ plan.same_num_slaves,
          copy,
          handles ∙ plan.same_slave_handles,
        )

    -- With a library that behaves as documented, `setMasterBuffer` never faults if there is a
    -- slave handle, at most `num_slaves` of them, no null pointer among the WG05 handles, and two
    -- frames fit an `unsigned int`: it returns 0, the buffers are ready for `update`, with
    -- `this_buffer_` the lower half and the upper half a copy of it, and the handles are the same.
    pub set_master_buffer-IsReady :
        (d : Driver Net) (ws : List ℕ)
        → d.wg05_slave_handles ≡ map some ws
        → d.slave_handles ≢ []
        → length d.slave_handles ≤ d.num_slaves
        → slot_size * d.num_slaves * 2 < 2 ^ 32
        → IsSound d.oob_com
        → (d' : Driver Net) × (set_master_buffer lib d ≡ some (d', pos 0))
          × IsReady d'
          × (d'.this_buffer ≡ some 0)
          × (d'.num_slaves ≡ d.num_slaves)
          × (slice d'.master_buffer d'.master_buffer_size d'.master_buffer_size ≡ wire d')
          × (d'.slave_handles ≡ d.slave_handles)
    unfolding set_master_buffer
    set_master_buffer-IsReady d ws e some_handle few small sound = go d.slave_handles some_handle
      where
        go :
            (hs : List (Option ℕ))
            → hs ≢ []
            → (d' : Driver Net) × (set_buffer_for lib hs d ≡ some (d', pos 0))
              × IsReady d'
              × (d'.this_buffer ≡ some 0)
              × (d'.num_slaves ≡ d.num_slaves)
              × (slice d'.master_buffer d'.master_buffer_size d'.master_buffer_size ≡ wire d')
              × (d'.slave_handles ≡ d.slave_handles)
        go [] h = absurd (h refl)
        go (h ∷ hs) _ = set_buffer_for-IsReady h hs d ws e few small sound
