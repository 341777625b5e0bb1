-- ===== src/Driver/ProcessData/Cycle.antt =====
-- `txandrx_PD` as a whole: what it keeps, what it reports, and what the buffer then holds.
use pr2_ether_cat_no_ros.Base.{
  ℕ, ◌≤◌, ◌≡◌, refl, ◌∙◌, Bool, true, false, Option, none, some, List, ◌>>=◌, arith, length,
}
use pr2_ether_cat_no_ros.Base.Memory.{
  IsBytes, slice, splice, length-splice, length-slice, splice-IsBytes, slice-splice_above,
}
use pr2_ether_cat_no_ros.Eml.Library.{Library, IsDocumented}
use pr2_ether_cat_no_ros.Com.Oob.{Oob}
use pr2_ether_cat_no_ros.Com.Oob.Tx.{tx_total}
use pr2_ether_cat_no_ros.Driver.State.{Driver}
use pr2_ether_cat_no_ros.Driver.ProcessData.{rt_thread, give_turn, txandrx_pd, with_reply}
use pr2_ether_cat_no_ros.Driver.ProcessData.Ready.{IsFramed, SamePlan}
use pr2_ether_cat_no_ros.Driver.ProcessData.Replies.{
  wire, first_reply, attempts_lem, first_reply_length, first_reply-IsBytes,
}

module _ {Net : Type 0} where
  same_plan :
      (d : Driver Net) (net : Net) (o : Oob) (m : List ℕ)
      → SamePlan d (record d { net = net; oob_com = o; master_buffer = m })
  same_plan d net o m = record {
    same_num_slaves = refl;
    same_slave_handles = refl;
    same_size = refl;
    same_this = refl;
    same_prev = refl;
    same_target = refl;
  }

  SamePlan-trans : {d e f : Driver Net} → SamePlan d e → SamePlan e f → SamePlan d f
  SamePlan-trans p q = record {
    same_num_slaves = q.same_num_slaves ∙ p.same_num_slaves;
    same_slave_handles = q.same_slave_handles ∙ p.same_slave_handles;
    same_size = q.same_size ∙ p.same_size;
    same_this = q.same_this ∙ p.same_this;
    same_prev = q.same_prev ∙ p.same_prev;
    same_target = q.same_target ∙ p.same_target;
  }

module _ {Net : Type 0} (lib : Library Net) where
  module _ (doc : IsDocumented lib) where
    with_reply-IsFramed :
        (d : Driver Net) (reply : Net × Option (List ℕ))
        → IsFramed d
        → ((got : List ℕ) → reply.1 ≡ some got → length got ≡ length (wire d))
        → ((got : List ℕ) → reply.1 ≡ some got → IsBytes got)
        → IsFramed (with_reply d reply).0
    with_reply-IsFramed d (net, none) v long small = record {
      sized = v.sized;
      bytes = v.bytes;
      oob_sound = v.oob_sound;
    }
    with_reply-IsFramed d (net, some got) v long small = record {
      sized = length-splice d.master_buffer 0 got ∙ v.sized;
      bytes = splice-IsBytes d.master_buffer 0 got v.bytes (small got refl);
      oob_sound = v.oob_sound;
    }

    give_turn_total :
        (r : Driver Net × Bool)
        → IsFramed r.0
        → (s : Driver Net × Bool) × (give_turn lib r ≡ some s)
          × (s.1 ≡ r.1)
          × IsFramed s.0
          × SamePlan r.0 s.0
          × (s.0.master_buffer ≡ r.0.master_buffer)
    unfolding give_turn
    give_turn_total (d, true) v =
        ((d, true), refl, refl, v, same_plan d d.net d.oob_com d.master_buffer, refl)
    give_turn_total (d, false) v =
        let (t, e, sound) = tx_total lib rt_thread d.net d.oob_com v.oob_sound in
        (
          (record d { net = t.0; oob_com = t.1 }, false),
          rw (e, ◌>>=◌),
          refl,
          record { sized = v.sized; bytes = v.bytes; oob_sound = sound },
          same_plan d t.0 t.1 d.master_buffer,
          refl,
        )

    with_reply-SamePlan :
        (d : Driver Net) (reply : Net × Option (List ℕ)) → SamePlan d (with_reply d reply).0
    with_reply-SamePlan d (net, none) = same_plan d net d.oob_com d.master_buffer
    with_reply-SamePlan d (net, some got) = same_plan d net d.oob_com (splice d.master_buffer 0 got)

    -- With a library that behaves as documented, `txandrx_PD` never faults on a buffer of two
    -- frames of bytes. It keeps the buffer so and all else that the cycle needs, reports whether
    -- one of its tries had a reply, and the buffer then holds the first reply in its lower half,
    -- or what it held.
    pub txandrx_pd_total :
        (size : ℕ) (buffer : Option ℕ) (tries : ℕ) (d : Driver Net)
        → IsFramed d
        → (s : Driver Net × Bool) × (txandrx_pd lib size buffer tries d ≡ some s)
          × IsFramed s.0
          × SamePlan d s.0
          × (s.1 ≡ (with_reply d (first_reply lib tries d.net (wire d))).1)
          × (s.0.master_buffer
              ≡ (with_reply d (first_reply lib tries d.net (wire d))).0.master_buffer)
    unfolding txandrx_pd
    txandrx_pd_total size buffer tries d v =
        let fits : d.master_buffer_size ≤ length d.master_buffer = omega (arith, v.sized) in
        let reply : Net × Option (List ℕ) = first_reply lib tries d.net (wire d) in
        let ready : IsFramed (with_reply d reply).0 =
          with_reply-IsFramed d reply v (first_reply_length lib doc tries d.net (wire d))
            (first_reply-IsBytes lib doc tries d.net (wire d)) in
        let (s, e, flag, kept, plan, buffer_kept) = give_turn_total (with_reply d reply) ready in
        (
          s,
          rw (attempts_lem lib tries d fits, ◌>>=◌) e,
          kept,
          SamePlan-trans (with_reply-SamePlan d reply) plan,
          flag,
          buffer_kept,
        )

    -- What lies above the frame stays.
    pub with_reply_above :
        (tries : ℕ) (d : Driver Net) (a k : ℕ)
        → IsFramed d
        → d.master_buffer_size ≤ a
        → slice (with_reply d (first_reply lib tries d.net (wire d))).0.master_buffer a k
          ≡ slice d.master_buffer a k
    with_reply_above tries d a k v h =
        go (first_reply lib tries d.net (wire d)) (first_reply_length lib doc tries d.net (wire d))
      where
        go :
            (reply : Net × Option (List ℕ))
            → ((got : List ℕ) → reply.1 ≡ some got → length got ≡ length (wire d))
            → slice (with_reply d reply).0.master_buffer a k ≡ slice d.master_buffer a k
        go (net, none) long = refl
        go (net, some got) long = slice-splice_above d.master_buffer 0 got a k (
            omega (
              arith,
              v.sized,
              long got refl,
              length-slice d.master_buffer 0 d.master_buffer_size (omega (arith, v.sized)),
            ))
